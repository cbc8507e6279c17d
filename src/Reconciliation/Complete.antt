-- ===== src/Reconciliation/Complete.antt =====
-- What a complete report says of the tasks.
use ua_web_data_collector_sp.Base.{
  ℕ, ==_iff, subst, ◌≡◌, ◌↔◌, refl, Bool, true, false, ◌&&◌, not, &&_parts, Option, List, [], ◌∷◌,
  All, arith, Bool-cases, inl, inr,
}
use ua_web_data_collector_sp.Errors.{ok, IfOk, IfOk-bind}
use ua_web_data_collector_sp.Sql.{rows_where, count_where}
use ua_web_data_collector_sp.Queue.Rows.{Status, succeeded}
use ua_web_data_collector_sp.Projection.Rows.{ProjectionTask, Db}
use ua_web_data_collector_sp.Reconciliation.{
  is_open, is_quarantined, is_succeeded, Scope, given_watermark, is_in_scope, counted_tasks,
  counted_events, aggregates, ProjectionCompleteness, complete, projection_completeness,
}

is_unfinished : (ProjectionTask → Bool) → ProjectionTask → Bool
is_unfinished scope t = not (is_succeeded t.status) && scope t

unfinished : (ProjectionTask → Bool) → List ProjectionTask → List ProjectionTask
unfolding is_unfinished
unfinished scope tasks = rows_where (is_unfinished scope) tasks

-- What is neither open nor quarantined is finished.
none_left : (s : Status) → is_open s ≡ false → is_quarantined s ≡ false → s ≡ succeeded
none_left s o q = ground arith

module _ {A : Type 0} (q p : A → Bool) (r : A) (rows : List A) where
  -- Where none of the selected rows passes, the first one does not, nor do the others.
  count-selected_none :
      count_where q (rows_where p (r ∷ rows)) ≡ 0
      → (p r ≡ true → q r ≡ false) × (count_where q (rows_where p rows) ≡ 0)
  unfolding count_where rows_where
  count-selected_none h = elim (Bool-cases (p r)) [
    | inl e ↦ elim (Bool-cases (q r)) [
      | inl k ↦ absurd (ground arith)
      | inr k ↦ (λ _. k, ground arith)
    ]
    | inr e ↦ (λ k. absurd (cc), ground arith)
  ]

  selected_none-count :
      (p r ≡ true → q r ≡ false)
      → count_where q (rows_where p rows) ≡ 0
      → count_where q (rows_where p (r ∷ rows)) ≡ 0
  unfolding count_where rows_where
  selected_none-count h k = elim (Bool-cases (p r)) [
    | inl e ↦ ground (arith, h e, k)
    | inr e ↦ ground (arith, k)
  ]

-- What is finished is not selected.
not_selected :
    (s : Status) (b : Bool)
    → (b ≡ true → s ≡ succeeded)
    → (not (is_succeeded s) && b) ≡ true
    → (is_open s ≡ false) × (is_quarantined s ≡ false)
not_selected s false h e = absurd (ground arith)
not_selected s true h e = absurd (done s (h refl) (&&_parts _ _ e).0)
  where
    done : (s : Status) → s ≡ succeeded → not (is_succeeded s) ≡ true → ⊥
    done s k n = ground arith

finished_now :
    (s : Status) (b : Bool)
    → ((not (is_succeeded s) && b) ≡ true → is_open s ≡ false)
    → ((not (is_succeeded s) && b) ≡ true → is_quarantined s ≡ false)
    → b ≡ true
    → s ≡ succeeded
finished_now s b o q e = elim (Bool-cases (is_succeeded s)) [
  | inl k ↦ only_succeeded s k
  | inr k ↦ none_left s (o (ground arith)) (q (ground arith))
]
  where
    only_succeeded : (s : Status) → is_succeeded s ≡ true → s ≡ succeeded
    only_succeeded s k = ground arith

module _ (scope : ProjectionTask → Bool) where
  counted-finished :
      (tasks : List ProjectionTask)
      → count_where (λ t. is_open t.status) (unfinished scope tasks) ≡ 0
      → count_where (λ t. is_quarantined t.status) (unfinished scope tasks) ≡ 0
      → All (λ t. scope t ≡ true → t.status ≡ succeeded) tasks
  unfolding unfinished rows_where count_where is_unfinished
  counted-finished [] o q = tt
  counted-finished (t ∷ tasks) o q =
      let (open_now, open_rest) =
        count-selected_none (λ t. is_open t.status) (is_unfinished scope) t tasks o in
      let (stuck_now, stuck_rest) =
        count-selected_none (λ t. is_quarantined t.status) (is_unfinished scope) t tasks q in
      (
        finished_now t.status (scope t) open_now stuck_now,
        counted-finished tasks open_rest stuck_rest,
      )

  finished-counted :
      (tasks : List ProjectionTask)
      → All (λ t. scope t ≡ true → t.status ≡ succeeded) tasks
      → (count_where (λ t. is_open t.status) (unfinished scope tasks) ≡ 0)
        × (count_where (λ t. is_quarantined t.status) (unfinished scope tasks) ≡ 0)
  unfolding unfinished rows_where count_where is_unfinished
  finished-counted [] h = (refl, refl)
  finished-counted (t ∷ tasks) h =
      let (open_rest, stuck_rest) = finished-counted tasks h.1 in
      (
        selected_none-count (λ t. is_open t.status) (is_unfinished scope) t tasks
            (λ e. (not_selected t.status (scope t) h.0 e).0) open_rest,
        selected_none-count (λ t. is_quarantined t.status) (is_unfinished scope) t tasks
            (λ e. (not_selected t.status (scope t) h.0 e).1) stuck_rest,
      )

-- Every task in the scope of a report has succeeded.
pub AllSucceeded : Db → Scope → (watermark : Option ℕ) → Type 0
AllSucceeded db s watermark =
    All (λ t. is_in_scope db s watermark t.entity_uuid t.created_at ≡ true → t.status ≡ succeeded)
      db.tasks

aggregates-complete :
    (db : Db) (s : Scope) (watermark : Option ℕ)
    → (complete (aggregates (counted_tasks db s watermark) (counted_events db s watermark)) ≡ true)
      ↔ AllSucceeded db s watermark
unfolding complete aggregates counted_tasks AllSucceeded unfinished is_unfinished
aggregates-complete db s watermark = (
  λ h.
      let (o, q) = &&_parts _ _ h in
      counted-finished _ db.tasks ((==_iff _ _).0 o) ((==_iff _ _).0 q),
  λ h.
      let (o, q) =
        finished-counted (λ t. is_in_scope db s watermark t.entity_uuid t.created_at) db.tasks h in
      rw (o, q) refl,
)

-- A report that is returned is complete exactly when every task of its scope, which is the tasks of
-- the source and the entity that are asked for and made before the watermark, has succeeded; the
-- watermark is the one given, in UTC.
pub projection_completeness-complete :
    (db : Db) (s : Scope) (report : ProjectionCompleteness)
    → projection_completeness db s ≡ ok report
    → (watermark : Option ℕ) × (given_watermark s.created_before ≡ ok watermark)
      × ((complete report ≡ true) ↔ AllSucceeded db s watermark)
unfolding projection_completeness
projection_completeness-complete db s report ran = subst (IfOk Spec) ran (
    IfOk-bind Spec (given_watermark s.created_before) _
      λ watermark given. (watermark, given, aggregates-complete db s watermark))
  where
    Spec : ProjectionCompleteness → Type 0
    Spec r =
        (watermark : Option ℕ) × (given_watermark s.created_before ≡ ok watermark)
        × ((complete r ≡ true) ↔ AllSucceeded db s watermark)

-- ===== src/Outbox/Attempts/Counts.antt =====
-- What each call does to the deliveries that are counted for one event.
use mathlib.Core.Option
use ua_web_data_collector_sp.Base.{
  ℕ, ◌+◌, ◌≤◌, ◌==◌, ==_iff, ◌≡◌, ◌≢◌, ◌⊎◌, refl, sym, subst, ◌∙◌, ap, String, Bool, true, false,
  not, ◌&&◌, Option, none, some, List, [], ◌∷◌, arith, leb, if◌then◌else◌, Bool-cases, inl, inr, ℤ,
  pos, negsuc, or_default, is_some, is_none,
}
use ua_web_data_collector_sp.Errors.{
  after, after-bind, require, or_raise, or_raise-eq-ok, not_found, value_error, invalid_transition,
}
use ua_web_data_collector_sp.Clock.{When, resolve_now}
use ua_web_data_collector_sp.Audit.{require_audit_context}
use ua_web_data_collector_sp.Sql.{rows_where, update_where, find, among, Unique}
use ua_web_data_collector_sp.Sql.Laws.{find-update_where, update_where-Unique, find-key}
use ua_web_data_collector_sp.Queue.Rows.{Message}
use ua_web_data_collector_sp.Queue.Backoff.{BackoffPolicy, Rng, default_policy}
use ua_web_data_collector_sp.Outbox.Rows.{OutboxEvent, Db, event_key, get_row, is_waiting}
use ua_web_data_collector_sp.Outbox.Publish.{
  handed_out, hand_out, is_empty, fetch_unpublished, due, publishable, published, mark_published,
  save_row, failed, mark_failed,
}
use ua_web_data_collector_sp.Outbox.Operate.{
  unparked, unpark, Projection, purge_batch, purge_older, purge_published,
}
use ua_web_data_collector_sp.Outbox.Deliver.{handed_out-id}
use ua_web_data_collector_sp.Outbox.Attempts.{
  Call, fetches, publishes, fails, unparks, purges, step, handed_out-le, failed-attempts,
}

-- An operator's unparking of the event, which counts its deliveries anew.
abbrev pub unparks_it : ℕ → Call → Bool
unparks_it i (unparks j actor reason request w audit_id) = j == i
unparks_it i _ = false

-- The deliveries that are counted; as many as there may be once the row is gone.
unfoldable pub used : ℕ → Option OutboxEvent → ℕ
used m none = m
used m (some e) = e.delivery_attempts

-- Under distinct keys, what a deletion leaves of a row is the row or nothing.
find-rows_where :
    (i : ℕ) (q : OutboxEvent → Bool) (rows : List OutboxEvent)
    → Unique event_key rows
    → (find event_key i (rows_where q rows) ≡ find event_key i rows)
      ⊎ (find event_key i (rows_where q rows) ≡ none)
unfolding find rows_where
find-rows_where i q [] u = inl refl
find-rows_where i q (r ∷ rows) u = elim (Bool-cases (event_key r == i)) [
  | inl k ↦ elim (Bool-cases (q r)) [
    | inl e ↦ inl (rw (e, k) refl)
    | inr e ↦
        let gone : find event_key i rows ≡ none =
          subst (λ n. find event_key n rows ≡ none) ((==_iff _ _).0 k) u.0 in
        inr (rw e (elim (find-rows_where i q rows u.1) [ inl s ↦ s ∙ gone | inr s ↦ s ]))
  ]
  | inr k ↦ elim (Bool-cases (q r)) [
    | inl e ↦ rw (e, k) (find-rows_where i q rows u.1)
    | inr e ↦ rw (e, k) (find-rows_where i q rows u.1)
  ]
]

rows_where-Unique :
    (q : OutboxEvent → Bool) (rows : List OutboxEvent)
    → Unique event_key rows
    → Unique event_key (rows_where q rows)
unfolding rows_where
rows_where-Unique q [] u = tt
rows_where-Unique q (r ∷ rows) u = elim (Bool-cases (q r)) [
  | inl e ↦ rw e (
    elim (find-rows_where (event_key r) q rows u.1) [ inl s ↦ s ∙ u.0 | inr s ↦ s ],
    rows_where-Unique q rows u.1,
  )
  | inr e ↦ rw e (rows_where-Unique q rows u.1)
]

module _ (i m : ℕ) where
  -- What a call does to the count of the event.
  pub record Counts (db db' : Db) : Type 0 where
    pub unique : Unique event_key db'.events
    pub counted : used m (get_row db i) ≤ used m (get_row db' i)
    pub within : used m (get_row db' i) ≤ m

  Counts-refl : (db : Db) → Unique event_key db.events → used m (get_row db i) ≤ m → Counts db db
  Counts-refl db u k = record { unique = u; counted = omega arith; within = k }

  update-Counts :
      (db : Db) (p : OutboxEvent → Bool) (f : OutboxEvent → OutboxEvent)
      → ((x : OutboxEvent) → p x ≡ true → event_key (f x) ≡ event_key x)
      → ((x : OutboxEvent)
          → get_row db i ≡ some x
          → p x ≡ true
          → x.delivery_attempts ≤ m
          → (x.delivery_attempts ≤ (f x).delivery_attempts) × ((f x).delivery_attempts ≤ m))
      → Unique event_key db.events
      → used m (get_row db i) ≤ m
      → Counts db (record db { events = update_where p f db.events })
  unfolding get_row used
  update-Counts db p f same grows u k =
      let (more, few) = go (find event_key i db.events) refl in
      let at = find-update_where event_key i p f db.events same in
      record {
        unique = update_where-Unique event_key p f db.events same u;
        counted = rw at more;
        within = rw at few;
      }
    where
      go :
          (o : Option OutboxEvent)
          → find event_key i db.events ≡ o
          → (used m o ≤ used m (Option.map (λ r. if p r then f r else r) o))
            × (used m (Option.map (λ r. if p r then f r else r) o) ≤ m)
      go none e = (omega arith, omega arith)
      go (some x) e =
          let few : x.delivery_attempts ≤ m = subst (λ o. used m o ≤ m) e k in
          elim (Bool-cases (p x)) [
            | inl y ↦ rw y (grows x e y few)
            | inr y ↦ rw y (omega arith, few)
          ]

  -- A flush of one loaded row.
  save-Counts :
      (db : Db) (j : ℕ) (e e' : OutboxEvent)
      → get_row db j ≡ some e
      → e'.outbox_id ≡ e.outbox_id
      → (j ≡ i → e.delivery_attempts ≡ e'.delivery_attempts)
      → Unique event_key db.events
      → used m (get_row db i) ≤ m
      → Counts db (save_row e' db)
  unfolding save_row get_row used
  save-Counts db j e e' f same_id keeps u k =
      update-Counts db (λ x. x.outbox_id == e'.outbox_id) (λ _. e') (λ x h. sym ((==_iff _ _).0 h))
        (λ x g h few.
          let at : j ≡ i =
            sym (find-key event_key j db.events e f)
            ∙ sym same_id
            ∙ sym ((==_iff _ _).0 h)
            ∙ find-key event_key i db.events x g in
          let same : some x ≡ some e =
            sym g ∙ subst (λ n. find event_key n db.events ≡ some e) at f in
          let count : x.delivery_attempts ≡ e'.delivery_attempts = ap (used m) same ∙ keeps at in
          (omega (arith, count), omega (arith, count, few)))
        u k

  fetch-Counts :
      (db : Db) (topics : List String) (limit v : ℕ) (w : When) (locked : ℕ → Bool)
      → Unique event_key db.events
      → used m (get_row db i) ≤ m
      → Counts db (after db (fetch_unpublished db topics limit v m w locked))
  unfolding fetch_unpublished hand_out
  fetch-Counts db topics limit v w locked u k =
      after-bind (Counts db) db (require (leb 1 limit && (leb 1 v && leb 1 m)) value_error) _
        (Counts-refl db u k)
        λ _ _.
          after-bind (Counts db) db (require (if is_empty topics then false else true) value_error)
            _ (Counts-refl db u k)
            λ _ _. after-bind (Counts db) db (resolve_now w) _ (Counts-refl db u k) λ now _.
              update-Counts db (among event_key (due db topics limit now locked))
                (handed_out v m now) (λ x _. handed_out-id v m now x)
                (λ x _ _ few. (handed_out-grows v now x, handed_out-le v m now x few)) u k
    where
      handed_out-grows :
          (v now : ℕ) (x : OutboxEvent)
          → x.delivery_attempts ≤ (handed_out v m now x).delivery_attempts
      handed_out-grows v now x = unfold handed_out in ground arith

  publish-Counts :
      (db : Db) (ids : List ℕ) (w : When)
      → Unique event_key db.events
      → used m (get_row db i) ≤ m
      → Counts db (after db (mark_published db ids w))
  unfolding mark_published published
  publish-Counts db [] w u k = Counts-refl db u k
  publish-Counts db (j ∷ ids) w u k =
      after-bind (Counts db) db (resolve_now w) _ (Counts-refl db u k) λ now _.
        update-Counts db (publishable (j ∷ ids)) (published now) (λ x _. refl)
          (λ x _ _ few. (omega arith, few)) u k

  fail-Counts :
      (db : Db) (j : ℕ) (code : String) (message : Option Message) (policy : Option BackoffPolicy)
      (rng : Rng) (max_attempts : ℕ) (w : When)
      → Unique event_key db.events
      → used m (get_row db i) ≤ m
      → Counts db (after db (mark_failed db j code message policy rng max_attempts w))
  unfolding mark_failed
  fail-Counts db j code message policy rng max_attempts w u k =
      after-bind (Counts db) db (require (leb 1 max_attempts) value_error) _ (Counts-refl db u k)
        λ _ _. after-bind (Counts db) db (resolve_now w) _ (Counts-refl db u k) λ now _.
          after-bind (Counts db) db (or_raise (get_row db j) not_found) _ (Counts-refl db u k)
            λ e f. elim (Bool-cases (is_waiting e)) [
              | inl h ↦ rw h (
                  save-Counts db j e _ (or_raise-eq-ok (get_row db j) not_found f)
                    (failed-id code message (or_default policy default_policy) rng max_attempts now
                      e)
                    (λ _. sym (
                      failed-attempts code message (or_default policy default_policy) rng
                        max_attempts now e))
                    u k)
              | inr h ↦ rw h (Counts-refl db u k)
            ]
    where
      failed-id :
          (code : String) (message : Option Message) (policy : BackoffPolicy) (rng : Rng)
          (max_attempts now : ℕ) (e : OutboxEvent)
          → (failed code message policy rng max_attempts now e).outbox_id ≡ e.outbox_id
      failed-id code message policy rng max_attempts now e =
          elim (Bool-cases (leb max_attempts (e.attempts + 1))) [
            | inl h ↦ unfold failed in rw h refl
            | inr h ↦ unfold failed in rw h refl
          ]

  unpark-Counts :
      (db : Db) (j : ℕ) (actor reason : String) (request : Option String) (w : When) (audit_id : ℕ)
      → j ≢ i
      → Unique event_key db.events
      → used m (get_row db i) ≤ m
      → Counts db (after db (unpark db j actor reason request w audit_id))
  unfolding unpark get_row
  unpark-Counts db j actor reason request w audit_id other u k =
      after-bind (Counts db) db (require_audit_context (some actor) (some reason)) _
        (Counts-refl db u k)
        λ _ _. after-bind (Counts db) db (resolve_now w) _ (Counts-refl db u k) λ now _.
          after-bind (Counts db) db (or_raise (get_row db j) not_found) _ (Counts-refl db u k)
            λ e f.
              after-bind (Counts db) db
                (require (is_some e.parked_at && is_none e.published_at) invalid_transition) _
                (Counts-refl db u k)
                λ _ _.
                  let saved =
                    save-Counts db j e (unparked now e) (or_raise-eq-ok (get_row db j) not_found f)
                      (unfold unparked in refl) (λ at. absurd (other at)) u k in
                  record { unique = saved.unique; counted = saved.counted; within = saved.within }

  purge-Counts :
      (db : Db) (p : Projection) (older_than : ℤ) (behind : Option ℕ) (limit : ℕ) (w : When)
      (locked : ℕ → Bool)
      → Unique event_key db.events
      → used m (get_row db i) ≤ m
      → Counts db (after db (purge_published db p older_than behind limit w locked))
  unfolding purge_published purge_older
  purge-Counts db p (negsuc n) behind limit w locked u k =
      after-bind (Counts db) db (require (leb 1 limit) value_error) _ (Counts-refl db u k)
        λ _ _. Counts-refl db u k
  purge-Counts db p (pos older) behind limit w locked u k =
      after-bind (Counts db) db (require (leb 1 limit) value_error) _ (Counts-refl db u k) λ _ _.
        after-bind (Counts db) db (resolve_now w) _ (Counts-refl db u k) λ now _.
          removed (λ e. not (among event_key (purge_batch db p older behind limit now locked) e))
    where
      removed : (q : OutboxEvent → Bool) → Counts db (record db { events = rows_where q db.events })
      removed q =
          unfold get_row in
          elim (find-rows_where i q db.events u) [
            | inl s ↦ record {
              unique = rows_where-Unique q db.events u;
              counted = rw s (omega arith);
              within = rw s k;
            }
            | inr s ↦ record {
              unique = rows_where-Unique q db.events u;
              counted = rw s (unfold used in k);
              within = rw s (unfold used in omega arith);
            }
          ]

  pub step-Counts :
      (db : Db) (c : Call)
      → unparks_it i c ≡ false
      → Unique event_key db.events
      → used m (get_row db i) ≤ m
      → Counts db (step m db c)
  unfolding step
  step-Counts db (fetches topics limit v w locked) not_it u k =
      fetch-Counts db topics limit v w locked u k
  step-Counts db (publishes ids w) not_it u k = publish-Counts db ids w u k
  step-Counts db (fails j code message policy rng max_attempts w) not_it u k =
      fail-Counts db j code message policy rng max_attempts w u k
  step-Counts db (unparks j actor reason request w audit_id) not_it u k =
      unpark-Counts db j actor reason request w audit_id (λ e. absurd (ground (arith, not_it, e))) u
        k
  step-Counts db (purges p older_than behind limit w locked) not_it u k =
      purge-Counts db p older_than behind limit w locked u k

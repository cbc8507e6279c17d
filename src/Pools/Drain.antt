-- ===== src/Pools/Drain.antt =====
-- The calls on worker instances in any order, and what a drain outlives.
use ua_web_data_collector_sp.Base.{
  ℕ, ◌==◌, ==_iff, ◌≡◌, refl, sym, ◌∙◌, subst, Bool, true, false, ◌&&◌, ◌||◌, not, some, List, [],
  ◌∷◌, ◌++◌, arith, if◌then◌else◌, is_none, is_some, All, Bool-cases, inl, inr,
}
use ua_web_data_collector_sp.Errors.{
  ok, after, after-bind, require, or_raise, or_raise-eq-ok, not_found, invalid_transition,
  integrity_error,
}
use ua_web_data_collector_sp.Clock.{When, resolve_now}
use ua_web_data_collector_sp.Sql.{update_where, find}
use ua_web_data_collector_sp.Sql.Laws.{find-append_found, find-key, find-update_where}
use ua_web_data_collector_sp.Pools.Rows.{
  InstanceStatus, starting, ready, draining, stopped, stale, instance_is, instance_transitions,
  WorkerInstance, Db, instance_key, get_pool, lock_instance, save_instance,
}
use ua_web_data_collector_sp.Pools.Instances.{
  Boot, booted, register_instance, Beat, beaten, revived, heartbeat_instance, entered,
  set_instance_status, is_silent, silenced, mark_stale_instances,
}

pub data Call : Type 0 where
  register : Boot → When → Call
  heartbeat : ℕ → Beat → When → Call
  set_status : ℕ → InstanceStatus → When → Call
  sweep : ℕ → When → Call

unfoldable pub step : Call → Db → Db
unfolding register_instance heartbeat_instance set_instance_status mark_stale_instances
step (register b w) db = after db (register_instance db b w)
step (heartbeat i beat w) db = after db (heartbeat_instance db i beat w)
step (set_status i status w) db = after db (set_instance_status db i status w)
step (sweep ttl w) db = after db (mark_stale_instances db ttl w)

unfoldable pub run : List Call → Db → Db
unfolding step
run [] db = db
run (c ∷ cs) db = run cs (step c db)

-- The call that lifts the drain of an instance.
abbrev pub lifts : ℕ → Call → Bool
lifts i (set_status j ready w) = j == i
lifts i _ = false

-- The instance is on its way out: stopped, or not ready with its drain on record. A stopped one has
-- its drain on record too where `drained` says so.
abbrev pub is_leaving : (drained : Bool) → WorkerInstance → Bool
is_leaving drained i = elim i.status [
  | stopped ↦ not drained || is_some i.drain_requested_at
  | draining ↦ is_some i.drain_requested_at
  | stale ↦ is_some i.drain_requested_at
  | _ ↦ false
]

module _ (drained : Bool) where
  beaten-Leaving :
      (beat : Beat) (now : ℕ) (x : WorkerInstance)
      → instance_is x.status stopped ≡ false
      → is_leaving drained x ≡ true
      → is_leaving drained (beaten beat now x) ≡ true
  unfolding beaten revived
  beaten-Leaving beat now x h l = ground arith

  entered-Leaving :
      (s : InstanceStatus) (now : ℕ) (x : WorkerInstance)
      → instance_transitions x.status s ≡ true
      → instance_is s ready ≡ false
      → is_leaving drained x ≡ true
      → is_leaving drained (entered s now x) ≡ true
  unfolding entered
  entered-Leaving starting now x t r l = ground arith
  entered-Leaving ready now x t r l = ground arith
  entered-Leaving draining now x t r l = ground arith
  entered-Leaving stopped now x t r l = ground arith
  entered-Leaving stale now x t r l = ground arith

  silenced-Leaving :
      (ttl now : ℕ) (x : WorkerInstance)
      → is_silent ttl now x ≡ true
      → is_leaving drained x ≡ true
      → is_leaving drained (silenced now x) ≡ true
  unfolding silenced is_silent
  silenced-Leaving ttl now x s l = ground arith

  entered-id :
      (s : InstanceStatus) (now : ℕ) (x : WorkerInstance)
      → instance_key (entered s now x) ≡ instance_key x
  unfolding entered
  entered-id starting now x = refl
  entered-id ready now x = refl
  entered-id draining now x = refl
  entered-id stopped now x = refl
  entered-id stale now x = refl

  not_ready :
      (i j : ℕ) (s : InstanceStatus) (w : When)
      → lifts i (set_status j s w) ≡ false
      → j ≡ i
      → instance_is s ready ≡ false
  not_ready i j starting w h e = refl
  not_ready i j ready w h e = absurd (ground arith)
  not_ready i j draining w h e = refl
  not_ready i j stopped w h e = refl
  not_ready i j stale w h e = refl

  some-inj : {a b : WorkerInstance} → some a ≡ some b → a ≡ b
  some-inj h = cc

  -- The table holds the instance, and it is leaving.
  pub record Leaves (i : ℕ) (db : Db) : Type 0 where
    pub row : WorkerInstance
    pub found : find instance_key i db.instances ≡ some row
    pub leaving : is_leaving drained row ≡ true

  update-Leaves :
      (i : ℕ) (db : Db) (p : WorkerInstance → Bool) (f : WorkerInstance → WorkerInstance)
      → ((x : WorkerInstance) → p x ≡ true → instance_key (f x) ≡ instance_key x)
      → ((x : WorkerInstance)
          → find instance_key i db.instances ≡ some x
          → p x ≡ true
          → is_leaving drained x ≡ true
          → is_leaving drained (f x) ≡ true)
      → Leaves i db
      → Leaves i (record db { instances = update_where p f db.instances })
  update-Leaves i db p f same keeps l = record {
    row = if p l.row then f l.row else l.row;
    found = rw (find-update_where instance_key i p f db.instances same, l.found) refl;
    leaving = elim (Bool-cases (p l.row)) [
      | inl e ↦ rw e (keeps l.row l.found e l.leaving)
      | inr e ↦ rw e l.leaving
    ];
  }

  save-Leaves :
      (i j : ℕ) (db : Db) (old new : WorkerInstance)
      → find instance_key j db.instances ≡ some old
      → instance_key new ≡ instance_key old
      → (j ≡ i → is_leaving drained old ≡ true → is_leaving drained new ≡ true)
      → Leaves i db
      → Leaves i (save_instance new db)
  unfolding save_instance
  save-Leaves i j db old new f k keeps l =
      update-Leaves i db (λ x. x.instance_id == new.instance_id) (λ _. new)
        (λ x e. sym ((==_iff _ _).0 e))
        (λ x g e h.
          let at : j ≡ i =
            sym (find-key instance_key j db.instances old f)
            ∙ sym k
            ∙ sym ((==_iff _ _).0 e)
            ∙ find-key instance_key i db.instances x g in
          keeps at (
            subst (λ y. is_leaving drained y ≡ true)
              (some-inj (sym g ∙ subst (λ n. find instance_key n db.instances ≡ some old) at f)) h))
        l

  register-Leaves :
      (i : ℕ) (db : Db) (b : Boot) (w : When)
      → Leaves i db
      → Leaves i (after db (register_instance db b w))
  unfolding register_instance
  register-Leaves i db b w l = after-bind (Leaves i) db (resolve_now w) _ l λ now _.
      after-bind {B = WorkerInstance} (Leaves i) db
        (require
          (is_none (find instance_key b.instance_id db.instances) && is_some (get_pool db b.role))
          integrity_error)
        (λ _. ok (booted b now, record db { instances = db.instances ++ booted b now ∷ [] })) l
        λ _ _. record {
          row = l.row;
          found = find-append_found instance_key i db.instances (booted b now) l.row l.found;
          leaving = l.leaving;
        }

  heartbeat-Leaves :
      (i j : ℕ) (db : Db) (beat : Beat) (w : When)
      → Leaves i db
      → Leaves i (after db (heartbeat_instance db j beat w))
  unfolding heartbeat_instance lock_instance
  heartbeat-Leaves i j db beat w l = after-bind (Leaves i) db (resolve_now w) _ l λ now _.
      after-bind (Leaves i) db (or_raise (find instance_key j db.instances) not_found) _ l λ old f.
        after-bind (Leaves i) db (require (not (instance_is old.status stopped)) invalid_transition)
          _ l
          λ _ r.
            save-Leaves i j db old (beaten beat now old) (or_raise-eq-ok _ not_found f)
              (unfold beaten in refl) (λ _. beaten-Leaving beat now old (ground arith)) l

  set_status-Leaves :
      (i j : ℕ) (db : Db) (s : InstanceStatus) (w : When)
      → lifts i (set_status j s w) ≡ false
      → Leaves i db
      → Leaves i (after db (set_instance_status db j s w))
  unfolding set_instance_status lock_instance
  set_status-Leaves i j db s w nl l = after-bind (Leaves i) db (resolve_now w) _ l λ now _.
      after-bind (Leaves i) db (or_raise (find instance_key j db.instances) not_found) _ l λ old f.
        elim (Bool-cases (instance_is old.status s)) [
          | inl e ↦ rw e l
          | inr e ↦ elim (Bool-cases (instance_transitions old.status s)) [
            | inl t ↦
                rw (e, t)
                  (save-Leaves i j db old (entered s now old) (or_raise-eq-ok _ not_found f)
                    (entered-id s now old)
                    (λ at. entered-Leaving s now old t (not_ready i j s w nl at)) l)
            | inr t ↦ rw (e, t) l
          ]
        ]

  sweep-Leaves :
      (i ttl : ℕ) (db : Db) (w : When)
      → Leaves i db
      → Leaves i (after db (mark_stale_instances db ttl w))
  unfolding mark_stale_instances
  sweep-Leaves i ttl db w l = after-bind (Leaves i) db (resolve_now w) _ l λ now _.
      update-Leaves i db (is_silent ttl now) (silenced now) (λ x _. unfold silenced in refl)
        (λ x _. silenced-Leaving ttl now x) l

  step-Leaves :
      (i : ℕ) (c : Call) (db : Db) → lifts i c ≡ false → Leaves i db → Leaves i (step c db)
  unfolding step
  step-Leaves i (register b w) db nl l = register-Leaves i db b w l
  step-Leaves i (heartbeat j beat w) db nl l = heartbeat-Leaves i j db beat w l
  step-Leaves i (set_status j s w) db nl l = set_status-Leaves i j db s w nl l
  step-Leaves i (sweep ttl w) db nl l = sweep-Leaves i ttl db w l

  -- An instance that drains, or was drained and went stale, or stopped, stays in one of these three
  -- states through every sequence of registrations, heartbeats, stale sweeps and status calls without a
  -- `mark_ready` of that instance: it never becomes ready or starting again. Its drain stays on record
  -- while it drains or is stale, and once it has stopped as well, where `drained` holds at the start:
  -- that is, where a stopped instance has its drain on record.
  pub run-Leaves :
      (i : ℕ) (cs : List Call) (db : Db)
      → All (λ c. lifts i c ≡ false) cs
      → Leaves i db
      → Leaves i (run cs db)
  unfolding run
  run-Leaves i [] db nl l = l
  run-Leaves i (c ∷ cs) db nl l = run-Leaves i cs (step c db) nl.1 (step-Leaves i c db nl.0 l)

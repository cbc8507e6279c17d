-- ===== src/Pools/Applied.antt =====
-- The capacity behind a scale command that is `applied`.
use ua_web_data_collector_sp.Base.{
  ℕ, ◌+◌, ◌*◌, ◌≤◌, ◌==◌, ==_iff, ==_refl, ◌≡◌, ◌∙◌, Bool-cases, ◌⊎◌, ◌↔◌, refl, sym, subst, String,
  Bool, true, Option, none, some, List, [], ◌∷◌, arith, leb→le, le→leb, min, length, &&_parts, All,
  inl, inr,
}
use ua_web_data_collector_sp.Errors.{
  ok, require, require-eq-ok, or_raise, or_raise-eq-ok, IfOk, IfOk-bind, not_found,
  invalid_transition,
}
use ua_web_data_collector_sp.Clock.{When, resolve_now}
use ua_web_data_collector_sp.Sql.{rows_where}
use ua_web_data_collector_sp.Sql.Laws.{find-update_where}
use ua_web_data_collector_sp.Pools.Rows.{
  WorkerRole, role_is, InstanceStatus, ready, instance_is, WorkerInstance, CommandStatus,
  awaiting_manual_apply, applying, applied, scale_command_transitions, ScaleCommand, Db,
  command_key, get_scale_command, save_command,
}
use ua_web_data_collector_sp.Pools.Instances.{
  is_present, sum_slots, least, min_revision, observed_capacity,
}
use ua_web_data_collector_sp.Pools.Scale.{
  is_reached, revision_reached, transitioned, transition_scale_command,
}

-- The instance serves the role: it is ready, and its last heartbeat is at most the ttl old.
abbrev pub IsServing : WorkerRole → (ttl now : ℕ) → WorkerInstance → Type 0
IsServing r ttl now i =
    (role_is i.role r ≡ true) × (i.status ≡ ready) × (now ≤ i.last_heartbeat_at + ttl)

abbrev pub slots_of : List WorkerInstance → ℕ
slots_of [] = 0
slots_of (i ∷ is) = i.slots_total + slots_of is

-- The serving instances are those that the command asks for: as many as its replicas, with its slots
-- in all, and none reports a revision of the pool older than the command's.
pub record IsServed (db : Db) (ttl now : ℕ) (c : ScaleCommand) : Type 0 where
  pub serves : WorkerInstance → Bool
  pub exactly : (i : WorkerInstance) → (serves i ≡ true) ↔ IsServing c.role ttl now i
  pub many : length (rows_where serves db.instances) ≡ c.requested_replicas
  pub slots :
      slots_of (rows_where serves db.instances) ≡ c.requested_replicas * c.requested_concurrency
  pub revisions :
      All
        (λ i. (m : ℕ) → i.pool_revision ≡ some m → c.applied_pool_revision ≤ m)
        (rows_where serves db.instances)

is_ready : (s : InstanceStatus) → instance_is s ready ≡ true → s ≡ ready
is_ready s h = ground arith

present-IsServing :
    (r : WorkerRole) (ttl now : ℕ) (i : WorkerInstance)
    → (is_present r ttl now i ≡ true) ↔ IsServing r ttl now i
unfolding is_present
present-IsServing r ttl now i = (
  λ h.
      let (role, rest) = &&_parts (role_is i.role r) _ h in
      let (status, beat) = &&_parts (instance_is i.status ready) _ rest in
      (role, is_ready i.status status, leb→le now (i.last_heartbeat_at + ttl) beat),
  λ h. rw (h.0, h.1, le→leb now (i.last_heartbeat_at + ttl) h.2) refl,
)

sum-slots_of : (is : List WorkerInstance) → sum_slots is ≡ slots_of is
unfolding sum_slots
sum-slots_of [] = refl
sum-slots_of (i ∷ is) = rw (sum-slots_of is) refl

-- What the least revision has reached, each one has.
each-reached :
    (n : ℕ) (is : List WorkerInstance)
    → ((m : ℕ) → min_revision is ≡ some m → n ≤ m)
    → All (λ i. (m : ℕ) → i.pool_revision ≡ some m → n ≤ m) is
unfolding min_revision least
each-reached n [] h = tt
each-reached n (i ∷ is) h = (
  λ m e. below m (min_revision is) (λ k f. h k (rw e f)),
  each-reached n is (λ m e. others m i.pool_revision (λ k f. h k (rw e f))),
)
  where
    below : (m : ℕ) (o : Option ℕ) → ((k : ℕ) → least (some m) o ≡ some k → n ≤ k) → n ≤ m
    below m none g = g m refl
    below m (some b) g = omega (arith, g (min m b) refl)

    others : (m : ℕ) (o : Option ℕ) → ((k : ℕ) → least o (some m) ≡ some k → n ≤ k) → n ≤ m
    others m none g = g m refl
    others m (some b) g = omega (arith, g (min b m) refl)

no_rows : (is : List WorkerInstance) → length is ≡ 0 → is ≡ []
no_rows [] h = refl
no_rows (i ∷ is) h = absurd (omega (arith, h))

reached-IsServed :
    (db : Db) (ttl now : ℕ) (c : ScaleCommand)
    → is_reached c (observed_capacity db c.role ttl now) ≡ true
    → IsServed db ttl now c
unfolding is_reached observed_capacity revision_reached
reached-IsServed db ttl now c h =
    let (many, rest) = &&_parts _ _ h in
    let (slots, revision) = &&_parts _ _ rest in
    let many' : length present ≡ c.requested_replicas = (==_iff _ _).0 many in
    record {
      serves = is_present c.role ttl now;
      exactly = present-IsServing c.role ttl now;
      many = many';
      slots = sym (sum-slots_of present) ∙ (==_iff _ _).0 slots;
      revisions = elim (Bool-cases (c.requested_replicas == 0)) [
        | inl z ↦
            subst (All (λ i. (m : ℕ) → i.pool_revision ≡ some m → c.applied_pool_revision ≤ m))
              (sym (no_rows present (many' ∙ (==_iff _ _).0 z))) tt
        | inr z ↦
            each-reached c.applied_pool_revision present
              (λ m e. at_least m e (ground (arith, revision, z)))
      ];
    }
  where
    present : List WorkerInstance
    present = rows_where (is_present c.role ttl now) db.instances

    at_least :
        (m : ℕ)
        → min_revision present ≡ some m
        → revision_reached (min_revision present) c.applied_pool_revision ≡ true
        → c.applied_pool_revision ≤ m
    at_least m e g =
        leb→le c.applied_pool_revision m
          (subst (λ o. revision_reached o c.applied_pool_revision ≡ true) e g)

allowed :
    (s : CommandStatus)
    → scale_command_transitions s applied ≡ true
    → (s ≡ awaiting_manual_apply) ⊎ (s ≡ applying)
allowed awaiting_manual_apply h = inl refl
allowed applying h = inr refl
allowed _ h = absurd (cc)

module _ (db : Db) (i : ℕ) (text : Option String) (ttl t : ℕ) (w : When)
    (r : resolve_now w ≡ ok t) where
  -- What a command is that is marked `applied`, before and after, and what serves its role.
  abbrev pub IsApplied : ScaleCommand × Db → Type 0
  IsApplied a =
      (c : ScaleCommand) × (get_scale_command db i ≡ some c)
      × ((c.status ≡ awaiting_manual_apply) ⊎ (c.status ≡ applying))
      × IsServed db ttl t c
      × (a.0 ≡ record c { status = applied; result = text; updated_at = t; applied_at = some t })
      × (get_scale_command a.1 i ≡ some a.0)

  stored :
      (c : ScaleCommand)
      → get_scale_command db i ≡ some c
      → get_scale_command (save_command (transitioned applied text t c) db) i
        ≡ some (transitioned applied text t c)
  unfolding get_scale_command save_command transitioned
  stored c f =
      find-update_where command_key i (λ x. x.command_id == c.command_id)
        (λ _. transitioned applied text t c) db.commands (λ x e. sym ((==_iff _ _).0 e))
      ∙ rw (f, ==_refl c.command_id) refl

  -- A transition to `applied` that succeeds started from a command that awaited its manual application
  -- or was being applied, at an instant at which its role was served as it asks: the instances of the
  -- role that are ready and have a heartbeat at most the ttl old are as many as the requested replicas,
  -- their slots add up to replicas times concurrency, and none of them reports a revision of the pool
  -- below the command's. The command is then `applied` at that instant, with the given result and
  -- nothing else changed, and stored so.
  pub transition-IsApplied :
      (a : ScaleCommand × Db)
      → transition_scale_command db i applied text ttl w ≡ ok a
      → IsApplied a
  unfolding transition_scale_command
  transition-IsApplied a h = subst (IfOk IsApplied) h (
      rw r (
        IfOk-bind IsApplied (or_raise (get_scale_command db i) not_found) _ λ c f.
          IfOk-bind IsApplied
            (require (scale_command_transitions c.status applied) invalid_transition) _
            λ _ e.
              IfOk-bind IsApplied
                (require (is_reached c (observed_capacity db c.role ttl t)) invalid_transition) _
                λ _ g.
                  let found = or_raise-eq-ok (get_scale_command db i) not_found f in
                  (
                    c,
                    found,
                    allowed c.status (require-eq-ok _ invalid_transition e),
                    reached-IsServed db ttl t c (require-eq-ok _ invalid_transition g),
                    unfold transitioned in refl,
                    stored c found,
                  )))

-- ===== src/Pools/Commands.antt =====
-- Scale commands: one active command of a role, and repeated requests.
use ua_web_data_collector_sp.Base.{
  ℕ, ◌≡◌, refl, subst, pos, ltb_ℤ, String, true, ◌&&◌, ◌||◌, not, if◌then◌else◌, none, some, List,
  [], ◌∷◌, ◌++◌, arith, str_eq, eq_refl, Bool-cases, Option-cases, inl, inr,
}
use ua_web_data_collector_sp.Errors.{ok, require, IfOk, IfOk-bind, value_error, invalid_value}
use ua_web_data_collector_sp.Clock.{When, resolve_now}
use ua_web_data_collector_sp.Sql.{rows_where, update_where, one_or_none}
use ua_web_data_collector_sp.Pools.Rows.{
  WorkerRole, role_is, WorkerPool, requested, superseded, is_final, ScaleCommand, Db, find_command,
  get_scale_command,
}
use ua_web_data_collector_sp.Pools.Desired.{within, is_current}
use ua_web_data_collector_sp.Pools.Scale.{
  ScaleRequest, is_active, superseded_by_newer, new_command, place_command, request_locked,
  request_scale,
}

-- Superseding keeps the keys, so a key that no command had is found at the appended one.
found_new :
    (r : WorkerRole) (now : ℕ) (key : String) (c : ScaleCommand) (cs : List ScaleCommand)
    → one_or_none (rows_where (λ x. str_eq x.idempotency_key key) cs) ≡ none
    → str_eq c.idempotency_key key ≡ true
    → one_or_none (
        rows_where
          (λ x. str_eq x.idempotency_key key)
          (update_where (is_active r) (superseded_by_newer now) cs ++ c ∷ []))
      ≡ some c
unfolding rows_where update_where superseded_by_newer one_or_none
found_new r now key c [] h k = rw k refl
found_new r now key c (x ∷ cs) h k = ground (arith, found_new r now key c cs)

-- Exactly the new command of the role is active, and every older command is there: superseded, with
-- the reason as its result, if it was an active one of the role, and otherwise as it was.
pub record Supersedes (db : Db) (r : WorkerRole) (now : ℕ) (c : ScaleCommand) (db' : Db)
    : Type 0 where
  pub only : rows_where (is_active r) db'.commands ≡ c ∷ []
  pub new_active : (role_is c.role r ≡ true) × (c.status ≡ requested)
  pub older :
      (i : ℕ) (x : ScaleCommand)
      → get_scale_command db i ≡ some x
      → (y : ScaleCommand) × (get_scale_command db' i ≡ some y)
        × (if role_is x.role r && not (is_final x.status)
            then y ≡ record x {
              status = superseded;
              result = some "superseded by newer command";
              updated_at = now;
            }
            else y ≡ x)

module _ (db : Db) (q : ScaleRequest) (w : When) (ci ai now : ℕ) (r : resolve_now w ≡ ok now) where
  abbrev Placed : ScaleCommand × Db → Type 0
  Placed a = Supersedes db q.role now a.0 a.1

placed-found :
    (db : Db) (q : ScaleRequest) (p : WorkerPool) (now ci ai : ℕ)
    → find_command db q.idempotency_key ≡ none
    → find_command (place_command db q p now ci ai).1 q.idempotency_key
      ≡ some (place_command db q p now ci ai).0
unfolding place_command find_command
placed-found db q p now ci ai new =
    found_new q.role now q.idempotency_key _ db.commands new
      (unfold new_command in eq_refl q.idempotency_key)

module _ (db : Db) (q : ScaleRequest) (w w' : When) (ci ai ci' ai' : ℕ) where
  Repeats : ScaleCommand × Db → Type 0
  Repeats a = request_scale a.1 q w' ci' ai' ≡ ok a

  repeats :
      (a : ScaleCommand × Db)
      → require (str_eq q.orchestrator "compose" || str_eq q.orchestrator "swarm") value_error
        ≡ ok tt
      → require (not (ltb_ℤ q.requested_replicas (pos 0))) invalid_value ≡ ok tt
      → require (not (ltb_ℤ q.requested_concurrency (pos 1))) invalid_value ≡ ok tt
      → find_command a.1 q.idempotency_key ≡ some a.0
      → Repeats a
  unfolding Repeats request_scale
  repeats a g1 g2 g3 f = rw (request_scale, g1, g2, g3, f) refl

  locked-Repeats :
      (now : ℕ)
      → require (str_eq q.orchestrator "compose" || str_eq q.orchestrator "swarm") value_error
        ≡ ok tt
      → require (not (ltb_ℤ q.requested_replicas (pos 0))) invalid_value ≡ ok tt
      → require (not (ltb_ℤ q.requested_concurrency (pos 1))) invalid_value ≡ ok tt
      → find_command db q.idempotency_key ≡ none
      → IfOk Repeats (request_locked db q now ci ai)
  unfolding request_locked
  locked-Repeats now g1 g2 g3 new =
      elim (Option-cases
        (one_or_none (rows_where (is_current q.role q.expected_revision) db.pools))) [
          | inl e ↦ rw (request_locked, e, new) tt
          | inr (p, e) ↦
              elim (Bool-cases
                (within (pos p.min_replicas) q.requested_replicas (pos p.max_replicas))) [
                  | inl b ↦
                      rw (request_locked, e, b)
                        (repeats (place_command db q p now ci ai) g1 g2 g3
                          (placed-found db q p now ci ai new))
                  | inr b ↦ rw (request_locked, e, b) tt
                ]
        ]

  -- A request that succeeded, sent again with the same arguments at any later time and with any new
  -- ids, answers with the same command and changes nothing: no second command, audit record or
  -- revision of the pool.
  pub request_scale-idempotent :
      (c : ScaleCommand) (db' : Db)
      → request_scale db q w ci ai ≡ ok (c, db')
      → request_scale db' q w' ci' ai' ≡ ok (c, db')
  unfolding request_scale Repeats
  request_scale-idempotent c db' h = subst (IfOk Repeats) h (
      IfOk-bind Repeats
        (require (str_eq q.orchestrator "compose" || str_eq q.orchestrator "swarm") value_error) _
        λ _ g1.
          IfOk-bind Repeats (require (not (ltb_ℤ q.requested_replicas (pos 0))) invalid_value) _
            λ _ g2.
              IfOk-bind Repeats
                (require (not (ltb_ℤ q.requested_concurrency (pos 1))) invalid_value) _
                λ _ g3. elim (Option-cases (find_command db q.idempotency_key)) [
                  | inl e ↦
                      rw e
                        (IfOk-bind Repeats (resolve_now w) _ λ now _. locked-Repeats now g1 g2 g3 e)
                  | inr (x, e) ↦ rw e (repeats (x, db) g1 g2 g3 e)
                ])

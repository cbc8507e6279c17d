-- ===== src/Pools/Scale.antt =====
-- `request_scale` and `transition_scale_command` of repositories/pools.py. The ids of the new rows
-- come from `new_entity_id` and the database, so they are arguments. Each call is one transaction.
use ua_web_data_collector_sp.Base.{
  ℕ, ◌+◌, ◌*◌, ◌==◌, ℤ, pos, ltb_ℤ, pos_part, String, Bool, false, ◌&&◌, ◌||◌, not, Option, none,
  some, [], ◌∷◌, ◌++◌, str_eq, leb, if◌then◌else◌,
}
use ua_web_data_collector_sp.Errors.{
  Result, ok, err, ◌>>=◌, ◌>>◌, require, or_raise, value_error, invalid_value, not_found,
  invalid_transition,
}
use ua_web_data_collector_sp.Clock.{When, resolve_now}
use ua_web_data_collector_sp.Audit.{AuditEntry, JsonObject, name, number, append_audit}
use ua_web_data_collector_sp.Sql.{rows_where, update_where, one_or_none}
use ua_web_data_collector_sp.Pools.Rows.{
  WorkerRole, role_value, role_is, WorkerPool, CommandStatus, requested, superseded, is_final,
  is_applied, scale_command_transitions, ScaleCommand, Db, find_command, get_scale_command,
  stale_or_missing_pool, save_command,
}
use ua_web_data_collector_sp.Pools.Instances.{ObservedCapacity, observed_capacity}
use ua_web_data_collector_sp.Pools.Desired.{within, is_current}

-- The arguments of `request_scale`.
pub record ScaleRequest : Type 0 where
  pub role : WorkerRole
  pub expected_revision : ℕ
  pub requested_replicas : ℤ
  pub requested_concurrency : ℤ
  pub actor : String
  pub reason : String
  pub idempotency_key : String
  pub orchestrator : String
  pub request_id : Option String

-- The desired state of the pool after the request.
unfoldable pub scaled : ScaleRequest → (now : ℕ) → WorkerPool → WorkerPool
scaled q now p = record p {
  desired_replicas = pos_part q.requested_replicas;
  desired_concurrency = pos_part q.requested_concurrency;
  revision = p.revision + 1;
  updated_by = some q.actor;
  update_reason = some q.reason;
  updated_at = now;
}

-- role = :role AND status NOT IN SCALE_COMMAND_TERMINAL
unfoldable pub is_active : WorkerRole → ScaleCommand → Bool
is_active r c = role_is c.role r && not (is_final c.status)

unfoldable pub superseded_by_newer : (now : ℕ) → ScaleCommand → ScaleCommand
superseded_by_newer now c = record c {
  status = superseded;
  result = some "superseded by newer command";
  updated_at = now;
}

capacity_state : WorkerPool → JsonObject
capacity_state p =
    ("desired_replicas", number p.desired_replicas)
    ∷ ("desired_concurrency", number p.desired_concurrency)
    ∷ ("revision", number p.revision)
    ∷ []

unfoldable pub audit_scale :
    ScaleRequest → (before after : WorkerPool) → (now audit_id : ℕ) → AuditEntry
unfolding capacity_state
audit_scale q before after now audit_id = record {
  audit_id = audit_id;
  created_at = now;
  actor = q.actor;
  action = "worker_pool.scale";
  resource_type = "worker_pool";
  resource_id = name (role_value q.role);
  before_state = some (capacity_state before);
  after_state = some (capacity_state after);
  request_id = q.request_id;
  idempotency_key = some q.idempotency_key;
}

unfoldable pub new_command :
    ScaleRequest → WorkerPool → AuditEntry → (now command_id : ℕ) → ScaleCommand
new_command q p audit now command_id = record {
  command_id = command_id;
  idempotency_key = q.idempotency_key;
  role = q.role;
  expected_pool_revision = q.expected_revision;
  applied_pool_revision = p.revision;
  requested_replicas = pos_part q.requested_replicas;
  requested_concurrency = pos_part q.requested_concurrency;
  status = requested;
  cli_command =
      if str_eq q.orchestrator "compose"
      then some (q.role, pos_part q.requested_replicas)
      else none;
  result = none;
  actor = q.actor;
  reason = q.reason;
  audit_id = audit.audit_id;
  audit_created_at = audit.created_at;
  created_at = now;
  updated_at = now;
  applied_at = none;
}

-- The writes of a request: the pool, the commands that it supersedes, the audit, the command.
unfoldable pub place_command :
    Db → ScaleRequest → WorkerPool → (now command_id audit_id : ℕ) → ScaleCommand × Db
unfolding scaled is_active superseded_by_newer audit_scale new_command append_audit is_current
place_command db q p now command_id audit_id =
    let after = scaled q now p in
    let logged = append_audit db.audit_log (audit_scale q p after now audit_id) in
    let command = new_command q after logged.0 now command_id in
    (
      command,
      record db {
        pools = update_where (is_current q.role q.expected_revision) (scaled q now) db.pools;
        commands =
            update_where (is_active q.role) (superseded_by_newer now) db.commands ++ command ∷ [];
        audit_log = logged.1;
      },
    )

-- The pool under its lock, or none at the expected revision: then the key is read once more.
unfoldable pub request_locked :
    Db → ScaleRequest → (now command_id audit_id : ℕ) → Result (ScaleCommand × Db)
unfolding place_command within is_current stale_or_missing_pool find_command
request_locked db q now command_id audit_id =
    elim (one_or_none (rows_where (is_current q.role q.expected_revision) db.pools)) [
      | none ↦ elim (find_command db q.idempotency_key) [
        | some concurrent ↦ ok (concurrent, db)
        | none ↦ err (stale_or_missing_pool db q.role)
      ]
      | some p ↦
          if within (pos p.min_replicas) q.requested_replicas (pos p.max_replicas)
          then ok (place_command db q p now command_id audit_id)
          else err invalid_value
    ]

unfoldable pub request_scale :
    Db → ScaleRequest → When → (command_id audit_id : ℕ) → Result (ScaleCommand × Db)
unfolding request_locked find_command
request_scale db q w command_id audit_id = do
  require (str_eq q.orchestrator "compose" || str_eq q.orchestrator "swarm") value_error
  require (not (ltb_ℤ q.requested_replicas (pos 0))) invalid_value
  require (not (ltb_ℤ q.requested_concurrency (pos 1))) invalid_value
  elim (find_command db q.idempotency_key) [
    | some existing ↦ ok (existing, db)
    | none ↦ resolve_now w >>= λ now. request_locked db q now command_id audit_id
  ]

unfoldable pub revision_reached : Option ℕ → ℕ → Bool
revision_reached none n = false
revision_reached (some m) n = leb n m

-- The observed capacity is the requested one, and every ready instance confirmed the revision.
unfoldable pub is_reached : ScaleCommand → ObservedCapacity → Bool
unfolding revision_reached
is_reached c o =
    o.ready_replicas == c.requested_replicas
    && (o.total_slots == c.requested_replicas * c.requested_concurrency
        && (revision_reached o.min_pool_revision c.applied_pool_revision
            || c.requested_replicas == 0))

unfoldable pub transitioned :
    CommandStatus → Option String → (now : ℕ) → ScaleCommand → ScaleCommand
transitioned status result now c =
    let c' = record c { status = status; result = result; updated_at = now } in
    if is_applied status then record c' { applied_at = some now } else c'

unfoldable pub transition_scale_command :
    Db
    → (command_id : ℕ) → CommandStatus
    → Option String
    → (heartbeat_ttl : ℕ) → When
    → Result (ScaleCommand × Db)
unfolding is_reached transitioned get_scale_command save_command observed_capacity
transition_scale_command db i status result ttl w = do
  current ← resolve_now w
  c ← or_raise (get_scale_command db i) not_found
  require (scale_command_transitions c.status status) invalid_transition
  require (not (is_applied status) || is_reached c (observed_capacity db c.role ttl current))
      invalid_transition
  let c' = transitioned status result current c
  ok (c', save_command c' db)

-- ===== src/Pools/Desired.antt =====
-- `PoolDesiredState.validate`, `upsert_pool` and `_pool_state` of
-- repositories/pools.py. A desired state comes in as integers of any sign, a row holds numbers.
use ua_web_data_collector_sp.Base.{
  ℕ, ◌+◌, ◌==◌, ℤ, pos, ltb_ℤ, pos_part, String, Bool, ◌&&◌, ◌||◌, not, Option, none, some, [], ◌∷◌,
  ◌++◌, str_eq, is_none,
}
use ua_web_data_collector_sp.Errors.{
  Result, ok, ◌>>=◌, ◌>>◌, require, or_raise, invalid_value, conflict,
}
use ua_web_data_collector_sp.Clock.{When, resolve_now}
use ua_web_data_collector_sp.Audit.{
  AuditEntry, JsonObject, name, number, text, require_audit_context, append_audit,
}
use ua_web_data_collector_sp.Sql.{rows_where, update_where, one_or_none}
use ua_web_data_collector_sp.Pools.Rows.{
  WorkerRole, role_value, role_is, WorkerPool, Db, get_pool, stale_or_missing_pool,
}

pub record PoolDesiredState : Type 0 where
  pub desired_replicas : ℤ
  pub desired_concurrency : ℤ
  pub max_replicas : ℤ
  pub min_replicas : ℤ
  pub mode : String
  pub resource_profile : String

-- `POOL_MODES`
unfoldable pub is_mode : String → Bool
is_mode mode = str_eq mode "manual" || str_eq mode "autoscale"

-- `low <= n <= high`
unfoldable pub within : (low n high : ℤ) → Bool
within low n high = not (ltb_ℤ n low) && not (ltb_ℤ high n)

unfoldable pub validate : PoolDesiredState → Result (Unit {0})
unfolding within is_mode
validate state = do
  require (not (ltb_ℤ state.min_replicas (pos 0))) invalid_value
  require (not (ltb_ℤ state.max_replicas state.min_replicas)) invalid_value
  require (within state.min_replicas state.desired_replicas state.max_replicas) invalid_value
  require (not (ltb_ℤ state.desired_concurrency (pos 1))) invalid_value
  require (is_mode state.mode) invalid_value

unfoldable pub new_pool :
    WorkerRole → PoolDesiredState → (actor reason : String) → (now : ℕ) → WorkerPool
new_pool r state actor reason now = record {
  role = r;
  desired_replicas = pos_part state.desired_replicas;
  desired_concurrency = pos_part state.desired_concurrency;
  min_replicas = pos_part state.min_replicas;
  max_replicas = pos_part state.max_replicas;
  mode = state.mode;
  resource_profile = state.resource_profile;
  revision = 1;
  updated_by = some actor;
  update_reason = some reason;
  created_at = now;
  updated_at = now;
}

unfoldable pub updated_pool :
    PoolDesiredState → (actor reason : String) → (now : ℕ) → WorkerPool → WorkerPool
updated_pool state actor reason now p = record p {
  desired_replicas = pos_part state.desired_replicas;
  desired_concurrency = pos_part state.desired_concurrency;
  min_replicas = pos_part state.min_replicas;
  max_replicas = pos_part state.max_replicas;
  mode = state.mode;
  resource_profile = state.resource_profile;
  revision = p.revision + 1;
  updated_by = some actor;
  update_reason = some reason;
  updated_at = now;
}

-- `_pool_state`
unfoldable pub pool_state : WorkerPool → JsonObject
pool_state p =
    ("desired_replicas", number p.desired_replicas)
    ∷ ("desired_concurrency", number p.desired_concurrency)
    ∷ ("min_replicas", number p.min_replicas)
    ∷ ("max_replicas", number p.max_replicas)
    ∷ ("mode", text p.mode)
    ∷ ("revision", number p.revision)
    ∷ []

state_of : Option WorkerPool → Option JsonObject
unfolding pool_state
state_of none = none
state_of (some p) = some (pool_state p)

unfoldable pub audit_pool :
    (action : String)
    → Option WorkerPool
    → WorkerPool
    → (actor reason : String) → (now audit_id : ℕ) → AuditEntry
unfolding state_of pool_state
audit_pool action before p actor reason now audit_id = record {
  audit_id = audit_id;
  created_at = now;
  actor = actor;
  action = action;
  resource_type = "worker_pool";
  resource_id = name (role_value p.role);
  before_state = state_of before;
  after_state = some (pool_state p ++ ("reason", text reason) ∷ []);
  request_id = none;
  idempotency_key = none;
}

-- `expected_revision is None`: a new pool, unless the role has one.
unfoldable pub create_pool :
    Db
    → WorkerRole
    → PoolDesiredState
    → (actor reason : String) → (now audit_id : ℕ) → Result (WorkerPool × Db)
unfolding new_pool audit_pool append_audit get_pool
create_pool db r state actor reason now audit_id = do
  require (is_none (get_pool db r)) conflict
  let p = new_pool r state actor reason now
  let entry = audit_pool "worker_pool.create" none p actor reason now audit_id
  ok (p, record db { pools = db.pools ++ p ∷ []; audit_log = (append_audit db.audit_log entry).1 })

-- WHERE role = :role AND revision = :expected_revision
unfoldable pub is_current : WorkerRole → (expected_revision : ℕ) → WorkerPool → Bool
is_current r revision p = role_is p.role r && p.revision == revision

unfoldable pub update_pool :
    Db
    → WorkerRole
    → PoolDesiredState
    → (actor reason : String) → (expected_revision now audit_id : ℕ) → Result (WorkerPool × Db)
unfolding updated_pool audit_pool append_audit get_pool is_current stale_or_missing_pool
update_pool db r state actor reason revision now audit_id = do
  old ←
      or_raise (one_or_none (rows_where (is_current r revision) db.pools))
        (stale_or_missing_pool db r)
  let p = updated_pool state actor reason now old
  let entry = audit_pool "worker_pool.update" (get_pool db r) p actor reason now audit_id
  ok (
    p,
    record db {
      pools = update_where (is_current r revision) (updated_pool state actor reason now) db.pools;
      audit_log = (append_audit db.audit_log entry).1;
    },
  )

unfoldable pub upsert_pool :
    Db
    → WorkerRole
    → PoolDesiredState
    → (actor reason : String) → (expected_revision : Option ℕ) → When
    → (audit_id : ℕ) → Result (WorkerPool × Db)
unfolding validate create_pool update_pool require_audit_context
upsert_pool db r state actor reason expected w audit_id = do
  context ← require_audit_context (some actor) (some reason)
  validate state
  current ← resolve_now w
  elim expected [
    | none ↦ create_pool db r state actor reason current audit_id
    | some revision ↦ update_pool db r state actor reason revision current audit_id
  ]

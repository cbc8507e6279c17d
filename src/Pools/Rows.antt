-- ===== src/Pools/Rows.antt =====
-- The rows of `worker_pools`, `worker_instances` and `scale_commands` (models/pools.py), the
-- transition tables of both state machines, and the private helpers of repositories/pools.py.
-- UUIDs are numbers; the command line of a command is kept as the two values that it is made of.
use ua_web_data_collector_sp.Base.{
  ℕ, ◌==◌, String, Bool, true, false, Option, none, some, List, str_eq,
}
use ua_web_data_collector_sp.Errors.{Error, Result, or_raise, not_found, stale_revision}
use ua_web_data_collector_sp.Audit.{AuditEntry}
use ua_web_data_collector_sp.Sql.{rows_where, update_where, one_or_none, find}

pub data WorkerRole : Type 0 where
  discovery fetch browser parse projector translation export maintenance : WorkerRole

-- The values of the enumeration.
abbrev pub role_value : WorkerRole → String
role_value discovery = "discovery"
role_value fetch = "fetch"
role_value browser = "browser"
role_value parse = "parse"
role_value projector = "projector"
role_value translation = "translation"
role_value export = "export"
role_value maintenance = "maintenance"

-- The column `role` compared with a role.
abbrev pub role_is : WorkerRole → WorkerRole → Bool
role_is a b = str_eq (role_value a) (role_value b)

pub record WorkerPool : Type 0 where
  pub role : WorkerRole
  pub desired_replicas : ℕ
  pub desired_concurrency : ℕ
  pub min_replicas : ℕ
  pub max_replicas : ℕ
  pub mode : String
  pub resource_profile : String
  pub revision : ℕ
  pub updated_by : Option String
  pub update_reason : Option String
  pub created_at : ℕ
  pub updated_at : ℕ

pub data InstanceStatus : Type 0 where
  starting ready draining stopped stale : InstanceStatus

abbrev pub instance_is : InstanceStatus → InstanceStatus → Bool
instance_is starting starting = true
instance_is ready ready = true
instance_is draining draining = true
instance_is stopped stopped = true
instance_is stale stale = true
instance_is _ _ = false

-- `status in INSTANCE_TRANSITIONS[before]`
abbrev pub instance_transitions : InstanceStatus → InstanceStatus → Bool
instance_transitions starting ready = true
instance_transitions starting stopped = true
instance_transitions starting stale = true
instance_transitions ready draining = true
instance_transitions ready stopped = true
instance_transitions ready stale = true
instance_transitions draining ready = true
instance_transitions draining stopped = true
instance_transitions draining stale = true
instance_transitions stale ready = true
instance_transitions stale draining = true
instance_transitions stale stopped = true
instance_transitions _ _ = false

pub record WorkerInstance : Type 0 where
  pub instance_id : ℕ
  pub role : WorkerRole
  pub status : InstanceStatus
  pub deployment : Option String
  pub container_id : Option String
  pub hostname : Option String
  pub version : String
  pub slots_total : ℕ
  pub slots_active : ℕ
  pub active_leases : ℕ
  pub pool_revision : Option ℕ
  pub drain_requested_at : Option ℕ
  pub started_at : ℕ
  pub last_heartbeat_at : ℕ
  pub stopped_at : Option ℕ
  pub created_at : ℕ
  pub updated_at : ℕ

pub data CommandStatus : Type 0 where
  requested draining awaiting_manual_apply applying applied failed superseded : CommandStatus

-- `SCALE_COMMAND_TERMINAL`
abbrev pub is_final : CommandStatus → Bool
is_final applied = true
is_final failed = true
is_final superseded = true
is_final _ = false

abbrev pub is_applied : CommandStatus → Bool
is_applied applied = true
is_applied _ = false

-- `status in SCALE_COMMAND_TRANSITIONS[before]`
abbrev pub scale_command_transitions : CommandStatus → CommandStatus → Bool
scale_command_transitions requested draining = true
scale_command_transitions requested failed = true
scale_command_transitions requested superseded = true
scale_command_transitions draining awaiting_manual_apply = true
scale_command_transitions draining applying = true
scale_command_transitions draining failed = true
scale_command_transitions draining superseded = true
scale_command_transitions awaiting_manual_apply applying = true
scale_command_transitions awaiting_manual_apply applied = true
scale_command_transitions awaiting_manual_apply failed = true
scale_command_transitions awaiting_manual_apply superseded = true
scale_command_transitions applying applied = true
scale_command_transitions applying failed = true
scale_command_transitions applying superseded = true
scale_command_transitions _ _ = false

pub record ScaleCommand : Type 0 where
  pub command_id : ℕ
  pub idempotency_key : String
  pub role : WorkerRole
  pub expected_pool_revision : ℕ
  pub applied_pool_revision : ℕ
  pub requested_replicas : ℕ
  pub requested_concurrency : ℕ
  pub status : CommandStatus
  pub cli_command : Option (WorkerRole × ℕ)
  pub result : Option String
  pub actor : String
  pub reason : String
  pub audit_id : ℕ
  pub audit_created_at : ℕ
  pub created_at : ℕ
  pub updated_at : ℕ
  pub applied_at : Option ℕ

pub record Db : Type 0 where
  pub pools : List WorkerPool
  pub instances : List WorkerInstance
  pub commands : List ScaleCommand
  pub audit_log : List AuditEntry

abbrev pub instance_key : WorkerInstance → ℕ
instance_key i = i.instance_id

abbrev pub command_key : ScaleCommand → ℕ
command_key c = c.command_id

-- SELECT … WHERE role = :role
unfoldable pub get_pool : Db → WorkerRole → Option WorkerPool
get_pool db r = one_or_none (rows_where (λ p. role_is p.role r) db.pools)

-- `_find_command`
unfoldable pub find_command : Db → (idempotency_key : String) → Option ScaleCommand
find_command db key = one_or_none (rows_where (λ c. str_eq c.idempotency_key key) db.commands)

unfoldable pub get_scale_command : Db → (command_id : ℕ) → Option ScaleCommand
get_scale_command db i = find command_key i db.commands

-- `_lock_instance`
unfoldable pub lock_instance : Db → (instance_id : ℕ) → Result WorkerInstance
lock_instance db i = or_raise (find instance_key i db.instances) not_found

-- `_raise_stale_or_missing_pool`
unfoldable pub stale_or_missing_pool : Db → WorkerRole → Error
unfolding get_pool
stale_or_missing_pool db r = elim (get_pool db r) [ none ↦ not_found | some p ↦ stale_revision ]

-- What a flush writes: the attributes of one loaded instance.
unfoldable pub save_instance : WorkerInstance → Db → Db
save_instance i db = record db {
  instances = update_where (λ x. x.instance_id == i.instance_id) (λ _. i) db.instances;
}

-- What a flush writes: the attributes of one loaded command.
unfoldable pub save_command : ScaleCommand → Db → Db
save_command c db = record db {
  commands = update_where (λ x. x.command_id == c.command_id) (λ _. c) db.commands;
}

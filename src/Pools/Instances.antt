-- ===== src/Pools/Instances.antt =====
-- `register_instance`, `heartbeat_instance`, `set_instance_status` with its three names,
-- `mark_stale_instances` and `observed_capacity` of repositories/pools.py.
use ua_web_data_collector_sp.Base.{
  ℕ, ◌+◌, min, String, Bool, ◌&&◌, ◌||◌, not, Option, none, some, List, [], ◌∷◌, ◌++◌, map, leb,
  ltb, if◌then◌else◌, is_none, is_some, length, or_default,
}
use ua_web_data_collector_sp.Errors.{
  Result, ok, err, ◌>>=◌, ◌>>◌, require, integrity_error, invalid_transition,
}
use ua_web_data_collector_sp.Clock.{When, resolve_now, seconds}
use ua_web_data_collector_sp.Sql.{rows_where, update_where, find}
use ua_web_data_collector_sp.Pools.Rows.{
  WorkerRole, role_is, InstanceStatus, starting, ready, draining, stopped, stale, instance_is,
  instance_transitions, WorkerInstance, Db, instance_key, get_pool, lock_instance, save_instance,
}

-- What a process tells about itself when it starts.
pub record Boot : Type 0 where
  pub instance_id : ℕ
  pub role : WorkerRole
  pub version : String
  pub slots_total : ℕ
  pub deployment : Option String
  pub container_id : Option String
  pub hostname : Option String
  pub pool_revision : Option ℕ

unfoldable pub booted : Boot → (now : ℕ) → WorkerInstance
booted b now = record {
  instance_id = b.instance_id;
  role = b.role;
  status = starting;
  deployment = b.deployment;
  container_id = b.container_id;
  hostname = b.hostname;
  version = b.version;
  slots_total = b.slots_total;
  slots_active = 0;
  active_leases = 0;
  pool_revision = b.pool_revision;
  drain_requested_at = none;
  started_at = now;
  last_heartbeat_at = now;
  stopped_at = none;
  created_at = now;
  updated_at = now;
}

-- The flush fails on a known instance (the primary key) and on a role without a pool (the foreign
-- key).
unfoldable pub register_instance : Db → Boot → When → Result (WorkerInstance × Db)
unfolding booted get_pool
register_instance db b w = do
  current ← resolve_now w
  require (is_none (find instance_key b.instance_id db.instances) && is_some (get_pool db b.role))
      integrity_error
  let i = booted b current
  ok (i, record db { instances = db.instances ++ i ∷ [] })

-- The status after a heartbeat: a stale instance comes back, to its drain if one was asked for.
unfoldable pub revived : WorkerInstance → InstanceStatus
revived i =
    if instance_is i.status stale
    then (if is_some i.drain_requested_at then draining else ready)
    else i.status

-- The arguments of a heartbeat.
pub record Beat : Type 0 where
  pub slots_total : Option ℕ
  pub slots_active : ℕ
  pub active_leases : ℕ
  pub pool_revision : Option ℕ

unfoldable pub beaten : Beat → (now : ℕ) → WorkerInstance → WorkerInstance
unfolding revived
beaten beat now i = record i {
  status = revived i;
  slots_active = beat.slots_active;
  active_leases = beat.active_leases;
  slots_total = or_default beat.slots_total i.slots_total;
  pool_revision = beat.pool_revision;
  last_heartbeat_at = now;
  updated_at = now;
}

unfoldable pub heartbeat_instance :
    Db → (instance_id : ℕ) → Beat → When → Result (WorkerInstance × Db)
unfolding beaten lock_instance save_instance
heartbeat_instance db i beat w = do
  current ← resolve_now w
  old ← lock_instance db i
  require (not (instance_is old.status stopped)) invalid_transition
  let new = beaten beat current old
  ok (new, save_instance new db)

-- The attributes that `set_instance_status` sets for the new status.
unfoldable pub entered : InstanceStatus → (now : ℕ) → WorkerInstance → WorkerInstance
entered draining now i = record i {
  status = draining;
  updated_at = now;
  drain_requested_at = some now;
}
entered ready now i = record i { status = ready; updated_at = now; drain_requested_at = none }
entered stopped now i = record i {
  status = stopped;
  updated_at = now;
  stopped_at = some now;
  slots_active = 0;
  active_leases = 0;
}
entered starting now i = record i { status = starting; updated_at = now }
entered stale now i = record i { status = stale; updated_at = now }

unfoldable pub set_instance_status :
    Db → (instance_id : ℕ) → InstanceStatus → When → Result (WorkerInstance × Db)
unfolding entered lock_instance save_instance
set_instance_status db i status w = do
  current ← resolve_now w
  old ← lock_instance db i
  if instance_is old.status status
      then ok (old, db)
      else if instance_transitions old.status status
      then ok (entered status current old, save_instance (entered status current old) db)
      else err invalid_transition

unfoldable pub mark_draining : Db → (instance_id : ℕ) → When → Result (WorkerInstance × Db)
unfolding set_instance_status
mark_draining db i w = set_instance_status db i draining w

unfoldable pub mark_stopped : Db → (instance_id : ℕ) → When → Result (WorkerInstance × Db)
unfolding set_instance_status
mark_stopped db i w = set_instance_status db i stopped w

unfoldable pub mark_ready : Db → (instance_id : ℕ) → When → Result (WorkerInstance × Db)
unfolding set_instance_status
mark_ready db i w = set_instance_status db i ready w

abbrev pub default_heartbeat_ttl : ℕ
default_heartbeat_ttl = seconds 60

-- status IN ('starting', 'ready', 'draining') AND last_heartbeat_at < now - heartbeat_ttl
unfoldable pub is_silent : (heartbeat_ttl now : ℕ) → WorkerInstance → Bool
is_silent heartbeat_ttl now i =
    not (instance_is i.status stopped || instance_is i.status stale)
    && ltb (i.last_heartbeat_at + heartbeat_ttl) now

unfoldable pub silenced : (now : ℕ) → WorkerInstance → WorkerInstance
silenced now i = record i { status = stale; updated_at = now }

unfoldable pub mark_stale_instances : Db → (heartbeat_ttl : ℕ) → When → Result (List ℕ × Db)
unfolding is_silent silenced
mark_stale_instances db ttl w = do
  current ← resolve_now w
  ok (
    map instance_key (rows_where (is_silent ttl current) db.instances),
    record db { instances = update_where (is_silent ttl current) (silenced current) db.instances },
  )

pub record ObservedCapacity : Type 0 where
  pub ready_replicas : ℕ
  pub total_slots : ℕ
  pub min_pool_revision : Option ℕ

-- role = :role AND status = 'ready' AND last_heartbeat_at >= now - heartbeat_ttl
unfoldable pub is_present : WorkerRole → (heartbeat_ttl now : ℕ) → WorkerInstance → Bool
is_present r ttl now i =
    role_is i.role r && (instance_is i.status ready && leb now (i.last_heartbeat_at + ttl))

unfoldable pub sum_slots : List WorkerInstance → ℕ
sum_slots [] = 0
sum_slots (i ∷ is) = i.slots_total + sum_slots is

unfoldable pub least : Option ℕ → Option ℕ → Option ℕ
least none o = o
least (some a) none = some a
least (some a) (some b) = some (min a b)

-- SQL's `min` leaves NULLs out.
unfoldable pub min_revision : List WorkerInstance → Option ℕ
unfolding least
min_revision [] = none
min_revision (i ∷ is) = least i.pool_revision (min_revision is)

unfoldable pub observed_capacity : Db → WorkerRole → (heartbeat_ttl now : ℕ) → ObservedCapacity
unfolding is_present sum_slots min_revision
observed_capacity db r ttl now =
    let present = rows_where (is_present r ttl now) db.instances in
    record {
      ready_replicas = length present;
      total_slots = sum_slots present;
      min_pool_revision = min_revision present;
    }

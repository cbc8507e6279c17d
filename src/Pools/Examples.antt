-- ===== src/Pools/Examples.antt =====
-- Runs of the pools on small tables.
use ua_web_data_collector_sp.Base.{true, ℕ, ◌≡◌, refl, none, some, List, [], ◌∷◌, pos}
use ua_web_data_collector_sp.Errors.{ok}
use ua_web_data_collector_sp.Clock.{at_instant, resolve_now, resolve, require_aware_utc}
use ua_web_data_collector_sp.Sql.{find, rows_where, one_or_none}
use ua_web_data_collector_sp.Pools.Rows.{
  WorkerRole, WorkerPool, WorkerInstance, InstanceStatus, ready, ScaleCommand, applying, applied,
  Db, find_command, get_scale_command, save_command,
}
use ua_web_data_collector_sp.Pools.Instances.{Beat, observed_capacity, is_present}
use ua_web_data_collector_sp.Pools.Desired.{within, is_current}
use ua_web_data_collector_sp.Pools.Scale.{
  ScaleRequest, is_reached, place_command, request_locked, request_scale, transitioned,
  transition_scale_command,
}
use ua_web_data_collector_sp.Pools.Drain.{
  Call, heartbeat, set_status, sweep, Leaves, run, run-Leaves,
}
use ua_web_data_collector_sp.Pools.Commands.{request_scale-idempotent}
use ua_web_data_collector_sp.Pools.Applied.{IsApplied, transition-IsApplied}

abbrev pool : WorkerPool
pool = record {
  role = WorkerRole.fetch;
  desired_replicas = 2;
  desired_concurrency = 8;
  min_replicas = 0;
  max_replicas = 8;
  mode = "manual";
  resource_profile = "medium";
  revision = 1;
  updated_by = none;
  update_reason = none;
  created_at = 0;
  updated_at = 0;
}

abbrev on_the_way_out : WorkerInstance
on_the_way_out = record {
  instance_id = 1;
  role = WorkerRole.fetch;
  status = InstanceStatus.draining;
  deployment = none;
  container_id = none;
  hostname = none;
  version = "1";
  slots_total = 8;
  slots_active = 2;
  active_leases = 2;
  pool_revision = some 1;
  drain_requested_at = some 50;
  started_at = 0;
  last_heartbeat_at = 60;
  stopped_at = none;
  created_at = 0;
  updated_at = 60;
}

abbrev serving : WorkerInstance
serving = record on_the_way_out {
  instance_id = 2;
  status = ready;
  drain_requested_at = none;
  pool_revision = some 2;
}

abbrev old_command : ScaleCommand
old_command = record {
  command_id = 3;
  idempotency_key = "first";
  role = WorkerRole.fetch;
  expected_pool_revision = 0;
  applied_pool_revision = 1;
  requested_replicas = 1;
  requested_concurrency = 8;
  status = applying;
  cli_command = none;
  result = none;
  actor = "operator";
  reason = "load";
  audit_id = 1;
  audit_created_at = 0;
  created_at = 0;
  updated_at = 0;
  applied_at = none;
}

abbrev tables : Db
tables = record {
  pools = pool ∷ [];
  instances = on_the_way_out ∷ serving ∷ [];
  commands = old_command ∷ [];
  audit_log = [];
}

now : (t : ℕ) → resolve_now (at_instant t) ≡ ok t
unfolding resolve_now resolve require_aware_utc
now t = refl

abbrev beat : Beat
beat = record { slots_total = none; slots_active = 1; active_leases = 1; pool_revision = some 2 }

-- A pause longer than the ttl, a heartbeat after it, and a status call for the other instance.
abbrev pause : List Call
pause =
    sweep 10 (at_instant 100)
    ∷ heartbeat 1 beat (at_instant 110)
    ∷ set_status 2 ready (at_instant 120)
    ∷ []

run-Leaves_example : Leaves true 1 (run pause tables)
run-Leaves_example =
    run-Leaves true 1 pause tables (refl, (refl, (refl, tt)))
      (record { row = on_the_way_out; found = unfold find in refl; leaving = refl })

abbrev request : ScaleRequest
request = record {
  role = WorkerRole.fetch;
  expected_revision = 1;
  requested_replicas = pos 4;
  requested_concurrency = pos 8;
  actor = "operator";
  reason = "queue age";
  idempotency_key = "second";
  orchestrator = "compose";
  request_id = none;
}

abbrev placed : ScaleCommand × Db
placed = place_command tables request pool 200 9 4

request_ok : request_scale tables request (at_instant 200) 9 4 ≡ ok placed
unfolding request_scale request_locked find_command rows_where one_or_none is_current within
    resolve_now resolve require_aware_utc
request_ok = refl

request_scale-idempotent_example :
    request_scale placed.1 request (at_instant 300) 10 5 ≡ ok (placed.0, placed.1)
request_scale-idempotent_example =
    request_scale-idempotent tables request (at_instant 200) (at_instant 300) 9 4 10 5 placed.0
      placed.1 request_ok

abbrev reached : ScaleCommand × Db
reached = let c = transitioned applied none 70 old_command in (c, save_command c tables)

transition_ok : transition_scale_command tables 3 applied none 60 (at_instant 70) ≡ ok reached
unfolding transition_scale_command resolve_now resolve require_aware_utc get_scale_command find
    is_reached observed_capacity is_present rows_where
transition_ok = refl

transition-IsApplied_example : IsApplied tables 3 none 60 70 (at_instant 70) (now 70) reached
transition-IsApplied_example =
    transition-IsApplied tables 3 none 60 70 (at_instant 70) (now 70) reached transition_ok

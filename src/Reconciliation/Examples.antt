-- ===== src/Reconciliation/Examples.antt =====
-- The reconciler's reading of small tables.
use ua_web_data_collector_sp.Base.{
  ℕ, ◌≡◌, ◌↔◌, refl, Option, none, some, [], ◌∷◌, true, pos, negsuc, sort,
}
use ua_web_data_collector_sp.Errors.{ok, err, value_error}
use ua_web_data_collector_sp.Clock.{aware, at_instant, resolve_now, resolve, require_aware_utc}
use ua_web_data_collector_sp.Sql.{rows_where, count_where}
use ua_web_data_collector_sp.Queue.Rows.{pending, succeeded, quarantined}
use ua_web_data_collector_sp.Projection.Rows.{ProjectionTask, Db}
use ua_web_data_collector_sp.Reconciliation.{
  Scope, ProjectionCompleteness, projection_completeness, complete, given_watermark, counted_tasks,
  counted_events, aggregates, oldest_created_at, is_in_scope, is_of_source, is_stale_task,
  list_stale_projection_tasks, list_quarantined_projection_tasks,
}
use ua_web_data_collector_sp.Reconciliation.Complete.{
  AllSucceeded, projection_completeness-complete,
}

abbrev finished_task : ProjectionTask
finished_task = record {
  task_id = 1;
  artifact_id = 1;
  entity_uuid = 4;
  parse_attempt_id = none;
  parse_key = "k";
  projection_version = 1;
  target_collection = "news";
  target_schema_version = "1";
  status = succeeded;
  priority = pos 0;
  attempt = 1;
  max_attempts = 4;
  not_before = 10;
  lease_owner = none;
  lease_expires_at = none;
  leased_at = none;
  finished_at = some 20;
  last_error_code = none;
  last_error_message = none;
  created_at = 10;
  updated_at = 20;
}

abbrev waiting_task : ProjectionTask
waiting_task = record finished_task {
  task_id = 2;
  status = pending;
  not_before = 40;
  finished_at = none;
  created_at = 30;
}

abbrev stuck_task : ProjectionTask
stuck_task = record finished_task {
  task_id = 3;
  entity_uuid = 5;
  status = quarantined;
  created_at = 25;
}

abbrev three_tasks : Db
three_tasks = record {
  entities = [];
  artifacts = [];
  parse_attempts = [];
  tasks = stuck_task ∷ waiting_task ∷ finished_task ∷ [];
  acknowledgements = [];
  change_events = [];
  events = [];
}

-- Up to the watermark 30 only the finished task of entity 4 counts.
abbrev entity_scope : Scope
entity_scope = record { source_id = none; entity_uuid = some 4; created_before = some (aware 30) }

abbrev nothing_left : ProjectionCompleteness
nothing_left = record {
  open_tasks = 0;
  oldest_open_task_created_at = none;
  quarantined_tasks = 0;
  oldest_quarantined_task_created_at = none;
  unpublished_domain_events = 0;
  oldest_unpublished_domain_event_created_at = none;
}

projection_completeness-complete_example :
    (watermark : Option ℕ) × (given_watermark (some (aware 30)) ≡ ok watermark)
    × ((complete nothing_left ≡ true) ↔ AllSucceeded three_tasks entity_scope watermark)
projection_completeness-complete_example =
    projection_completeness-complete three_tasks entity_scope nothing_left (
      unfold projection_completeness given_watermark require_aware_utc counted_tasks counted_events
        aggregates oldest_created_at is_in_scope is_of_source rows_where count_where in
      refl)

whole_system :
    projection_completeness three_tasks
      (record { source_id = none; entity_uuid = none; created_before = none })
    ≡ ok (record nothing_left {
      open_tasks = 1;
      oldest_open_task_created_at = some 30;
      quarantined_tasks = 1;
      oldest_quarantined_task_created_at = some 25;
    })
unfolding projection_completeness given_watermark counted_tasks counted_events aggregates
    oldest_created_at is_in_scope is_of_source rows_where count_where
whole_system = refl

stale-waiting :
    list_stale_projection_tasks three_tasks (pos 60) none 5 (at_instant 100)
    ≡ ok (waiting_task ∷ [])
unfolding list_stale_projection_tasks is_stale_task resolve_now resolve require_aware_utc rows_where
    sort
stale-waiting = refl

stale-negative :
    list_stale_projection_tasks three_tasks (negsuc 0) none 5 (at_instant 100) ≡ err value_error
unfolding list_stale_projection_tasks
stale-negative = refl

quarantined-listed :
    list_quarantined_projection_tasks three_tasks none (some 2) 5 ≡ ok (stuck_task ∷ [])
unfolding list_quarantined_projection_tasks is_of_source rows_where sort
quarantined-listed = refl

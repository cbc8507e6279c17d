-- ===== src/Projection/Record.antt =====
-- The two operations of repositories/projection.py that end a parse: `record_parse_result` and
-- `record_parse_failure`.
pub mod Found
pub mod Replay
use ua_web_data_collector_sp.Base.{
  ℕ, ◌+◌, ◌==◌, String, Bool, true, false, ◌&&◌, ◌||◌, not, Option, none, some, List, [], ◌∷◌, ◌++◌,
  leb, str_eq, if◌then◌else◌, is_some, is_none, or_default, mentions, ℤ,
}
use ua_web_data_collector_sp.Errors.{
  Result, ok, err, ◌>>=◌, ◌>>◌, require, or_raise, value_error, integrity_error, not_found,
  conflict, invalid_value,
}
use ua_web_data_collector_sp.Clock.{When, resolve_now}
use ua_web_data_collector_sp.Sql.{rows_where, update_where, one_or_none, find}
use ua_web_data_collector_sp.Artifacts.Rows.{NormalizedArtifact, NormalizedArtifactRef}
use ua_web_data_collector_sp.Outbox.Rows.{OutboxEvent, event_key}
use ua_web_data_collector_sp.Queue.Rows.{pending, succeeded, Status, truncated}
use ua_web_data_collector_sp.Projection.Rows.{
  ProjectionTask, EntityIndex, ParseAttempt, ParseAttemptRecord, ProjectionCommand, Encoding, Db,
  task_key, artifact_key, parse_attempt_key, acknowledgement_key, get_acknowledgement, value,
}
use ua_web_data_collector_sp.Projection.Parse.{
  Parse, ParseResult, success_parse_outcomes, failed_parse_outcomes, parse_key,
  has_consistent_lineage, parse_attempt_row, artifact_for, with_lineage, command_of,
  is_valid_command, command_outbox_row,
}

unfoldable pub key_of : Encoding → Parse → String
unfolding parse_key
key_of enc p =
    parse_key enc p.artifact_ref.fetch_id p.attempt.raw_sha256 p.attempt.parser_version
      p.artifact_ref.entity_uuid p.target_collection

-- The new task, `version` being the entity's next one.
unfoldable pub new_task : Encoding → Parse → NormalizedArtifact → (version now : ℕ) → ProjectionTask
unfolding key_of
new_task enc p artifact version now = record {
  task_id = p.task_id;
  artifact_id = artifact.artifact_id;
  entity_uuid = p.artifact_ref.entity_uuid;
  parse_attempt_id = some p.parse_attempt_id;
  parse_key = key_of enc p;
  projection_version = version;
  target_collection = p.target_collection;
  target_schema_version = p.target_schema_version;
  status = pending;
  priority = p.priority;
  attempt = 0;
  max_attempts = p.max_attempts;
  not_before = or_default p.not_before now;
  lease_owner = none;
  lease_expires_at = none;
  leased_at = none;
  finished_at = none;
  last_error_code = none;
  last_error_message = none;
  created_at = now;
  updated_at = now;
}

unfoldable pub with_version : (version now : ℕ) → EntityIndex → EntityIndex
with_version version now e = record e { projection_version = version; updated_at = now }

-- The unique constraints of `projection_tasks`: the key, the parse key and (entity, version); with its CHECK.
unfoldable pub is_insertable : ProjectionTask → List ProjectionTask → Bool
is_insertable t tasks =
    is_none (find task_key t.task_id tasks)
    && (is_none
          (one_or_none (rows_where (λ (x : ProjectionTask). str_eq x.parse_key t.parse_key) tasks))
        && (is_none (
              one_or_none (
                rows_where
                  (λ (x : ProjectionTask).
                    x.entity_uuid == t.entity_uuid && x.projection_version == t.projection_version)
                  tasks))
            && leb 1 t.max_attempts))

-- The unique constraints of `outbox_events`.
unfoldable pub is_new_event : OutboxEvent → List OutboxEvent → Bool
is_new_event e events =
    is_none (find event_key e.outbox_id events)
    && is_none (one_or_none (rows_where (λ (x : OutboxEvent). x.event_id == e.event_id) events))

-- The last two rows: the task, then its command.
unfoldable pub issue :
    Db
    → Encoding
    → Parse
    → (now : ℕ) → ParseAttempt
    → NormalizedArtifact
    → ProjectionTask
    → Result (ParseResult × Db)
unfolding is_insertable is_valid_command command_of is_new_event command_outbox_row
issue db enc p now parse_attempt artifact task = do
  require (is_insertable task db.tasks) integrity_error
  require (is_valid_command enc (command_of task p.artifact_ref)) value_error
  let event = command_outbox_row enc (command_of task p.artifact_ref) now p.outbox_id
  require (is_new_event event db.events) integrity_error
  ok (
    record {
      parse_attempt = parse_attempt;
      artifact = artifact;
      task = task;
      command = command_of task p.artifact_ref;
      outbox_event = some event;
      created = true;
    },
    record db { tasks = db.tasks ++ task ∷ []; events = db.events ++ event ∷ [] },
  )

-- The rows of a parse that was not recorded before: its attempt, the artifact's lineage, the entity's
-- next version, the task and its command.
unfoldable pub record_new :
    Db
    → Encoding
    → Parse
    → (now : ℕ) → EntityIndex
    → NormalizedArtifact × List NormalizedArtifact
    → Result (ParseResult × Db)
unfolding parse_attempt_row with_lineage with_version new_task issue
record_new db enc p now entity (artifact, artifacts) = do
  let row = parse_attempt_row p.attempt now p.parse_attempt_id
  require (is_none (find parse_attempt_key p.parse_attempt_id db.parse_attempts)) integrity_error
  issue
      (record db {
        artifacts =
            update_where (λ a. a.artifact_id == artifact.artifact_id)
              (with_lineage p.parse_attempt_id) artifacts;
        parse_attempts = db.parse_attempts ++ row ∷ [];
        entities =
            update_where (λ e. e.entity_uuid == entity.entity_uuid)
              (with_version (entity.projection_version + 1) now) db.entities;
      })
      enc p now row (with_lineage p.parse_attempt_id artifact)
      (new_task enc p artifact (entity.projection_version + 1) now)

is_succeeded : Status → Bool
is_succeeded succeeded = true
is_succeeded _ = false

-- `_is_acknowledged`
unfoldable pub is_acknowledged : Db → ProjectionTask → Bool
unfolding is_succeeded get_acknowledgement
is_acknowledged db t = is_succeeded t.status && is_some (get_acknowledgement db t.task_id)

unfoldable pub event_of : Db → (task_id : ℕ) → Option OutboxEvent
event_of db i = one_or_none (rows_where (λ (e : OutboxEvent). e.event_id == i) db.events)

-- The attempt that a task names.
unfoldable pub attempt_of : Db → Option ℕ → Option ParseAttempt
attempt_of db none = none
attempt_of db (some i) = find parse_attempt_key i db.parse_attempts

-- `_existing_parse_result`
unfoldable pub existing_parse_result :
    Db → Encoding → ProjectionTask → NormalizedArtifactRef → Result (ParseResult × Db)
unfolding is_acknowledged event_of attempt_of command_of is_valid_command
existing_parse_result db enc task r = do
  artifact ← or_raise (find artifact_key task.artifact_id db.artifacts) not_found
  require (str_eq artifact.sha256 r.sha256 && task.entity_uuid == r.entity_uuid) conflict
  require (is_some (event_of db task.task_id) || is_acknowledged db task) conflict
  parse_attempt ← or_raise (attempt_of db task.parse_attempt_id) conflict
  require (is_valid_command enc (command_of task r)) value_error
  ok (
    record {
      parse_attempt = parse_attempt;
      artifact = artifact;
      task = task;
      command = command_of task r;
      outbox_event = event_of db task.task_id;
      created = false;
    },
    db,
  )

unfoldable pub task_of_key : Db → String → Option ProjectionTask
task_of_key db key =
    one_or_none (rows_where (λ (t : ProjectionTask). str_eq t.parse_key key) db.tasks)

unfoldable pub record_parse_result : Db → Encoding → Parse → When → Result (ParseResult × Db)
unfolding has_consistent_lineage key_of task_of_key existing_parse_result artifact_for record_new
record_parse_result db enc p w = do
  require (mentions success_parse_outcomes p.attempt.outcome) invalid_value
  require (has_consistent_lineage p.attempt p.artifact_ref) invalid_value
  current ← resolve_now w
  entity ←
      or_raise
        (one_or_none (
          rows_where (λ (e : EntityIndex). e.entity_uuid == p.artifact_ref.entity_uuid)
            db.entities))
        not_found
  elim (task_of_key db (key_of enc p)) [
    | some task ↦ existing_parse_result db enc task p.artifact_ref
    | none ↦ artifact_for db p.artifact_ref p.object_key current p.artifact_id >>= λ found.
        record_new db enc p current entity found
  ]

unfoldable pub record_parse_failure :
    Db → ParseAttemptRecord → When → (parse_attempt_id : ℕ) → Result (ParseAttempt × Db)
unfolding parse_attempt_row truncated
record_parse_failure db a w parse_attempt_id = do
  require (mentions failed_parse_outcomes a.outcome) invalid_value
  current ← resolve_now w
  let row = record (parse_attempt_row a current parse_attempt_id) {
    error_message = truncated a.error_message;
  }
  require (is_none (find parse_attempt_key parse_attempt_id db.parse_attempts)) integrity_error
  ok (row, record db { parse_attempts = db.parse_attempts ++ row ∷ [] })

-- ===== src/Projection/Parse.antt =====
-- `record_parse_result` and `record_parse_failure` of repositories/projection.py, with their private
-- helpers. The new ids are arguments.
use ua_web_data_collector_sp.Base.{
  ℕ, ◌==◌, String, Bool, false, ◌&&◌, ◌||◌, not, Option, none, some, List, [], ◌∷◌, ◌++◌, leb,
  str_eq, if◌then◌else◌, is_none, or_default, ℤ, pos, ltb_ℤ,
}
use ua_web_data_collector_sp.Errors.{
  Result, ok, ◌>>=◌, ◌>>◌, require, or_raise, not_found, conflict,
}
use ua_web_data_collector_sp.Sql.{rows_where, one_or_none, find}
use ua_web_data_collector_sp.Artifacts.Rows.{
  NormalizedArtifact, NormalizedArtifactRef, normalized_artifact_values,
}
use ua_web_data_collector_sp.Outbox.Rows.{OutboxEvent, internal_topic}
use ua_web_data_collector_sp.Projection.Rows.{
  Bytes, ProjectionTask, ParseAttempt, ParseAttemptRecord, ProjectionCommand, Encoding, Db,
  artifact_key, value,
}

abbrev pub success_parse_outcomes : List String
success_parse_outcomes = "succeeded" ∷ "partial" ∷ []

abbrev pub failed_parse_outcomes : List String
failed_parse_outcomes = "failed" ∷ "skipped" ∷ []

abbrev pub separator : ℕ
separator = 0x1f

-- `"\x1f".join(parts)`, in UTF-8.
unfoldable pub join : List Bytes → Bytes
join [] = []
join (p ∷ []) = p
join (p ∷ q ∷ ps) = p ++ separator ∷ join (q ∷ ps)

unfoldable pub parse_key :
    Encoding
    → (fetch_id : ℕ) → (raw_sha256 parser_version : String) → (entity_uuid : ℕ)
    → (target_collection : String) → String
unfolding join
parse_key enc fetch_id raw_sha256 parser_version entity_uuid target_collection = enc.sha256_hex (
    join (
      enc.utf8 (enc.uuid_text fetch_id)
      ∷ enc.utf8 raw_sha256
      ∷ enc.utf8 parser_version
      ∷ enc.utf8 (enc.uuid_text entity_uuid)
      ∷ enc.utf8 target_collection
      ∷ []))

-- An optional UUID equals a UUID.
abbrev pub is_uuid : Option ℕ → ℕ → Bool
is_uuid none n = false
is_uuid (some m) n = m == n

-- `_require_consistent_lineage`: an attempt without a fetch is refused as well.
unfoldable pub has_consistent_lineage : ParseAttemptRecord → NormalizedArtifactRef → Bool
has_consistent_lineage a r =
    is_uuid a.fetch_id r.fetch_id
    && (str_eq a.raw_sha256 r.raw_sha256
        && (str_eq a.parser_version r.parser_version && str_eq a.domain (value r.domain)))

-- The arguments of `record_parse_result`, with the ids that it draws.
pub record Parse : Type 0 where
  pub attempt : ParseAttemptRecord
  pub artifact_ref : NormalizedArtifactRef
  pub object_key : String
  pub target_collection : String
  pub target_schema_version : String
  pub priority : ℤ
  pub max_attempts : ℕ
  pub not_before : Option ℕ
  pub artifact_id : ℕ
  pub parse_attempt_id : ℕ
  pub task_id : ℕ
  pub outbox_id : ℕ

pub record ParseResult : Type 0 where
  pub parse_attempt : ParseAttempt
  pub artifact : NormalizedArtifact
  pub task : ProjectionTask
  pub command : ProjectionCommand
  pub outbox_event : Option OutboxEvent
  pub created : Bool

unfoldable pub parse_attempt_row : ParseAttemptRecord → (now parse_attempt_id : ℕ) → ParseAttempt
parse_attempt_row a now parse_attempt_id = record {
  parse_attempt_id = parse_attempt_id;
  fetch_id = a.fetch_id;
  job_id = a.job_id;
  source_id = a.source_id;
  raw_sha256 = a.raw_sha256;
  domain = a.domain;
  parser_version = a.parser_version;
  outcome = a.outcome;
  records_count = a.records_count;
  validation_errors_count = a.validation_errors_count;
  error_code = a.error_code;
  error_message = a.error_message;
  started_at = a.started_at;
  finished_at = some (or_default a.finished_at now);
  created_at = now;
}

-- The rows that stand in the way of an artifact: the two unique constraints.
unfoldable pub has_same_content :
    NormalizedArtifactRef → (object_key : String) → NormalizedArtifact → Bool
has_same_content r object_key a =
    str_eq a.object_key object_key || (str_eq a.sha256 r.sha256 && a.entity_uuid == r.entity_uuid)

-- Another artifact under the key: other bytes or another entity.
unfoldable pub is_foreign : NormalizedArtifactRef → NormalizedArtifact → Bool
is_foreign r a = not (a.entity_uuid == r.entity_uuid) || not (str_eq a.sha256 r.sha256)

-- The row of the answer of `_artifact_for`, when there were rows in the way.
unfoldable pub existing_artifact :
    NormalizedArtifactRef → List NormalizedArtifact → Result NormalizedArtifact
unfolding is_foreign
existing_artifact r candidates = do
  require (is_none (one_or_none (rows_where (is_foreign r) candidates))) conflict
  or_raise (one_or_none candidates) not_found

-- `_artifact_for`: INSERT … ON CONFLICT DO NOTHING, of the primary key too.
unfoldable pub artifact_for :
    Db
    → NormalizedArtifactRef
    → (object_key : String) → (now artifact_id : ℕ)
    → Result (NormalizedArtifact × List NormalizedArtifact)
unfolding has_same_content existing_artifact
artifact_for db r object_key now artifact_id =
    if is_none (one_or_none (rows_where (has_same_content r object_key) db.artifacts))
      && is_none (find artifact_key artifact_id db.artifacts)
    then ok (
      normalized_artifact_values r object_key now artifact_id,
      db.artifacts ++ normalized_artifact_values r object_key now artifact_id ∷ [],
    )
    else existing_artifact r (rows_where (has_same_content r object_key) db.artifacts) >>= λ a.
        ok (a, db.artifacts)

-- The lineage of the first parse that brought the bytes.
unfoldable pub with_lineage : (parse_attempt_id : ℕ) → NormalizedArtifact → NormalizedArtifact
with_lineage i a = record a { parse_attempt_id = some (or_default a.parse_attempt_id i) }

-- `ProjectionCommand(…)`
unfoldable pub command_of : ProjectionTask → NormalizedArtifactRef → ProjectionCommand
command_of t r = record {
  schema_version = "1.0";
  task_id = t.task_id;
  entity_uuid = t.entity_uuid;
  projection_version = t.projection_version;
  target_collection = t.target_collection;
  target_schema_version = t.target_schema_version;
  artifact = r;
  priority = t.priority;
  not_before = some t.not_before;
  issued_at = t.created_at;
}

-- The command's own validation: version >= 1, 0 <= priority <= 100 and the artifact's entity.
unfoldable pub is_valid_command : Encoding → ProjectionCommand → Bool
is_valid_command enc c =
    enc.has_valid_texts c
    && (leb 1 c.projection_version
        && (not (ltb_ℤ c.priority (pos 0))
            && (not (ltb_ℤ (pos 100) c.priority) && c.artifact.entity_uuid == c.entity_uuid)))

abbrev pub projection_command_event_type : String
projection_command_event_type = "projection.command"

-- `_command_outbox_row`
unfoldable pub command_outbox_row : Encoding → ProjectionCommand → (now outbox_id : ℕ) → OutboxEvent
command_outbox_row enc c now outbox_id = record {
  outbox_id = outbox_id;
  event_id = c.task_id;
  topic = internal_topic;
  event_type = projection_command_event_type;
  aggregate_id = c.entity_uuid;
  aggregate_version = c.projection_version;
  payload_schema_version = c.schema_version;
  payload_bytes = some (enc.canonical_json_bytes c);
  payload_media_type = "application/json; charset=utf-8";
  payload_sha256 = enc.sha256_hex (enc.canonical_json_bytes c);
  payload_artifact_uri = none;
  available_at = or_default c.not_before now;
  published_at = none;
  parked_at = none;
  attempts = 0;
  delivery_attempts = 0;
  last_error_code = none;
  last_error_message = none;
  created_at = now;
  updated_at = now;
}

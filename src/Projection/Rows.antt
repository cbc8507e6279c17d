-- ===== src/Projection/Rows.antt =====
-- The rows that repositories/projection.py reads and writes (models/projection.py, models/artifacts.py,
-- models/outbox.py) and its arguments (contracts/projection.py). A status is one of
-- the job queue's, as in the source; UUIDs are numbers; bytes are the list of their values.
use ua_web_data_collector_sp.Base.{ℕ, String, Bool, ◌&&◌, Option, List, ℤ}
use ua_web_data_collector_sp.Errors.{Result}
use ua_web_data_collector_sp.Artifacts.Rows.{
  NormalizedArtifact, NormalizedArtifactRef, DataDomain, news, vehicle, catalog,
}
use ua_web_data_collector_sp.Outbox.Rows.{OutboxEvent}
use ua_web_data_collector_sp.Queue.Rows.{Status, Message}
use ua_web_data_collector_sp.Sql.{find}

abbrev pub Bytes : Type 0
Bytes = List ℕ

pub record ProjectionTask : Type 0 where
  pub task_id : ℕ
  pub artifact_id : ℕ
  pub entity_uuid : ℕ
  pub parse_attempt_id : Option ℕ
  pub parse_key : String
  pub projection_version : ℕ
  pub target_collection : String
  pub target_schema_version : String
  pub status : Status
  pub priority : ℤ
  pub attempt : ℕ
  pub max_attempts : ℕ
  pub not_before : ℕ
  pub lease_owner : Option String
  pub lease_expires_at : Option ℕ
  pub leased_at : Option ℕ
  pub finished_at : Option ℕ
  pub last_error_code : Option String
  pub last_error_message : Option Message
  pub created_at : ℕ
  pub updated_at : ℕ

pub record ProjectionAcknowledgement : Type 0 where
  pub task_id : ℕ
  pub entity_uuid : ℕ
  pub projection_version : ℕ
  pub receipt_id : ℕ
  pub receipt_cluster_time : String
  pub mongo_document_id : Option ℕ
  pub applied_to_current : Bool
  pub state_changed : Bool
  pub result_version : ℕ
  pub result_hash : String
  pub previous_hash : Option String
  pub event_id : Option ℕ
  pub event_sha256 : Option String
  pub acknowledged_at : ℕ
  pub created_at : ℕ

pub record EntityIndex : Type 0 where
  pub entity_uuid : ℕ
  pub domain : String
  pub entity_kind : String
  pub source_id : String
  pub source_item_id : String
  pub identity_hash : Option String
  pub canonical_url : Option String
  pub mongo_collection : Option String
  pub mongo_document_id : Option ℕ
  pub projection_version : ℕ
  pub confirmed_projection_version : ℕ
  pub confirmed_at : Option ℕ
  pub created_at : ℕ
  pub updated_at : ℕ

pub record ParseAttempt : Type 0 where
  pub parse_attempt_id : ℕ
  pub fetch_id : Option ℕ
  pub job_id : Option ℕ
  pub source_id : Option ℕ
  pub raw_sha256 : String
  pub domain : String
  pub parser_version : String
  pub outcome : String
  pub records_count : ℕ
  pub validation_errors_count : ℕ
  pub error_code : Option String
  pub error_message : Option Message
  pub started_at : Option ℕ
  pub finished_at : Option ℕ
  pub created_at : ℕ

pub record ParseAttemptRecord : Type 0 where
  pub raw_sha256 : String
  pub parser_version : String
  pub outcome : String
  pub domain : String
  pub fetch_id : Option ℕ
  pub job_id : Option ℕ
  pub source_id : Option ℕ
  pub records_count : ℕ
  pub validation_errors_count : ℕ
  pub error_code : Option String
  pub error_message : Option Message
  pub started_at : Option ℕ
  pub finished_at : Option ℕ

pub record ChangeEvent : Type 0 where
  pub change_event_id : ℕ
  pub event_id : ℕ
  pub aggregate_id : ℕ
  pub aggregate_version : ℕ
  pub event_type : String
  pub payload_schema_version : String
  pub projection_task_id : ℕ
  pub previous_state_hash : Option String
  pub result_state_hash : String
  pub event_bytes : Option Bytes
  pub event_media_type : String
  pub event_sha256 : String
  pub event_artifact_uri : Option String
  pub event_artifact_size_bytes : Option ℕ
  pub occurred_at : ℕ
  pub created_at : ℕ

pub record ProjectionCommand : Type 0 where
  pub schema_version : String
  pub task_id : ℕ
  pub entity_uuid : ℕ
  pub projection_version : ℕ
  pub target_collection : String
  pub target_schema_version : String
  pub artifact : NormalizedArtifactRef
  pub priority : ℤ
  pub not_before : Option ℕ
  pub issued_at : ℕ

pub record ArtifactRef : Type 0 where
  pub uri : String
  pub sha256 : String
  pub size_bytes : ℕ
  pub media_type : String
  pub schema_version : Option String

pub record AppliedProjectionReceipt : Type 0 where
  pub projection_task_id : ℕ
  pub entity_uuid : ℕ
  pub projection_version : ℕ
  pub target_collection : String
  pub document_id : ℕ
  pub applied_to_current : Bool
  pub state_changed : Bool
  pub previous_version : Option ℕ
  pub previous_hash : Option String
  pub result_version : ℕ
  pub result_hash : String
  pub event_id : Option ℕ
  pub event_bytes : Option Bytes
  pub event_media_type : Option String
  pub event_sha256 : Option String
  pub event_artifact : Option ArtifactRef
  pub committed_at : ℕ
  pub cluster_time : String

-- `DomainChangedEvent` (contracts/events.py), as far as an acknowledgement reads it.
pub record DomainChangedEvent : Type 0 where
  pub event_id : ℕ
  pub event_type : String
  pub payload_schema_version : String

-- What the repository takes from hashlib, uuid and pydantic: the digest of bytes, the text of a UUID,
-- the UTF-8 bytes of a text, the JSON bytes of a command, the validation of a command's text fields
-- and the parsing of an event's bytes.
pub record Encoding : Type 0 where
  pub sha256_hex : Bytes → String
  pub uuid_text : ℕ → String
  pub utf8 : String → Bytes
  pub canonical_json_bytes : ProjectionCommand → Bytes
  pub has_valid_texts : ProjectionCommand → Bool
  pub decode_event : Bytes → Result DomainChangedEvent

pub record Db : Type 0 where
  pub entities : List EntityIndex
  pub artifacts : List NormalizedArtifact
  pub parse_attempts : List ParseAttempt
  pub tasks : List ProjectionTask
  pub acknowledgements : List ProjectionAcknowledgement
  pub change_events : List ChangeEvent
  pub events : List OutboxEvent

abbrev pub task_key : ProjectionTask → ℕ
task_key t = t.task_id

abbrev pub artifact_key : NormalizedArtifact → ℕ
artifact_key a = a.artifact_id

abbrev pub parse_attempt_key : ParseAttempt → ℕ
parse_attempt_key a = a.parse_attempt_id

abbrev pub acknowledgement_key : ProjectionAcknowledgement → ℕ
acknowledgement_key a = a.task_id

-- `get_projection_task`
unfoldable pub get_projection_task : Db → ℕ → Option ProjectionTask
get_projection_task db i = find task_key i db.tasks

-- `get_acknowledgement`
unfoldable pub get_acknowledgement : Db → ℕ → Option ProjectionAcknowledgement
get_acknowledgement db i = find acknowledgement_key i db.acknowledgements

-- `DataDomain.value`
abbrev pub value : DataDomain → String
value news = "news"
value vehicle = "vehicle"
value catalog = "catalog"

-- `should_emit_domain_changed`
unfoldable pub should_emit_domain_changed : AppliedProjectionReceipt → Bool
should_emit_domain_changed r = r.applied_to_current && r.state_changed

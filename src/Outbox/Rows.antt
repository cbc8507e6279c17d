-- ===== src/Outbox/Rows.antt =====
-- The rows of `outbox_events` (models/outbox.py). Bytes are the
-- list of their values. UUIDs are numbers in their order.
use ua_web_data_collector_sp.Base.{ℕ, String, Bool, ◌&&◌, Option, List, is_none}
use ua_web_data_collector_sp.Audit.{AuditEntry}
use ua_web_data_collector_sp.Queue.Rows.{Message}
use ua_web_data_collector_sp.Sql.{find}

pub record OutboxEvent : Type 0 where
  pub outbox_id : ℕ
  pub event_id : ℕ
  pub topic : String
  pub event_type : String
  pub aggregate_id : ℕ
  pub aggregate_version : ℕ
  pub payload_schema_version : String
  pub payload_bytes : Option (List ℕ)
  pub payload_media_type : String
  pub payload_sha256 : String
  pub payload_artifact_uri : Option String
  pub available_at : ℕ
  pub published_at : Option ℕ
  pub parked_at : Option ℕ
  pub attempts : ℕ
  pub delivery_attempts : ℕ
  pub last_error_code : Option String
  pub last_error_message : Option Message
  pub created_at : ℕ
  pub updated_at : ℕ

pub record Db : Type 0 where
  pub events : List OutboxEvent
  pub audit_log : List AuditEntry

abbrev pub event_key : OutboxEvent → ℕ
event_key e = e.outbox_id

-- `session.get(OutboxEvent, outbox_id)`
unfoldable pub get_row : Db → ℕ → Option OutboxEvent
get_row db i = find event_key i db.events

-- published_at IS NULL AND parked_at IS NULL
unfoldable pub is_waiting : OutboxEvent → Bool
is_waiting e = is_none e.published_at && is_none e.parked_at

abbrev pub domain_topic : String
domain_topic = "domain"

abbrev pub internal_topic : String
internal_topic = "internal"

abbrev pub delivery_attempts_exhausted : String
delivery_attempts_exhausted = "delivery_attempts_exhausted"

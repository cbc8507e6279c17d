-- ===== src/Projection/Acknowledge.antt =====
-- `acknowledge_projection` of repositories/projection.py, with its private helpers.
pub mod Replay
use ua_web_data_collector_sp.Base.{
  ℕ, ◌+◌, ◌==◌, String, Bool, true, false, ◌&&◌, ◌||◌, not, Option, none, some, List, [], ◌∷◌, ◌++◌,
  max, str_eq, if◌then◌else◌, is_some, is_none, or_default,
}
use ua_web_data_collector_sp.Errors.{
  Result, ok, err, ◌>>=◌, ◌>>◌, require, or_raise, integrity_error, not_found, conflict,
}
use ua_web_data_collector_sp.Clock.{When, resolve_now}
use ua_web_data_collector_sp.Sql.{rows_where, update_where, one_or_none, find}
use ua_web_data_collector_sp.Outbox.Rows.{OutboxEvent, domain_topic}
use ua_web_data_collector_sp.Queue.Rows.{succeeded}
use ua_web_data_collector_sp.Projection.Rows.{
  ProjectionTask, ProjectionAcknowledgement, EntityIndex, AppliedProjectionReceipt, ArtifactRef,
  DomainChangedEvent, ChangeEvent, Encoding, Db, acknowledgement_key, get_projection_task,
  get_acknowledgement, should_emit_domain_changed,
}
use ua_web_data_collector_sp.Projection.Record.{is_new_event}
use ua_web_data_collector_sp.Projection.Tasks.{lock_owned_task}

-- `_receipt_event_sha256`
unfoldable pub receipt_event_sha256 : AppliedProjectionReceipt → Option String
receipt_event_sha256 r = elim r.event_sha256 [
  | some s ↦ some s
  | none ↦ elim r.event_artifact [ none ↦ none | some a ↦ some a.sha256 ]
]

unfoldable pub acknowledgement_row :
    AppliedProjectionReceipt → (task_id now : ℕ) → ProjectionAcknowledgement
unfolding receipt_event_sha256
acknowledgement_row r task_id now = record {
  task_id = task_id;
  entity_uuid = r.entity_uuid;
  projection_version = r.projection_version;
  receipt_id = r.projection_task_id;
  receipt_cluster_time = r.cluster_time;
  mongo_document_id = some r.document_id;
  applied_to_current = r.applied_to_current;
  state_changed = r.state_changed;
  result_version = r.result_version;
  result_hash = r.result_hash;
  previous_hash = r.previous_hash;
  event_id = r.event_id;
  event_sha256 = receipt_event_sha256 r;
  acknowledged_at = now;
  created_at = now;
}

abbrev pub same_text : Option String → Option String → Bool
same_text none none = true
same_text (some a) (some b) = str_eq a b
same_text _ _ = false

abbrev pub same_uuid : Option ℕ → Option ℕ → Bool
same_uuid none none = true
same_uuid (some a) (some b) = a == b
same_uuid _ _ = false

abbrev pub same_flag : Bool → Bool → Bool
same_flag true b = b
same_flag false b = not b

-- `_require_same_receipt`: every column but the times and `receipt_id`.
unfoldable pub is_same_receipt : ProjectionAcknowledgement → AppliedProjectionReceipt → Bool
unfolding receipt_event_sha256
is_same_receipt a r =
    a.entity_uuid == r.entity_uuid
    && (a.projection_version == r.projection_version
        && (str_eq a.receipt_cluster_time r.cluster_time
            && (same_uuid a.mongo_document_id (some r.document_id)
                && (same_flag a.applied_to_current r.applied_to_current
                    && (same_flag a.state_changed r.state_changed
                        && (a.result_version == r.result_version
                            && (str_eq a.result_hash r.result_hash
                                && (same_text a.previous_hash r.previous_hash
                                    && (same_uuid a.event_id r.event_id
                                        && same_text a.event_sha256
                                            (receipt_event_sha256 r))))))))))

unfoldable pub confirmed_at_version :
    AppliedProjectionReceipt → (now : ℕ) → EntityIndex → EntityIndex
confirmed_at_version r now e = record e {
  confirmed_projection_version = max e.confirmed_projection_version r.projection_version;
  confirmed_at = some now;
  mongo_collection = some (or_default e.mongo_collection r.target_collection);
  mongo_document_id = some (or_default e.mongo_document_id r.document_id);
  updated_at = now;
}

unfoldable pub succeeded_task : (now : ℕ) → ProjectionTask → ProjectionTask
succeeded_task now t = record t {
  status = succeeded;
  lease_owner = none;
  lease_expires_at = none;
  finished_at = some now;
  updated_at = now;
}

-- The event's metadata: the argument, or what the receipt's bytes say.
unfoldable pub descriptor :
    Encoding → AppliedProjectionReceipt → Option DomainChangedEvent → Result DomainChangedEvent
descriptor enc r (some event) = ok event
descriptor enc r none = elim r.event_bytes [
  | none ↦ err conflict
  | some bytes ↦ enc.decode_event bytes
]

-- `receipt.event_id is not None and descriptor.event_id != receipt.event_id`
unfoldable pub names_other : AppliedProjectionReceipt → DomainChangedEvent → Bool
names_other r d = elim r.event_id [ none ↦ false | some i ↦ not (d.event_id == i) ]

abbrev pub artifact_media_type : AppliedProjectionReceipt → Option String
artifact_media_type r = elim r.event_artifact [ none ↦ none | some a ↦ some a.media_type ]

-- `receipt.event_media_type or …`, an empty text counting as none.
unfoldable pub receipt_media_type : AppliedProjectionReceipt → Option String
receipt_media_type r = elim r.event_media_type [
  | none ↦ artifact_media_type r
  | some m ↦ if str_eq m "" then artifact_media_type r else some m
]

abbrev pub artifact_uri : AppliedProjectionReceipt → Option String
artifact_uri r = elim r.event_artifact [ none ↦ none | some a ↦ some a.uri ]

abbrev pub artifact_size : AppliedProjectionReceipt → Option ℕ
artifact_size r = elim r.event_artifact [ none ↦ none | some a ↦ some a.size_bytes ]

unfoldable pub change_event_row :
    AppliedProjectionReceipt
    → DomainChangedEvent
    → (sha256 media_type : String) → (now change_event_id : ℕ) → ChangeEvent
change_event_row r d sha256 media_type now change_event_id = record {
  change_event_id = change_event_id;
  event_id = d.event_id;
  aggregate_id = r.entity_uuid;
  aggregate_version = r.projection_version;
  event_type = d.event_type;
  payload_schema_version = d.payload_schema_version;
  projection_task_id = r.projection_task_id;
  previous_state_hash = r.previous_hash;
  result_state_hash = r.result_hash;
  event_bytes = r.event_bytes;
  event_media_type = media_type;
  event_sha256 = sha256;
  event_artifact_uri = artifact_uri r;
  event_artifact_size_bytes = artifact_size r;
  occurred_at = r.committed_at;
  created_at = now;
}

unfoldable pub domain_outbox_row :
    AppliedProjectionReceipt
    → DomainChangedEvent
    → (sha256 media_type : String) → (now outbox_id : ℕ) → OutboxEvent
domain_outbox_row r d sha256 media_type now outbox_id = record {
  outbox_id = outbox_id;
  event_id = d.event_id;
  topic = domain_topic;
  event_type = d.event_type;
  aggregate_id = r.entity_uuid;
  aggregate_version = r.projection_version;
  payload_schema_version = d.payload_schema_version;
  payload_bytes = r.event_bytes;
  payload_media_type = media_type;
  payload_sha256 = sha256;
  payload_artifact_uri = artifact_uri r;
  available_at = now;
  published_at = none;
  parked_at = none;
  attempts = 0;
  delivery_attempts = 0;
  last_error_code = none;
  last_error_message = none;
  created_at = now;
  updated_at = now;
}

-- The arguments of `acknowledge_projection`, with the ids that it draws.
pub record Ack : Type 0 where
  pub task_id : ℕ
  pub receipt : AppliedProjectionReceipt
  pub event : Option DomainChangedEvent
  pub owner : Option String
  pub change_event_id : ℕ
  pub outbox_id : ℕ

pub record AcknowledgeResult : Type 0 where
  pub acknowledgement : ProjectionAcknowledgement
  pub confirmed_projection_version : ℕ
  pub change_event : Option ChangeEvent
  pub outbox_event : Option OutboxEvent
  pub created : Bool

-- `_domain_changed_rows`
unfoldable pub domain_changed_rows : Encoding → Ack → (now : ℕ) → Result (ChangeEvent × OutboxEvent)
unfolding descriptor names_other receipt_event_sha256 receipt_media_type change_event_row
    domain_outbox_row
domain_changed_rows enc a now = do
  d ← descriptor enc a.receipt a.event
  require (not (names_other a.receipt d)) conflict
  sha256 ← or_raise (receipt_event_sha256 a.receipt) conflict
  media_type ← or_raise (receipt_media_type a.receipt) conflict
  ok (
    change_event_row a.receipt d sha256 media_type now a.change_event_id,
    domain_outbox_row a.receipt d sha256 media_type now a.outbox_id,
  )

-- The constraints of `change_events`: its two unique columns, and either bytes or an artifact.
unfoldable pub is_new_change : ChangeEvent → List ChangeEvent → Bool
is_new_change c rows =
    is_none (find (λ (x : ChangeEvent). x.change_event_id) c.change_event_id rows)
    && (is_none (find (λ (x : ChangeEvent). x.event_id) c.event_id rows)
        && not (same_flag (is_none c.event_bytes) (is_none c.event_artifact_uri)))

-- The rows of the event, written where the receipt calls for it.
unfoldable pub emit :
    Db → Encoding → Ack → (now : ℕ) → Result (Option ChangeEvent × Option OutboxEvent × Db)
unfolding should_emit_domain_changed domain_changed_rows is_new_change is_new_event
emit db enc a now =
    if should_emit_domain_changed a.receipt
    then (domain_changed_rows enc a now >>= λ rows.
        require (is_new_change rows.0 db.change_events && is_new_event rows.1 db.events)
          integrity_error
        >> ok (
          some rows.0,
          some rows.1,
          record db {
            change_events = db.change_events ++ rows.0 ∷ [];
            events = db.events ++ rows.1 ∷ [];
          },
        ))
    else ok (none, none, db)

unfoldable pub entity_row : Db → ℕ → Option EntityIndex
entity_row db u = one_or_none (rows_where (λ (e : EntityIndex). e.entity_uuid == u) db.entities)

-- A first acknowledgement of the task: its row is inserted, the entity's version confirmed, the task ended.
unfoldable pub acknowledge_new : Db → Encoding → Ack → (now : ℕ) → Result (AcknowledgeResult × Db)
unfolding acknowledgement_row entity_row confirmed_at_version succeeded_task emit
acknowledge_new db enc a now = do
  entity ← or_raise (entity_row db a.receipt.entity_uuid) not_found
  let row = acknowledgement_row a.receipt a.task_id now
  emitted ←
      emit
        (record db {
          acknowledgements = db.acknowledgements ++ row ∷ [];
          entities =
              update_where (λ e. e.entity_uuid == a.receipt.entity_uuid)
                (confirmed_at_version a.receipt now) db.entities;
          tasks = update_where (λ t. t.task_id == a.task_id) (succeeded_task now) db.tasks;
        })
        enc a now
  ok (
    record {
      acknowledgement = row;
      confirmed_projection_version =
          (confirmed_at_version a.receipt now entity).confirmed_projection_version;
      change_event = emitted.0;
      outbox_event = emitted.1;
      created = true;
    },
    emitted.2,
  )

-- ON CONFLICT (task_id) DO NOTHING left the row as it was.
unfoldable pub acknowledge_again :
    Db → AppliedProjectionReceipt → ProjectionAcknowledgement → Result (AcknowledgeResult × Db)
unfolding is_same_receipt entity_row
acknowledge_again db r existing = do
  require (is_same_receipt existing r) conflict
  entity ← or_raise (entity_row db r.entity_uuid) not_found
  ok (
    record {
      acknowledgement = existing;
      confirmed_projection_version = entity.confirmed_projection_version;
      change_event = none;
      outbox_event = none;
      created = false;
    },
    db,
  )

-- `_lock_owned` for an owner, else the task under its id.
unfoldable pub lock_task : Db → ℕ → Option String → Result ProjectionTask
unfolding lock_owned_task get_projection_task
lock_task db i (some owner) = lock_owned_task db i owner
lock_task db i none = or_raise (get_projection_task db i) not_found

unfoldable pub acknowledge_projection : Db → Encoding → Ack → When → Result (AcknowledgeResult × Db)
unfolding lock_task get_acknowledgement acknowledge_new acknowledge_again
acknowledge_projection db enc a w = do
  current ← resolve_now w
  require (a.receipt.projection_task_id == a.task_id) conflict
  task ← lock_task db a.task_id a.owner
  require
      (task.entity_uuid == a.receipt.entity_uuid
        && task.projection_version == a.receipt.projection_version)
      conflict
  elim (get_acknowledgement db a.task_id) [
    | some existing ↦ acknowledge_again db a.receipt existing
    | none ↦ acknowledge_new db enc a current
  ]

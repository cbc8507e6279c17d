-- ===== src/Projection/Examples.antt =====
-- Runs of the projection tasks on small tables.
use ua_web_data_collector_sp.Base.{
  String, ◌≢◌, if◌then◌else◌, elem, str_eq, subst, sym, false, ℕ, ◌≤◌, ◌≡◌, refl, Bool, true, false,
  none, some, List, [], ◌∷◌, pos, All, mentions,
}
use ua_web_data_collector_sp.Errors.{err, ok, conflict}
use ua_web_data_collector_sp.Clock.{at_instant, resolve_now, resolve, require_aware_utc}
use ua_web_data_collector_sp.Sql.{find, rows_where, one_or_none, update_where}
use ua_web_data_collector_sp.Artifacts.Rows.{
  NormalizedArtifactRef, news, normalized_artifact_values,
}
use ua_web_data_collector_sp.Projection.Rows.{
  ProjectionTask, EntityIndex, ParseAttemptRecord, AppliedProjectionReceipt, Encoding, Db,
  get_projection_task, get_acknowledgement, should_emit_domain_changed,
}
use ua_web_data_collector_sp.Projection.Parse.{
  Parse, ParseResult, join, parse_attempt_row, command_of, command_outbox_row, with_lineage,
  has_consistent_lineage, artifact_for, has_same_content, is_valid_command, parse_key,
}
use ua_web_data_collector_sp.Projection.ParseKey.{fields, parse_key-distinct}
use ua_web_data_collector_sp.Projection.Record.{
  record_parse_result, record_new, new_task, with_version, key_of, task_of_key, is_insertable,
  is_new_event, issue,
}
use ua_web_data_collector_sp.Projection.Record.Replay.{record_parse_result-replay}
use ua_web_data_collector_sp.Projection.Acknowledge.{
  Ack, AcknowledgeResult, acknowledge_projection, acknowledgement_row, confirmed_at_version,
  succeeded_task, emit, lock_task, acknowledge_new, entity_row, receipt_event_sha256,
}
use ua_web_data_collector_sp.Projection.Acknowledge.Replay.{acknowledge-replay}
use ua_web_data_collector_sp.Projection.Versions.{up_to, top, versions_of}
use ua_web_data_collector_sp.Projection.Calls.{Call, parses, claims, acknowledges, run}
use ua_web_data_collector_sp.Projection.Calls.Counts.{
  IsCounted, task_versions, acknowledged_versions,
}
use ua_web_data_collector_sp.Projection.Calls.Invariant.{run-issued, run-confirmed}
use ua_web_data_collector_sp.Sql.Pointwise.{Pointwise}
use ua_web_data_collector_sp.Projection.Calls.{step}
use ua_web_data_collector_sp.Projection.Calls.Refines.{Moved, step-Moved}
use ua_web_data_collector_sp.Base.{sort}
use ua_web_data_collector_sp.Projection.Entities.{
  list_entities, is_listed, is_behind, index_order, IsPage, list_entities-IsPage,
}

abbrev digits : Encoding
digits = record {
  sha256_hex = λ bytes. "digest";
  uuid_text = λ i. "uuid";
  utf8 = λ s. 65 ∷ [];
  canonical_json_bytes = λ c. 123 ∷ 125 ∷ [];
  has_valid_texts = λ c. true;
  decode_event = λ bytes. err conflict;
}

abbrev entity : EntityIndex
entity = record {
  entity_uuid = 1;
  domain = "news";
  entity_kind = "article";
  source_id = "s";
  source_item_id = "i";
  identity_hash = none;
  canonical_url = none;
  mongo_collection = none;
  mongo_document_id = none;
  projection_version = 0;
  confirmed_projection_version = 0;
  confirmed_at = none;
  created_at = 0;
  updated_at = 0;
}

abbrev one_entity : Db
one_entity = record {
  entities = entity ∷ [];
  artifacts = [];
  parse_attempts = [];
  tasks = [];
  acknowledgements = [];
  change_events = [];
  events = [];
}

abbrev two_entities : Db
two_entities = record one_entity { entities = record entity { entity_uuid = 2 } ∷ entity ∷ [] }

abbrev attempt : ParseAttemptRecord
attempt = record {
  raw_sha256 = "raw";
  parser_version = "p1";
  outcome = "succeeded";
  domain = "news";
  fetch_id = some 5;
  job_id = none;
  source_id = none;
  records_count = 1;
  validation_errors_count = 0;
  error_code = none;
  error_message = none;
  started_at = none;
  finished_at = none;
}

abbrev artifact_ref : NormalizedArtifactRef
artifact_ref = record {
  uri = "s3://n/1";
  sha256 = "aa";
  size_bytes = 3;
  media_type = "application/json";
  schema_version = "1.0";
  entity_uuid = 1;
  domain = news;
  parser_version = "p1";
  fetch_id = 5;
  raw_sha256 = "raw";
  raw_uri = "s3://raw/1";
  produced_at = 0;
}

abbrev parse : Parse
parse = record {
  attempt = attempt;
  artifact_ref = artifact_ref;
  object_key = "n/1";
  target_collection = "news";
  target_schema_version = "1.0";
  priority = pos 0;
  max_attempts = 5;
  not_before = none;
  artifact_id = 10;
  parse_attempt_id = 11;
  task_id = 12;
  outbox_id = 13;
}

abbrev receipt : AppliedProjectionReceipt
receipt = record {
  projection_task_id = 12;
  entity_uuid = 1;
  projection_version = 1;
  target_collection = "news";
  document_id = 20;
  applied_to_current = true;
  state_changed = false;
  previous_version = none;
  previous_hash = none;
  result_version = 1;
  result_hash = "v1:0";
  event_id = none;
  event_bytes = none;
  event_media_type = none;
  event_sha256 = none;
  event_artifact = none;
  committed_at = 150;
  cluster_time = "1:1";
}

abbrev ack : Ack
ack = record {
  task_id = 12;
  receipt = receipt;
  event = none;
  owner = none;
  change_event_id = 30;
  outbox_id = 31;
}

abbrev unlocked : ℕ → Bool
unlocked i = false

abbrev calls : List Call
calls =
    parses parse (at_instant 100)
    ∷ claims "projector" 60 [] 10 (at_instant 150) unlocked
    ∷ acknowledges ack (at_instant 200)
    ∷ parses parse (at_instant 300)
    ∷ []

one_entity-IsCounted : IsCounted one_entity
one_entity-IsCounted =
    unfold task_versions acknowledged_versions versions_of up_to top in
    record { sound = (record { issued = refl; confirmed = refl }, tt); below = tt }

run-issued_example :
    IsCounted (run digits one_entity calls)
    × All
        (λ e.
          task_versions (run digits one_entity calls).tasks e.entity_uuid
          ≡ up_to e.projection_version)
        (run digits one_entity calls).entities
run-issued_example = run-issued digits one_entity calls one_entity-IsCounted

run-confirmed_example :
    All
      (λ e.
        (e.confirmed_projection_version
          ≡ top
              (acknowledged_versions (run digits one_entity calls).acknowledgements e.entity_uuid))
        × (e.confirmed_projection_version ≤ e.projection_version))
      (run digits one_entity calls).entities
run-confirmed_example = run-confirmed digits one_entity calls one_entity-IsCounted

-- Digests that tell the two texts below apart.
abbrev telling : Encoding
telling = record digits {
  sha256_hex = λ bytes. if elem 2 bytes then "b" else "a";
  utf8 = λ text. if str_eq text "offers" then 2 ∷ [] else 1 ∷ [];
}

parse_key-distinct_example :
    parse_key telling 1 "raw" "p1" 2 "items" ≢ parse_key telling 1 "raw" "p1" 2 "offers"
parse_key-distinct_example =
    parse_key-distinct telling 1 1 "raw" "raw" "p1" "p1" 2 2 "items" "offers"
      (refl, (refl, (refl, (refl, (refl, tt))))) (refl, (refl, (refl, (refl, (refl, tt)))))
      (λ same. absurd (unfold join in str_ne same)) (λ same. absurd (fields_differ same))
  where
    str_ne : ◌≡◌ {A = String} "a" "b" → ⊥
    str_ne e = absurd (let f : false ≡ true = subst (λ t. str_eq t "b" ≡ true) (sym e) refl in cc)

    fields_differ :
        fields telling 1 "raw" "p1" 2 "items" ≡ fields telling 1 "raw" "p1" 2 "offers" → ⊥
    fields_differ e = cc

abbrev task : ProjectionTask
task = new_task digits parse (normalized_artifact_values artifact_ref "n/1" 100 10) 1 100

abbrev recorded : ParseResult
recorded = record {
  parse_attempt = parse_attempt_row attempt 100 11;
  artifact = with_lineage 11 (normalized_artifact_values artifact_ref "n/1" 100 10);
  task = task;
  command = command_of task artifact_ref;
  outbox_event = some (command_outbox_row digits (command_of task artifact_ref) 100 13);
  created = true;
}

abbrev parsed : Db
parsed = record one_entity {
  entities = with_version 1 100 entity ∷ [];
  artifacts = with_lineage 11 (normalized_artifact_values artifact_ref "n/1" 100 10) ∷ [];
  parse_attempts = parse_attempt_row attempt 100 11 ∷ [];
  tasks = task ∷ [];
  events = command_outbox_row digits (command_of task artifact_ref) 100 13 ∷ [];
}

abbrev retried : Parse
retried = record parse {
  object_key = "other";
  priority = pos 9;
  artifact_id = 40;
  parse_attempt_id = 41;
  task_id = 42;
  outbox_id = 43;
}

parsed_once : record_parse_result one_entity digits parse (at_instant 100) ≡ ok (recorded, parsed)
unfolding record_parse_result has_consistent_lineage resolve_now resolve require_aware_utc
    one_or_none rows_where find update_where key_of parse_key join task_of_key artifact_for
    has_same_content normalized_artifact_values record_new parse_attempt_row with_lineage
    with_version new_task issue is_insertable command_of is_valid_command command_outbox_row
    is_new_event mentions
parsed_once = refl

record_parse_result-replay_example :
    record_parse_result parsed digits retried (at_instant 300)
    ≡ ok (record recorded { created = false }, parsed)
record_parse_result-replay_example =
    record_parse_result-replay digits one_entity parsed parse retried (at_instant 100)
      (at_instant 300) 300 recorded tt parsed_once
      (unfold resolve_now resolve require_aware_utc in refl)

abbrev acknowledged : AcknowledgeResult
acknowledged = record {
  acknowledgement = acknowledgement_row receipt 12 200;
  confirmed_projection_version = 1;
  change_event = none;
  outbox_event = none;
  created = true;
}

abbrev confirmed : Db
confirmed = record parsed {
  entities = confirmed_at_version receipt 200 (with_version 1 100 entity) ∷ [];
  tasks = succeeded_task 200 task ∷ [];
  acknowledgements = acknowledgement_row receipt 12 200 ∷ [];
}

acknowledged_once :
    acknowledge_projection parsed digits ack (at_instant 200) ≡ ok (acknowledged, confirmed)
unfolding acknowledge_projection resolve_now resolve require_aware_utc lock_task get_projection_task
    find get_acknowledgement acknowledge_new entity_row one_or_none rows_where update_where
    with_version new_task acknowledgement_row receipt_event_sha256 confirmed_at_version
    succeeded_task emit should_emit_domain_changed
acknowledged_once = refl

acknowledge-replay_example :
    acknowledge_projection confirmed digits ack (at_instant 400)
    ≡ ok (record acknowledged { created = false }, confirmed)
acknowledge-replay_example =
    acknowledge-replay digits parsed confirmed ack (at_instant 200) (at_instant 400) 400
      acknowledged none 30 31 (unfold find in (refl, tt)) acknowledged_once
      (unfold resolve_now resolve require_aware_utc in refl)

step-Moved_example :
    Pointwise Moved one_entity.entities
      (step digits one_entity (parses parse (at_instant 100))).entities
step-Moved_example =
    step-Moved digits one_entity (parses parse (at_instant 100)) one_entity-IsCounted

list_entities-IsPage_example : IsPage two_entities news none 1 (entity ∷ [])
list_entities-IsPage_example =
    list_entities-IsPage two_entities news none 1 (entity ∷ [])
      (unfold list_entities is_listed is_behind index_order rows_where sort in refl)

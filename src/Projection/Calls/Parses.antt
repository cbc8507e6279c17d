-- ===== src/Projection/Calls/Parses.antt =====
-- `record_parse_result` and `record_parse_failure` against the counters of the entities.
use ua_web_data_collector_sp.Outbox.Rows.{OutboxEvent}
use ua_web_data_collector_sp.Projection.Calls.Effects.{Effect, stays, issues, unchanged}
use ua_web_data_collector_sp.Base.{
  ℕ, ◌+◌, ◌==◌, ◌≡◌, refl, ◌&&◌, ◌||◌, some, List, [], ◌∷◌, ◌++◌, str_eq, is_some, is_none,
  Option-cases, inl, inr, mentions,
}
use ua_web_data_collector_sp.Errors.{
  after, after-bind, require, or_raise, or_raise-eq-ok, value_error, integrity_error, not_found,
  conflict, invalid_value,
}
use ua_web_data_collector_sp.Clock.{When, resolve_now}
use ua_web_data_collector_sp.Sql.{rows_where, one_or_none, find}
use ua_web_data_collector_sp.Artifacts.Rows.{NormalizedArtifact, NormalizedArtifactRef}
use ua_web_data_collector_sp.Projection.Rows.{
  ProjectionTask, EntityIndex, ParseAttempt, ParseAttemptRecord, Encoding, Db, artifact_key,
  parse_attempt_key,
}
use ua_web_data_collector_sp.Projection.Parse.{
  Parse, artifact_for, command_of, is_valid_command, success_parse_outcomes, failed_parse_outcomes,
  has_consistent_lineage, command_outbox_row,
}
use ua_web_data_collector_sp.Projection.Record.{
  new_task, issue, record_new, existing_parse_result, record_parse_result, record_parse_failure,
  event_of, attempt_of, is_acknowledged, is_insertable, is_new_event, task_of_key, key_of,
}

existing-same :
    (db : Db) (enc : Encoding) (t : ProjectionTask) (r : NormalizedArtifactRef)
    → Effect db (after db (existing_parse_result db enc t r))
unfolding existing_parse_result
existing-same db enc t r =
    after-bind (Effect db) db (or_raise (find artifact_key t.artifact_id db.artifacts) not_found) _
      unchanged
      λ artifact _.
        after-bind (Effect db) db
          (require (str_eq artifact.sha256 r.sha256 && t.entity_uuid == r.entity_uuid) conflict) _
          unchanged
          λ _ _.
            after-bind (Effect db) db
              (require (is_some (event_of db t.task_id) || is_acknowledged db t) conflict) _
              unchanged
              λ _ _.
                after-bind (Effect db) db (or_raise (attempt_of db t.parse_attempt_id) conflict) _
                  unchanged
                  λ _ _.
                    after-bind (Effect db) db
                      (require (is_valid_command enc (command_of t r)) value_error) _ unchanged
                      λ _ _. unchanged

issue-after :
    (db base : Db) (enc : Encoding) (p : Parse) (now : ℕ) (row : ParseAttempt)
    (artifact : NormalizedArtifact) (t : ProjectionTask)
    → ((events : List OutboxEvent)
        → Effect base (record db { tasks = db.tasks ++ t ∷ []; events = events }))
    → Effect base (after base (issue db enc p now row artifact t))
unfolding issue
issue-after db base enc p now row artifact t issued =
    after-bind (Effect base) base (require (is_insertable t db.tasks) integrity_error) _ unchanged
      λ _ _.
        after-bind (Effect base) base
          (require (is_valid_command enc (command_of t p.artifact_ref)) value_error) _ unchanged
          λ _ _.
            after-bind (Effect base) base
              (require
                (is_new_event (command_outbox_row enc (command_of t p.artifact_ref) now p.outbox_id)
                  db.events)
                integrity_error)
              _ unchanged λ _ _. issued _

record_new-Effect :
    (db : Db) (enc : Encoding) (p : Parse) (now : ℕ) (e : EntityIndex)
    (found : NormalizedArtifact × List NormalizedArtifact)
    → one_or_none
        (rows_where (λ (x : EntityIndex). x.entity_uuid == p.artifact_ref.entity_uuid) db.entities)
      ≡ some e
    → Effect db (after db (record_new db enc p now e found))
unfolding record_new
record_new-Effect db enc p now e (artifact, artifacts) own =
    after-bind (Effect db) db
      (require (is_none (find parse_attempt_key p.parse_attempt_id db.parse_attempts))
        integrity_error)
      _ unchanged
      λ _ _. issue-after _ db enc p now _ _ t (λ events.
        issues p.artifact_ref.entity_uuid e t now own (unfold new_task in refl)
          (unfold new_task in refl) refl refl refl)
  where
    t : ProjectionTask
    t = new_task enc p artifact (e.projection_version + 1) now

pub parse-Effect :
    (db : Db) (enc : Encoding) (p : Parse) (w : When)
    → Effect db (after db (record_parse_result db enc p w))
unfolding record_parse_result
parse-Effect db enc p w =
    after-bind (Effect db) db
      (require (mentions success_parse_outcomes p.attempt.outcome) invalid_value) _ unchanged
      λ _ _.
        after-bind (Effect db) db
          (require (has_consistent_lineage p.attempt p.artifact_ref) invalid_value) _ unchanged
          λ _ _. after-bind (Effect db) db (resolve_now w) _ unchanged λ now _.
            after-bind (Effect db) db
              (or_raise
                (one_or_none (
                  rows_where (λ (e : EntityIndex). e.entity_uuid == p.artifact_ref.entity_uuid)
                    db.entities))
                not_found)
              _ unchanged
              λ e found. elim (Option-cases (task_of_key db (key_of enc p))) [
                | inr (t, k) ↦ rw k (existing-same db enc t p.artifact_ref)
                | inl k ↦ rw k (
                    after-bind (Effect db) db
                      (artifact_for db p.artifact_ref p.object_key now p.artifact_id) _ unchanged
                      λ artifact _.
                        record_new-Effect db enc p now e artifact (or_raise-eq-ok _ _ found))
              ]

pub fail-Effect :
    (db : Db) (a : ParseAttemptRecord) (w : When) (i : ℕ)
    → Effect db (after db (record_parse_failure db a w i))
unfolding record_parse_failure
fail-Effect db a w i =
    after-bind (Effect db) db (require (mentions failed_parse_outcomes a.outcome) invalid_value) _
      unchanged
      λ _ _. after-bind (Effect db) db (resolve_now w) _ unchanged λ now _.
        after-bind (Effect db) db
          (require (is_none (find parse_attempt_key i db.parse_attempts)) integrity_error) _
          unchanged λ _ _. stays refl refl refl

-- ===== src/Projection/Record/Replay.antt =====
-- `record_parse_result` called again for the same parse, as a retried job does.
use ua_web_data_collector_sp.Base.{
  ℕ, ◌+◌, ◌==◌, ==_iff, ==_refl, ◌≡◌, refl, sym, subst, true, false, ◌&&◌, ◌||◌, &&_parts, Option,
  some, List, [], ◌∷◌, ◌++◌, str_eq, eq_refl, is_some, is_none, mentions, Option-cases, inl, inr,
}
use ua_web_data_collector_sp.Errors.{
  ok, IfOk, IfOk-bind, require, or_raise, or_raise-eq-ok, require-eq-ok, conflict, not_found,
  integrity_error, invalid_value, value_error,
}
use ua_web_data_collector_sp.Clock.{When, resolve_now}
use ua_web_data_collector_sp.Sql.{rows_where, update_where, one_or_none, find, Unique}
use ua_web_data_collector_sp.Sql.Laws.{find-update_where, find-append_self, rows_where-pass}
use ua_web_data_collector_sp.Sql.Select.{
  one_or_none-update_where, one_or_none-append_only, one_or_none-All,
}
use ua_web_data_collector_sp.Artifacts.Rows.{NormalizedArtifact}
use ua_web_data_collector_sp.Outbox.Rows.{OutboxEvent, event_key}
use ua_web_data_collector_sp.Projection.Rows.{
  ProjectionTask, EntityIndex, ParseAttempt, Encoding, Db, task_key, artifact_key,
  parse_attempt_key,
}
use ua_web_data_collector_sp.Projection.Parse.{
  Parse, ParseResult, success_parse_outcomes, has_consistent_lineage, parse_attempt_row,
  artifact_for, with_lineage, command_of, is_valid_command, command_outbox_row,
}
use ua_web_data_collector_sp.Projection.Record.{
  key_of, new_task, with_version, is_insertable, is_new_event, issue, record_new, is_acknowledged,
  event_of, attempt_of, existing_parse_result, task_of_key, record_parse_result,
}
use ua_web_data_collector_sp.Projection.Record.Found.{is_none-eq, Holds, artifact_for-Holds}

module _ (enc : Encoding) (p p' : Parse) (w' : When) (t' : ℕ) (r' : resolve_now w' ≡ ok t') where
  -- The same parse: what else the call passes is not looked at.
  abbrev again : Parse
  again = record p' {
    attempt = p.attempt;
    artifact_ref = p.artifact_ref;
    target_collection = p.target_collection;
  }

  abbrev Spec : ParseResult × Db → Type 0
  Spec x = record_parse_result x.1 enc again w' ≡ ok (record x.0 { created = false }, x.1)

  abbrev has_entity : List EntityIndex → Option EntityIndex
  has_entity rows =
      one_or_none
        (rows_where (λ (e : EntityIndex). e.entity_uuid == p.artifact_ref.entity_uuid) rows)

  parse-replayed :
      (db : Db) (e : EntityIndex) (t : ProjectionTask) (artifact : NormalizedArtifact)
      (row : ParseAttempt)
      → mentions success_parse_outcomes p.attempt.outcome ≡ true
      → has_consistent_lineage p.attempt p.artifact_ref ≡ true
      → has_entity db.entities ≡ some e
      → task_of_key db (key_of enc p) ≡ some t
      → find artifact_key t.artifact_id db.artifacts ≡ some artifact
      → (str_eq artifact.sha256 p.artifact_ref.sha256
          && t.entity_uuid == p.artifact_ref.entity_uuid)
        ≡ true
      → (is_some (event_of db t.task_id) || is_acknowledged db t) ≡ true
      → attempt_of db t.parse_attempt_id ≡ some row
      → is_valid_command enc (command_of t p.artifact_ref) ≡ true
      → record_parse_result db enc again w'
        ≡ ok (
          record {
            parse_attempt = row;
            artifact = artifact;
            task = t;
            command = command_of t p.artifact_ref;
            outbox_event = event_of db t.task_id;
            created = false;
          },
          db,
        )
  unfolding record_parse_result existing_parse_result key_of
  parse-replayed db e t artifact row outcome lineage entity key found same sent attempt valid =
      rw outcome (
        rw lineage
          (rw r' (rw entity (rw key (rw found (rw same (rw sent (rw attempt (rw valid refl)))))))))

  existing-replayed :
      (db : Db) (e : EntityIndex) (t : ProjectionTask)
      → mentions success_parse_outcomes p.attempt.outcome ≡ true
      → has_consistent_lineage p.attempt p.artifact_ref ≡ true
      → has_entity db.entities ≡ some e
      → task_of_key db (key_of enc p) ≡ some t
      → IfOk Spec (existing_parse_result db enc t p.artifact_ref)
  unfolding existing_parse_result
  existing-replayed db e t outcome lineage entity key =
      IfOk-bind Spec (or_raise (find artifact_key t.artifact_id db.artifacts) not_found) _
        λ artifact found.
          IfOk-bind Spec
            (require
              (str_eq artifact.sha256 p.artifact_ref.sha256
                && t.entity_uuid == p.artifact_ref.entity_uuid)
              conflict)
            _
            λ _ same.
              IfOk-bind Spec
                (require (is_some (event_of db t.task_id) || is_acknowledged db t) conflict) _
                λ _ sent.
                  IfOk-bind Spec (or_raise (attempt_of db t.parse_attempt_id) conflict) _
                    λ row attempt.
                      IfOk-bind Spec
                        (require (is_valid_command enc (command_of t p.artifact_ref)) value_error) _
                        λ _ valid.
                          parse-replayed db e t artifact row outcome lineage entity key
                            (or_raise-eq-ok _ _ found) (require-eq-ok _ _ same)
                            (require-eq-ok _ _ sent) (or_raise-eq-ok _ _ attempt)
                            (require-eq-ok _ _ valid)

  -- The rows of a new parse answer a second call.
  new-replayed :
      (db : Db) (now : ℕ) (e : EntityIndex) (found : NormalizedArtifact × List NormalizedArtifact)
      → mentions success_parse_outcomes p.attempt.outcome ≡ true
      → has_consistent_lineage p.attempt p.artifact_ref ≡ true
      → has_entity db.entities ≡ some e
      → Holds p.artifact_ref found
      → IfOk Spec (record_new db enc p now e found)
  unfolding record_new issue
  new-replayed db now e (artifact, artifacts) outcome lineage entity holds =
      IfOk-bind Spec
        (require (is_none (find parse_attempt_key p.parse_attempt_id db.parse_attempts))
          integrity_error)
        _
        λ _ fresh.
          IfOk-bind Spec (require (is_insertable t db.tasks) integrity_error) _ λ _ insertable.
            IfOk-bind Spec
              (require (is_valid_command enc (command_of t p.artifact_ref)) value_error) _
              λ _ valid.
                IfOk-bind Spec (require (is_new_event event db.events) integrity_error) _ λ _ new.
                  subst
                    (λ o.
                      record_parse_result written enc again w'
                      ≡ ok (
                        record {
                          parse_attempt = row;
                          artifact = with_lineage p.parse_attempt_id artifact;
                          task = t;
                          command = command_of t p.artifact_ref;
                          outbox_event = o;
                          created = false;
                        },
                        written,
                      ))
                    (event_found (require-eq-ok _ _ new))
                    (parse-replayed written (with_version (e.projection_version + 1) now e) t
                      (with_lineage p.parse_attempt_id artifact) row outcome lineage entity_stays
                      (key_found (require-eq-ok _ _ insertable)) artifact_stays same
                      (sent (require-eq-ok _ _ new)) (attempt_found (require-eq-ok _ _ fresh))
                      (require-eq-ok _ _ valid))
    where
      t : ProjectionTask
      t = new_task enc p artifact (e.projection_version + 1) now

      row : ParseAttempt
      row = parse_attempt_row p.attempt now p.parse_attempt_id

      event : OutboxEvent
      event = command_outbox_row enc (command_of t p.artifact_ref) now p.outbox_id

      written : Db
      written = record db {
        artifacts =
            update_where (λ a. a.artifact_id == artifact.artifact_id)
              (with_lineage p.parse_attempt_id) artifacts;
        parse_attempts = db.parse_attempts ++ row ∷ [];
        entities =
            update_where (λ x. x.entity_uuid == e.entity_uuid)
              (with_version (e.projection_version + 1) now) db.entities;
        tasks = db.tasks ++ t ∷ [];
        events = db.events ++ event ∷ [];
      }

      entity_stays :
          has_entity written.entities ≡ some (with_version (e.projection_version + 1) now e)
      entity_stays =
          subst
            (λ u.
              has_entity (
                update_where (λ x. x.entity_uuid == u) (with_version (e.projection_version + 1) now)
                  db.entities)
              ≡ some (with_version (e.projection_version + 1) now e))
            (sym (
              (==_iff _ _).0 (
                one_or_none-All (λ x. (x.entity_uuid == p.artifact_ref.entity_uuid) ≡ true) _ e
                  (rows_where-pass _ db.entities) entity)))
            (rw
              (
                one_or_none-update_where
                    (λ (x : EntityIndex). x.entity_uuid == p.artifact_ref.entity_uuid)
                    (with_version (e.projection_version + 1) now) db.entities
                    (unfold with_version in λ r. refl),
                entity,
              )
              refl)

      artifact_stays :
          find artifact_key t.artifact_id written.artifacts
          ≡ some (with_lineage p.parse_attempt_id artifact)
      artifact_stays =
          unfold new_task in
          rw
            (
              find-update_where artifact_key artifact.artifact_id
                  (λ a. a.artifact_id == artifact.artifact_id) (with_lineage p.parse_attempt_id)
                  artifacts (unfold with_lineage in λ a k. refl),
              holds.0,
            )
            (rw (==_refl artifact.artifact_id) refl)

      new_key :
          is_insertable t db.tasks ≡ true
          → is_none (
              one_or_none
                (rows_where (λ (x : ProjectionTask). str_eq x.parse_key (key_of enc p)) db.tasks))
            ≡ true
      new_key h =
          unfold is_insertable new_task in
          (&&_parts
            (is_none (
              one_or_none
                (rows_where (λ (x : ProjectionTask). str_eq x.parse_key (key_of enc p)) db.tasks)))
            _ (&&_parts (is_none (find task_key t.task_id db.tasks)) _ h).1).0

      key_found : is_insertable t db.tasks ≡ true → task_of_key written (key_of enc p) ≡ some t
      key_found h =
          unfold task_of_key in
          one_or_none-append_only (λ (x : ProjectionTask). str_eq x.parse_key (key_of enc p))
            db.tasks t (new_key h) (unfold new_task in eq_refl (key_of enc p))

      event_found : is_new_event event db.events ≡ true → event_of written t.task_id ≡ some event
      event_found h =
          unfold event_of in
          one_or_none-append_only (λ (x : OutboxEvent). x.event_id == t.task_id) db.events event
            (unfold is_new_event command_outbox_row command_of in
              (&&_parts (is_none (find event_key event.outbox_id db.events)) _ h).1)
            (unfold command_outbox_row command_of in ==_refl t.task_id)

      sent :
          is_new_event event db.events ≡ true
          → (is_some (event_of written t.task_id) || is_acknowledged written t) ≡ true
      sent h = rw (event_found h) refl

      same :
          (str_eq (with_lineage p.parse_attempt_id artifact).sha256 p.artifact_ref.sha256
            && t.entity_uuid == p.artifact_ref.entity_uuid)
          ≡ true
      same = unfold with_lineage new_task in rw (holds.1, ==_refl p.artifact_ref.entity_uuid) refl

      attempt_found :
          is_none (find parse_attempt_key p.parse_attempt_id db.parse_attempts) ≡ true
          → attempt_of written t.parse_attempt_id ≡ some row
      attempt_found h =
          unfold attempt_of new_task in
          find-append_self parse_attempt_key db.parse_attempts row
            (unfold parse_attempt_row in is_none-eq _ h)

  first-replayed :
      (db : Db) (w : When)
      → Unique artifact_key db.artifacts
      → IfOk Spec (record_parse_result db enc p w)
  unfolding record_parse_result
  first-replayed db w u =
      IfOk-bind Spec (require (mentions success_parse_outcomes p.attempt.outcome) invalid_value) _
        λ _ outcome.
          IfOk-bind Spec (require (has_consistent_lineage p.attempt p.artifact_ref) invalid_value) _
            λ _ lineage. IfOk-bind Spec (resolve_now w) _ λ now _.
              IfOk-bind Spec (or_raise (has_entity db.entities) not_found) _ λ e entity.
                elim (Option-cases (task_of_key db (key_of enc p))) [
                  | inr (t, k) ↦ rw k (
                      existing-replayed db e t (require-eq-ok _ _ outcome)
                        (require-eq-ok _ _ lineage) (or_raise-eq-ok _ _ entity) k)
                  | inl k ↦ rw k (
                      IfOk-bind Spec (artifact_for db p.artifact_ref p.object_key now p.artifact_id)
                        _
                        λ found a.
                          new-replayed db now e found (require-eq-ok _ _ outcome)
                            (require-eq-ok _ _ lineage) (or_raise-eq-ok _ _ entity)
                            (subst (IfOk (Holds p.artifact_ref)) a (
                              artifact_for-Holds db p.artifact_ref p.object_key now p.artifact_id
                                u)))
                ]

-- Recording a parse is idempotent. Where the ids of the artifacts are distinct, after a call of
-- `record_parse_result` that returned, a call for the same attempt, artifact and target collection,
-- whatever its other arguments, returns the same rows and the same command with `created=False`: it
-- issues no version and changes no table.
pub record_parse_result-replay :
    (enc : Encoding) (db db' : Db) (p p' : Parse) (w w' : When) (t' : ℕ) (r : ParseResult)
    → Unique artifact_key db.artifacts
    → record_parse_result db enc p w ≡ ok (r, db')
    → resolve_now w' ≡ ok t'
    → record_parse_result db' enc
        (record p' {
          attempt = p.attempt;
          artifact_ref = p.artifact_ref;
          target_collection = p.target_collection;
        })
        w'
      ≡ ok (record r { created = false }, db')
record_parse_result-replay enc db db' p p' w w' t' r u ran r' =
    subst (IfOk (Spec enc p p' w' t' r')) ran (first-replayed enc p p' w' t' r' db w u)

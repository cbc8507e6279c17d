-- ===== src/Projection/Calls/Steps.antt =====
-- What each call of repositories/projection.py does to the counters' tables.
use ua_web_data_collector_sp.Outbox.Rows.{OutboxEvent}
use ua_web_data_collector_sp.Projection.Acknowledge.Replay.{emit-keeps}
use ua_web_data_collector_sp.Projection.Calls.Effects.{Effect, confirms, unchanged}
use ua_web_data_collector_sp.Base.{
  ℕ, ◌==◌, ==_iff, ◌≤◌, ◌≡◌, refl, subst, String, true, ◌&&◌, &&_parts, Option, none, some, [], ◌∷◌,
  ◌++◌, Option-cases, inl, inr, All,
}
use ua_web_data_collector_sp.Errors.{
  ok, after, after-bind, IfOk, require, or_raise, or_raise-eq-ok, require-eq-ok, not_found,
  conflict,
}
use ua_web_data_collector_sp.Clock.{When, resolve_now}
use ua_web_data_collector_sp.Sql.{rows_where, update_where}
use ua_web_data_collector_sp.Sql.Select.{one_or_none-All}
use ua_web_data_collector_sp.Sql.Laws.{rows_where-All, find-All}
use ua_web_data_collector_sp.Projection.Rows.{
  ProjectionTask, ChangeEvent, ProjectionAcknowledgement, Encoding, Db, task_key,
  get_projection_task, get_acknowledgement,
}
use ua_web_data_collector_sp.Projection.Versions.{top, top-versions_of}
use ua_web_data_collector_sp.Projection.Tasks.{lock_owned_task, is_owned}
use ua_web_data_collector_sp.Projection.Acknowledge.{
  Ack, acknowledgement_row, confirmed_at_version, succeeded_task, emit, acknowledge_new,
  acknowledge_again, entity_row, is_same_receipt, lock_task, acknowledge_projection,
}
use ua_web_data_collector_sp.Projection.Calls.{
  Call, parses, fails, claims, heartbeats, retries, releases, quarantines, recovers, acknowledges,
  step,
}
use ua_web_data_collector_sp.Projection.Calls.Counts.{task_versions, IsIssued}
use ua_web_data_collector_sp.Projection.Calls.Parses.{parse-Effect, fail-Effect}
use ua_web_data_collector_sp.Projection.Calls.Leases.{
  claim-Effect, heartbeat-Effect, retry-Effect, release-Effect, quarantine-Effect, recover-Effect,
}

acknowledge_new-Effect :
    (db : Db) (enc : Encoding) (a : Ack) (now : ℕ)
    → IsIssued db.tasks (acknowledgement_row a.receipt a.task_id now)
    → Effect db (after db (acknowledge_new db enc a now))
unfolding acknowledge_new
acknowledge_new-Effect db enc a now issued =
    after-bind (Effect db) db (or_raise (entity_row db a.receipt.entity_uuid) not_found) _ unchanged
      λ entity _. after-bind (Effect db) db (emit written enc a now) _ unchanged λ emitted done.
        let (tasks, acks, entities) = subst (IfOk Kept) done (emit-keeps written enc a now) in
        confirms row a.receipt now _ (succeeded_task now) (unfold acknowledgement_row in refl)
          (unfold acknowledgement_row in refl) issued (unfold succeeded_task in λ t. (refl, refl))
          entities tasks acks
  where
    row : ProjectionAcknowledgement
    row = acknowledgement_row a.receipt a.task_id now

    written : Db
    written = record db {
      acknowledgements = db.acknowledgements ++ row ∷ [];
      entities =
          update_where (λ e. e.entity_uuid == a.receipt.entity_uuid)
            (confirmed_at_version a.receipt now) db.entities;
      tasks = update_where (λ t. t.task_id == a.task_id) (succeeded_task now) db.tasks;
    }

    Kept : Option ChangeEvent × Option OutboxEvent × Db → Type 0
    Kept e =
        (e.2.tasks ≡ written.tasks)
        × (e.2.acknowledgements ≡ written.acknowledgements)
        × (e.2.entities ≡ written.entities)

-- What holds of every task holds of the locked one.
lock_task-All {κ} :
    (P : ProjectionTask → Type κ) (db : Db) (i : ℕ) (owner : Option String) (t : ProjectionTask)
    → All P db.tasks
    → lock_task db i owner ≡ ok t
    → P t
unfolding lock_task lock_owned_task get_projection_task
lock_task-All P db i none t all e = find-All task_key P i db.tasks t all (or_raise-eq-ok _ _ e)
lock_task-All P db i (some owner) t all e =
    one_or_none-All P (rows_where (is_owned i owner) db.tasks) t
      (rows_where-All P (is_owned i owner) db.tasks all) (or_raise-eq-ok _ _ e)

acknowledge-Effect :
    (db : Db) (enc : Encoding) (a : Ack) (w : When)
    → Effect db (after db (acknowledge_projection db enc a w))
unfolding acknowledge_projection acknowledge_again
acknowledge-Effect db enc a w = after-bind (Effect db) db (resolve_now w) _ unchanged λ now _.
    after-bind (Effect db) db (require (a.receipt.projection_task_id == a.task_id) conflict) _
      unchanged
      λ _ _. after-bind (Effect db) db (lock_task db a.task_id a.owner) _ unchanged λ t locked.
        after-bind (Effect db) db
          (require
            (t.entity_uuid == a.receipt.entity_uuid
              && t.projection_version == a.receipt.projection_version)
            conflict)
          _ unchanged
          λ _ same. elim (Option-cases (get_acknowledgement db a.task_id)) [
            | inr (row, k) ↦ rw k (
                after-bind (Effect db) db (require (is_same_receipt row a.receipt) conflict) _
                  unchanged
                  λ _ _.
                    after-bind (Effect db) db
                      (or_raise (entity_row db a.receipt.entity_uuid) not_found) _ unchanged
                      λ _ _. unchanged)
            | inl k ↦ rw k (
                acknowledge_new-Effect db enc a now
                  (issued t now (locked_task a.owner t locked) (require-eq-ok _ _ same)))
          ]
  where
    top_of : ProjectionTask → Type 0
    top_of t = t.projection_version ≤ top (task_versions db.tasks t.entity_uuid)

    tops : All top_of db.tasks
    tops =
        unfold task_versions in
        top-versions_of (λ t. t.entity_uuid) (λ t. t.projection_version) db.tasks

    locked_task :
        (owner : Option String) (t : ProjectionTask)
        → lock_task db a.task_id owner ≡ ok t
        → top_of t
    locked_task owner t e = lock_task-All top_of db a.task_id owner t tops e

    issued :
        (t : ProjectionTask) (now : ℕ)
        → top_of t
        → (t.entity_uuid == a.receipt.entity_uuid
            && t.projection_version == a.receipt.projection_version)
          ≡ true
        → IsIssued db.tasks (acknowledgement_row a.receipt a.task_id now)
    issued t now below same =
        let parts = &&_parts (t.entity_uuid == a.receipt.entity_uuid) _ same in
        unfold acknowledgement_row in
        subst (λ v. v ≤ top (task_versions db.tasks a.receipt.entity_uuid)) ((==_iff _ _).0 parts.1)
          (subst (λ u. t.projection_version ≤ top (task_versions db.tasks u))
            ((==_iff _ _).0 parts.0) below)

-- Every call has one of the effects.
pub step-Effect : (enc : Encoding) (db : Db) (c : Call) → Effect db (step enc db c)
unfolding step
step-Effect enc db (parses p w) = parse-Effect db enc p w
step-Effect enc db (fails a w i) = fail-Effect db a w i
step-Effect enc db (claims worker n targets limit w locked) =
    claim-Effect db worker n targets limit w locked
step-Effect enc db (heartbeats i owner n w) = heartbeat-Effect db i owner n w
step-Effect enc db (retries i owner code message policy rng not_before w) =
    retry-Effect db i owner code message policy rng not_before w
step-Effect enc db (releases i owner not_before w) = release-Effect db i owner not_before w
step-Effect enc db (quarantines i code message w) = quarantine-Effect db i code message w
step-Effect enc db (recovers limit w locked) = recover-Effect db limit w locked
step-Effect enc db (acknowledges a w) = acknowledge-Effect db enc a w

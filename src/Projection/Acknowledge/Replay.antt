-- ===== src/Projection/Acknowledge/Replay.antt =====
-- `acknowledge_projection` called again with the same receipt, as the reconciler does after a crash.
use ua_web_data_collector_sp.Base.{
  ℕ, ◌==◌, ==_iff, ==_refl, ◌≡◌, refl, subst, String, Bool, true, false, ◌&&◌, &&_parts, Option,
  none, some, [], ◌∷◌, ◌++◌, eq_refl, Bool-cases, Option-cases, inl, inr,
}
use ua_web_data_collector_sp.Errors.{
  Result, ok, IfOk, IfOk-bind, require, or_raise, or_raise-eq-ok, require-eq-ok, conflict,
  not_found, integrity_error,
}
use ua_web_data_collector_sp.Clock.{When, resolve_now}
use ua_web_data_collector_sp.Sql.{rows_where, update_where, one_or_none, find, Unique}
use ua_web_data_collector_sp.Sql.Laws.{find-update_where, find-append_self, find-key}
use ua_web_data_collector_sp.Sql.Select.{one_or_none-find, one_or_none-update_where}
use ua_web_data_collector_sp.Projection.Rows.{
  ProjectionTask, ProjectionAcknowledgement, EntityIndex, AppliedProjectionReceipt,
  DomainChangedEvent, ChangeEvent, Encoding, Db, task_key, acknowledgement_key, get_projection_task,
  get_acknowledgement, should_emit_domain_changed,
}
use ua_web_data_collector_sp.Outbox.Rows.{OutboxEvent}
use ua_web_data_collector_sp.Projection.Record.{is_new_event}
use ua_web_data_collector_sp.Projection.Tasks.{lock_owned_task, is_owned}
use ua_web_data_collector_sp.Projection.Acknowledge.{
  Ack, AcknowledgeResult, receipt_event_sha256, acknowledgement_row, same_text, same_uuid,
  same_flag, is_same_receipt, confirmed_at_version, succeeded_task, domain_changed_rows,
  is_new_change, emit, entity_row, acknowledge_new, acknowledge_again, lock_task,
  acknowledge_projection,
}

same_text_refl : (s : Option String) → same_text s s ≡ true
same_text_refl none = refl
same_text_refl (some s) = eq_refl s

same_uuid_refl : (s : Option ℕ) → same_uuid s s ≡ true
same_uuid_refl none = refl
same_uuid_refl (some s) = ==_refl s

same_flag_refl : (b : Bool) → same_flag b b ≡ true
same_flag_refl true = refl
same_flag_refl false = refl

row-is_same_receipt :
    (r : AppliedProjectionReceipt) (i now : ℕ)
    → is_same_receipt (acknowledgement_row r i now) r ≡ true
unfolding is_same_receipt acknowledgement_row
row-is_same_receipt r i now =
    rw
      (
        ==_refl r.entity_uuid,
        ==_refl r.projection_version,
        eq_refl r.cluster_time,
        ==_refl r.document_id,
        same_flag_refl r.applied_to_current,
        same_flag_refl r.state_changed,
        ==_refl r.result_version,
        eq_refl r.result_hash,
        same_text_refl r.previous_hash,
        same_uuid_refl r.event_id,
        same_text_refl (receipt_event_sha256 r),
      )
      refl

pub emit-keeps :
    (db : Db) (enc : Encoding) (a : Ack) (now : ℕ)
    → IfOk
        (λ e.
          (e.2.tasks ≡ db.tasks)
          × (e.2.acknowledgements ≡ db.acknowledgements)
          × (e.2.entities ≡ db.entities))
        (emit db enc a now)
unfolding emit
emit-keeps db enc a now = elim (Bool-cases (should_emit_domain_changed a.receipt)) [
  | inr e ↦ rw e (refl, refl, refl)
  | inl e ↦ rw e (
      IfOk-bind _ (domain_changed_rows enc a now) _ λ rows _.
        IfOk-bind _
          (require (is_new_change rows.0 db.change_events && is_new_event rows.1 db.events)
            integrity_error)
          _ λ _ _. (refl, refl, refl))
]

-- The locked task is the one under the id.
lock_task-find :
    (db : Db) (i : ℕ) (owner : Option String) (t : ProjectionTask)
    → Unique task_key db.tasks
    → lock_task db i owner ≡ ok t
    → find task_key i db.tasks ≡ some t
unfolding lock_task get_projection_task lock_owned_task
lock_task-find db i none t u e = or_raise-eq-ok _ _ e
lock_task-find db i (some owner) t u e =
    let (found, passes) =
      one_or_none-find task_key (is_owned i owner) db.tasks t u (or_raise-eq-ok _ _ e) in
    subst (λ n. find task_key n db.tasks ≡ some t)
      ((==_iff _ _).0 (&&_parts (t.task_id == i) _ (unfold is_owned in passes)).0) found

-- The same receipt without an owner; the event and the new ids may be others.
module _ (enc : Encoding) (a : Ack) (w' : When) (t' : ℕ) (event' : Option DomainChangedEvent)
    (i' j' : ℕ) (r' : resolve_now w' ≡ ok t') where
  abbrev again : Ack
  again = record a { owner = none; event = event'; change_event_id = i'; outbox_id = j' }

  abbrev replayed :
      ProjectionAcknowledgement → (confirmed : ℕ) → Db → Result (AcknowledgeResult × Db)
  replayed row confirmed db = ok (
    record {
      acknowledgement = row;
      confirmed_projection_version = confirmed;
      change_event = none;
      outbox_event = none;
      created = false;
    },
    db,
  )

  acknowledge-replayed :
      (db : Db) (t : ProjectionTask) (row : ProjectionAcknowledgement) (e : EntityIndex)
      → (a.receipt.projection_task_id == a.task_id) ≡ true
      → find task_key a.task_id db.tasks ≡ some t
      → (t.entity_uuid == a.receipt.entity_uuid
          && t.projection_version == a.receipt.projection_version)
        ≡ true
      → find acknowledgement_key a.task_id db.acknowledgements ≡ some row
      → is_same_receipt row a.receipt ≡ true
      → entity_row db a.receipt.entity_uuid ≡ some e
      → acknowledge_projection db enc again w' ≡ replayed row e.confirmed_projection_version db
  unfolding acknowledge_projection lock_task get_projection_task get_acknowledgement
      acknowledge_again
  acknowledge-replayed db t row e mine found same has receipt entity =
      rw r' (rw mine (rw found (rw same (rw has (rw receipt (rw entity refl))))))

  Spec : AcknowledgeResult × Db → Type 0
  Spec x =
      acknowledge_projection x.1 enc again w'
      ≡ replayed x.0.acknowledgement x.0.confirmed_projection_version x.1

  again-replayed :
      (db : Db) (t : ProjectionTask) (row : ProjectionAcknowledgement)
      → (a.receipt.projection_task_id == a.task_id) ≡ true
      → find task_key a.task_id db.tasks ≡ some t
      → (t.entity_uuid == a.receipt.entity_uuid
          && t.projection_version == a.receipt.projection_version)
        ≡ true
      → find acknowledgement_key a.task_id db.acknowledgements ≡ some row
      → IfOk Spec (acknowledge_again db a.receipt row)
  unfolding acknowledge_again Spec
  again-replayed db t row mine found same has =
      IfOk-bind Spec (require (is_same_receipt row a.receipt) conflict) _ λ _ receipt.
        IfOk-bind Spec (or_raise (entity_row db a.receipt.entity_uuid) not_found) _ λ e entity.
          acknowledge-replayed db t row e mine found same has (require-eq-ok _ _ receipt)
            (or_raise-eq-ok _ _ entity)

  new-replayed :
      (db : Db) (t : ProjectionTask) (now : ℕ)
      → (a.receipt.projection_task_id == a.task_id) ≡ true
      → find task_key a.task_id db.tasks ≡ some t
      → (t.entity_uuid == a.receipt.entity_uuid
          && t.projection_version == a.receipt.projection_version)
        ≡ true
      → find acknowledgement_key a.task_id db.acknowledgements ≡ none
      → IfOk Spec (acknowledge_new db enc a now)
  unfolding acknowledge_new Spec
  new-replayed db t now mine found same fresh =
      IfOk-bind Spec (or_raise (entity_row db a.receipt.entity_uuid) not_found) _ λ e entity.
        IfOk-bind Spec (emit written enc a now) _ λ emitted done.
          let (tasks, acks, entities) = subst (IfOk Kept) done (emit-keeps written enc a now) in
          acknowledge-replayed emitted.2 (succeeded_task now t) row
            (confirmed_at_version a.receipt now e) mine (rw tasks (updated t found))
            (unfold succeeded_task in same)
            (rw acks (
              find-append_self acknowledgement_key db.acknowledgements row
                (unfold acknowledgement_row in fresh)))
            (row-is_same_receipt a.receipt a.task_id now)
            (unfold entity_row in
              rw entities (confirmed e (unfold entity_row in or_raise-eq-ok _ _ entity)))
    where
      row : ProjectionAcknowledgement
      row = acknowledgement_row a.receipt a.task_id now

      written : Db
      written = record db {
        acknowledgements = db.acknowledgements ++ row ∷ [];
        entities =
            update_where (λ e. e.entity_uuid == a.receipt.entity_uuid)
              (confirmed_at_version a.receipt now) db.entities;
        tasks = update_where (λ t. t.task_id == a.task_id) (succeeded_task now) db.tasks;
      }

      Kept : Option ChangeEvent × Option OutboxEvent × Db → Type 0
      Kept e =
          (e.2.tasks ≡ written.tasks)
          × (e.2.acknowledgements ≡ written.acknowledgements)
          × (e.2.entities ≡ written.entities)

      updated :
          (t : ProjectionTask)
          → find task_key a.task_id db.tasks ≡ some t
          → find task_key a.task_id written.tasks ≡ some (succeeded_task now t)
      updated t found =
          let k : (t.task_id == a.task_id) ≡ true =
            (==_iff _ _).1 (find-key task_key a.task_id db.tasks t found) in
          rw
            (
              find-update_where task_key a.task_id (λ t. t.task_id == a.task_id)
                  (succeeded_task now) db.tasks (unfold succeeded_task in λ r e. refl),
              found,
            )
            (rw k refl)

      confirmed :
          (e : EntityIndex)
          → one_or_none
              (rows_where (λ (x : EntityIndex). x.entity_uuid == a.receipt.entity_uuid) db.entities)
            ≡ some e
          → one_or_none (
              rows_where
                (λ (x : EntityIndex). x.entity_uuid == a.receipt.entity_uuid)
                written.entities)
            ≡ some (confirmed_at_version a.receipt now e)
      confirmed e one =
          rw
            (
              one_or_none-update_where (λ (x : EntityIndex). x.entity_uuid == a.receipt.entity_uuid)
                  (confirmed_at_version a.receipt now) db.entities
                  (unfold confirmed_at_version in λ r. refl),
              one,
            )
            refl

  first-replayed :
      (db : Db) (w : When)
      → Unique task_key db.tasks
      → IfOk Spec (acknowledge_projection db enc a w)
  unfolding acknowledge_projection get_acknowledgement
  first-replayed db w u = IfOk-bind Spec (resolve_now w) _ λ now _.
      IfOk-bind Spec (require (a.receipt.projection_task_id == a.task_id) conflict) _ λ _ mine.
        IfOk-bind Spec (lock_task db a.task_id a.owner) _ λ t locked.
          IfOk-bind Spec
            (require
              (t.entity_uuid == a.receipt.entity_uuid
                && t.projection_version == a.receipt.projection_version)
              conflict)
            _
            λ _ same.
              let found : find task_key a.task_id db.tasks ≡ some t =
                lock_task-find db a.task_id a.owner t u locked in
              elim (Option-cases (get_acknowledgement db a.task_id)) [
                | inr (row, k) ↦ rw k (
                    again-replayed db t row (require-eq-ok _ _ mine) found (require-eq-ok _ _ same)
                      (unfold get_acknowledgement in k))
                | inl k ↦ rw k (
                    new-replayed db t now (require-eq-ok _ _ mine) found (require-eq-ok _ _ same)
                      (unfold get_acknowledgement in k))
              ]

-- An acknowledgement is idempotent. Where the ids of the tasks are distinct, after a call of
-- `acknowledge_projection` that returned, by an owner or without one, a call without an owner with
-- the same receipt returns the same acknowledgement and the same confirmed version with
-- `created=False` and no event, and changes no table.
pub acknowledge-replay :
    (enc : Encoding) (db db' : Db) (a : Ack) (w w' : When) (t' : ℕ) (r : AcknowledgeResult)
    (event' : Option DomainChangedEvent) (i' j' : ℕ)
    → Unique task_key db.tasks
    → acknowledge_projection db enc a w ≡ ok (r, db')
    → resolve_now w' ≡ ok t'
    → acknowledge_projection db' enc
        (record a { owner = none; event = event'; change_event_id = i'; outbox_id = j' })
        w'
      ≡ ok (record r { change_event = none; outbox_event = none; created = false }, db')
acknowledge-replay enc db db' a w w' t' r event' i' j' u ran r' =
    unfold Spec in
    subst (IfOk (Spec enc a w' t' event' i' j' r')) ran
      (first-replayed enc a w' t' event' i' j' r' db w u)

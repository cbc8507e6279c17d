-- ===== src/Queue/Quarantine.antt =====
-- `quarantine` of repositories/queue.py: a permanent failure, or the decision of an operator.
use ua_web_data_collector_sp.Base.{ℕ, String, Option, none, some, [], ◌∷◌}
use ua_web_data_collector_sp.Errors.{Result, ok, ◌>>=◌}
use ua_web_data_collector_sp.Clock.{When, resolve_now}
use ua_web_data_collector_sp.Audit.{
  AuditEntry, uuid, number, text, text_or_null, require_audit_context, append_audit,
}
use ua_web_data_collector_sp.Queue.Rows.{
  Status, pending, leased, succeeded, retrying, quarantined, Message, Job, quarantine_requested, Db,
  lock_owned, lock_any, quarantine_locked,
}

status_name : Status → String
status_name pending = "pending"
status_name leased = "leased"
status_name succeeded = "succeeded"
status_name retrying = "retry"
status_name quarantined = "quarantined"

-- The audit record of an operator's quarantine.
unfoldable pub audit_quarantine :
    (before job : Job)
    → (actor : Option String) → (reason : Option String) → (error_code : String)
    → (request_id : Option String) → (now audit_id : ℕ) → Db
    → Db
unfolding status_name append_audit
audit_quarantine before job none reason error_code request_id now audit_id db = db
audit_quarantine before job (some actor) reason error_code request_id now audit_id db =
    let entry : AuditEntry = record {
      audit_id = audit_id;
      created_at = now;
      actor = actor;
      action = "crawl_job.quarantine";
      resource_type = "crawl_job";
      resource_id = uuid before.job_id;
      before_state =
          some
            (("status", text (status_name before.status)) ∷ ("attempt", number job.attempt) ∷ []);
      after_state = some (
          ("status", text (status_name job.status))
          ∷ ("error_code", text error_code)
          ∷ ("reason", text_or_null reason)
          ∷ []);
      request_id = request_id;
      idempotency_key = none;
    } in
    record db { audit_log = (append_audit db.audit_log entry).1 }

-- The call of a worker, which owns the lease, leaves no audit record.
unfoldable pub quarantine_by_owner :
    Db
    → (job_id : ℕ) → (owner : String) → (error_code : String) → Option Message
    → (now : ℕ) → (letter_id : ℕ) → Result (Job × Db)
unfolding lock_owned quarantine_locked
quarantine_by_owner db i owner error_code error_message now letter_id = do
  job ← lock_owned db i owner
  ok (quarantine_locked db job quarantine_requested error_code error_message now letter_id)

-- The call of an operator, for any job that is not terminal.
unfoldable pub quarantine_by_operator :
    Db
    → (job_id : ℕ) → (error_code : String) → Option Message
    → (actor reason request_id : Option String) → (now letter_id audit_id : ℕ) → Result (Job × Db)
unfolding lock_any quarantine_locked audit_quarantine require_audit_context
quarantine_by_operator db i error_code error_message actor reason request_id now letter_id
      audit_id =
    do
      context ← require_audit_context actor reason
      job ← lock_any db i
      let (job', db') =
          quarantine_locked db job quarantine_requested error_code error_message now letter_id
      ok (job', audit_quarantine job job' actor reason error_code request_id now audit_id db')

unfoldable pub quarantine :
    Db
    → (job_id : ℕ) → (owner : Option String) → (error_code : String) → Option Message
    → (actor reason request_id : Option String) → When
    → (letter_id audit_id : ℕ) → Result (Job × Db)
unfolding quarantine_by_owner quarantine_by_operator
quarantine db i (some owner) error_code error_message actor reason request_id w letter_id audit_id =
    do
      current ← resolve_now w
      quarantine_by_owner db i owner error_code error_message current letter_id
quarantine db i none error_code error_message actor reason request_id w letter_id audit_id = do
  current ← resolve_now w
  quarantine_by_operator db i error_code error_message actor reason request_id current letter_id
      audit_id

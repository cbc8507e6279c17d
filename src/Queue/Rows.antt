-- ===== src/Queue/Rows.antt =====
-- The rows of `crawl_jobs` and `dead_letters` (models/queue.py), the private helpers of
-- repositories/queue.py, and the state of the component: those two tables and the audit log.
-- UUIDs are numbers in their order; a run, a source and the JSON of `args` are only carried along.
use ua_web_data_collector_sp.Base.{
  ℕ, ◌-◌, ◌==◌, String, Bool, true, false, ◌&&◌, Option, none, some, List, [], ◌∷◌, ◌++◌, ltb, leb,
  if◌then◌else◌, column_is, length, take, ℤ, ltb_ℤ,
}
use ua_web_data_collector_sp.Errors.{Result, ok, err, ◌>>=◌, or_raise, not_found, lease_not_owned}
use ua_web_data_collector_sp.Audit.{AuditEntry}
use ua_web_data_collector_sp.Sql.{rows_where, update_where, one_or_none, find}

pub data Status : Type 0 where
  pending leased succeeded retrying quarantined : Status

-- `CLAIMABLE_JOB_STATUSES`
abbrev pub is_claimable : Status → Bool
is_claimable pending = true
is_claimable retrying = true
is_claimable _ = false

abbrev pub is_leased : Status → Bool
is_leased leased = true
is_leased _ = false

abbrev pub is_quarantined : Status → Bool
is_quarantined quarantined = true
is_quarantined _ = false

-- `TERMINAL_JOB_STATUSES`
abbrev pub is_terminal : Status → Bool
is_terminal succeeded = true
is_terminal quarantined = true
is_terminal _ = false

-- The code points of a message.
abbrev pub Message : Type 0
Message = List ℕ

pub record Job : Type 0 where
  pub job_id : ℕ
  pub run_id : Option ℕ
  pub source_id : Option ℕ
  pub job_type : String
  pub status : Status
  pub priority : ℤ
  pub idempotency_key : String
  pub args : String
  pub attempt : ℕ
  pub max_attempts : ℕ
  pub not_before : ℕ
  pub lease_owner : Option String
  pub lease_expires_at : Option ℕ
  pub leased_at : Option ℕ
  pub finished_at : Option ℕ
  pub last_error_code : Option String
  pub last_error_message : Option Message
  pub created_at : ℕ
  pub updated_at : ℕ

pub data Reason : Type 0 where
  max_attempts_reached quarantine_requested : Reason

pub record DeadLetter : Type 0 where
  pub id : ℕ
  pub job_id : ℕ
  pub job_type : String
  pub reason : Reason
  pub attempt : ℕ
  pub error_code : Option String
  pub error_message : Option Message
  pub created_at : ℕ
  pub resolved_at : Option ℕ

pub record Db : Type 0 where
  pub jobs : List Job
  pub dead_letters : List DeadLetter
  pub audit_log : List AuditEntry

abbrev pub job_key : Job → ℕ
job_key j = j.job_id

-- `get_job`
unfoldable pub get_job : Db → ℕ → Option Job
get_job db i = find job_key i db.jobs

-- ORDER BY priority DESC, not_before, job_id
unfoldable pub claim_order : Job → Job → Bool
claim_order a b =
    if ltb_ℤ b.priority a.priority
    then true
    else if ltb_ℤ a.priority b.priority
    then false
    else if ltb a.not_before b.not_before
    then true
    else if ltb b.not_before a.not_before
    then false
    else leb a.job_id b.job_id

-- `_truncate(message, limit=2048)`: the last of `limit` characters is an ellipsis.
unfoldable pub truncate : ℕ → Message → Message
truncate limit m = if leb (length m) limit then m else take (limit - 1) m ++ 0x2026 ∷ []

abbrev pub message_limit : ℕ
message_limit = 2048

unfoldable pub truncated : Option Message → Option Message
unfolding truncate
truncated none = none
truncated (some m) = some (truncate message_limit m)

-- `_owned(job_id, owner)`
unfoldable pub owned : ℕ → String → Job → Bool
owned i owner j = j.job_id == i && (is_leased j.status && column_is j.lease_owner owner)

-- `_lock_owned`
unfoldable pub lock_owned : Db → ℕ → String → Result Job
unfolding owned
lock_owned db i owner = or_raise (one_or_none (rows_where (owned i owner) db.jobs)) lease_not_owned

not_terminal : Job → Result Job
not_terminal j = if is_terminal j.status then err lease_not_owned else ok j

-- `_lock_any`
unfoldable pub lock_any : Db → ℕ → Result Job
unfolding not_terminal get_job
lock_any db i = do job ← or_raise (get_job db i) not_found; not_terminal job

-- What a flush of the session writes: the attributes of one loaded row.
unfoldable pub save : Job → Db → Db
save job db = record db { jobs = update_where (λ j. j.job_id == job.job_id) (λ _. job) db.jobs }

unfoldable pub put_aside : (error_code : String) → Option Message → (now : ℕ) → Job → Job
unfolding truncated
put_aside error_code error_message now job = record job {
  status = quarantined;
  lease_owner = none;
  lease_expires_at = none;
  finished_at = some now;
  last_error_code = some error_code;
  last_error_message = truncated error_message;
  updated_at = now;
}

-- `_quarantine_locked`: the job aside, and a dead letter for it. `letter_id` is `new_entity_id()`.
unfoldable pub quarantine_locked :
    Db → Job → Reason → (error_code : String) → Option Message → (now letter_id : ℕ) → Job × Db
unfolding put_aside save truncated
quarantine_locked db job reason error_code error_message now letter_id =
    let job' = put_aside error_code error_message now job in
    let db' = save job' db in
    let letter : DeadLetter = record {
      id = letter_id;
      job_id = job.job_id;
      job_type = job.job_type;
      reason = reason;
      attempt = job.attempt;
      error_code = some error_code;
      error_message = truncated error_message;
      created_at = now;
      resolved_at = none;
    } in
    (job', record db' { dead_letters = db'.dead_letters ++ letter ∷ [] })

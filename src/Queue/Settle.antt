-- ===== src/Queue/Settle.antt =====
-- `heartbeat`, `complete`, `retry` and `release` of repositories/queue.py: what the owner of a lease
-- does with its job.
pub mod Outcome
use ua_web_data_collector_sp.Base.{ℕ, ◌+◌, ◌-◌, String, Option, none, some, leb, if◌then◌else◌}
use ua_web_data_collector_sp.Errors.{Result, ok, ◌>>=◌, or_raise, lease_not_owned}
use ua_web_data_collector_sp.Clock.{Stamp, When, resolve_now, seconds}
use ua_web_data_collector_sp.Sql.{rows_where, update_where, one_or_none}
use ua_web_data_collector_sp.Queue.Backoff.{BackoffPolicy, Rng, clamp_not_before, next_attempt_at}
use ua_web_data_collector_sp.Queue.Rows.{
  pending, succeeded, retrying, Message, Job, max_attempts_reached, Db, truncated, owned,
  lock_owned, save, quarantine_locked,
}

-- UPDATE … WHERE job_id = i AND status = 'leased' AND lease_owner = owner RETURNING.
unfoldable pub update_owned : Db → ℕ → String → (Job → Job) → Result (Job × Db)
unfolding owned
update_owned db i owner change = do
  job ← or_raise (one_or_none (rows_where (owned i owner) db.jobs)) lease_not_owned
  ok (change job, record db { jobs = update_where (owned i owner) change db.jobs })

unfoldable pub extended : (expires now : ℕ) → Job → Job
extended expires now j = record j { lease_expires_at = some expires; updated_at = now }

unfoldable pub heartbeat :
    Db → (job_id : ℕ) → (owner : String) → (lease_seconds : ℕ) → When → Result (ℕ × Db)
unfolding update_owned extended
heartbeat db i owner lease_seconds w = do
  current ← resolve_now w
  let expires = current + seconds lease_seconds
  updated ← update_owned db i owner (extended expires current)
  ok (expires, updated.1)

unfoldable pub finished : (now : ℕ) → Job → Job
finished now j = record j {
  status = succeeded;
  lease_owner = none;
  lease_expires_at = none;
  finished_at = some now;
  updated_at = now;
}

unfoldable pub complete : Db → (job_id : ℕ) → (owner : String) → When → Result (Job × Db)
unfolding update_owned finished
complete db i owner w = do current ← resolve_now w; update_owned db i owner (finished current)

unfoldable pub postponed : (error_code : String) → Option Message → (next now : ℕ) → Job → Job
postponed error_code error_message next now j = record j {
  status = retrying;
  lease_owner = none;
  lease_expires_at = none;
  not_before = next;
  last_error_code = some error_code;
  last_error_message = truncated error_message;
  updated_at = now;
}

unfoldable pub retry :
    Db
    → (job_id : ℕ) → (owner : String) → (error_code : String) → Option Message
    → Option BackoffPolicy
    → Rng
    → (not_before : Option Stamp) → When
    → (letter_id : ℕ) → Result (Job × Db)
unfolding lock_owned quarantine_locked postponed save
retry db i owner error_code error_message policy rng not_before w letter_id = do
  current ← resolve_now w
  job ← lock_owned db i owner
  if leb job.max_attempts job.attempt
      then ok
          (quarantine_locked db job max_attempts_reached error_code error_message current letter_id)
      else (do
        next ← next_attempt_at current job.attempt policy rng not_before
        let job' = postponed error_code error_message next current job
        ok (job', save job' db))

unfoldable pub released : (next now : ℕ) → Job → Job
released next now j = record j {
  status = pending;
  lease_owner = none;
  lease_expires_at = none;
  leased_at = none;
  not_before = next;
  attempt = j.attempt - 1;
  updated_at = now;
}

unfoldable pub release :
    Db → (job_id : ℕ) → (owner : String) → (not_before : Option Stamp) → When → Result (Job × Db)
unfolding update_owned released
release db i owner not_before w = do
  current ← resolve_now w
  next ← clamp_not_before not_before current
  update_owned db i owner (released next current)

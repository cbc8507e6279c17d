-- ===== src/Queue/Enqueue.antt =====
-- `NewJob` and `enqueue` of repositories/queue.py. `not_before` is an aware `datetime`, as an instant.
-- `args` is the text of the JSON. The caller's transaction is READ COMMITTED; `new_id` is `new_entity_id()`.
pub mod Idempotent
use Prim.Native.Char.{code}
use ua_web_data_collector_sp.Base.{
  ℕ, ◌+◌, ◌&&◌, ltb, String, Bool, Option, none, some, List, [], ◌∷◌, ◌++◌, leb, str_eq,
  if◌then◌else◌, is_some, or_default, ℤ,
}
use ua_web_data_collector_sp.Errors.{
  Result, ok, err, ◌>>=◌, ◌>>◌, require, or_raise, integrity_error, not_found,
}
use ua_web_data_collector_sp.Clock.{When, resolve_now}
use ua_web_data_collector_sp.Sql.{rows_where, one_or_none}
use ua_web_data_collector_sp.Queue.Rows.{pending, Job, Db, get_job}

pub record NewJob : Type 0 where
  pub job_type : String
  pub idempotency_key : String
  pub args : String
  pub priority : ℤ
  pub max_attempts : ℕ
  pub not_before : Option ℕ
  pub run_id : Option ℕ
  pub source_id : Option ℕ

unfoldable pub job_values : NewJob → (current new_id : ℕ) → Job
job_values job current new_id = record {
  job_id = new_id;
  run_id = job.run_id;
  source_id = job.source_id;
  job_type = job.job_type;
  status = pending;
  priority = job.priority;
  idempotency_key = job.idempotency_key;
  args = job.args;
  attempt = 0;
  max_attempts = job.max_attempts;
  not_before = or_default job.not_before current;
  lease_owner = none;
  lease_expires_at = none;
  leased_at = none;
  finished_at = none;
  last_error_code = none;
  last_error_message = none;
  created_at = current;
  updated_at = current;
}

unfoldable pub by_idempotency_key : List Job → String → Option Job
by_idempotency_key jobs key = one_or_none (rows_where (λ j. str_eq j.idempotency_key key) jobs)

-- The octets of a character in UTF-8.
utf8_length : (code_point : ℕ) → ℕ
utf8_length c = if ltb c 128 then 1 else if ltb c 2048 then 2 else if ltb c 65536 then 3 else 4

-- `octet_length(args::text)`
unfoldable pub octet_length : String → ℕ
unfolding utf8_length
octet_length String.[] = 0
octet_length (String.◌∷◌ c s) = utf8_length (code c) + octet_length s

abbrev pub job_args_max_bytes : ℕ
job_args_max_bytes = 8192

-- The CHECKs of a new row: `attempts` (its attempt is 0) and `args_size`.
unfoldable pub passes_checks : Job → Bool
unfolding octet_length
passes_checks row = leb 1 row.max_attempts && leb (octet_length row.args) job_args_max_bytes

-- INSERT … ON CONFLICT (idempotency_key) DO NOTHING RETURNING: the CHECKs come before the conflict.
unfoldable pub insert_job : Db → Job → Result (Option Job × Db)
unfolding passes_checks
insert_job db row = do
  require (passes_checks row) integrity_error
  if is_some (by_idempotency_key db.jobs row.idempotency_key)
      then ok (none, db)
      else (if is_some (get_job db row.job_id)
          then err integrity_error
          else ok (some row, record db { jobs = db.jobs ++ row ∷ [] }))

unfoldable pub inserted_or_existing : String → Option Job × Db → Result (Job × Db)
inserted_or_existing key (some row, db) = ok (row, db)
inserted_or_existing key (none, db) = do
  existing ← or_raise (by_idempotency_key db.jobs key) not_found
  ok (existing, db)

unfoldable pub enqueue : Db → NewJob → When → (new_id : ℕ) → Result (Job × Db)
unfolding insert_job inserted_or_existing job_values
enqueue db job w new_id = do
  current ← resolve_now w
  inserted ← insert_job db (job_values job current new_id)
  inserted_or_existing job.idempotency_key inserted

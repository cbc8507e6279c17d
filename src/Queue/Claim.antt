-- ===== src/Queue/Claim.antt =====
-- `claim` and `recover_expired_leases` of repositories/queue.py: the two statements that lock many rows.
-- `locked` holds the rows that other transactions have locked.
pub mod Order
pub mod Taken
use ua_web_data_collector_sp.Base.{
  mentions, ℕ, ◌+◌, String, Bool, true, false, ◌&&◌, ◌||◌, none, some, List, [], ◌∷◌, map, leb, ltb,
  str_eq, column_le, or_default, sort,
}
use ua_web_data_collector_sp.Errors.{Result, ok, ◌>>=◌, ◌>>◌, require, value_error, data_error}
use ua_web_data_collector_sp.Clock.{When, resolve_now, seconds}
use ua_web_data_collector_sp.Sql.{rows_where, update_where, select_for_update, among}
use ua_web_data_collector_sp.Queue.Rows.{
  pending, leased, is_claimable, is_leased, Job, Db, job_key, claim_order,
}

-- status IN (pending, retry) AND not_before <= now AND job_type IN job_types
unfoldable pub claimable : List String → (now : ℕ) → Job → Bool
claimable job_types now j =
    is_claimable j.status && (leb j.not_before now && mentions job_types j.job_type)

unfoldable pub lease : String → (lease_seconds now : ℕ) → Job → Job
lease worker lease_seconds now j = record j {
  status = leased;
  lease_owner = some worker;
  lease_expires_at = some (now + seconds lease_seconds);
  leased_at = some now;
  attempt = j.attempt + 1;
  updated_at = now;
}

-- The rows that the claim's subquery selects.
unfoldable pub candidates : Db → List String → (limit now : ℕ) → (ℕ → Bool) → List Job
unfolding claimable
candidates db job_types limit now locked =
    select_for_update job_key locked claim_order (claimable job_types now) limit db.jobs

-- UPDATE … WHERE job_id IN (chosen) RETURNING, the returned rows sorted.
unfoldable pub lease_all : Db → List Job → String → (lease_seconds now : ℕ) → List Job × Db
unfolding lease
lease_all db chosen worker lease_seconds now = (
  sort claim_order
      (map (lease worker lease_seconds now) (rows_where (among job_key chosen) db.jobs)),
  record db { jobs = update_where (among job_key chosen) (lease worker lease_seconds now) db.jobs },
)

-- `attempt + 1` stays within the column's INTEGER, row by row.
unfoldable pub has_room : List Job → Bool
has_room [] = true
has_room (j ∷ js) = ltb j.attempt 2147483647 && has_room js

unfoldable pub claim :
    Db
    → (job_types : List String) → (worker : String) → (lease_seconds limit : ℕ) → When
    → (locked : ℕ → Bool) → Result (List Job × Db)
unfolding candidates lease_all has_room
claim db [] worker lease_seconds limit w locked = ok ([], db)
claim db (t ∷ ts) worker lease_seconds limit w locked = do
  require (leb 1 limit && leb 1 lease_seconds) value_error
  current ← resolve_now w
  let chosen = candidates db (t ∷ ts) limit current locked
  require (has_room chosen) data_error
  ok (lease_all db chosen worker lease_seconds current)

-- status = 'leased' AND lease_expires_at <= now
unfoldable pub is_expired : (now : ℕ) → Job → Bool
is_expired now j = is_leased j.status && column_le j.lease_expires_at now

unfoldable pub recovered : (now : ℕ) → Job → Job
recovered now j = record j {
  status = pending;
  lease_owner = none;
  lease_expires_at = none;
  updated_at = now;
}

-- The rows that the recovery's subquery selects, ORDER BY lease_expires_at.
unfoldable pub expired_jobs : Db → (limit now : ℕ) → (ℕ → Bool) → List Job
unfolding is_expired
expired_jobs db limit now locked =
    select_for_update job_key locked
      (λ a b. leb (or_default a.lease_expires_at 0) (or_default b.lease_expires_at 0))
      (is_expired now) limit db.jobs

unfoldable pub recover_expired_leases :
    Db → (limit : ℕ) → When → (locked : ℕ → Bool) → Result (List ℕ × Db)
unfolding expired_jobs recovered
recover_expired_leases db limit w locked = do
  current ← resolve_now w
  let expired = expired_jobs db limit current locked
  ok (
    map job_key (rows_where (among job_key expired) db.jobs),
    record db { jobs = update_where (among job_key expired) (recovered current) db.jobs },
  )

-- ===== src/Queue/Moves.antt =====
-- The life of a row of `crawl_jobs`: how one operation may change it.
pub mod Rows
pub mod Settle
pub mod Aside
pub mod Many
use ua_web_data_collector_sp.Base.{
  ℕ, ◌+◌, ◌<◌, ◌==◌, ◌≡◌, refl, subst, sym, ap, String, Bool, true, false, ◌&&◌, ◌||◌, not, ltb,
  &&_parts, Option, none, some, List, [], ◌∷◌, ◌++◌, arith, leb, if◌then◌else◌, is_some, All,
  All-map_pred, length, length-append, Bool-cases, inl, inr, column_is, str_eq, ==_refl, ==_iff,
}
use ua_web_data_collector_sp.Errors.{
  Result, ok, err, ◌>>=◌, ◌>>◌, or_raise, or_raise-eq-ok, after, after-bind, require,
  lease_not_owned, not_found,
}
use ua_web_data_collector_sp.Clock.{Stamp, When, resolve_now, seconds}
use ua_web_data_collector_sp.Sql.{
  rows_where, update_where, one_or_none, find, among, Unique, count_where,
}
use ua_web_data_collector_sp.Sql.Laws.{
  keep, one_or_none-rows_where, count-update_same, count-update_one, find-key,
}
use ua_web_data_collector_sp.Sql.Pointwise.{Pointwise, Pointwise-refl, update_where-Pointwise}
use ua_web_data_collector_sp.Sql.Select.{among-select, only_row}
use ua_web_data_collector_sp.Queue.Backoff.{BackoffPolicy, Rng, next_attempt_at, clamp_not_before}
use ua_web_data_collector_sp.Queue.Rows.{
  Status, pending, leased, succeeded, retrying, quarantined, is_claimable, is_leased,
  is_quarantined, is_terminal, Message, Job, Reason, Db, job_key, get_job, owned, lock_owned,
  lock_any, save, put_aside, quarantine_locked, max_attempts_reached,
}

-- The transitions of §9.1, with those that leave the status alone.
abbrev pub edge : Status → Status → Bool
edge leased _ = true
edge pending pending = true
edge pending leased = true
edge pending quarantined = true
edge retrying retrying = true
edge retrying leased = true
edge retrying quarantined = true
edge succeeded succeeded = true
edge quarantined quarantined = true
edge _ _ = false

pub record IsWellFormed (j : Job) : Type 0 where
  pub owner_iff : is_some j.lease_owner ≡ is_leased j.status
  pub expiry_iff : is_some j.lease_expires_at ≡ is_leased j.status
  pub finish_iff : is_some j.finished_at ≡ is_terminal j.status
  pub attempted : (not (is_leased j.status) || ltb 0 j.attempt) ≡ true
  pub budget : 0 < j.max_attempts

pub record Moved (j j' : Job) : Type 0 where
  pub same_id : j'.job_id ≡ j.job_id
  pub same_key : j'.idempotency_key ≡ j.idempotency_key
  pub legal : edge j.status j'.status ≡ true
  pub final : is_terminal j.status ≡ true → j' ≡ j
  pub forms : IsWellFormed j → IsWellFormed j'

edge_refl : (s : Status) → edge s s ≡ true
edge_refl pending = refl
edge_refl _ = refl

pub Moved-refl : (j : Job) → Moved j j
Moved-refl j = record {
  same_id = refl;
  same_key = refl;
  legal = edge_refl j.status;
  final = λ _. refl;
  forms = λ w. w;
}

-- How an operation may change the state: row by row, and one dead letter for each job put aside.
pub record Keeps (db db' : Db) : Type 0 where
  pub moves : Pointwise Moved db.jobs db'.jobs
  pub balanced :
      length db'.dead_letters + count_where (λ j. is_quarantined j.status) db.jobs
      ≡ length db.dead_letters + count_where (λ j. is_quarantined j.status) db'.jobs

pub Keeps-refl : (db : Db) → Keeps db db
Keeps-refl db = record { moves = Pointwise-refl Moved Moved-refl db.jobs; balanced = refl }

-- An update that neither puts aside a job nor changes one that is put aside.
pub update-Keeps :
    (db : Db) (p : Job → Bool) (f : Job → Job)
    → All (λ j. p j ≡ true → Moved j (f j)) db.jobs
    → All (λ j. p j ≡ true → is_quarantined (f j).status ≡ is_quarantined j.status) db.jobs
    → Keeps db (record db { jobs = update_where p f db.jobs })
update-Keeps db p f moved same = record {
  moves = update_where-Pointwise Moved p f db.jobs Moved-refl moved;
  balanced = ap (λ n. length db.dead_letters + n) (sym (count-update_same _ p f db.jobs same));
}

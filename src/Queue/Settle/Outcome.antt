-- ===== src/Queue/Settle/Outcome.antt =====
-- What a failed attempt comes to.
use ua_web_data_collector_sp.Base.{
  ℕ, suc, ◌-◌, ◌≤◌, ◌<◌, ◌≡◌, refl, sym, ◌∙◌, ◌==◌, ==_iff, ==_refl, Bool, true, false, ◌&&◌,
  String, Option, none, some, [], ◌∷◌, arith, leb, length, length-append, length-take, take,
  column_is, Bool-cases, inl, inr,
}
use ua_web_data_collector_sp.Errors.{ok, or_raise}
use ua_web_data_collector_sp.Clock.{Stamp, When, resolve_now}
use ua_web_data_collector_sp.Sql.{Unique, rows_where, one_or_none}
use ua_web_data_collector_sp.Sql.Laws.{find-update_where, one_or_none-rows_where}
use ua_web_data_collector_sp.Queue.Backoff.{BackoffPolicy, Rng, next_attempt_at}
use ua_web_data_collector_sp.Queue.Rows.{
  quarantined, retrying, is_leased, Message, Job, Db, job_key, get_job, owned, lock_owned, save,
  put_aside, quarantine_locked, max_attempts_reached, truncate,
}
use ua_web_data_collector_sp.Queue.Settle.{postponed, retry}

-- A stored error message fits its column: at most `limit` characters, and a message that fits is
-- stored as it is.
pub length-truncate :
    (limit : ℕ) (m : Message)
    → 0 < limit
    → (length (truncate limit m) ≤ limit) × (length m ≤ limit → truncate limit m ≡ m)
unfolding truncate
length-truncate limit m h =
    ground (arith, length-append (take (limit - 1) m) (0x2026 ∷ []), length-take (limit - 1) m)

lock_owned-found :
    (db : Db) (i : ℕ) (owner : String) (j : Job)
    → Unique job_key db.jobs
    → get_job db i ≡ some j
    → (is_leased j.status && column_is j.lease_owner owner) ≡ true
    → lock_owned db i owner ≡ ok j
unfolding lock_owned get_job
lock_owned-found db i owner j u f h =
    let selected : one_or_none (rows_where (owned i owner) db.jobs) ≡ some j =
      unfold owned in
      (one_or_none-rows_where job_key i (λ x. is_leased x.status && column_is x.lease_owner owner)
          db.jobs u
        ∙ rw f (rw h refl)) in
    rw (selected, or_raise) refl

-- After a flush the table holds the row as it was written.
save-find :
    (db : Db) (i : ℕ) (j j' : Job)
    → get_job db i ≡ some j
    → j'.job_id ≡ j.job_id
    → get_job (save j' db) i ≡ some j'
unfolding save get_job
save-find db i j j' f e =
    find-update_where job_key i (λ x. x.job_id == j'.job_id) (λ _. j') db.jobs
      (λ r m. sym ((==_iff _ _).0 m))
    ∙ rw f (rw (e, ==_refl j.job_id) refl)

-- With the budget of attempts used up the job is aside with one more dead letter; otherwise it waits
-- until `next`.
abbrev pub Failed : (exhausted : Bool) → (next : ℕ) → (db db' : Db) → Job → Type 0
Failed true next db db' y =
    (y.status ≡ quarantined) × (length db'.dead_letters ≡ suc (length db.dead_letters))
Failed false next db db' y =
    (y.status ≡ retrying) × (y.not_before ≡ next) × (db'.dead_letters ≡ db.dead_letters)

aside-row :
    (code : String) (message : Option Message) (t : ℕ) (j : Job)
    → ((put_aside code message t j).job_id ≡ j.job_id)
      × ((put_aside code message t j).lease_owner ≡ none)
      × ((put_aside code message t j).status ≡ quarantined)
unfolding put_aside
aside-row code message t j = (refl, refl, refl)

-- Once the row is aside, the dead letter is the only other change.
aside-find :
    (db : Db) (i : ℕ) (j : Job) (code : String) (message : Option Message) (t letter_id : ℕ)
    → get_job db i ≡ some j
    → (get_job (quarantine_locked db j max_attempts_reached code message t letter_id).1 i
        ≡ some (put_aside code message t j))
      × (length
            (quarantine_locked db j max_attempts_reached code message t letter_id).1.dead_letters
          ≡ suc (length db.dead_letters))
unfolding quarantine_locked get_job
aside-find db i j code message t letter_id f = (
  unfold save get_job in
      (save-find db i j (put_aside code message t j) f (aside-row code message t j).0),
  omega (arith, length-append db.dead_letters),
)

-- Where the ids of the jobs are distinct, a retry by the owner of the lease, at a time and with a
-- `not_before` that are valid, always succeeds. If the attempts of the job have reached its maximum
-- it is quarantined, with one dead letter written in the same transaction and whatever `not_before`
-- was asked for; otherwise it waits in retry until the computed time and no dead letter is written.
-- The table holds the returned row, without an owner.
pub retry-Failed :
    (db : Db) (i : ℕ) (owner code : String) (message : Option Message)
    (policy : Option BackoffPolicy) (rng : Rng) (not_before : Option Stamp) (w : When)
    (letter_id t next : ℕ) (j : Job)
    → Unique job_key db.jobs
    → get_job db i ≡ some j
    → (is_leased j.status && column_is j.lease_owner owner) ≡ true
    → resolve_now w ≡ ok t
    → next_attempt_at t j.attempt policy rng not_before ≡ ok next
    → (y : Job) × (db' : Db) × (retry db i owner code message policy rng not_before w letter_id
        ≡ ok (y, db'))
      × (get_job db' i ≡ some y)
      × (y.lease_owner ≡ none)
      × Failed (leb j.max_attempts j.attempt) next db db' y
unfolding retry
retry-Failed db i owner code message policy rng not_before w letter_id t next j u f h r n =
    let locked = lock_owned-found db i owner j u f h in
    elim (Bool-cases (leb j.max_attempts j.attempt)) [
      | inl e ↦
          let (row, letters) = aside-find db i j code message t letter_id f in
          let kept = aside-row code message t j in
          (
            put_aside code message t j,
            (quarantine_locked db j max_attempts_reached code message t letter_id).1,
            rw r (rw locked (rw e (unfold quarantine_locked in refl))),
            row,
            kept.1,
            rw e (kept.2, letters),
          )
      | inr e ↦ (
        postponed code message next t j,
        save (postponed code message next t j) db,
        rw r (rw locked (rw e (rw n refl))),
        save-find db i j (postponed code message next t j) f (unfold postponed in refl),
        unfold postponed in refl,
        rw e (unfold postponed save in (refl, refl, refl)),
      )
    ]

-- ===== src/Queue/Fencing.antt =====
-- Only the owner of a lease settles its job.
use mathlib.Core.Option
use ua_web_data_collector_sp.Base.{
  ℕ, ◌==◌, ◌≡◌, refl, sym, subst, ◌∙◌, Bool, true, false, ◌&&◌, Bool-cases, String, Option, none,
  some, List, [], ◌∷◌, map, arith, if◌then◌else◌, is_some, All, elem, column_is, inl, inr, ==_iff,
}
use ua_web_data_collector_sp.Errors.{ok, err, or_raise, lease_not_owned, IfOk, IfOk-bind}
use ua_web_data_collector_sp.Clock.{Stamp, When, resolve_now}
use ua_web_data_collector_sp.Sql.{find, among, keys, Unique, rows_where, update_where, one_or_none}
use ua_web_data_collector_sp.Sql.Laws.{
  keep, one_or_none-rows_where, find-update_where, rows_where-pass, find-key,
}
use ua_web_data_collector_sp.Queue.Backoff.{BackoffPolicy, Rng, clamp_not_before}
use ua_web_data_collector_sp.Queue.Rows.{
  is_leased, Message, Job, Db, job_key, get_job, owned, lock_owned,
}
use ua_web_data_collector_sp.Queue.Claim.{recovered, expired_jobs, recover_expired_leases}
use ua_web_data_collector_sp.Queue.Settle.{update_owned, heartbeat, complete, retry, release}
use ua_web_data_collector_sp.Queue.Quarantine.{quarantine, quarantine_by_owner}

-- Does the owner hold the lease of the job?
abbrev pub holds : Db → ℕ → String → Bool
holds db i owner =
    is_some (keep (λ j. is_leased j.status && column_is j.lease_owner owner) (get_job db i))

not_held :
    (db : Db) (i : ℕ) (owner : String)
    → Unique job_key db.jobs
    → holds db i owner ≡ false
    → one_or_none (rows_where (owned i owner) db.jobs) ≡ none
unfolding owned get_job
not_held db i owner u h =
    one_or_none-rows_where job_key i (λ j. is_leased j.status && column_is j.lease_owner owner)
      db.jobs u
    ∙ gone _ h
  where
    gone : (o : Option Job) → is_some o ≡ false → o ≡ none
    gone none e = refl
    gone (some j) e = absurd (cc)

update_owned-fenced :
    (db : Db) (i : ℕ) (owner : String) (change : Job → Job)
    → Unique job_key db.jobs
    → holds db i owner ≡ false
    → update_owned db i owner change ≡ err lease_not_owned
unfolding update_owned
update_owned-fenced db i owner change u h = rw (not_held db i owner u h, or_raise) refl

lock_owned-fenced :
    (db : Db) (i : ℕ) (owner : String)
    → Unique job_key db.jobs
    → holds db i owner ≡ false
    → lock_owned db i owner ≡ err lease_not_owned
unfolding lock_owned
lock_owned-fenced db i owner u h = rw (not_held db i owner u h, or_raise) refl

-- Where the ids of the jobs are distinct, a worker that does not hold the lease of a job can
-- neither prolong the lease nor complete, retry, release or quarantine the job, at any aware time
-- and with any aware `not_before`: each call raises `LeaseNotOwnedError`.
pub settle-fenced :
    (db : Db) (i : ℕ) (owner code : String) (message : Option Message)
    (policy : Option BackoffPolicy) (rng : Rng) (not_before : Option Stamp) (w : When)
    (n t next letter_id audit_id : ℕ)
    → Unique job_key db.jobs
    → resolve_now w ≡ ok t
    → clamp_not_before not_before t ≡ ok next
    → holds db i owner ≡ false
    → (heartbeat db i owner n w ≡ err lease_not_owned)
      × (complete db i owner w ≡ err lease_not_owned)
      × (retry db i owner code message policy rng not_before w letter_id ≡ err lease_not_owned)
      × (release db i owner not_before w ≡ err lease_not_owned)
      × (quarantine db i (some owner) code message none none none w letter_id audit_id
          ≡ err lease_not_owned)
unfolding heartbeat complete retry release quarantine quarantine_by_owner
settle-fenced db i owner code message policy rng not_before w n t next letter_id audit_id u r c h =
    (
      rw r (rw (update_owned-fenced db i owner _ u h) refl),
      rw r (update_owned-fenced db i owner _ u h),
      rw r (rw (lock_owned-fenced db i owner u h) refl),
      rw r (rw c (update_owned-fenced db i owner _ u h)),
      rw r (rw (lock_owned-fenced db i owner u h) refl),
    )

among-key :
    (chosen : List Job) (a b : Job)
    → a.job_id ≡ b.job_id
    → among job_key chosen a ≡ true
    → among job_key chosen b ≡ true
unfolding among
among-key chosen a b e h = subst (λ k. elem k (keys job_key chosen) ≡ true) e h

-- A key among the keys of rows that were all chosen is a chosen one.
elem-chosen :
    (chosen rows : List Job) (j : Job)
    → All (λ r. among job_key chosen r ≡ true) rows
    → elem j.job_id (map job_key rows) ≡ true
    → among job_key chosen j ≡ true
elem-chosen chosen [] j h e = absurd (cc)
elem-chosen chosen (r ∷ rs) j h e = elim (Bool-cases (r.job_id == j.job_id)) [
  | inl k ↦ among-key chosen r j ((==_iff _ _).0 k) h.0
  | inr k ↦ elem-chosen chosen rs j h.1 (ground arith)
]

recovered-free :
    (now : ℕ) (j : Job) (owner : String)
    → is_some
        (keep (λ j. is_leased j.status && column_is j.lease_owner owner) (some (recovered now j)))
      ≡ false
unfolding recovered
recovered-free now j owner = refl

-- A job whose expired lease a recovery has taken back is held by nobody, its former owner included.
pub recover-fences :
    (db db' : Db) (limit i : ℕ) (w : When) (locked : ℕ → Bool) (ids : List ℕ) (owner : String)
    → recover_expired_leases db limit w locked ≡ ok (ids, db')
    → elem i ids ≡ true
    → holds db' i owner ≡ false
unfolding recover_expired_leases get_job
recover-fences db db' limit i w locked ids owner h e =
    subst (IfOk Spec) h (IfOk-bind Spec (resolve_now w) _ λ t _ m. fenced t m) e
  where
    Spec : List ℕ × Db → Type 0
    Spec a = elem i a.0 ≡ true → holds a.1 i owner ≡ false

    fenced :
        (t : ℕ)
        → elem i (map job_key (rows_where (among job_key (expired_jobs db limit t locked)) db.jobs))
          ≡ true
        → is_some (
            keep
              (λ j. is_leased j.status && column_is j.lease_owner owner)
              (find job_key i (
                update_where
                  (among job_key (expired_jobs db limit t locked))
                  (recovered t)
                  db.jobs)))
          ≡ false
    fenced t m =
        rw
          (find-update_where job_key i (among job_key (expired_jobs db limit t locked))
            (recovered t) db.jobs (λ r _. unfold recovered in refl))
          (at (find job_key i db.jobs) refl)
      where
        at :
            (o : Option Job)
            → find job_key i db.jobs ≡ o
            → is_some (
                keep
                  (λ j. is_leased j.status && column_is j.lease_owner owner)
                  (Option.map
                    (λ r.
                      if among job_key (expired_jobs db limit t locked) r then recovered t r else r)
                    o))
              ≡ false
        at none f = refl
        at (some j) f =
            let here : elem j.job_id (
                  map job_key (rows_where (among job_key (expired_jobs db limit t locked)) db.jobs))
                ≡ true =
              subst
                (λ k.
                  elem k (
                    map job_key
                      (rows_where (among job_key (expired_jobs db limit t locked)) db.jobs))
                  ≡ true)
                (sym (find-key job_key i db.jobs j f)) m in
            let chosen : among job_key (expired_jobs db limit t locked) j ≡ true =
              elem-chosen (expired_jobs db limit t locked)
                (rows_where (among job_key (expired_jobs db limit t locked)) db.jobs) j
                (rows_where-pass (among job_key (expired_jobs db limit t locked)) db.jobs) here in
            rw chosen (recovered-free t j owner)

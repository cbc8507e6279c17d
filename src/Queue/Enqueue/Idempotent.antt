-- ===== src/Queue/Enqueue/Idempotent.antt =====
-- One idempotency key, one job.
use ua_web_data_collector_sp.Base.{
  ℕ, ◌≡◌, refl, sym, subst, true, false, String, Option, none, some, List, [], ◌∷◌, ◌++◌, arith,
  if◌then◌else◌, is_some, leb, le→leb, ◌≤◌, eq_refl, Option-cases, inl, inr, ◌⊎◌, Bool-cases,
}
use ua_web_data_collector_sp.Errors.{ok, err, require, IfOk, IfOk-bind, integrity_error}
use ua_web_data_collector_sp.Clock.{When, resolve_now}
use ua_web_data_collector_sp.Sql.{rows_where, one_or_none}
use ua_web_data_collector_sp.Queue.Rows.{Job, Db, get_job}
use ua_web_data_collector_sp.Queue.Enqueue.{
  NewJob, job_values, by_idempotency_key, insert_job, inserted_or_existing, enqueue, octet_length,
  passes_checks,
}

by_key-appended :
    (js : List Job) (x : Job)
    → by_idempotency_key js x.idempotency_key ≡ none
    → by_idempotency_key (js ++ x ∷ []) x.idempotency_key ≡ some x
unfolding by_idempotency_key rows_where one_or_none
by_key-appended [] x h = rw (eq_refl x.idempotency_key) refl
by_key-appended (y ∷ ys) x h = ground (arith, by_key-appended ys x)

-- The job that `enqueue` returns is the one with the key in the table that it leaves.
abbrev Keyed : String → Job × Db → Type 0
Keyed key a = by_idempotency_key a.1.jobs key ≡ some a.0

existing-Keyed : (key : String) (db : Db) → IfOk (Keyed key) (inserted_or_existing key (none, db))
unfolding inserted_or_existing
existing-Keyed key db = elim (Option-cases (by_idempotency_key db.jobs key)) [
  | inl e ↦ rw e tt
  | inr (j, e) ↦ rw e e
]

insert-Keyed :
    (db : Db) (row : Job)
    → IfOk
        (λ o. IfOk (Keyed row.idempotency_key) (inserted_or_existing row.idempotency_key o))
        (insert_job db row)
unfolding insert_job
insert-Keyed db row = IfOk-bind Spec (require (passes_checks row) integrity_error) _ λ _ _.
    elim (Option-cases (by_idempotency_key db.jobs row.idempotency_key)) [
      | inr (j, e) ↦ rw e (existing-Keyed row.idempotency_key db)
      | inl e ↦ rw e (fresh e (Bool-cases (is_some (get_job db row.job_id))))
    ]
  where
    Spec : Option Job × Db → Type 0
    Spec o = IfOk (Keyed row.idempotency_key) (inserted_or_existing row.idempotency_key o)

    fresh :
        by_idempotency_key db.jobs row.idempotency_key ≡ none
        → (is_some (get_job db row.job_id) ≡ true) ⊎ (is_some (get_job db row.job_id) ≡ false)
        → IfOk Spec (
            if is_some (get_job db row.job_id)
            then err integrity_error
            else ok (some row, record db { jobs = db.jobs ++ row ∷ [] }))
    fresh e (inl d) = rw d tt
    fresh e (inr d) = rw d (unfold inserted_or_existing in by_key-appended db.jobs row e)

enqueue-Keyed :
    (db : Db) (job : NewJob) (w : When) (new_id : ℕ)
    → IfOk (Keyed job.idempotency_key) (enqueue db job w new_id)
unfolding enqueue
enqueue-Keyed db job w new_id = IfOk-bind (Keyed job.idempotency_key) (resolve_now w) _ λ t _.
    IfOk-bind (Keyed job.idempotency_key) (insert_job db (job_values job t new_id)) _
      λ o h. subst (IfOk Spec) h (unfold job_values in insert-Keyed db (job_values job t new_id))
  where
    Spec : Option Job × Db → Type 0
    Spec o = IfOk (Keyed job.idempotency_key) (inserted_or_existing job.idempotency_key o)

-- Enqueueing again under the same idempotency key, at any aware time and with any other arguments that
-- the columns can hold and that pass the CHECKs of the table (a positive `max_attempts`, and `args` of
-- at most 8192 octets), returns the job of the first call and changes nothing.
pub enqueue-idempotent :
    (db db' : Db) (job again : NewJob) (w w' : When) (new_id new_id' t' : ℕ) (j : Job)
    → enqueue db job w new_id ≡ ok (j, db')
    → again.idempotency_key ≡ job.idempotency_key
    → leb 1 again.max_attempts ≡ true
    → octet_length again.args ≤ 8192
    → resolve_now w' ≡ ok t'
    → enqueue db' again w' new_id' ≡ ok (j, db')
unfolding enqueue insert_job inserted_or_existing job_values
enqueue-idempotent db db' job again w w' new_id new_id' t' j h same budget small r =
    let passes : passes_checks (job_values again t' new_id') ≡ true =
      unfold passes_checks job_values in
      rw (budget, le→leb (octet_length again.args) 8192 small) refl in
    let keyed : by_idempotency_key db'.jobs again.idempotency_key ≡ some j =
      subst (λ k. by_idempotency_key db'.jobs k ≡ some j) (sym same)
        (subst (IfOk (Keyed job.idempotency_key)) h (enqueue-Keyed db job w new_id)) in
    rw (r, passes) (rw keyed (rw keyed refl))

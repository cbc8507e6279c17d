-- ===== src/Queue/Invariant.antt =====
-- What holds of the queue's tables between two transactions, whoever makes them.
use ua_web_data_collector_sp.Base.{
  ℕ, ◌≡◌, refl, sym, subst, ◌∙◌, String, true, false, Bool-cases, Option, none, some, List, [], ◌∷◌,
  ◌++◌, arith, leb, All, All-append, length, str_eq, inl, inr, ◌⊎◌, eq_iff,
}
use ua_web_data_collector_sp.Errors.{ok, after, after-bind, or_raise, not_found}
use ua_web_data_collector_sp.Clock.{When, resolve_now}
use ua_web_data_collector_sp.Sql.{Unique, count_where, rows_where, one_or_none}
use ua_web_data_collector_sp.Sql.Laws.{append-Unique, count-append_one}
use ua_web_data_collector_sp.Sql.Pointwise.{Pointwise, Pointwise-All, Pointwise-Unique}
use ua_web_data_collector_sp.Queue.Rows.{is_quarantined, Job, Db, job_key, get_job}
use ua_web_data_collector_sp.Queue.Enqueue.{
  NewJob, job_values, by_idempotency_key, insert_job, inserted_or_existing, enqueue,
}
use ua_web_data_collector_sp.Queue.Calls.{
  Call, enqueues, claims, heartbeats, completes, retries, quarantines, releases, recovers, step,
  run,
}
use ua_web_data_collector_sp.Queue.Moves.{IsWellFormed, Moved, Keeps}
use ua_web_data_collector_sp.Queue.Moves.Settle.{heartbeat-Keeps, complete-Keeps, release-Keeps}
use ua_web_data_collector_sp.Queue.Moves.Aside.{retry-Keeps, quarantine-Keeps}
use ua_web_data_collector_sp.Queue.Moves.Many.{claim-Keeps, recover-Keeps}

-- UNIQUE (idempotency_key)
abbrev pub DistinctKeys : List Job → Type 0
DistinctKeys [] = Unit {0}
DistinctKeys (j ∷ js) = (by_idempotency_key js j.idempotency_key ≡ none) × DistinctKeys js

pub record IsConsistent (db : Db) : Type 0 where
  pub ids : Unique job_key db.jobs
  pub idempotency : DistinctKeys db.jobs
  pub rows : All IsWellFormed db.jobs
  pub letters : length db.dead_letters ≡ count_where (λ j. is_quarantined j.status) db.jobs

by_key_none-Pointwise :
    (k : String) (xs ys : List Job)
    → Pointwise Moved xs ys
    → by_idempotency_key xs k ≡ none
    → by_idempotency_key ys k ≡ none
unfolding by_idempotency_key rows_where one_or_none
by_key_none-Pointwise k [] [] r h = refl
by_key_none-Pointwise k [] (y ∷ ys) r h = absurd r
by_key_none-Pointwise k (x ∷ xs) [] r h = absurd r
by_key_none-Pointwise k (x ∷ xs) (y ∷ ys) r h =
    ground (arith, r.0.same_key, by_key_none-Pointwise k xs ys r.1)

Pointwise-DistinctKeys :
    (xs ys : List Job) → Pointwise Moved xs ys → DistinctKeys xs → DistinctKeys ys
Pointwise-DistinctKeys [] [] r d = tt
Pointwise-DistinctKeys [] (y ∷ ys) r d = absurd r
Pointwise-DistinctKeys (x ∷ xs) [] r d = absurd r
Pointwise-DistinctKeys (x ∷ xs) (y ∷ ys) r d = (
  by_key_none-Pointwise y.idempotency_key xs ys r.1
      (subst (λ k. by_idempotency_key xs k ≡ none) (sym r.0.same_key) d.0),
  Pointwise-DistinctKeys xs ys r.1 d.1,
)

pub Keeps-IsConsistent : (db db' : Db) → Keeps db db' → IsConsistent db → IsConsistent db'
Keeps-IsConsistent db db' k c = record {
  ids = Pointwise-Unique Moved job_key (λ x y m. m.same_id) db.jobs db'.jobs k.moves c.ids;
  idempotency = Pointwise-DistinctKeys db.jobs db'.jobs k.moves c.idempotency;
  rows = Pointwise-All Moved IsWellFormed db.jobs db'.jobs (λ x y m w. m.forms w) k.moves c.rows;
  letters = omega (arith, k.balanced, c.letters);
}

by_key-append :
    (k : String) (xs : List Job) (x : Job)
    → by_idempotency_key xs k ≡ none
    → str_eq x.idempotency_key k ≡ false
    → by_idempotency_key (xs ++ x ∷ []) k ≡ none
unfolding by_idempotency_key rows_where one_or_none
by_key-append k [] x h e = ground arith
by_key-append k (y ∷ ys) x h e = ground (arith, by_key-append k ys x)

append-DistinctKeys :
    (xs : List Job) (x : Job)
    → DistinctKeys xs
    → by_idempotency_key xs x.idempotency_key ≡ none
    → DistinctKeys (xs ++ x ∷ [])
unfolding by_idempotency_key rows_where one_or_none
append-DistinctKeys [] x d h = (refl, tt)
append-DistinctKeys (y ∷ ys) x d h =
    elim (Bool-cases (str_eq y.idempotency_key x.idempotency_key)) [
      | inl e ↦ absurd (ground arith)
      | inr e ↦ (
        by_key-append y.idempotency_key ys x d.0 (
            ground (
              arith,
              eq_iff y.idempotency_key x.idempotency_key,
              eq_iff x.idempotency_key y.idempotency_key,
            )),
        append-DistinctKeys ys x d.1 (ground arith),
      )
    ]

-- A row that the INSERT lets through.
inserted-IsConsistent :
    (db : Db) (row : Job)
    → IsConsistent db
    → IsWellFormed row
    → is_quarantined row.status ≡ false
    → by_idempotency_key db.jobs row.idempotency_key ≡ none
    → get_job db row.job_id ≡ none
    → IsConsistent (record db { jobs = db.jobs ++ row ∷ [] })
unfolding get_job
inserted-IsConsistent db row c w live new_key new_id = record {
  ids = append-Unique job_key db.jobs row c.ids new_id;
  idempotency = append-DistinctKeys db.jobs row c.idempotency new_key;
  rows = All-append IsWellFormed db.jobs (row ∷ []) c.rows (w, tt);
  letters = c.letters ∙ sym (count-append_one _ db.jobs row live);
}

job_values-IsWellFormed :
    (job : NewJob) (now new_id : ℕ)
    → leb 1 job.max_attempts ≡ true
    → IsWellFormed (job_values job now new_id)
unfolding job_values
job_values-IsWellFormed job now new_id h = ground arith

-- What the INSERT did: nothing, or a row with a new key and a new id.
pub insert_job-cases :
    (db db' : Db) (row : Job) (o : Option Job)
    → insert_job db row ≡ ok (o, db')
    → (db' ≡ db)
      ⊎ ((leb 1 row.max_attempts ≡ true)
          × (by_idempotency_key db.jobs row.idempotency_key ≡ none)
          × (get_job db row.job_id ≡ none)
          × (db' ≡ record db { jobs = db.jobs ++ row ∷ [] }))
unfolding insert_job
insert_job-cases db db' row o h = ground arith

pub after-inserted {κ} :
    (P : Db → Type κ) (db db' : Db) (key : String) (o : Option Job)
    → P db
    → P db'
    → P (after db (inserted_or_existing key (o, db')))
unfolding inserted_or_existing
after-inserted P db db' key (some row) p p' = p'
after-inserted P db db' key none p p' =
    after-bind P db (or_raise (by_idempotency_key db'.jobs key) not_found) _ p (λ _ _. p')

enqueue-IsConsistent :
    (db : Db) (job : NewJob) (w : When) (new_id : ℕ)
    → IsConsistent db
    → IsConsistent (after db (enqueue db job w new_id))
unfolding enqueue
enqueue-IsConsistent db job w new_id c = after-bind IsConsistent db (resolve_now w) _ c λ now _.
    after-bind IsConsistent db (insert_job db (job_values job now new_id)) _ c λ (o, db') h.
      after-inserted IsConsistent db db' job.idempotency_key o c
        (go now db' (insert_job-cases db db' (job_values job now new_id) o h))
  where
    go :
        (now : ℕ) (db' : Db)
        → (db' ≡ db)
          ⊎ ((leb 1 (job_values job now new_id).max_attempts ≡ true)
              × (by_idempotency_key db.jobs (job_values job now new_id).idempotency_key ≡ none)
              × (get_job db (job_values job now new_id).job_id ≡ none)
              × (db' ≡ record db { jobs = db.jobs ++ job_values job now new_id ∷ [] }))
        → IsConsistent db'
    go now db' (inl e) = subst IsConsistent (sym e) c
    go now db' (inr (budget, new_key, fresh, e)) = subst IsConsistent (sym e) (
        inserted-IsConsistent db (job_values job now new_id) c
          (job_values-IsWellFormed job now new_id (unfold job_values in budget))
          (unfold job_values in refl) new_key fresh)

-- How a call changes the rows that were there before it.
pub step-Keeps_or_enqueue :
    (db : Db) (c : Call)
    → Unique job_key db.jobs
    → Keeps db (step db c)
      ⊎ ((job : NewJob) × (w : When) × (new_id : ℕ) × (c ≡ enqueues job w new_id))
unfolding step
step-Keeps_or_enqueue db (enqueues job w new_id) u = inr (job, w, new_id, refl)
step-Keeps_or_enqueue db (claims ts worker n limit w locked) u =
    inl (claim-Keeps db ts worker n limit w locked u)
step-Keeps_or_enqueue db (heartbeats i owner n w) u = inl (heartbeat-Keeps db i owner n w)
step-Keeps_or_enqueue db (completes i owner w) u = inl (complete-Keeps db i owner w)
step-Keeps_or_enqueue db (retries i owner code message policy rng nb w letter_id) u =
    inl (retry-Keeps db i owner code message policy rng nb w letter_id u)
step-Keeps_or_enqueue db (quarantines i owner code message actor reason request w l a) u =
    inl (quarantine-Keeps db i owner code message actor reason request w l a u)
step-Keeps_or_enqueue db (releases i owner nb w) u = inl (release-Keeps db i owner nb w)
step-Keeps_or_enqueue db (recovers limit w locked) u = inl (recover-Keeps db limit w locked u)

pub step-IsConsistent : (db : Db) (c : Call) → IsConsistent db → IsConsistent (step db c)
step-IsConsistent db c i = elim (step-Keeps_or_enqueue db c i.ids) [
  | inl k ↦ Keeps-IsConsistent db (step db c) k i
  | inr (job, w, new_id, e) ↦
      subst (λ x. IsConsistent (step db x)) (sym e)
        (unfold step in enqueue-IsConsistent db job w new_id i)
]

-- From consistent tables, whatever calls are made, in whatever order and whether or not they
-- succeed, the tables stay consistent: the ids and the idempotency keys of the jobs are distinct; a
-- job has an owner, and an expiry of its lease, exactly when it is leased, a time of finishing
-- exactly when it has succeeded or is quarantined, an attempt counted while it is leased, and a
-- positive budget of attempts; and there are as many dead letters as quarantined jobs.
pub run-IsConsistent : (db : Db) (cs : List Call) → IsConsistent db → IsConsistent (run db cs)
unfolding run
run-IsConsistent db [] i = i
run-IsConsistent db (c ∷ cs) i = run-IsConsistent (step db c) cs (step-IsConsistent db c i)

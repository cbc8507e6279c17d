-- ===== src/Queue/History.antt =====
-- The life of one job through a sequence of calls.
use ua_web_data_collector_sp.Base.{ℕ, ◌≡◌, sym, subst, true, some, List, [], ◌∷◌, inl, inr}
use ua_web_data_collector_sp.Errors.{after, after-bind}
use ua_web_data_collector_sp.Clock.{When, resolve_now}
use ua_web_data_collector_sp.Sql.Laws.{find-append_found}
use ua_web_data_collector_sp.Sql.Pointwise.{find-Pointwise}
use ua_web_data_collector_sp.Queue.Rows.{Job, Db, job_key, get_job, is_terminal}
use ua_web_data_collector_sp.Queue.Enqueue.{NewJob, job_values, enqueue, insert_job}
use ua_web_data_collector_sp.Queue.Calls.{Call, step, run}
use ua_web_data_collector_sp.Queue.Moves.{edge, Moved, Moved-refl}
use ua_web_data_collector_sp.Queue.Invariant.{
  IsConsistent, insert_job-cases, after-inserted, step-Keeps_or_enqueue, step-IsConsistent,
}

-- The job under an id is still there, and has moved legally.
abbrev pub Lives : ℕ → Job → Db → Type 0
Lives i j db = (j' : Job) × (get_job db i ≡ some j') × Moved j j'

enqueue-Lives :
    (db : Db) (job : NewJob) (w : When) (new_id i : ℕ) (j : Job)
    → get_job db i ≡ some j
    → Lives i j (after db (enqueue db job w new_id))
unfolding enqueue
enqueue-Lives db job w new_id i j f =
    after-bind (Lives i j) db (resolve_now w) _ (j, f, Moved-refl j)
      λ now _.
        after-bind (Lives i j) db (insert_job db (job_values job now new_id)) _ (j, f, Moved-refl j)
          λ (o, db') h.
            after-inserted (Lives i j) db db' job.idempotency_key o (j, f, Moved-refl j)
              (elim (insert_job-cases db db' (job_values job now new_id) o h) [
                | inl e ↦ subst (Lives i j) (sym e) (j, f, Moved-refl j)
                | inr (_, _, _, e) ↦ subst (Lives i j) (sym e) (
                  j,
                  unfold get_job in
                      (find-append_found job_key i db.jobs (job_values job now new_id) j f),
                  Moved-refl j,
                )
              ])

pub step-Lives :
    (db : Db) (c : Call) (i : ℕ) (j : Job)
    → IsConsistent db
    → get_job db i ≡ some j
    → Lives i j (step db c)
unfolding get_job
step-Lives db c i j v f = elim (step-Keeps_or_enqueue db c v.ids) [
  | inl k ↦ find-Pointwise Moved job_key (λ x y m. m.same_id) i db.jobs (step db c).jobs j k.moves f
  | inr (job, w, new_id, e) ↦
      subst (λ x. Lives i j (step db x)) (sym e)
        (unfold step in enqueue-Lives db job w new_id i j f)
]

-- In consistent tables no call removes a job or changes its id or idempotency key; it leaves the
-- status alone or moves it along an edge: pending and retry to leased or quarantined, leased to any
-- status, and no other.
pub step-edge :
    (db : Db) (c : Call) (i : ℕ) (j : Job)
    → IsConsistent db
    → get_job db i ≡ some j
    → (j' : Job) × (get_job (step db c) i ≡ some j')
      × (j'.job_id ≡ j.job_id)
      × (j'.idempotency_key ≡ j.idempotency_key)
      × (edge j.status j'.status ≡ true)
step-edge db c i j v f =
    let (j', found, m) = step-Lives db c i j v f in (j', found, m.same_id, m.same_key, m.legal)

-- In consistent tables a job that has succeeded or is quarantined is never touched again: whatever
-- calls are made, its row stays as it is, in every column.
pub run-terminal :
    (db : Db) (cs : List Call) (i : ℕ) (j : Job)
    → IsConsistent db
    → get_job db i ≡ some j
    → is_terminal j.status ≡ true
    → get_job (run db cs) i ≡ some j
unfolding run
run-terminal db [] i j v f t = f
run-terminal db (c ∷ cs) i j v f t =
    let (j', found, moved) = step-Lives db c i j v f in
    run-terminal (step db c) cs i j (step-IsConsistent db c v)
      (subst (λ x. get_job (step db c) i ≡ some x) (moved.final t) found) t

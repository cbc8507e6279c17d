-- ===== src/Queue/Examples.antt =====
-- Runs of the queue on small tables.
use ua_web_data_collector_sp.Base.{
  ℕ, mentions, ◌≡◌, ◌≢◌, refl, Bool, true, false, none, some, List, [], ◌∷◌, arith, All, sort, pos,
}
use ua_web_data_collector_sp.Errors.{ok, err, lease_not_owned}
use ua_web_data_collector_sp.Clock.{at_instant, resolve_now, resolve, require_aware_utc, aware}
use ua_web_data_collector_sp.Sql.{
  select_for_update, rows_where, update_where, among, keys, find, Unique, count_where, one_or_none,
}
use ua_web_data_collector_sp.Queue.Rows.{
  Job, Db, pending, leased, succeeded, get_job, job_key, claim_order,
}
use ua_web_data_collector_sp.Queue.Enqueue.{
  NewJob, enqueue, insert_job, passes_checks, octet_length, inserted_or_existing, job_values,
  by_idempotency_key,
}
use ua_web_data_collector_sp.Queue.Enqueue.Idempotent.{enqueue-idempotent}
use ua_web_data_collector_sp.Queue.Backoff.{default_policy, next_attempt_at, clamp_not_before}
use ua_web_data_collector_sp.Queue.Claim.{
  claim, has_room, candidates, lease_all, claimable, recovered, expired_jobs, is_expired,
  recover_expired_leases,
}
use ua_web_data_collector_sp.Queue.Claim.Order.{Best, claim-Best}
use ua_web_data_collector_sp.Queue.Claim.Taken.{Taken, claim-Taken}
use ua_web_data_collector_sp.Queue.Calls.{Call, enqueues, claims, completes, recovers, run, step}
use ua_web_data_collector_sp.Queue.Invariant.{IsConsistent, run-IsConsistent}
use ua_web_data_collector_sp.Queue.Moves.{edge}
use ua_web_data_collector_sp.Queue.History.{step-edge, run-terminal}
use ua_web_data_collector_sp.Queue.Fencing.{holds, settle-fenced, recover-fences}
use ua_web_data_collector_sp.Queue.Settle.{heartbeat, complete, retry, release}
use ua_web_data_collector_sp.Queue.Settle.Outcome.{Failed, retry-Failed}
use ua_web_data_collector_sp.Queue.Quarantine.{quarantine}
use ua_web_data_collector_sp.Queue.Roundtrip.{IsReleased, claim-release, claim-disjoint}

abbrev free : ℕ → Bool
free i = false

abbrev zero_rng : ℕ → ℕ
zero_rng hi = 0

abbrev job_a : Job
job_a = record {
  job_id = 1;
  run_id = none;
  source_id = none;
  job_type = "fetch";
  status = pending;
  priority = pos 0;
  idempotency_key = "a";
  args = "{}";
  attempt = 0;
  max_attempts = 2;
  not_before = 0;
  lease_owner = none;
  lease_expires_at = none;
  leased_at = none;
  finished_at = none;
  last_error_code = none;
  last_error_message = none;
  created_at = 0;
  updated_at = 0;
}

abbrev job_b : Job
job_b = record job_a { job_id = 2; idempotency_key = "b"; priority = pos 5 }

-- The last attempt of a job, leased to a worker until the instant 160.
abbrev job_held : Job
job_held = record job_a {
  status = leased;
  lease_owner = some "w1";
  lease_expires_at = some 160;
  leased_at = some 100;
  attempt = 2;
}

abbrev job_done : Job
job_done = record job_a { status = succeeded; attempt = 1; finished_at = some 150 }

abbrev table : List Job → Db
table jobs = record { jobs = jobs; dead_letters = []; audit_log = [] }

abbrev two_jobs : Db
two_jobs = table (job_a ∷ job_b ∷ [])

two_ids : Unique job_key two_jobs.jobs
unfolding find
two_ids = (refl, (refl, tt))

one_id : (j : Job) → Unique job_key (table (j ∷ [])).jobs
unfolding find
one_id j = (refl, tt)

now : (t : ℕ) → resolve_now (at_instant t) ≡ ok t
unfolding resolve_now resolve require_aware_utc
now t = refl

done-IsConsistent : IsConsistent (table (job_done ∷ []))
unfolding find count_where by_idempotency_key one_or_none
done-IsConsistent = record {
  ids = (refl, tt);
  idempotency = (refl, tt);
  rows = (
    record {
      owner_iff = refl;
      expiry_iff = refl;
      finish_iff = refl;
      attempted = refl;
      budget = omega arith;
    },
    tt,
  );
  letters = refl;
}

empty-IsConsistent : IsConsistent (table [])
unfolding count_where
empty-IsConsistent = record { ids = tt; idempotency = tt; rows = tt; letters = refl }

abbrev new_a : NewJob
new_a = record {
  job_type = "fetch";
  idempotency_key = "a";
  args = "{}";
  priority = pos 0;
  max_attempts = 2;
  not_before = none;
  run_id = none;
  source_id = none;
}

-- A job enqueued, claimed and completed, with a recovery after it.
abbrev a_day : List Call
a_day =
    enqueues new_a (at_instant 50) 7
    ∷ claims ("fetch" ∷ []) "w1" 60 10 (at_instant 100) free
    ∷ completes 7 "w1" (at_instant 120)
    ∷ recovers 10 (at_instant 900000000) free
    ∷ []

run-IsConsistent_example : IsConsistent (run (table []) a_day)
run-IsConsistent_example = run-IsConsistent (table []) a_day empty-IsConsistent

run-terminal_example : get_job (run (table (job_done ∷ [])) a_day) 1 ≡ some job_done
run-terminal_example =
    run-terminal (table (job_done ∷ [])) a_day 1 job_done done-IsConsistent
      (unfold get_job find in refl) refl

step-edge_example :
    (j' : Job) × (get_job (step (table (job_done ∷ [])) (completes 1 "w1" (at_instant 200))) 1
      ≡ some j')
    × (j'.job_id ≡ 1)
    × (j'.idempotency_key ≡ "a")
    × (edge succeeded j'.status ≡ true)
step-edge_example =
    step-edge (table (job_done ∷ [])) (completes 1 "w1" (at_instant 200)) 1 job_done
      done-IsConsistent (unfold get_job find in refl)

-- What a claim of one job from the table gives.
abbrev taken : List Job × Db
taken = lease_all two_jobs (candidates two_jobs ("fetch" ∷ []) 1 100 free) "w1" 60 100

taken_ok : claim two_jobs ("fetch" ∷ []) "w1" 60 1 (at_instant 100) free ≡ ok taken
unfolding claim has_room candidates select_for_update rows_where claimable mentions sort resolve_now
    resolve require_aware_utc claim_order
taken_ok = refl

claim-Best_example : Best two_jobs ("fetch" ∷ []) "w1" 60 1 100 free taken
claim-Best_example =
    claim-Best two_jobs taken.1 "fetch" [] "w1" 60 1 100 (at_instant 100) free taken.0 (now 100)
      taken_ok

claim-Taken_example : All (Taken two_jobs taken.1 ("fetch" ∷ []) "w1" 60 100 free) taken.0
claim-Taken_example =
    claim-Taken two_jobs taken.1 ("fetch" ∷ []) "w1" 60 1 100 (at_instant 100) free taken.0 two_ids
      (now 100) taken_ok

abbrev taken_next : List Job × Db
taken_next = lease_all taken.1 (candidates taken.1 ("fetch" ∷ []) 5 110 free) "w2" 60 110

taken_next_ok : claim taken.1 ("fetch" ∷ []) "w2" 60 5 (at_instant 110) free ≡ ok taken_next
unfolding claim has_room candidates select_for_update rows_where claimable mentions sort resolve_now
    resolve require_aware_utc update_where among claim_order
taken_next_ok = refl

claim-disjoint_example : All (λ x. All (λ y. x.job_id ≢ y.job_id) taken_next.0) taken.0
claim-disjoint_example =
    claim-disjoint two_jobs taken.1 taken_next.1 ("fetch" ∷ []) ("fetch" ∷ []) "w1" "w2" 60 60 1 5
      100 110 (at_instant 100) (at_instant 110) free free taken.0 taken_next.0 two_ids (now 100)
      (now 110) taken_ok taken_next_ok

claim-release_example :
    All
      (λ x.
        (was : Job) × (y : Job) × (db'' : Db) × (get_job two_jobs x.job_id ≡ some was)
        × (release taken.1 x.job_id "w1" none (at_instant 120) ≡ ok (y, db''))
        × IsReleased was y 120 120
        × (db''.dead_letters ≡ taken.1.dead_letters))
      taken.0
claim-release_example =
    claim-release two_jobs taken.1 ("fetch" ∷ []) "w1" 60 1 100 120 120 (at_instant 100)
      (at_instant 120) free taken.0 none two_ids (now 100) (now 120)
      (unfold clamp_not_before in refl) taken_ok

abbrev held_table : Db
held_table = table (job_held ∷ [])

settle-fenced_example :
    (heartbeat held_table 1 "w2" 60 (at_instant 120) ≡ err lease_not_owned)
    × (complete held_table 1 "w2" (at_instant 120) ≡ err lease_not_owned)
    × (retry held_table 1 "w2" "timeout" none none zero_rng none (at_instant 120) 9
        ≡ err lease_not_owned)
    × (release held_table 1 "w2" none (at_instant 120) ≡ err lease_not_owned)
    × (quarantine held_table 1 (some "w2") "timeout" none none none none (at_instant 120) 9 8
        ≡ err lease_not_owned)
settle-fenced_example =
    settle-fenced held_table 1 "w2" "timeout" none none zero_rng none (at_instant 120) 60 120 120 9
      8 (one_id job_held) (now 120) (unfold clamp_not_before in refl) (unfold get_job find in refl)

abbrev job_lost : Job
job_lost = recovered 200 job_held

recover_ok :
    recover_expired_leases held_table 10 (at_instant 200) free ≡ ok (1 ∷ [], table (job_lost ∷ []))
unfolding recover_expired_leases resolve_now resolve require_aware_utc expired_jobs is_expired
    select_for_update rows_where update_where among keys recovered sort
recover_ok = refl

recover-fences_example : holds (table (job_lost ∷ [])) 1 "w1" ≡ false
recover-fences_example =
    recover-fences held_table (table (job_lost ∷ [])) 10 1 (at_instant 200) free (1 ∷ []) "w1"
      recover_ok refl

enqueue_ok :
    enqueue (table []) new_a (at_instant 50) 7
    ≡ ok (job_values new_a 50 7, table (job_values new_a 50 7 ∷ []))
unfolding enqueue insert_job passes_checks octet_length inserted_or_existing by_idempotency_key
    one_or_none rows_where resolve_now resolve require_aware_utc get_job find job_values
enqueue_ok = refl

enqueue-idempotent_example :
    enqueue (table (job_values new_a 50 7 ∷ [])) new_a (at_instant 60) 8
    ≡ ok (job_values new_a 50 7, table (job_values new_a 50 7 ∷ []))
enqueue-idempotent_example =
    enqueue-idempotent (table []) (table (job_values new_a 50 7 ∷ [])) new_a new_a (at_instant 50)
      (at_instant 60) 7 8 60 (job_values new_a 50 7) enqueue_ok refl refl
      (unfold octet_length in omega arith) (now 60)

retry-Failed_example :
    (y : Job) × (db' : Db) × (retry held_table 1 "w1" "timeout" none
        (some default_policy)
        zero_rng
        (some (aware 500))
        (at_instant 120)
        9
      ≡ ok (y, db'))
    × (get_job db' 1 ≡ some y)
    × (y.lease_owner ≡ none)
    × Failed true 500 held_table db' y
retry-Failed_example =
    retry-Failed held_table 1 "w1" "timeout" none (some default_policy) zero_rng (some (aware 500))
      (at_instant 120) 9 120 500 job_held (one_id job_held) (unfold get_job find in refl) refl
      (now 120) (unfold next_attempt_at clamp_not_before require_aware_utc in refl)

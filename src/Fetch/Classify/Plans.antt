-- ===== src/Fetch/Classify/Plans.antt =====
-- When `plan_retry` plans a retry, and how long it waits.
use ua_web_data_collector_sp.Base.{
  ℕ, ◌<◌, max, ◌≡◌, refl, true, false, some, arith, Bool-cases, inl, inr, leb, or_default,
}
use ua_web_data_collector_sp.Queue.Backoff.{Rng}
use ua_web_data_collector_sp.Artifacts.Rows.{FetchOutcome, success, retryable, permanent_failure}
use ua_web_data_collector_sp.Fetch.Classify.{FetchDecision, RetryPlan, jittered, plan_retry}

-- What is retried was tried less often than the limit allows, and waits for the jittered step or what
-- the response asked for, whichever is longer.
pub plan-early :
    (d : FetchDecision) (attempt limit : ℕ) (rng : Rng)
    → (plan_retry d attempt limit rng).retry ≡ true
    → (attempt < limit)
      × ((plan_retry d attempt limit rng).delay
          ≡ some (max (jittered rng attempt) (or_default d.retry_after 0)))
unfolding plan_retry
plan-early d attempt limit rng = by_outcome d.outcome
  where
    plan : FetchOutcome → RetryPlan
    plan o = plan_retry (record d { outcome = o }) attempt limit rng

    by_outcome :
        (o : FetchOutcome)
        → (plan o).retry ≡ true
        → (attempt < limit)
          × ((plan o).delay ≡ some (max (jittered rng attempt) (or_default d.retry_after 0)))
    by_outcome success h = absurd (cc)
    by_outcome permanent_failure h = absurd (cc)
    by_outcome retryable h = elim (Bool-cases (leb limit attempt)) [
      | inl e ↦ absurd (let f : false ≡ true = rw e at h in cc)
      | inr e ↦ (ground arith, rw e refl)
    ]

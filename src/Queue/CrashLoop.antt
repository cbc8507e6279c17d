-- ===== src/Queue/CrashLoop.antt =====
-- A job whose worker dies after every claim: the maintenance recovers the lease, and the job is claimed
-- again.
use ua_web_data_collector_sp.Base.{ℕ, zero, suc, ◌+◌, ◌≡◌, String, Bool, true, false, List, [], ◌∷◌}
use ua_web_data_collector_sp.Clock.{at_instant, seconds}
use ua_web_data_collector_sp.Queue.Rows.{is_claimable, Job, Db}
use ua_web_data_collector_sp.Queue.Claim.{lease, recovered}
use ua_web_data_collector_sp.Queue.Calls.{Call, claims, recovers}

abbrev free : ℕ → Bool
free i = false

-- `n` times: a claim with a lease of one second, and a recovery at its end.
unfoldable pub crashes : (job_type worker : String) → (n t : ℕ) → List Call
crashes job_type worker zero t = []
crashes job_type worker (suc n) t =
    claims (job_type ∷ []) worker 1 1 (at_instant t) free
    ∷ recovers 1 (at_instant (t + seconds 1)) free
    ∷ crashes job_type worker n (t + seconds 1)

-- The row after one round.
abbrev round : String → ℕ → Job → Job
round worker t j = recovered (t + seconds 1) (lease worker 1 t j)

-- What is left after the rounds.
abbrev pub Looped : (db db' : Db) → Job → (n : ℕ) → Type 0
Looped db db' j n =
    (y : Job) × (db' ≡ record db { jobs = y ∷ [] })
    × (y.attempt ≡ j.attempt + n)
    × (y.max_attempts ≡ j.max_attempts)
    × (is_claimable y.status ≡ true)

-- ===== src/Queue/Calls.antt =====
-- The calls of the queue, one constructor for each operation that changes the state, and the state
-- after a sequence of them: transactions take effect one after another, whoever makes them.
use ua_web_data_collector_sp.Base.{ℕ, String, Bool, Option, List, [], ◌∷◌}
use ua_web_data_collector_sp.Errors.{after}
use ua_web_data_collector_sp.Clock.{Stamp, When}
use ua_web_data_collector_sp.Queue.Backoff.{BackoffPolicy, Rng}
use ua_web_data_collector_sp.Queue.Rows.{Message, Db}
use ua_web_data_collector_sp.Queue.Enqueue.{NewJob, enqueue}
use ua_web_data_collector_sp.Queue.Claim.{claim, recover_expired_leases}
use ua_web_data_collector_sp.Queue.Settle.{heartbeat, complete, retry, release}
use ua_web_data_collector_sp.Queue.Quarantine.{quarantine}

pub data Call : Type 0 where
  enqueues : NewJob → When → ℕ → Call
  claims : List String → String → ℕ → ℕ → When → (ℕ → Bool) → Call
  heartbeats : ℕ → String → ℕ → When → Call
  completes : ℕ → String → When → Call
  retries :
      ℕ
      → String
      → String
      → Option Message
      → Option BackoffPolicy
      → Rng
      → Option Stamp
      → When
      → ℕ
      → Call
  quarantines :
      ℕ
      → Option String
      → String
      → Option Message
      → Option String
      → Option String
      → Option String
      → When
      → ℕ
      → ℕ
      → Call
  releases : ℕ → String → Option Stamp → When → Call
  recovers : ℕ → When → (ℕ → Bool) → Call

unfoldable pub step : Db → Call → Db
step db (enqueues job w new_id) = after db (enqueue db job w new_id)
step db (claims job_types worker lease_seconds limit w locked) =
    after db (claim db job_types worker lease_seconds limit w locked)
step db (heartbeats i owner lease_seconds w) = after db (heartbeat db i owner lease_seconds w)
step db (completes i owner w) = after db (complete db i owner w)
step db (retries i owner code message policy rng not_before w letter_id) =
    after db (retry db i owner code message policy rng not_before w letter_id)
step db (quarantines i owner code message actor reason request w letter_id audit_id) =
    after db (quarantine db i owner code message actor reason request w letter_id audit_id)
step db (releases i owner not_before w) = after db (release db i owner not_before w)
step db (recovers limit w locked) = after db (recover_expired_leases db limit w locked)

unfoldable pub run : Db → List Call → Db
run db [] = db
run db (c ∷ cs) = run (step db c) cs

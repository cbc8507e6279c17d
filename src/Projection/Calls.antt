-- ===== src/Projection/Calls.antt =====
-- The calls of repositories/projection.py, in any order.
pub mod Counts
pub mod Effects
pub mod Parses
pub mod Leases
pub mod Steps
pub mod Invariant
pub mod Refines
use ua_web_data_collector_sp.Base.{ℕ, String, Bool, Option, List, [], ◌∷◌}
use ua_web_data_collector_sp.Errors.{after}
use ua_web_data_collector_sp.Clock.{Stamp, When}
use ua_web_data_collector_sp.Queue.Backoff.{BackoffPolicy, Rng}
use ua_web_data_collector_sp.Queue.Rows.{Message}
use ua_web_data_collector_sp.Projection.Rows.{ParseAttemptRecord, Encoding, Db}
use ua_web_data_collector_sp.Projection.Parse.{Parse}
use ua_web_data_collector_sp.Projection.Record.{record_parse_result, record_parse_failure}
use ua_web_data_collector_sp.Projection.Tasks.{
  claim_projection_tasks, heartbeat_projection_task, retry_projection_task, release_projection_task,
  quarantine_projection_task, recover_expired_projection_leases,
}
use ua_web_data_collector_sp.Projection.Acknowledge.{Ack, acknowledge_projection}

pub data Call : Type 0 where
  parses : Parse → When → Call
  fails : ParseAttemptRecord → When → ℕ → Call
  claims : String → ℕ → List String → ℕ → When → (ℕ → Bool) → Call
  heartbeats : ℕ → String → ℕ → When → Call
  retries :
      ℕ → String → String → Option Message → Option BackoffPolicy → Rng → Option Stamp → When → Call
  releases : ℕ → String → Option Stamp → When → Call
  quarantines : ℕ → String → Option Message → When → Call
  recovers : ℕ → When → (ℕ → Bool) → Call
  acknowledges : Ack → When → Call

unfoldable pub step : Encoding → Db → Call → Db
unfolding record_parse_result record_parse_failure claim_projection_tasks heartbeat_projection_task
    retry_projection_task release_projection_task quarantine_projection_task
    recover_expired_projection_leases acknowledge_projection
step enc db (parses p w) = after db (record_parse_result db enc p w)
step enc db (fails a w i) = after db (record_parse_failure db a w i)
step enc db (claims worker n targets limit w locked) =
    after db (claim_projection_tasks db worker n targets limit w locked)
step enc db (heartbeats i owner n w) = after db (heartbeat_projection_task db i owner n w)
step enc db (retries i owner code message policy rng not_before w) =
    after db (retry_projection_task db i owner code message policy rng not_before w)
step enc db (releases i owner not_before w) =
    after db (release_projection_task db i owner not_before w)
step enc db (quarantines i code message w) =
    after db (quarantine_projection_task db i code message w)
step enc db (recovers limit w locked) =
    after db (recover_expired_projection_leases db limit w locked)
step enc db (acknowledges a w) = after db (acknowledge_projection db enc a w)

unfoldable pub run : Encoding → Db → List Call → Db
unfolding step
run enc db [] = db
run enc db (c ∷ cs) = run enc (step enc db c) cs

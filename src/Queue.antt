-- ===== src/Queue.antt =====
-- src/collector/persistence/postgres/repositories/queue.py over models/queue.py: the job queue.
-- Each operation takes the state and gives its result with the new state, or the error it raises.
pub mod Backoff
pub mod Rows
pub mod Enqueue
pub mod Claim
pub mod Settle
pub mod Quarantine
pub mod DeadLetters
pub mod Calls
pub mod Moves
pub mod Invariant
pub mod History
pub mod Fencing
pub mod Roundtrip
pub mod CrashLoop
mod Examples

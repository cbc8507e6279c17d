-- ===== src/Outbox.antt =====
-- src/collector/persistence/postgres/repositories/outbox.py over models/outbox.py: the transactional
-- outbox, from which a publisher delivers at least once.
pub mod Rows
pub mod Publish
pub mod Operate
pub mod Purge
pub mod Deliver
pub mod Attempts
pub mod Failures
mod Examples

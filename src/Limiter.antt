-- ===== src/Limiter.antt =====
-- src/collector/persistence/postgres/repositories/limiter.py over models/limiter.py: the leased
-- permits of an origin, by rate tokens and by concurrency.
pub mod Rows
pub mod Acquire
pub mod Maintain
pub mod Grants
pub mod Rate
pub mod Blocks
mod Examples

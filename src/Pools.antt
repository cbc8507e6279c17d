-- ===== src/Pools.antt =====
-- Worker pools: src/collector/persistence/postgres/repositories/pools.py and models/pools.py.
pub mod Rows
pub mod Desired
pub mod Instances
pub mod Scale
pub mod Drain
pub mod Commands
pub mod Applied
mod Examples

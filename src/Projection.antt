-- ===== src/Projection.antt =====
-- src/collector/persistence/postgres/repositories/projection.py: the versions of an entity's projections,
-- the tasks that apply them and the acknowledgements of what was applied.
pub mod Rows
pub mod Parse
pub mod ParseKey
pub mod Record
pub mod Tasks
pub mod Acknowledge
pub mod Entities
pub mod Versions
pub mod Calls
mod Examples

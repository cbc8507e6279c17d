-- ===== src/Artifacts.antt =====
-- The artifact store's tables: src/collector/persistence/postgres/repositories/artifacts.py and
-- models/artifacts.py, with the sweeper of src/collector/storage/sweeper.py.
pub mod Rows
pub mod Fetches
pub mod Claims
pub mod Sweeper
pub mod Upload
mod Examples

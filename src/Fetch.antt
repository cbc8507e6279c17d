-- ===== src/Fetch.antt =====
-- src/collector/fetch: what a fetched response means, and when it is tried again.
pub mod Classify
mod Examples

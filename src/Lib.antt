-- ===== src/Lib.antt =====
-- The PostgreSQL repositories of the collector (src/collector/persistence/postgres): the job queue,
-- the rate limiter of origins, the transactional outbox, the worker pools, the artifact tables, the
-- projection tasks, the crawl runs, the reconciler's queries and the audit log. The workers, the
-- fetcher and the publishers reach the tables through them only, each call inside a transaction of
-- its caller. Beside them stands the part of the fetcher that decides what a response means and
-- when it is tried again.
--
-- State and operations. A component's state is a record of its tables, a table the list of its rows.
-- An operation takes the state and its arguments and returns either an error, which leaves the
-- transaction rolled back and so carries no state, or its answer and the new state. Errors has the
-- types of src/collector/persistence/postgres/errors.py, Clock those of clock.py there: an instant is
-- a number of microseconds since the least `datetime`. UUIDs are numbers in their order; the ids of
-- new rows (`new_entity_id`) are arguments, and so is what a random source draws. Sql has the
-- statements: SELECT … WHERE, UPDATE … WHERE, and the SELECT … FOR UPDATE SKIP LOCKED, for which the
-- set of rows that other transactions have locked is an arbitrary argument. The other statements
-- see what is committed, and wait for row locks, so transactions take effect one after another;
-- Queue/Calls, Outbox/Attempts, Pools/Drain, Artifacts/Claims/Grows,
-- Projection/Calls and CrawlRuns/History take sequences of calls in any order, whether or not
-- they succeed.
--
-- Files, with the code that they follow under src/collector/persistence/postgres:
--   Base: tests, lists, text, sorting and signed integers that the rest shares.
--   Audit: repositories/audit.py (require_audit_context, append_audit), models/audit.py.
--   Queue: repositories/queue.py and models/queue.py. Rows (CrawlJob, DeadLetter, the private
--     helpers), Backoff (BackoffPolicy, clamp_not_before, next_attempt_at), Enqueue, Claim (claim,
--     recover_expired_leases), Settle (heartbeat, complete, retry, release), Quarantine,
--     DeadLetters; Calls is the sequence of them. Moves and its submodules follow one row through
--     each operation; Invariant, History, Fencing and Roundtrip build on it; CrashLoop is about
--     workers that die.
--   Limiter: repositories/limiter.py and models/limiter.py. Rows, Acquire (acquire_permit),
--     Maintain (ensure_bucket, release_permit, expire_permits, block_origin); Grants, Rate, Blocks.
--     Tokens are numbers of the quantum 0.0001 and rates of 0.000001 token per second.
--   Outbox: repositories/outbox.py and models/outbox.py. Rows, Publish (fetch_unpublished,
--     mark_published, mark_failed), Operate (list_parked, unpark, purge_published and the
--     measures of the backlog); Deliver, Attempts (sequences of calls, with Deliveries),
--     Failures and Purge. What the purge reads of the projection's tables is an argument.
--   Pools: repositories/pools.py, models/pools.py and the roles of src/collector/workers/roles.py.
--     Rows, Desired (upsert_pool), Instances, Scale (request_scale, transition_scale_command);
--     Drain, Commands and Applied.
--   Artifacts: repositories/artifacts.py, models/artifacts.py and sweeper.py and upload.py of
--     src/collector/storage.
--     Rows, Fetches (record_fetch, latest_validators, count_retries_since, record_raw_object), Claims
--     (acquire_upload_claim, commit_reference, release_claim, expire_claims, list_orphan_candidates)
--     with Grows (sequences of calls) and Fencing; Sweeper (sweep_orphans), with Others
--     and Guarded, and Upload
--     (ClaimedUploader.upload) are clients of the claims; what the object store answers is an argument.
--   Projection: repositories/projection.py, models/projection.py and the command and the receipt of
--     src/collector/contracts/projection.py. Rows, Parse and Record (record_parse_result,
--     record_parse_failure), Tasks (the leases), Acknowledge (acknowledge_projection); Calls is the
--     sequence of them, Versions and Counts the counters of an entity against its tables. What comes
--     from hashlib, uuid and pydantic is the record Encoding, an argument. Entities is
--     repositories/entities.py.
--   CrawlRuns: repositories/crawl_runs.py and CrawlRun of models/queue.py; History is the sequence
--     of calls.
--   Reconciliation: repositories/reconciliation.py, over the tables of Projection; Complete is what a
--     complete report says of the tasks.
--   Fetch: src/collector/fetch/classify.py. Classify (classify_status, classify_error,
--     parse_retry_after, plan_retry), with Plans and Delays.
--   Examples in each component: small tables on which the theorems are used.
--
-- Every recursion is structural in a table, a text, a number of attempts or a sequence of calls.
-- Durations and probabilities that the code computes in floats are computed exactly and rounded down.
--
-- Not modelled: the repository of the sources, the keys of objects, translation, the rest
-- of fetching, the worker runtime and the other contracts; and PostgreSQL, MongoDB, the object
-- store and HTTP, which are services. Lengths of text columns and the bounds of number columns are
-- not checked, but for the attempts that a claim counts, nor is the interpreter's limit on the digits of
-- a number.
pub mod Base
pub mod Errors
pub mod Clock
pub mod CrawlRuns
pub mod Reconciliation
pub mod Sql
pub mod Audit
pub mod Queue
pub mod Limiter
pub mod Outbox
pub mod Pools
pub mod Projection
pub mod Fetch
pub mod Artifacts

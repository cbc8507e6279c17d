-- ===== src/CrawlRuns.antt =====
-- src/collector/persistence/postgres/repositories/crawl_runs.py, over `CrawlRun` of
-- models/queue.py. UUIDs are numbers, instants are microseconds. Of the tables `sources` and
-- `source_policy_versions` only the ids matter here.
pub mod History
pub mod Examples
use ua_web_data_collector_sp.Base.{
  ℕ, ◌==◌, String, Bool, true, false, ◌&&◌, ◌||◌, not, Option, none, some, List, [], ◌∷◌, ◌++◌,
  str_eq, if◌then◌else◌, is_none, elem,
}
use ua_web_data_collector_sp.Errors.{
  Result, ok, err, ◌>>=◌, ◌>>◌, require, or_raise, value_error, not_found, conflict,
  invalid_transition, integrity_error,
}
use ua_web_data_collector_sp.Clock.{When, resolve_now}
use ua_web_data_collector_sp.Sql.{rows_where, update_where, one_or_none, find}

pub data CrawlRunKind : Type 0 where
  full incremental replay backfill : CrawlRunKind

pub data CrawlRunStatus : Type 0 where
  running succeeded failed cancelled : CrawlRunStatus

pub record CrawlRun : Type 0 where
  pub id : ℕ
  pub source_id : ℕ
  pub policy_version_id : Option ℕ
  pub kind : CrawlRunKind
  pub status : CrawlRunStatus
  pub started_by : String
  pub started_at : ℕ
  pub finished_at : Option ℕ
  pub error_code : Option String
  pub created_at : ℕ
  pub updated_at : ℕ

pub record Db : Type 0 where
  pub sources : List ℕ
  pub source_policy_versions : List ℕ
  pub crawl_runs : List CrawlRun

unfoldable pub run_key : CrawlRun → ℕ
run_key r = r.id

-- `kind in CRAWL_RUN_KINDS`, and the column's value.
unfoldable pub crawl_run_kind : String → Option CrawlRunKind
crawl_run_kind kind =
    if str_eq kind "full"
    then some full
    else if str_eq kind "incremental"
    then some incremental
    else if str_eq kind "replay"
    then some replay
    else if str_eq kind "backfill"
    then some backfill
    else none

-- `status in FINISHED_RUN_STATUSES`, and the column's value.
unfoldable pub finished_run_status : String → Option CrawlRunStatus
finished_run_status status =
    if str_eq status "succeeded"
    then some succeeded
    else if str_eq status "failed"
    then some failed
    else if str_eq status "cancelled"
    then some cancelled
    else none

abbrev pub is_running : CrawlRunStatus → Bool
is_running running = true
is_running _ = false

abbrev pub is_full : CrawlRunKind → Bool
is_full full = true
is_full _ = false

-- The rows of `uq_crawl_runs_running_full` at a source.
unfoldable pub is_running_full : (source_id : ℕ) → CrawlRun → Bool
is_running_full source_id r = r.source_id == source_id && (is_running r.status && is_full r.kind)

-- The row is not in the way of the index.
unfoldable pub fits_index : CrawlRun → Db → Bool
unfolding is_running_full
fits_index r db =
    not (is_running r.status && is_full r.kind)
    || is_none (one_or_none (rows_where (is_running_full r.source_id) db.crawl_runs))

known_policy : Db → Option ℕ → Bool
known_policy db none = true
known_policy db (some policy) = elem policy db.source_policy_versions

-- The constraints that ON CONFLICT (source_id) does not cover: the primary and foreign keys.
unfoldable pub is_consistent : CrawlRun → Db → Bool
unfolding known_policy run_key
is_consistent r db =
    is_none (find run_key r.id db.crawl_runs)
    && (elem r.source_id db.sources && known_policy db r.policy_version_id)

unfoldable pub new_run :
    (id source_id : ℕ)
    → (kind : CrawlRunKind) → (started_by : String) → (policy_version_id : Option ℕ) → (now : ℕ)
    → CrawlRun
new_run id source_id kind started_by policy_version_id now = record {
  id = id;
  source_id = source_id;
  policy_version_id = policy_version_id;
  kind = kind;
  status = running;
  started_by = started_by;
  started_at = now;
  finished_at = none;
  error_code = none;
  created_at = now;
  updated_at = now;
}

-- The id is the one that `new_entity_id` draws.
unfoldable pub start_run :
    Db
    → (source_id : ℕ) → (kind started_by : String) → (policy_version_id : Option ℕ) → When
    → (id : ℕ) → Result (CrawlRun × Db)
unfolding crawl_run_kind fits_index is_consistent new_run
start_run db source_id kind started_by policy_version_id w id = do
  kind ← or_raise (crawl_run_kind kind) value_error
  current ← resolve_now w
  let run = new_run id source_id kind started_by policy_version_id current
  require (fits_index run db) conflict
  require (is_consistent run db) integrity_error
  ok (run, record db { crawl_runs = db.crawl_runs ++ run ∷ [] })

unfoldable pub ended_run :
    (status : CrawlRunStatus) → Option String → (now : ℕ) → CrawlRun → CrawlRun
ended_run status error_code now r = record r {
  status = status;
  error_code = error_code;
  finished_at = some now;
  updated_at = now;
}

-- `session.flush()` of a loaded run
unfoldable pub save_run : CrawlRun → Db → Db
save_run r db = record db { crawl_runs = update_where (λ x. x.id == r.id) (λ _. r) db.crawl_runs }

unfoldable pub finish_run :
    Db
    → (run_id : ℕ) → (status : String) → (error_code : Option String) → When
    → Result (CrawlRun × Db)
unfolding finished_run_status run_key ended_run save_run
finish_run db run_id status error_code w = do
  status ← or_raise (finished_run_status status) value_error
  run ← or_raise (find run_key run_id db.crawl_runs) not_found
  require (is_running run.status) invalid_transition
  current ← resolve_now w
  let done = ended_run status error_code current run
  ok (done, save_run done db)

unfoldable pub get_run : Db → (run_id : ℕ) → Option CrawlRun
unfolding run_key
get_run db run_id = find run_key run_id db.crawl_runs

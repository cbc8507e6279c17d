-- ===== src/CrawlRuns/Examples.antt =====
-- Crawl runs on a small table.
use ua_web_data_collector_sp.Base.{◌≡◌, refl, none, some, [], ◌∷◌, arith}
use ua_web_data_collector_sp.Errors.{err, conflict, invalid_transition, integrity_error}
use ua_web_data_collector_sp.Clock.{at_instant, resolve_now, resolve, require_aware_utc}
use ua_web_data_collector_sp.Sql.{find, rows_where, one_or_none, count_where}
use ua_web_data_collector_sp.CrawlRuns.{
  CrawlRun, Db, full, running, failed, run_key, start_run, finish_run, new_run, crawl_run_kind,
  finished_run_status, fits_index, is_consistent, is_running_full,
}
use ua_web_data_collector_sp.CrawlRuns.History.{
  Call, starts, finishes, OneFull, Kept, run, run-Kept,
}

abbrev crawling : CrawlRun
crawling = record {
  id = 1;
  source_id = 7;
  policy_version_id = none;
  kind = full;
  status = running;
  started_by = "scheduler";
  started_at = 10;
  finished_at = none;
  error_code = none;
  created_at = 10;
  updated_at = 10;
}

abbrev stopped : CrawlRun
stopped = record crawling {
  id = 2;
  status = failed;
  finished_at = some 9;
  error_code = some "timeout";
  started_at = 5;
  created_at = 5;
  updated_at = 9;
}

abbrev two_runs : Db
two_runs = record {
  sources = 7 ∷ [];
  source_policy_versions = [];
  crawl_runs = crawling ∷ stopped ∷ [];
}

abbrev second_full : Call
second_full = starts 7 "full" "cli" none (at_instant 20) 3

two_runs-OneFull : OneFull two_runs
unfolding find run_key count_where is_running_full
two_runs-OneFull = record { unique = (refl, (refl, tt)); one = λ source_id. ground arith }

run-Kept_example :
    Kept two_runs
      (run two_runs (second_full ∷ finishes 1 "succeeded" none (at_instant 30) ∷ second_full ∷ []))
run-Kept_example =
    run-Kept two_runs (second_full ∷ finishes 1 "succeeded" none (at_instant 30) ∷ second_full ∷ [])
      two_runs-OneFull

second_full-conflict : start_run two_runs 7 "full" "cli" none (at_instant 20) 3 ≡ err conflict
unfolding start_run crawl_run_kind resolve_now resolve require_aware_utc fits_index is_running_full
    new_run rows_where one_or_none
second_full-conflict = refl

incremental-no_source :
    start_run two_runs 8 "incremental" "cli" none (at_instant 20) 3 ≡ err integrity_error
unfolding start_run crawl_run_kind resolve_now resolve require_aware_utc fits_index is_running_full
    new_run is_consistent run_key find
incremental-no_source = refl

finish-twice : finish_run two_runs 2 "succeeded" none (at_instant 30) ≡ err invalid_transition
unfolding finish_run finished_run_status find run_key
finish-twice = refl

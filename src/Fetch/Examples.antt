-- ===== src/Fetch/Examples.antt =====
-- Decisions and plans on a few responses.
use ua_web_data_collector_sp.Base.{true, false, none, some, String, Option}
use ua_web_data_collector_sp.Clock.{Stamp}
use ua_web_data_collector_sp.Queue.Backoff.{Rng}
use ua_web_data_collector_sp.Fetch.Classify.{RetryPlan}

abbrev no_dates : String → Option Stamp
no_dates text = none

abbrev no_jitter : Rng
no_jitter hi = 0

abbrev after_503 : RetryPlan
after_503 = record { retry = true; delay = some 30000000; dead_letter = false }

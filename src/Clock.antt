-- ===== src/Clock.antt =====
-- src/collector/persistence/postgres/clock.py. An instant is the number of microseconds since
-- 0001-01-01 UTC, the least `datetime`. Only an aware `datetime` denotes one.
use ua_web_data_collector_sp.Base.{ℕ, ◌*◌, Option, none, some}
use ua_web_data_collector_sp.Errors.{Result, ok, err, value_error}

pub data Stamp : Type 0 where
  naive : ℕ → Stamp
  aware : ℕ → Stamp

unfoldable pub require_aware_utc : Stamp → Result ℕ
require_aware_utc (naive wall) = err value_error
require_aware_utc (aware instant) = ok instant

-- The argument `now` of an operation, beside what the system clock would answer.
pub record When : Type 0 where
  pub utcnow : ℕ
  pub now : Option Stamp

-- `resolve_now(now)`
unfoldable pub resolve : ℕ → Option Stamp → Result ℕ
resolve utcnow none = ok utcnow
resolve utcnow (some stamp) = require_aware_utc stamp

unfoldable pub resolve_now : When → Result ℕ
unfolding resolve require_aware_utc
resolve_now w = resolve w.utcnow w.now

-- `timedelta(seconds=n)`, in microseconds.
abbrev pub seconds : ℕ → ℕ
seconds n = n * 1000000

-- A call at a given instant, as the tests of the repository make it.
abbrev pub at_instant : ℕ → When
at_instant t = record { utcnow = 0; now = some (aware t) }

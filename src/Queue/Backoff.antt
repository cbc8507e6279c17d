-- ===== src/Queue/Backoff.antt =====
-- `BackoffPolicy`, `clamp_not_before` and `next_attempt_at` of repositories/queue.py. Durations are
-- whole microseconds, and the float factors are ratios, computed exactly and rounded down; the
-- code computes them in doubles and rounds the result to microseconds.
pub mod Bounds
use ua_web_data_collector_sp.Base.{
  ℕ, ◌+◌, ◌-◌, ◌*◌, ◌/◌, ◌^◌, min, Option, none, some, ltb, if◌then◌else◌, or_default,
}
use ua_web_data_collector_sp.Errors.{Result, ok, ◌>>=◌}
use ua_web_data_collector_sp.Clock.{Stamp, require_aware_utc, seconds}

-- A float argument, as a fraction.
pub record Ratio : Type 0 where
  pub num : ℕ
  pub den : ℕ

-- `rng.uniform(0.0, hi)`: what the random source draws up to `hi`.
abbrev pub Rng : Type 0
Rng = ℕ → ℕ

pub record BackoffPolicy : Type 0 where
  pub base : ℕ
  pub multiplier : Ratio
  pub maximum : ℕ
  pub jitter_ratio : Ratio

-- `BackoffPolicy()`
abbrev pub default_policy : BackoffPolicy
default_policy = record {
  base = seconds 30;
  multiplier = record { num = 2; den = 1 };
  maximum = seconds 21600;
  jitter_ratio = record { num = 1; den = 5 };
}

abbrev pub max_backoff_exponent : ℕ
max_backoff_exponent = 63

-- The delay before the jitter.
unfoldable pub plain_delay : BackoffPolicy → ℕ → ℕ
plain_delay policy exponent =
    min (policy.base * policy.multiplier.num ^ exponent / policy.multiplier.den ^ exponent)
      policy.maximum

-- An attempt is a column with CHECK (attempt >= 0), so `max(attempt - 1, 0)` is the subtraction of ℕ.
unfoldable pub delay_for : BackoffPolicy → ℕ → Rng → ℕ
unfolding plain_delay
delay_for policy attempt rng =
    let exponent = min (attempt - 1) max_backoff_exponent in
    let delay = plain_delay policy exponent in
    let jitter =
      if ltb 0 policy.jitter_ratio.num
      then rng (delay * policy.jitter_ratio.num / policy.jitter_ratio.den)
      else 0 in
    min (delay + jitter) policy.maximum

clamped : Option Stamp → ℕ → Result ℕ
clamped none now = ok now
clamped (some stamp) now = do
  lower_bound ← require_aware_utc stamp
  ok (if ltb lower_bound now then now else lower_bound)

-- `clamp_not_before(not_before, now)` at a resolved `now`.
unfoldable pub clamp_not_before : Option Stamp → ℕ → Result ℕ
unfolding clamped require_aware_utc
clamp_not_before not_before now = clamped not_before now

next_at : Option Stamp → ℕ → ℕ → BackoffPolicy → Rng → Result ℕ
unfolding delay_for clamp_not_before
next_at none now attempt policy rng = ok (now + delay_for policy attempt rng)
next_at (some stamp) now attempt policy rng = clamp_not_before (some stamp) now

unfoldable pub next_attempt_at :
    (now attempt : ℕ) → Option BackoffPolicy → Rng → Option Stamp → Result ℕ
unfolding next_at
next_attempt_at now attempt policy rng not_before =
    next_at not_before now attempt (or_default policy default_policy) rng

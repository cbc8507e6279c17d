-- ===== src/Queue/Backoff/Bounds.antt =====
-- How long a failed attempt waits.
use mathlib.Core.Option
use native.Mathlib.Nat.{pow-suc, mul-le-mul_left, div-one}
use native.Mathlib.Decide.{dec_le}
use ua_web_data_collector_sp.Base.{
  ℕ, zero, suc, ◌+◌, ◌-◌, ◌*◌, ◌^◌, ◌≤◌, ◌≡◌, refl, ◌∙◌, ap, sym, min, max, Option, none, some,
  arith,
}
use ua_web_data_collector_sp.Errors.{ok, err, value_error}
use ua_web_data_collector_sp.Clock.{aware, naive}
use ua_web_data_collector_sp.Queue.Backoff.{
  Rng, BackoffPolicy, plain_delay, delay_for, max_backoff_exponent, next_attempt_at,
  clamp_not_before,
}

-- The delay never exceeds the policy's maximum, whatever the attempt and the random source, and the
-- jitter never shortens it.
pub delay_for-bounds :
    (policy : BackoffPolicy) (attempt : ℕ) (rng : Rng)
    → (delay_for policy attempt rng ≤ policy.maximum)
      × (plain_delay policy (min (attempt - 1) max_backoff_exponent) ≤ delay_for policy attempt rng)
unfolding delay_for
delay_for-bounds policy attempt rng = (omega arith, omega arith)

pow_mono : (k d : ℕ) → 2 ^ k ≤ 2 ^ (k + d)
pow_mono k zero = let e : 2 ^ (k + 0) ≡ 2 ^ k = ap (λ n. 2 ^ n) (omega arith) in omega (arith, e)
pow_mono k (suc d) =
    let step : 2 ^ (k + suc d) ≡ 2 ^ (k + d) * 2 =
      ap (λ n. 2 ^ n) (omega arith) ∙ pow-suc 2 (k + d) in
    omega (arith, pow_mono k d, step)

pow_one : (n : ℕ) → 1 ^ n ≡ 1
pow_one zero = refl
pow_one (suc n) = pow-suc 1 n ∙ omega (arith, pow_one n)

-- The exponents 63 and above give the maximum.
large_exponent :
    (base maximum e : ℕ)
    → maximum ≤ base * 2 ^ 63
    → 63 ≤ e
    → min (base * 2 ^ e) maximum ≡ min (base * 2 ^ 63) maximum
large_exponent base maximum e reach h =
    let same : 2 ^ (63 + (e - 63)) ≡ 2 ^ e = ap (λ n. 2 ^ n) (omega arith) in
    let larger : 2 ^ 63 ≤ 2 ^ e = omega (arith, pow_mono 63 (e - 63), same) in
    let scaled : base * 2 ^ 63 ≤ base * 2 ^ e = mul-le-mul_left base larger in omega arith

-- A policy that doubles the delay, as every policy of the program does.
abbrev pub Doubles : BackoffPolicy → Type 0
Doubles policy = (policy.multiplier.num ≡ 2) × (policy.multiplier.den ≡ 1)

plain_delay-Doubles :
    (policy : BackoffPolicy) (e : ℕ)
    → Doubles policy
    → plain_delay policy e ≡ min (policy.base * 2 ^ e) policy.maximum
unfolding plain_delay
plain_delay-Doubles policy e d = rw (d.0, d.1, pow_one e, div-one)

-- The cap on the exponent changes no delay of a doubling policy whose maximum is within 2 ^ 63 times
-- its base: before the jitter, the delay is the least of base * 2 ^ (attempt - 1) and the maximum at
-- every attempt.
plain_delay-uncapped :
    (policy : BackoffPolicy) (attempt : ℕ)
    → Doubles policy
    → policy.maximum ≤ policy.base * 2 ^ 63
    → plain_delay policy (min (attempt - 1) max_backoff_exponent)
      ≡ min (policy.base * 2 ^ (attempt - 1)) policy.maximum
plain_delay-uncapped policy attempt d reach = elim (dec_le 63 (attempt - 1)) [
  | yes h ↦
      plain_delay-Doubles policy _ d
      ∙ ap (λ n. min (policy.base * 2 ^ n) policy.maximum) {y = 63} (omega arith)
      ∙ sym (large_exponent policy.base policy.maximum (attempt - 1) reach h)
  | no h ↦
      plain_delay-Doubles policy _ d
      ∙ ap (λ n. min (policy.base * 2 ^ n) policy.maximum) (omega arith)
]

-- When a failed job may be claimed again.
abbrev InWindow : Option ℕ → (now maximum t : ℕ) → Type 0
InWindow none now maximum t = t ≤ now + maximum
InWindow (some lower_bound) now maximum t = t ≡ max lower_bound now

-- The next attempt has a time, never before now: with an explicit aware `not_before` it is the
-- later of the two, with no backoff on top, and otherwise it is within the policy's maximum from
-- now. A naive `not_before` is refused.
next_attempt_at-InWindow :
    (now attempt : ℕ) (policy : BackoffPolicy) (rng : Rng) (not_before : Option ℕ) (wall : ℕ)
    → ((t : ℕ) × (next_attempt_at now attempt (some policy) rng (Option.map aware not_before)
          ≡ ok t)
        × (now ≤ t)
        × InWindow not_before now policy.maximum t)
      × (next_attempt_at now attempt (some policy) rng (some (naive wall)) ≡ err value_error)
unfolding next_attempt_at clamp_not_before
next_attempt_at-InWindow now attempt policy rng none wall = (
  (
    now + delay_for policy attempt rng,
    refl,
    omega arith,
    omega (arith, (delay_for-bounds policy attempt rng).0),
  ),
  refl,
)
next_attempt_at-InWindow now attempt policy rng (some lower_bound) wall =
    ((max lower_bound now, ground arith, omega arith, refl), refl)

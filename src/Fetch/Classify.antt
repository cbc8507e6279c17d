-- ===== src/Fetch/Classify.antt =====
-- src/collector/fetch/classify.py. Durations are in microseconds. The header's date is read by
-- `email.utils.parsedate_to_datetime`, an argument, which answers none where it raises; so is what the
-- random source draws.
pub mod Plans
pub mod Delays
use Prim.Native.Char.{Char, code}
use ua_web_data_collector_sp.Base.{
  ℕ, zero, suc, ◌+◌, ◌-◌, ◌*◌, ◌/◌, min, max, ◌==◌, String, Bool, true, false, ◌&&◌, ◌||◌, Option,
  none, some, List, [], ◌∷◌, leb, ltb, str_eq, if◌then◌else◌, mentions, elem, is_space, or_default,
}
use ua_web_data_collector_sp.Clock.{Stamp, naive, aware, seconds}
use ua_web_data_collector_sp.Queue.Backoff.{Rng}
use ua_web_data_collector_sp.Artifacts.Rows.{
  FetchOutcome, success, retryable, permanent_failure, ContentAccess, full, partial, metadata_only,
  blocked, gone, unknown,
}

abbrev pub retryable_statuses : List ℕ
retryable_statuses = 408 ∷ 425 ∷ 500 ∷ 502 ∷ 503 ∷ 504 ∷ []

abbrev pub retryable_errors : List String
retryable_errors = "timeout" ∷ "network_error" ∷ "dns_error" ∷ "permit_lease_too_short" ∷ []

abbrev pub quarantine_errors : List String
quarantine_errors = "body_too_large" ∷ "decompression_bomb" ∷ "content_decoding_error" ∷ []

abbrev pub retry_after_default : ℕ
retry_after_default = seconds 600

abbrev pub retry_after_min : ℕ
retry_after_min = seconds 5

abbrev pub retry_after_max : ℕ
retry_after_max = seconds 86400

abbrev pub backoff : List ℕ
backoff = seconds 5 ∷ seconds 30 ∷ seconds 120 ∷ seconds 600 ∷ []

abbrev pub max_attempts : ℕ
max_attempts = 4

-- A code is `http_` with the status, or a text.
pub data ErrorCode : Type 0 where
  http_ : (status : ℕ) → ErrorCode
  named : String → ErrorCode

pub record FetchDecision : Type 0 where
  pub outcome : FetchOutcome
  pub content_access : ContentAccess
  pub error_code : Option ErrorCode
  pub reason : Option ErrorCode
  pub retry_after : Option ℕ
  pub route_incident : Bool
  pub block_origin : Bool
  pub browser_candidate : Bool
  pub quarantine : Bool
  pub not_modified : Bool

-- `FetchDecision(outcome, access)`, the other fields at their defaults.
abbrev pub decision : FetchOutcome → ContentAccess → FetchDecision
decision outcome access = record {
  outcome = outcome;
  content_access = access;
  error_code = none;
  reason = none;
  retry_after = none;
  route_incident = false;
  block_origin = false;
  browser_candidate = false;
  quarantine = false;
  not_modified = false;
}

-- `text.strip()`
strip_left : String → String
strip_left String.[] = String.[]
strip_left (String.◌∷◌ c s) =
    let rest = strip_left s in if is_space (code c) then rest else String.◌∷◌ c s

is_empty : String → Bool
is_empty String.[] = true
is_empty (String.◌∷◌ c s) = false

strip_right : String → String
unfolding is_empty
strip_right String.[] = String.[]
strip_right (String.◌∷◌ c s) =
    let rest = strip_right s in
    if is_empty rest && is_space (code c) then String.[] else String.◌∷◌ c rest

unfoldable pub strip : String → String
unfolding strip_left strip_right
strip s = strip_right (strip_left s)

is_digit : ℕ → Bool
is_digit c = leb 48 c && leb c 57

-- The number that a text of ASCII digits denotes, after `seen`; none where another character stands.
digits_after : (seen : ℕ) → String → Option ℕ
unfolding is_digit
digits_after seen String.[] = some seen
digits_after seen (String.◌∷◌ c s) =
    let rest = digits_after (seen * 10 + (code c - 48)) s in
    if is_digit (code c) then rest else none

-- `text.isascii() and text.isdigit()`, and then `int(text)`.
unfoldable pub digits : String → Option ℕ
unfolding digits_after
digits String.[] = none
digits (String.◌∷◌ c s) = digits_after 0 (String.◌∷◌ c s)

-- `when - now`, where it is not negative and the date names its zone.
until : Option Stamp → (now : ℕ) → Option ℕ
until none now = none
until (some (naive wall)) now = none
until (some (aware instant)) now = if ltb instant now then none else some (instant - now)

-- The delay that the stripped header asks for.
asked_delay : (String → Option Stamp) → String → (now : ℕ) → Option ℕ
unfolding until is_empty digits
asked_delay parsedate text now = elim (digits text) [
  | some n ↦ some (seconds (min n 86401))
  | none ↦ if is_empty text then none else until (parsedate text) now
]

clamped_delay : Option ℕ → ℕ
clamped_delay none = retry_after_default
clamped_delay (some d) = min (max d retry_after_min) retry_after_max

unfoldable pub parse_retry_after : (String → Option Stamp) → (value : Option String) → (now : ℕ) → ℕ
unfolding clamped_delay asked_delay strip
parse_retry_after parsedate value now =
    clamped_delay (asked_delay parsedate (strip (or_default value "")) now)

unfoldable pub classify_status :
    (String → Option Stamp)
    → (status : ℕ) → (body_empty : Bool) → (retry_after : Option String) → (now : ℕ) → FetchDecision
unfolding parse_retry_after
classify_status parsedate status body_empty retry_after now =
    if status == 304
    then record (decision success unknown) { not_modified = true }
    else if leb 200 status && ltb status 300
    then (if body_empty
        then record (decision retryable unknown) { error_code = some (named "empty_body") }
        else decision success (if status == 206 then partial else full))
    else if status == 429
    then record (decision retryable unknown) {
      error_code = some (http_ status);
      retry_after = some (parse_retry_after parsedate retry_after now);
      block_origin = true;
    }
    else if elem status retryable_statuses
    then record (decision retryable unknown) { error_code = some (http_ status) }
    else if elem status (401 ∷ 403 ∷ [])
    then record (decision permanent_failure blocked) {
      error_code = some (http_ status);
      route_incident = true;
      browser_candidate = true;
    }
    else if elem status (404 ∷ 410 ∷ [])
    then record (decision permanent_failure gone) { error_code = some (http_ status) }
    else if status == 451
    then record (decision permanent_failure blocked) { error_code = some (http_ status) }
    else if leb 300 status && ltb status 400
    then record (decision permanent_failure unknown) {
      error_code = some (named "redirect_invalid");
      reason = some (http_ status);
    }
    else record (decision permanent_failure unknown) { error_code = some (http_ status) }

unfoldable pub classify_error : (error_code : String) → (policy : Bool) → FetchDecision
classify_error error_code policy =
    if policy
    then record (decision permanent_failure unknown) {
      error_code = some (named "policy_blocked");
      reason = some (named error_code);
    }
    else if mentions retryable_errors error_code
    then record (decision retryable unknown) { error_code = some (named error_code) }
    else if str_eq error_code "media_binary_skipped"
    then record (decision success metadata_only) { error_code = some (named error_code) }
    else record (decision permanent_failure unknown) {
      error_code = some (named error_code);
      quarantine = mentions quarantine_errors error_code;
    }

pub record RetryPlan : Type 0 where
  pub retry : Bool
  pub delay : Option ℕ
  pub dead_letter : Bool

-- `BACKOFF[index]`, the last step where the index is past the end.
unfoldable pub backoff_step : (steps : List ℕ) → (index : ℕ) → ℕ
backoff_step [] n = 0
backoff_step (d ∷ []) n = d
backoff_step (d ∷ e ∷ ds) zero = d
backoff_step (d ∷ e ∷ ds) (suc n) = backoff_step (e ∷ ds) n

-- `base * (1 + jitter)`, the jitter up to a fifth.
unfoldable pub jittered : Rng → (attempt : ℕ) → ℕ
unfolding backoff_step
jittered rng attempt =
    let base = backoff_step backoff (min (max attempt 1) 4 - 1) in base + rng (base / 5)

unfoldable pub plan_retry : FetchDecision → (attempt limit : ℕ) → Rng → RetryPlan
unfolding jittered
plan_retry d attempt limit rng = elim d.outcome [
  | success ↦ record { retry = false; delay = none; dead_letter = false }
  | permanent_failure ↦ record { retry = false; delay = none; dead_letter = true }
  | retryable ↦
      if leb limit attempt
      then record { retry = false; delay = none; dead_letter = true }
      else record {
        retry = true;
        delay = some (max (jittered rng attempt) (or_default d.retry_after 0));
        dead_letter = false;
      }
]

-- ===== src/Fetch/Classify/Delays.antt =====
-- How long `plan_retry` waits after what `classify_status` decided.
use ua_web_data_collector_sp.Base.{ℕ, ◌==◌, ◌≤◌, String, Option, none, some, if◌then◌else◌}
use ua_web_data_collector_sp.Clock.{Stamp}
use ua_web_data_collector_sp.Fetch.Classify.{retry_after_min, retry_after_max, parse_retry_after}

-- Between five seconds and a day, if there is one.
abbrev IsBounded : Option ℕ → Type 0
IsBounded none = Unit {0}
IsBounded (some n) = (retry_after_min ≤ n) × (n ≤ retry_after_max)

-- What a response asks for: a 429 its `Retry-After`, clamped between five seconds and a day, or ten
-- minutes where it has none that is understood; every other response nothing.
abbrev pub asked : (status : ℕ) → (String → Option Stamp) → (header : Option String) → (now : ℕ) → ℕ
asked status parsedate header now =
    if status == 429 then parse_retry_after parsedate header now else 0

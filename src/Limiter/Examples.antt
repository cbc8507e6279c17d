-- ===== src/Limiter/Examples.antt =====
-- Runs of the limiter on one origin.
use ua_web_data_collector_sp.Base.{
  ℕ, ◌+◌, ◌-◌, ◌*◌, ◌≡◌, ◌≤◌, refl, true, none, some, List, [], ◌∷◌, arith,
}
use ua_web_data_collector_sp.Errors.{ok}
use ua_web_data_collector_sp.Clock.{at_instant, resolve_now, resolve, require_aware_utc}
use ua_web_data_collector_sp.Sql.{count_where, rows_where, update_where, one_or_none}
use ua_web_data_collector_sp.Audit.{require_audit_context, append_audit, is_missing}
use ua_web_data_collector_sp.Limiter.Rows.{
  Bucket, Permit, Db, get_bucket, save_bucket, refilled_tokens, live_permit_count, released,
}
use ua_web_data_collector_sp.Limiter.Acquire.{
  PermitDecision, acquire_permit, decide, refill, new_permit, is_blocked,
}
use ua_web_data_collector_sp.Limiter.Maintain.{
  block_origin, extends_block, blocked_bucket, audit_block, release_permit, releasable, closed,
}
use ua_web_data_collector_sp.Limiter.Grants.{Outcome, acquire-Outcome}
use ua_web_data_collector_sp.Limiter.Rate.{Ask, grants, grants-le, polls-starve}
use ua_web_data_collector_sp.Limiter.Blocks.{block-no_burst}

-- Two tokens of capacity, half a token per second.
abbrev half_rate : Bucket
half_rate = record {
  origin = "https://example.org";
  capacity_tokens = 20000;
  refill_per_second = 500000;
  available_tokens = 20000;
  last_refill_at = 1000;
  max_concurrency = 1;
  blocked_until = none;
  block_reason = none;
  revision = 1;
  created_at = 1000;
  updated_at = 1000;
}

abbrev dry : Bucket
dry = record half_rate { available_tokens = 0 }

abbrev table : Bucket → Db
table b = record { buckets = b ∷ []; permits = []; audit_log = [] }

now : (t : ℕ) → resolve_now (at_instant t) ≡ ok t
unfolding resolve_now resolve require_aware_utc
now t = refl

found :
    (b : Bucket)
    → b.origin ≡ "https://example.org"
    → get_bucket "https://example.org" (table b).buckets ≡ some b
unfolding get_bucket
found b h = rw h refl

acquire-Outcome_example :
    (r : PermitDecision × Db) × (acquire_permit
        (table half_rate)
        "https://example.org"
        "w1"
        60
        none
        (at_instant 2000)
        1
      ≡ ok r)
    × Outcome (table half_rate) half_rate 2000 r
acquire-Outcome_example =
    acquire-Outcome (table half_rate) "https://example.org" "w1" 60 none (at_instant 2000) 2000 1
      half_rate (omega arith) (now 2000) (found half_rate refl)

abbrev asks : List Ask
asks =
    record { owner = "w1"; lease_seconds = 60; job_id = none; instant = 2000; permit_id = 1 }
    ∷ record { owner = "w2"; lease_seconds = 60; job_id = none; instant = 3000; permit_id = 2 }
    ∷ []

grants-le_example :
    grants (table half_rate) "https://example.org" asks * 1000000000000
    ≤ 20000 * 100000000 + (4000 - 1000) * 500000
grants-le_example =
    grants-le (table half_rate) "https://example.org" asks half_rate 4000 (found half_rate refl)
      (omega arith, omega arith, (omega arith, omega arith, omega arith))

abbrev dry_ask : Ask
dry_ask = record {
  owner = "w1";
  lease_seconds = 60;
  job_id = some 3;
  instant = 1100;
  permit_id = 1;
}

polls-starve_example :
    grants
      (table dry)
      "https://example.org"
      (record dry_ask { instant = 1100 } ∷ record dry_ask { instant = 1150; permit_id = 2 } ∷ [])
    ≡ 0
polls-starve_example =
    polls-starve (table dry) "https://example.org"
      (record dry_ask { instant = 1100 } ∷ record dry_ask { instant = 1150; permit_id = 2 } ∷ [])
      dry (found dry refl) (omega arith) (omega arith)
      (
        omega arith,
        omega arith,
        omega arith,
        unfold is_blocked in refl,
        (omega arith, omega arith, omega arith, unfold is_blocked in refl, tt),
      )

abbrev unblocked_again : Db
unblocked_again = record {
  buckets = blocked_bucket half_rate 5000 "429" 2000 ∷ [];
  permits = [];
  audit_log = audit_block half_rate 5000 "w1" "429" none 2000 1 ∷ [];
}

block_ok :
    block_origin (table half_rate) "https://example.org" 5000 "w1" "429" none (at_instant 2000) 1
    ≡ ok (blocked_bucket half_rate 5000 "429" 2000, unblocked_again)
unfolding block_origin resolve_now resolve require_aware_utc require_audit_context is_missing
    get_bucket extends_block save_bucket update_where append_audit blocked_bucket audit_block
block_ok = refl

-- The decision two seconds after the end of the block.
abbrev later : PermitDecision × Db
later =
    let b = refill (blocked_bucket half_rate 5000 "429" 2000) 2005000 in
    decide unblocked_again b 0 (new_permit "https://example.org" "w1" 60 none 2005000 7) 2005000

later_ok :
    acquire_permit unblocked_again "https://example.org" "w1" 60 none (at_instant 2005000) 7
    ≡ ok later
unfolding acquire_permit resolve_now resolve require_aware_utc get_bucket is_blocked
    live_permit_count count_where blocked_bucket
later_ok = refl

block-no_burst_example : (5000 ≤ 2005000) × (1000000000000 ≤ (2005000 - 5000) * 500000)
block-no_burst_example =
    block-no_burst (table half_rate) unblocked_again "https://example.org" "w1" "429" "w1" 5000 1 60
      2005000 7 none (at_instant 2000) (at_instant 2005000) none half_rate
      (blocked_bucket half_rate 5000 "429" 2000) later (found half_rate refl)
      (unfold extends_block in refl) block_ok (omega arith) (now 2005000) later_ok
      (unfold decide refill refilled_tokens blocked_bucket in refl)

abbrev permit_1 : Permit
permit_1 = record {
  permit_id = 1;
  origin = "https://example.org";
  owner_instance = "w1";
  job_id = none;
  acquired_at = 2000;
  lease_expires_at = 60002000;
  released_at = none;
  release_reason = none;
  created_at = 2000;
}

abbrev one_permit : Db
one_permit = record { buckets = half_rate ∷ []; permits = permit_1 ∷ []; audit_log = [] }

abbrev given_back : Db
given_back = record one_permit { permits = closed released 3000 permit_1 ∷ [] }

release_ok : release_permit one_permit 1 (some "w1") (at_instant 3000) ≡ ok (true, given_back)
unfolding release_permit releasable closed resolve_now resolve require_aware_utc rows_where
    update_where one_or_none
release_ok = refl

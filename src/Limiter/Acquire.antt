-- ===== src/Limiter/Acquire.antt =====
-- `acquire_permit` of repositories/limiter.py: one short transaction under the lock of the bucket.
use ua_web_data_collector_sp.Base.{
  ℕ, ◌+◌, ◌-◌, ◌*◌, ◌/◌, min, String, Bool, true, false, Option, none, some, List, [], ◌∷◌, ◌++◌,
  ltb, leb, if◌then◌else◌, or_default,
}
use ua_web_data_collector_sp.Errors.{
  Result, ok, ◌>>=◌, ◌>>◌, require, or_raise, value_error, not_found,
}
use ua_web_data_collector_sp.Clock.{When, resolve_now, seconds}
use ua_web_data_collector_sp.Sql.{rows_where}
use ua_web_data_collector_sp.Limiter.Rows.{
  Bucket, Permit, Db, one_token, refill_unit, get_bucket, save_bucket, is_live, live_permit_count,
  refilled_tokens,
}

pub data DenyReason : Type 0 where
  blocked rate concurrency : DenyReason

pub record PermitDecision : Type 0 where
  pub granted : Bool
  pub permit : Option Permit
  pub reason : Option DenyReason
  pub retry_after : Option ℕ
  pub live_permits : ℕ
  pub available_tokens : ℕ

-- `blocked_until is not None and blocked_until > now`
unfoldable pub is_blocked : Option ℕ → (now : ℕ) → Bool
is_blocked none now = false
is_blocked (some until) now = ltb now until

-- `refilled` in the bucket, which is kept also by a refusal.
unfoldable pub refill : Bucket → (now : ℕ) → Bucket
refill b now = record b {
  available_tokens = refilled_tokens b now;
  last_refill_at = now;
  updated_at = now;
}

-- The time that the missing part of a token takes, to the nearest microsecond.
unfoldable pub wait_for_token : Bucket → (tokens : ℕ) → ℕ
wait_for_token b tokens =
    (2 * ((one_token - tokens) * refill_unit) + b.refill_per_second) / (2 * b.refill_per_second)

-- SELECT min(lease_expires_at) over the live permits.
unfoldable pub earliest_expiry : List Permit → Option ℕ
earliest_expiry [] = none
earliest_expiry (p ∷ ps) =
    some
      (elim (earliest_expiry ps) [ none ↦ p.lease_expires_at | some t ↦ min p.lease_expires_at t ])

unfoldable pub new_permit :
    (origin owner_instance : String)
    → (lease_seconds : ℕ) → (job_id : Option ℕ) → (now new_id : ℕ) → Permit
new_permit origin owner_instance lease_seconds job_id now new_id = record {
  permit_id = new_id;
  origin = origin;
  owner_instance = owner_instance;
  job_id = job_id;
  acquired_at = now;
  lease_expires_at = now + seconds lease_seconds;
  released_at = none;
  release_reason = none;
  created_at = now;
}

abbrev pub denied : DenyReason → (retry_after live tokens : ℕ) → PermitDecision
denied reason retry_after live tokens = record {
  granted = false;
  permit = none;
  reason = some reason;
  retry_after = some retry_after;
  live_permits = live;
  available_tokens = tokens;
}

-- The decision over a bucket that is not blocked, with the refilled bucket and the live count.
unfoldable pub decide : Db → Bucket → (live : ℕ) → Permit → (now : ℕ) → PermitDecision × Db
unfolding wait_for_token earliest_expiry is_live
decide db b live permit now =
    let kept = record db { buckets = save_bucket b db.buckets } in
    if ltb b.available_tokens one_token
    then (denied rate (now + wait_for_token b b.available_tokens) live b.available_tokens, kept)
    else (if leb b.max_concurrency live
        then (
          denied concurrency
              (or_default (earliest_expiry (rows_where (is_live b.origin now) db.permits)) now) live
              b.available_tokens,
          kept,
        )
        else (let b' = record b { available_tokens = b.available_tokens - one_token } in
            (
              record {
                granted = true;
                permit = some permit;
                reason = none;
                retry_after = none;
                live_permits = live + 1;
                available_tokens = b'.available_tokens;
              },
              record db {
                buckets = save_bucket b' db.buckets;
                permits = db.permits ++ permit ∷ [];
              },
            )))

unfoldable pub acquire_permit :
    Db
    → (origin owner_instance : String) → (lease_seconds : ℕ) → (job_id : Option ℕ) → When
    → (new_id : ℕ) → Result (PermitDecision × Db)
unfolding decide is_blocked refill new_permit
acquire_permit db origin owner_instance lease_seconds job_id w new_id = do
  require (leb 1 lease_seconds) value_error
  current ← resolve_now w
  bucket ← or_raise (get_bucket origin db.buckets) not_found
  if is_blocked bucket.blocked_until current
      then ok
          (denied blocked (or_default bucket.blocked_until current) 0 bucket.available_tokens, db)
      else ok (
          decide db (refill bucket current) (live_permit_count db origin current)
            (new_permit origin owner_instance lease_seconds job_id current new_id) current)

-- ===== src/Limiter/Rows.antt =====
-- The rows of `origin_rate_buckets` and `origin_rate_permits` (models/limiter.py), and the counts
-- over them. Tokens are Numeric(12, 4), so they are numbers of the quantum 0.0001; a refill rate is
-- Numeric(12, 6), so it is a number of millionths of a token per second.
use ua_web_data_collector_sp.Base.{
  ℕ, ◌+◌, ◌-◌, ◌*◌, ◌/◌, min, String, Bool, ◌&&◌, Option, none, some, List, [], ◌∷◌, ltb, str_eq,
  if◌then◌else◌, is_none,
}
use ua_web_data_collector_sp.Audit.{AuditEntry}
use ua_web_data_collector_sp.Sql.{update_where, count_where}

pub record Bucket : Type 0 where
  pub origin : String
  pub capacity_tokens : ℕ
  pub refill_per_second : ℕ
  pub available_tokens : ℕ
  pub last_refill_at : ℕ
  pub max_concurrency : ℕ
  pub blocked_until : Option ℕ
  pub block_reason : Option String
  pub revision : ℕ
  pub created_at : ℕ
  pub updated_at : ℕ

pub data ReleaseReason : Type 0 where
  released expired : ReleaseReason

pub record Permit : Type 0 where
  pub permit_id : ℕ
  pub origin : String
  pub owner_instance : String
  pub job_id : Option ℕ
  pub acquired_at : ℕ
  pub lease_expires_at : ℕ
  pub released_at : Option ℕ
  pub release_reason : Option ReleaseReason
  pub created_at : ℕ

pub record Db : Type 0 where
  pub buckets : List Bucket
  pub permits : List Permit
  pub audit_log : List AuditEntry

-- `Decimal(1)`, in quanta.
abbrev pub one_token : ℕ
one_token = 10000

-- One microsecond at one millionth of a token per second is the 10 ^ 8th part of a quantum.
abbrev pub refill_unit : ℕ
refill_unit = 100000000

-- `get_bucket`: the row under the primary key `origin`.
unfoldable pub get_bucket : String → List Bucket → Option Bucket
get_bucket origin [] = none
get_bucket origin (b ∷ bs) = if str_eq b.origin origin then some b else get_bucket origin bs

-- What a flush writes: the attributes of one loaded bucket.
unfoldable pub save_bucket : Bucket → List Bucket → List Bucket
save_bucket bucket = update_where (λ b. str_eq b.origin bucket.origin) (λ _. bucket)

-- origin = :origin AND released_at IS NULL AND lease_expires_at > now
unfoldable pub is_live : String → (now : ℕ) → Permit → Bool
is_live origin now p =
    str_eq p.origin origin && (is_none p.released_at && ltb now p.lease_expires_at)

-- `live_permit_count`
unfoldable pub live_permit_count : Db → String → (now : ℕ) → ℕ
unfolding is_live
live_permit_count db origin now = count_where (is_live origin now) db.permits

-- `_refilled_tokens`, rounded down to the quantum.
unfoldable pub refilled_tokens : Bucket → (now : ℕ) → ℕ
refilled_tokens b now =
    min
      ((b.available_tokens * refill_unit + (now - b.last_refill_at) * b.refill_per_second)
        / refill_unit)
      b.capacity_tokens

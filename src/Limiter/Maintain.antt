-- ===== src/Limiter/Maintain.antt =====
-- `ensure_bucket`, `release_permit`, `expire_permits` and `block_origin` of repositories/limiter.py.
use ua_web_data_collector_sp.Base.{
  ℕ, ◌+◌, min, ◌==◌, String, Bool, true, ◌&&◌, Option, none, some, [], ◌∷◌, ◌++◌, ltb, leb, str_eq,
  if◌then◌else◌, is_none, is_some, length, prefix,
}
use ua_web_data_collector_sp.Errors.{
  Result, ok, ◌>>=◌, ◌>>◌, require, or_raise, not_found, integrity_error,
}
use ua_web_data_collector_sp.Clock.{When, resolve_now}
use ua_web_data_collector_sp.Audit.{
  AuditEntry, name, time, text, time_or_null, require_audit_context, append_audit,
}
use ua_web_data_collector_sp.Sql.{rows_where, update_where, one_or_none}
use ua_web_data_collector_sp.Limiter.Rows.{
  Bucket, Permit, ReleaseReason, released, expired, Db, get_bucket, save_bucket,
}

-- The configuration that a source's policy gives.
pub record Limits : Type 0 where
  pub capacity_tokens : ℕ
  pub refill_per_second : ℕ
  pub max_concurrency : ℕ

unfoldable pub fresh_bucket : String → Limits → (now : ℕ) → Bucket
fresh_bucket origin limits now = record {
  origin = origin;
  capacity_tokens = limits.capacity_tokens;
  refill_per_second = limits.refill_per_second;
  available_tokens = limits.capacity_tokens;
  last_refill_at = now;
  max_concurrency = limits.max_concurrency;
  blocked_until = none;
  block_reason = none;
  revision = 1;
  created_at = now;
  updated_at = now;
}

-- ON CONFLICT DO UPDATE
unfoldable pub reconfigured : Bucket → Limits → (now : ℕ) → Bucket
reconfigured b limits now = record b {
  capacity_tokens = limits.capacity_tokens;
  refill_per_second = limits.refill_per_second;
  available_tokens = min b.available_tokens limits.capacity_tokens;
  max_concurrency = limits.max_concurrency;
  revision = b.revision + 1;
  updated_at = now;
}

-- With CHECK (capacity_tokens > 0 AND refill_per_second > 0).
unfoldable pub ensure_bucket : Db → (origin : String) → Limits → When → Result (Bucket × Db)
unfolding fresh_bucket reconfigured
ensure_bucket db origin limits w = do
  current ← resolve_now w
  require (ltb 0 limits.capacity_tokens && ltb 0 limits.refill_per_second) integrity_error
  elim (get_bucket origin db.buckets) [
    | none ↦
        let b = fresh_bucket origin limits current in
        ok (b, record db { buckets = db.buckets ++ b ∷ [] })
    | some old ↦
        let b = reconfigured old limits current in
        ok (b, record db { buckets = save_bucket b db.buckets })
  ]

owned_by : Option String → Permit → Bool
owned_by none p = true
owned_by (some owner) p = str_eq p.owner_instance owner

-- permit_id = :id AND released_at IS NULL, and the owner, if it is given.
unfoldable pub releasable : ℕ → Option String → Permit → Bool
unfolding owned_by
releasable i owner p = p.permit_id == i && (is_none p.released_at && owned_by owner p)

unfoldable pub closed : ReleaseReason → (now : ℕ) → Permit → Permit
closed reason now p = record p { released_at = some now; release_reason = some reason }

unfoldable pub release_permit : Db → (permit_id : ℕ) → Option String → When → Result (Bool × Db)
unfolding releasable closed
release_permit db i owner w = do
  current ← resolve_now w
  ok (
    is_some (one_or_none (rows_where (releasable i owner) db.permits)),
    record db { permits = update_where (releasable i owner) (closed released current) db.permits },
  )

of_origin : Option String → Permit → Bool
of_origin none p = true
of_origin (some origin) p = str_eq p.origin origin

-- released_at IS NULL AND lease_expires_at <= now, and the origin, if it is given.
unfoldable pub expirable : Option String → (now : ℕ) → Permit → Bool
unfolding of_origin
expirable origin now p = is_none p.released_at && (leb p.lease_expires_at now && of_origin origin p)

unfoldable pub expire_permits : Db → Option String → When → Result (ℕ × Db)
unfolding expirable closed
expire_permits db origin w = do
  current ← resolve_now w
  ok (
    length (rows_where (expirable origin current) db.permits),
    record db {
      permits = update_where (expirable origin current) (closed expired current) db.permits;
    },
  )

-- `blocked_until is None or blocked_until < until`
unfoldable pub extends_block : Option ℕ → (until : ℕ) → Bool
extends_block none until = true
extends_block (some old) until = ltb old until

unfoldable pub blocked_bucket : Bucket → (until : ℕ) → (reason : String) → (now : ℕ) → Bucket
unfolding prefix
blocked_bucket b until reason now = record b {
  blocked_until = some until;
  block_reason = some (prefix 256 reason);
  available_tokens = 0;
  last_refill_at = until;
  revision = b.revision + 1;
  updated_at = now;
}

unfoldable pub audit_block :
    Bucket → (until : ℕ) → (actor reason : String) → Option String → (now audit_id : ℕ) → AuditEntry
unfolding prefix
audit_block b until actor reason request_id now audit_id = record {
  audit_id = audit_id;
  created_at = now;
  actor = actor;
  action = "origin.block";
  resource_type = "origin_rate_bucket";
  resource_id = name b.origin;
  before_state = some (("blocked_until", time_or_null b.blocked_until) ∷ []);
  after_state = some (("blocked_until", time until) ∷ ("reason", text (prefix 256 reason)) ∷ []);
  request_id = request_id;
  idempotency_key = none;
}

-- Only a longer block changes anything, and leaves an audit record.
unfoldable pub block_origin :
    Db
    → (origin : String) → (until : ℕ) → (actor reason : String) → Option String
    → When
    → (audit_id : ℕ) → Result (Bucket × Db)
unfolding extends_block blocked_bucket audit_block append_audit require_audit_context
block_origin db origin until actor reason request_id w audit_id = do
  context ← require_audit_context (some actor) (some reason)
  current ← resolve_now w
  bucket ← or_raise (get_bucket origin db.buckets) not_found
  if extends_block bucket.blocked_until until
      then (let b = blocked_bucket bucket until reason current in
          let entry = audit_block bucket until actor reason request_id current audit_id in
          ok (
            b,
            record db {
              buckets = save_bucket b db.buckets;
              audit_log = (append_audit db.audit_log entry).1;
            },
          ))
      else ok (bucket, db)

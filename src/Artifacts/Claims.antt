-- ===== src/Artifacts/Claims.antt =====
-- `acquire_upload_claim`, `commit_reference`, `release_claim`, `expire_claims` and
-- `list_orphan_candidates` of repositories/artifacts.py: the leases on object keys.
pub mod Grows
pub mod Selected
pub mod Fencing
pub mod Committed
use ua_web_data_collector_sp.Base.{
  ℕ, ◌+◌, ◌==◌, String, Bool, true, false, ◌&&◌, ◌||◌, not, Option, none, some, List, [], ◌∷◌, ◌++◌,
  map, leb, ltb, str_eq, if◌then◌else◌, is_some, is_none, or_default, column_is, ℤ, pos, negsuc,
  sort, take,
}
use ua_web_data_collector_sp.Errors.{
  Result, ok, err, ◌>>=◌, ◌>>◌, require, or_raise, value_error, not_found, stale_claim,
  integrity_error,
}
use ua_web_data_collector_sp.Clock.{When, resolve_now, seconds}
use ua_web_data_collector_sp.Sql.{
  rows_where, update_where, one_or_none, select_for_update, among, find,
}
use ua_web_data_collector_sp.Artifacts.Rows.{
  UploadClaimStatus, leased, committed, released, expired, ArtifactUploadClaim, NormalizedArtifact,
  RawObject, Db, claim_key, is_committed, is_held, get_claim, save_claim,
}

unfoldable pub new_claim :
    (object_key owner : String)
    → (expires now : ℕ) → Option String
    → (claim_id : ℕ) → ArtifactUploadClaim
new_claim key owner expires now media_type claim_id = record {
  claim_id = claim_id;
  object_key = key;
  owner = owner;
  status = leased;
  claim_generation = 1;
  acquired_at = now;
  lease_expires_at = expires;
  committed_at = none;
  released_at = none;
  sha256 = none;
  size_bytes = none;
  uri = none;
  media_type = media_type;
  created_at = now;
  updated_at = now;
}

-- `status == leased and lease_expires_at > now`
unfoldable pub is_alive : (now : ℕ) → ArtifactUploadClaim → Bool
is_alive now c = is_held c.status && ltb now c.lease_expires_at

-- What `if media_type is not None` leaves.
given_or : Option String → Option String → Option String
given_or none old = old
given_or (some m) old = some m

-- `media_type or the old one`, where an empty text counts as none.
filled_or : Option String → Option String → Option String
filled_or none old = old
filled_or (some m) old = if str_eq m "" then old else some m

-- The lease prolonged, for a claim that is alive.
unfoldable pub prolonged :
    (expires now : ℕ) → Option String → ArtifactUploadClaim → ArtifactUploadClaim
unfolding given_or
prolonged expires now media_type c = record c {
  media_type = given_or media_type c.media_type;
  lease_expires_at = expires;
  updated_at = now;
}

-- A claim that is not alive, taken over: its generation is stale from now on.
unfoldable pub reacquired :
    (owner : String) → (expires now : ℕ) → Option String → ArtifactUploadClaim → ArtifactUploadClaim
unfolding given_or
reacquired owner expires now media_type c = record c {
  claim_generation = c.claim_generation + 1;
  owner = owner;
  acquired_at = now;
  released_at = none;
  status = leased;
  media_type = given_or media_type c.media_type;
  lease_expires_at = expires;
  updated_at = now;
}

-- The row of the key exists and is locked.
unfoldable pub acquire_locked :
    Db
    → ArtifactUploadClaim
    → (owner : String) → (expires now : ℕ) → Option String
    → Result (ArtifactUploadClaim × Db)
unfolding is_alive prolonged reacquired save_claim
acquire_locked db c owner expires now media_type =
    if is_committed c.status
    then err stale_claim
    else if is_alive now c
    then (if str_eq c.owner owner
        then ok
            (prolonged expires now media_type c, save_claim (prolonged expires now media_type c) db)
        else err stale_claim)
    else ok (
      reacquired owner expires now media_type c,
      save_claim (reacquired owner expires now media_type c) db,
    )

unfoldable pub acquire_upload_claim :
    Db
    → (object_key owner : String) → (lease_seconds : ℕ) → Option String
    → When
    → (claim_id : ℕ) → Result (ArtifactUploadClaim × Db)
unfolding new_claim acquire_locked get_claim
acquire_upload_claim db key owner lease_seconds media_type w claim_id = do
  require (leb 1 lease_seconds) value_error
  current ← resolve_now w
  let expires = current + seconds lease_seconds
  elim (get_claim db key) [
    | none ↦
        require (is_none (find claim_key claim_id db.upload_claims)) integrity_error
        >> ok (
          new_claim key owner expires current media_type claim_id,
          record db {
            upload_claims =
                db.upload_claims ++ new_claim key owner expires current media_type claim_id ∷ [];
          },
        )
    | some c ↦ acquire_locked db c owner expires current media_type
  ]

-- object_key, owner, claim_generation and a leased status: the predicate of a commit and a release.
unfoldable pub is_holder :
    (object_key : String) → (generation : ℕ) → (owner : String) → ArtifactUploadClaim → Bool
is_holder key generation owner c =
    str_eq c.object_key key
    && (str_eq c.owner owner && (c.claim_generation == generation && is_held c.status))

-- The object that a commit refers to.
pub record Reference : Type 0 where
  pub sha256 : String
  pub size_bytes : ℕ
  pub uri : String
  pub media_type : Option String

unfoldable pub referenced : Reference → (now : ℕ) → ArtifactUploadClaim → ArtifactUploadClaim
unfolding filled_or
referenced r now c = record c {
  status = committed;
  committed_at = some now;
  sha256 = some r.sha256;
  size_bytes = some r.size_bytes;
  uri = some r.uri;
  media_type = filled_or r.media_type c.media_type;
  updated_at = now;
}

unfoldable pub may_commit :
    (object_key : String)
    → (generation : ℕ) → (owner : String) → (now : ℕ) → ArtifactUploadClaim
    → Bool
unfolding is_holder
may_commit key generation owner now c =
    is_holder key generation owner c && ltb now c.lease_expires_at

-- The same commit again.
unfoldable pub is_repeat : (generation : ℕ) → (owner sha256 : String) → ArtifactUploadClaim → Bool
is_repeat generation owner sha256 c =
    is_committed c.status
    && (c.claim_generation == generation && (str_eq c.owner owner && column_is c.sha256 sha256))

unfoldable pub commit_reference :
    Db
    → (object_key : String) → (generation : ℕ) → (owner : String) → Reference
    → When
    → Result (ArtifactUploadClaim × Db)
unfolding may_commit referenced is_repeat get_claim
commit_reference db key generation owner r w = do
  current ← resolve_now w
  elim (one_or_none (rows_where (may_commit key generation owner current) db.upload_claims)) [
    | some c ↦ ok (
      referenced r current c,
      record db {
        upload_claims =
            update_where (may_commit key generation owner current) (referenced r current)
              db.upload_claims;
      },
    )
    | none ↦ elim (get_claim db key) [
      | none ↦ err not_found
      | some c ↦ if is_repeat generation owner r.sha256 c then ok (c, db) else err stale_claim
    ]
  ]

unfoldable pub given_back : (now : ℕ) → ArtifactUploadClaim → ArtifactUploadClaim
given_back now c = record c { status = released; released_at = some now; updated_at = now }

-- `status in {released, committed}`
abbrev pub is_settled : UploadClaimStatus → Bool
is_settled released = true
is_settled committed = true
is_settled _ = false

if_settled : Option ArtifactUploadClaim → Option ArtifactUploadClaim
if_settled none = none
if_settled (some c) = if is_settled c.status then some c else none

unfoldable pub release_claim :
    Db
    → (object_key : String) → (generation : ℕ) → (owner : String) → When
    → Result (Option ArtifactUploadClaim × Db)
unfolding is_holder given_back get_claim if_settled
release_claim db key generation owner w = do
  current ← resolve_now w
  elim (one_or_none (rows_where (is_holder key generation owner) db.upload_claims)) [
    | some c ↦ ok (
      some (given_back current c),
      record db {
        upload_claims =
            update_where (is_holder key generation owner) (given_back current) db.upload_claims;
      },
    )
    | none ↦ ok (if_settled (get_claim db key), db)
  ]

unfoldable pub is_stale : (now : ℕ) → ArtifactUploadClaim → Bool
is_stale now c = is_held c.status && leb c.lease_expires_at now

unfoldable pub run_out : (now : ℕ) → ArtifactUploadClaim → ArtifactUploadClaim
run_out now c = record c { status = expired; updated_at = now }

unfoldable pub stale_claims : Db → (limit now : ℕ) → (ℕ → Bool) → List ArtifactUploadClaim
unfolding is_stale
stale_claims db limit now locked =
    select_for_update claim_key locked (λ a b. leb a.lease_expires_at b.lease_expires_at)
      (is_stale now) limit db.upload_claims

unfoldable pub expire_claims : Db → (limit : ℕ) → When → (ℕ → Bool) → Result (List String × Db)
unfolding stale_claims run_out
expire_claims db limit w locked = do
  current ← resolve_now w
  let stale = stale_claims db limit current locked
  ok (
    map (λ (c : ArtifactUploadClaim). c.object_key)
        (rows_where (among claim_key stale) db.upload_claims),
    record db {
      upload_claims = update_where (among claim_key stale) (run_out current) db.upload_claims;
    },
  )

-- The NOT EXISTS subqueries.
unfoldable pub is_referenced : Db → (object_key : String) → Bool
is_referenced db key =
    is_some (
      one_or_none
        (rows_where (λ (a : NormalizedArtifact). str_eq a.object_key key) db.normalized_artifacts))
    || is_some
        (one_or_none (rows_where (λ (r : RawObject). str_eq r.object_key key) db.raw_objects))

-- `deadline` is `now - grace`, so the lease has run out more than `grace` ago.
unfoldable pub is_orphan : Db → (grace now : ℕ) → ArtifactUploadClaim → Bool
unfolding is_referenced
is_orphan db grace now c =
    not (is_committed c.status)
    && (leb (c.lease_expires_at + grace) now && not (is_referenced db c.object_key))

-- ORDER BY lease_expires_at, object_key
orphan_order : (String → String → Bool) → ArtifactUploadClaim → ArtifactUploadClaim → Bool
orphan_order key_le a b =
    if ltb a.lease_expires_at b.lease_expires_at
    then true
    else if ltb b.lease_expires_at a.lease_expires_at
    then false
    else key_le a.object_key b.object_key

orphans : Db → (String → String → Bool) → (grace limit : ℕ) → When → Result (List String)
unfolding is_orphan orphan_order
orphans db key_le grace limit w = do
  current ← resolve_now w
  ok (
      map (λ (c : ArtifactUploadClaim). c.object_key)
        (take limit
          (sort (orphan_order key_le) (rows_where (is_orphan db grace current) db.upload_claims))))

-- `key_le` is the order of texts in the database's collation.
unfoldable pub list_orphan_candidates :
    Db → (key_le : String → String → Bool) → (grace : ℤ) → (limit : ℕ) → When → Result (List String)
unfolding orphans
list_orphan_candidates db key_le (pos grace) limit w = orphans db key_le grace limit w
list_orphan_candidates db key_le (negsuc n) limit w = err value_error

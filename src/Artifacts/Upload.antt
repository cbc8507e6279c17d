-- ===== src/Artifacts/Upload.antt =====
-- src/collector/storage/upload.py: `ClaimedUploader.upload`, a client of the upload claims. The store's
-- answers, the clock, the new ids and what other sessions do between two of its transactions are
-- parameters; `after_put` is not passed.
pub mod Committed
use ua_web_data_collector_sp.Base.{
  ℕ, zero, suc, ◌+◌, ◌==◌, String, Bool, true, false, ◌&&◌, ◌||◌, not, Option, none, some, List, [],
  str_eq, if◌then◌else◌,
}
use ua_web_data_collector_sp.Errors.{Error, Result, ok, err, ◌>>=◌}
use ua_web_data_collector_sp.Clock.{Stamp, When}
use ua_web_data_collector_sp.Artifacts.Rows.{ArtifactUploadClaim, Db, is_committed, get_claim}
use ua_web_data_collector_sp.Artifacts.Claims.{Reference, acquire_upload_claim, commit_reference}
use ua_web_data_collector_sp.Artifacts.Claims.Grows.{Call, run}
use ua_web_data_collector_sp.Artifacts.Sweeper.{is_stale_claim}

-- What the store answers (storage/store.py), its media type filled in.
pub record StoredObject : Type 0 where
  pub size : ℕ
  pub sha256 : String
  pub media_type : Option String
  pub bucket : String
  pub key : String

pub record ObjectHead : Type 0 where
  pub size : ℕ
  pub sha256 : String
  pub media_type : Option String

concat : String → String → String
concat String.[] t = t
concat (String.◌∷◌ c s) t = String.◌∷◌ c (concat s t)

unfoldable pub uri : StoredObject → String
unfolding concat
uri o = concat "s3://" (concat o.bucket (concat "/" o.key))

-- The uploader, the arguments of `upload` and their surroundings. `put` is none where the store raises
-- on that attempt, and so is `head`; `others` are the calls of other sessions before the moment of the
-- attempt; `commit` is the caller's callback.
pub record Upload (A : Type 0) : Type 0 where
  pub owner : String
  pub lease_seconds : ℕ
  pub clock : (attempt moment : ℕ) → Stamp
  pub new_id : ℕ → ℕ
  pub bucket : String
  pub key : String
  pub sha256 : String
  pub length_of_data : ℕ
  pub media_type : String
  pub put : (attempt : ℕ) → Option StoredObject
  pub head : (attempt : ℕ) → Option ObjectHead
  pub others : (attempt moment : ℕ) → List Call
  pub commit : Db → StoredObject → Result (A × Db)

pub record ClaimedUploadResult (A : Type 0) : Type 0 where
  pub stored : StoredObject
  pub reference : A
  pub deduplicated : Bool
  pub attempts : ℕ

-- How an upload ends: with its result, with `UploadBusyError`, `UploadRetriesExhaustedError`,
-- `ArtifactIntegrityError`, the store's error or a repository's.
pub data UploadEnd (A : Type 0) : Type 0 where
  uploaded : ClaimedUploadResult A → UploadEnd A
  upload_busy retries_exhausted integrity_broken store_raised : UploadEnd A
  raised : Error → UploadEnd A

unfoldable pub reference_to : StoredObject → Reference
unfolding uri
reference_to o = record {
  sha256 = o.sha256;
  size_bytes = o.size;
  uri = uri o;
  media_type = o.media_type;
}

-- `_committed_claim`
unfoldable pub committed_claim : Db → (key : String) → Option ArtifactUploadClaim
unfolding get_claim
committed_claim db key = elim (get_claim db key) [
  | none ↦ none
  | some c ↦ if is_committed c.status then some c else none
]

-- What became of one attempt: the end of the upload, or another attempt.
pub data Attempt (A : Type 0) : Type 0 where
  ends : UploadEnd A → Db → Attempt A
  goes_on : Db → Attempt A

module _ {A : Type 0} where
  unfoldable pub now_at : Upload A → (attempt moment : ℕ) → When
  now_at u attempt moment = record { utcnow = 0; now = some (u.clock attempt moment) }

  -- `_verify_existing`
  unfoldable pub verify_existing : Upload A → ObjectHead → Option StoredObject
  verify_existing u h =
      if not (str_eq h.sha256 u.sha256) || not (h.size == u.length_of_data)
      then none
      else some (record {
        size = h.size;
        sha256 = h.sha256;
        media_type = elim h.media_type [
          | none ↦ some u.media_type
          | some m ↦ some (if str_eq m "" then u.media_type else m)
        ];
        bucket = u.bucket;
        key = u.key;
      })

  -- The end of the transaction of the caller's reference.
  unfoldable pub deliver :
      (deduplicated : Bool) → StoredObject → (attempt : ℕ) → Db → Result (A × Db) → Attempt A
  deliver deduplicated stored attempt db (err e) = ends (raised e) db
  deliver deduplicated stored attempt db (ok (reference, db')) =
      ends
        (uploaded (record {
          stored = stored;
          reference = reference;
          deduplicated = deduplicated;
          attempts = attempt;
        }))
        db'

  -- The object was committed before: its bytes are verified and the caller's reference is written.
  unfoldable pub verified : Upload A → (attempt : ℕ) → Db → Option StoredObject → Attempt A
  unfolding deliver
  verified u attempt db none = ends integrity_broken db
  verified u attempt db (some stored) =
      deliver true stored attempt (run db (u.others attempt 2))
        (u.commit (run db (u.others attempt 2)) stored)

  unfoldable pub reuse : Upload A → (attempt : ℕ) → Db → Attempt A
  unfolding committed_claim verify_existing verified
  reuse u attempt db = elim (committed_claim db u.key) [
    | none ↦ ends upload_busy db
    | some c ↦ elim (u.head attempt) [
      | none ↦ ends store_raised db
      | some h ↦ verified u attempt db (verify_existing u h)
    ]
  ]

  -- The transaction of the claim's commit and the caller's reference.
  unfoldable pub commit_both :
      Upload A → (attempt generation : ℕ) → StoredObject → Db → Result (A × Db)
  unfolding reference_to now_at
  commit_both u attempt generation stored db =
      commit_reference db u.key generation u.owner (reference_to stored) (now_at u attempt 3)
      >>= λ done. u.commit done.1 stored

  -- What the second `except StaleClaimError` catches.
  unfoldable pub settled : StoredObject → (attempt : ℕ) → Db → Result (A × Db) → Attempt A
  unfolding deliver is_stale_claim
  settled stored attempt db (err e) = if is_stale_claim e then goes_on db else ends (raised e) db
  settled stored attempt db (ok (reference, db')) =
      deliver false stored attempt db (ok (reference, db'))

  unfoldable pub put_object :
      Upload A → (attempt generation : ℕ) → Db → Option StoredObject → Attempt A
  unfolding settled commit_both
  put_object u attempt generation db none = ends store_raised db
  put_object u attempt generation db (some stored) =
      settled stored attempt (run db (u.others attempt 3))
        (commit_both u attempt generation stored (run db (u.others attempt 3)))

  unfoldable pub after_claim :
      Upload A → (attempt : ℕ) → Db → Result (ArtifactUploadClaim × Db) → Attempt A
  unfolding reuse put_object is_stale_claim
  after_claim u attempt db (err e) =
      if is_stale_claim e then reuse u attempt (run db (u.others attempt 1)) else ends (raised e) db
  after_claim u attempt db (ok (claim, db')) =
      put_object u attempt claim.claim_generation db' (u.put attempt)

  unfoldable pub one_attempt : Upload A → (attempt : ℕ) → Db → Attempt A
  unfolding after_claim now_at
  one_attempt u attempt db = after_claim u attempt (run db (u.others attempt 0)) (
      acquire_upload_claim (run db (u.others attempt 0)) u.key u.owner u.lease_seconds
        (some u.media_type) (now_at u attempt 0) (u.new_id attempt))

  -- The loop over the attempts that are left.
  unfoldable pub attempts_from : Upload A → (left attempt : ℕ) → Db → UploadEnd A × Db
  unfolding one_attempt
  attempts_from u zero attempt db = (retries_exhausted, db)
  attempts_from u (suc left) attempt db = elim (one_attempt u attempt db) [
    | ends e db' ↦ (e, db')
    | goes_on db' ↦ attempts_from u left (attempt + 1) db'
  ]

  -- `upload`, for `max_attempts` attempts.
  unfoldable pub upload : Upload A → (max_attempts : ℕ) → Db → UploadEnd A × Db
  unfolding attempts_from
  upload u max_attempts db = attempts_from u max_attempts 1 db

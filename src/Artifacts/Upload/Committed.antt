-- ===== src/Artifacts/Upload/Committed.antt =====
-- What an upload that returns leaves behind.
use ua_web_data_collector_sp.Base.{
  ℕ, zero, suc, ◌+◌, ◌≡◌, refl, subst, String, Bool, true, false, Option, none, some, str_eq,
  eq_iff, Bool-cases, Option-cases, inl, inr, ◌⊎◌,
}
use ua_web_data_collector_sp.Errors.{Result, ok, err, IfOk, IfOk-bind, after}
use ua_web_data_collector_sp.Sql.{rows_where, one_or_none, Unique}
use ua_web_data_collector_sp.Sql.Select.{one_or_none-find}
use ua_web_data_collector_sp.Artifacts.Rows.{
  ArtifactUploadClaim, Db, claim_key, is_committed, get_claim,
}
use ua_web_data_collector_sp.Artifacts.Claims.{commit_reference}
use ua_web_data_collector_sp.Artifacts.Claims.Grows.{acquires, step, run, step-Grown, run-committed}
use ua_web_data_collector_sp.Artifacts.Sweeper.{is_stale_claim}
use ua_web_data_collector_sp.Artifacts.Upload.{
  StoredObject, Upload, UploadEnd, uploaded, Attempt, ends, goes_on, now_at, reference_to,
  committed_claim, verify_existing, deliver, verified, reuse, commit_both, settled, put_object,
  after_claim, one_attempt, attempts_from, upload,
}
use ua_web_data_collector_sp.Artifacts.Claims.Committed.{
  Committed, commit-Committed, run-Unique, Committed-same,
}

-- What holds of the database after an upload ended: if it returned a result, the key is committed, and
-- with the digest of the stored object unless the object was there before.
abbrev pub Done : {A : Type 0} → (key : String) → UploadEnd A → Db → Type 0
Done key (uploaded r) db =
    (digest : Option String) × Committed key digest db
    × ((r.deduplicated ≡ true) ⊎ (digest ≡ some r.stored.sha256))
Done key _ db = Unit {0}

module _ {A : Type 0} (u : Upload A)
    (quiet : (db : Db) (o : StoredObject)
      → IfOk (λ x. x.1.upload_claims ≡ db.upload_claims) (u.commit db o)) where
  abbrev AttemptDone : Attempt A → Type 0
  AttemptDone (ends e db) = Done u.key e db
  AttemptDone (goes_on db) = Unique claim_key db.upload_claims

  deliver-Done :
      (deduplicated : Bool) (stored : StoredObject) (attempt : ℕ) (db : Db) (m : Result (A × Db))
      → IfOk
          (λ x.
            (digest : Option String) × Committed u.key digest x.1
            × ((deduplicated ≡ true) ⊎ (digest ≡ some stored.sha256)))
          m
      → AttemptDone (deliver deduplicated stored attempt db m)
  unfolding deliver
  deliver-Done deduplicated stored attempt db (err e) h = tt
  deliver-Done deduplicated stored attempt db (ok x) h = h

  settled-Done :
      (stored : StoredObject) (attempt : ℕ) (db : Db) (m : Result (A × Db))
      → Unique claim_key db.upload_claims
      → IfOk (λ x. Committed u.key (some stored.sha256) x.1) m
      → AttemptDone (settled stored attempt db m)
  unfolding settled
  settled-Done stored attempt db (err e) k h = elim (Bool-cases (is_stale_claim e)) [
    | inl y ↦ rw y k
    | inr y ↦ rw y tt
  ]
  settled-Done stored attempt db (ok x) k h =
      deliver-Done false stored attempt db (ok x) (some stored.sha256, h, inr refl)

  -- The caller's reference leaves what the claims say.
  callback-Committed :
      (digest : Option String) (db : Db) (o : StoredObject)
      → Committed u.key digest db
      → IfOk (λ x. Committed u.key digest x.1) (u.commit db o)
  callback-Committed digest db o k = go (u.commit db o) (quiet db o)
    where
      go :
          (m : Result (A × Db))
          → IfOk (λ x. x.1.upload_claims ≡ db.upload_claims) m
          → IfOk (λ x. Committed u.key digest x.1) m
      go (err e) h = tt
      go (ok x) h = Committed-same u.key digest db x.1 h k

  put-Done :
      (attempt g : ℕ) (db : Db) (o : Option StoredObject)
      → Unique claim_key db.upload_claims
      → AttemptDone (put_object u attempt g db o)
  unfolding put_object commit_both reference_to
  put-Done attempt g db none k = tt
  put-Done attempt g db (some stored) k =
      let later = run db (u.others attempt 3) in
      let unique : Unique claim_key later.upload_claims = run-Unique db (u.others attempt 3) k in
      settled-Done stored attempt later (commit_both u attempt g stored later) unique (
        IfOk-bind (λ x. Committed u.key (some stored.sha256) x.1)
          (commit_reference later u.key g u.owner (reference_to stored) (now_at u attempt 3)) _
          λ c e. callback-Committed (some stored.sha256) c.1 stored (
            subst (IfOk (λ x. Committed u.key (some stored.sha256) x.1)) e (
              commit-Committed later u.key g u.owner (reference_to stored) (now_at u attempt 3)
                unique)))

  committed_claim-Committed :
      (db : Db) (c : ArtifactUploadClaim)
      → Unique claim_key db.upload_claims
      → committed_claim db u.key ≡ some c
      → Committed u.key c.sha256 db
  unfolding committed_claim get_claim
  committed_claim-Committed db c k e =
      elim (Option-cases (
        one_or_none
          (rows_where (λ (x : ArtifactUploadClaim). str_eq x.object_key u.key) db.upload_claims))) [
            | inl n ↦ absurd (let f : none ≡ some c = rw (committed_claim, n) at e in cc)
            | inr (d, f) ↦ elim (Bool-cases (is_committed d.status)) [
              | inr s ↦
                  absurd (let g : none ≡ some c = rw s at (rw (committed_claim, f) at e) in cc)
              | inl s ↦
                  let g : some d ≡ some c = rw s at (rw (committed_claim, f) at e) in
                  let same : d ≡ c = cc in
                  let (found, passes) =
                    one_or_none-find claim_key (λ x. str_eq x.object_key u.key) db.upload_claims d k
                      f in
                  subst (λ x. Committed u.key x.sha256 db) same
                    (record {
                      claim = d;
                      found = found;
                      of_key = (eq_iff d.object_key u.key).0 passes;
                      is_done = s;
                      holds = refl;
                    })
            ]
          ]

  reuse-Done :
      (attempt : ℕ) (db : Db) → Unique claim_key db.upload_claims → AttemptDone (reuse u attempt db)
  unfolding reuse
  reuse-Done attempt db k = elim (Option-cases (committed_claim db u.key)) [
    | inl n ↦ rw (AttemptDone, n) tt
    | inr (c, e) ↦ elim (Option-cases (u.head attempt)) [
      | inl n ↦ rw (AttemptDone, e, n) tt
      | inr (h, f) ↦
          rw (AttemptDone, e, f)
            (of_head c (verify_existing u h) (committed_claim-Committed db c k e))
    ]
  ]
    where
      later : Db
      later = run db (u.others attempt 2)

      of_head :
          (c : ArtifactUploadClaim) (o : Option StoredObject)
          → Committed u.key c.sha256 db
          → AttemptDone (verified u attempt db o)
      of_head c none done = unfold verified in tt
      of_head c (some stored) done =
          unfold verified in
          deliver-Done true stored attempt later (u.commit later stored) (
            reused c.sha256 (u.commit later stored) (
              callback-Committed c.sha256 later stored (record {
                claim = done.claim;
                found =
                    run-committed db (u.others attempt 2) done.claim.claim_id done.claim k
                      done.found done.is_done;
                of_key = done.of_key;
                is_done = done.is_done;
                holds = done.holds;
              })))
        where
          reused :
              (digest : Option String) (m : Result (A × Db))
              → IfOk (λ x. Committed u.key digest x.1) m
              → IfOk
                  (λ x.
                    (digest : Option String) × Committed u.key digest x.1
                    × ((true ≡ true) ⊎ (digest ≡ some stored.sha256)))
                  m
          reused digest (err e) h = tt
          reused digest (ok x) h = (digest, h, inl refl)

  after_claim-Done :
      (attempt : ℕ) (db : Db) (m : Result (ArtifactUploadClaim × Db))
      → Unique claim_key db.upload_claims
      → Unique claim_key (after db m).upload_claims
      → AttemptDone (after_claim u attempt db m)
  unfolding after_claim
  after_claim-Done attempt db (err e) k k' = elim (Bool-cases (is_stale_claim e)) [
    | inl y ↦ rw y (reuse-Done attempt _ (run-Unique db (u.others attempt 1) k))
    | inr y ↦ rw y tt
  ]
  after_claim-Done attempt db (ok (claim, db')) k k' =
      put-Done attempt claim.claim_generation db' (u.put attempt) k'

  one_attempt-Done :
      (attempt : ℕ) (db : Db)
      → Unique claim_key db.upload_claims
      → AttemptDone (one_attempt u attempt db)
  unfolding one_attempt step
  one_attempt-Done attempt db k =
      let now = run db (u.others attempt 0) in
      let unique : Unique claim_key now.upload_claims = run-Unique db (u.others attempt 0) k in
      after_claim-Done attempt now _ unique
        (step-Grown now
          (acquires u.key u.owner u.lease_seconds (some u.media_type) (now_at u attempt 0)
            (u.new_id attempt))
          unique).unique

  attempts-Done :
      (left attempt : ℕ) (db : Db)
      → Unique claim_key db.upload_claims
      → Done u.key (attempts_from u left attempt db).0 (attempts_from u left attempt db).1
  unfolding attempts_from
  attempts-Done zero attempt db k = tt
  attempts-Done (suc left) attempt db k =
      go (one_attempt u attempt db) (one_attempt-Done attempt db k)
        (λ db' h. attempts-Done left (attempt + 1) db' h)
    where
      go :
          (o : Attempt A)
          → AttemptDone o
          → ((db' : Db)
              → Unique claim_key db'.upload_claims
              → Done u.key
                  (attempts_from u left (attempt + 1) db').0
                  (attempts_from u left (attempt + 1) db').1)
          → Done u.key
              (elim o as (λ _. UploadEnd A × Db) [
                | ends e db' ↦ (e, db')
                | goes_on db' ↦ attempts_from u left (attempt + 1) db'
              ]).0
              (elim o as (λ _. UploadEnd A × Db) [
                | ends e db' ↦ (e, db')
                | goes_on db' ↦ attempts_from u left (attempt + 1) db'
              ]).1
      go (ends e db') h next = h
      go (goes_on db') h next = next db' h

-- An upload that returns a result has committed its key: whatever other sessions call between its
-- transactions, the key's claim is then committed, with the digest of the stored object unless the
-- object was there before. The ids of the claims are distinct, and the caller's callback leaves the
-- claims alone.
pub upload-Done :
    {A : Type 0} (u : Upload A) (max_attempts : ℕ) (db : Db)
    → ((db : Db) (o : StoredObject)
        → IfOk (λ x. x.1.upload_claims ≡ db.upload_claims) (u.commit db o))
    → Unique claim_key db.upload_claims
    → Done u.key (upload u max_attempts db).0 (upload u max_attempts db).1
unfolding upload
upload-Done u max_attempts db quiet k = attempts-Done u quiet max_attempts 1 db k

-- ===== src/Artifacts/Claims/Grows.antt =====
-- The calls on upload claims in any order, and what they do to one claim.
use ua_web_data_collector_sp.Base.{
  ℕ, ◌+◌, ◌≤◌, ◌==◌, ==_iff, ◌≡◌, refl, sym, ◌∙◌, subst, String, Bool, true, false, not, &&_parts,
  Option, none, some, List, [], ◌∷◌, ◌++◌, arith, leb, str_eq, if◌then◌else◌, is_none, All,
  All-map_pred, Bool-cases, Option-cases, inl, inr,
}
use ua_web_data_collector_sp.Errors.{
  ok, ◌>>◌, after, after-bind, require, value_error, integrity_error,
}
use ua_web_data_collector_sp.Clock.{When, resolve_now, seconds}
use ua_web_data_collector_sp.Sql.{rows_where, update_where, one_or_none, find, Unique}
use ua_web_data_collector_sp.Sql.Laws.{
  find-update_where, update_where-Unique, find-append_found, append-Unique, find-All,
}
use ua_web_data_collector_sp.Sql.Select.{one_or_none-find, only_row, among-select}
use ua_web_data_collector_sp.Artifacts.Rows.{
  UploadClaimStatus, ArtifactUploadClaim, Db, claim_key, is_committed, is_held, get_claim,
  save_claim,
}
use ua_web_data_collector_sp.Artifacts.Claims.{
  new_claim, is_alive, prolonged, reacquired, acquire_locked, acquire_upload_claim, is_holder,
  Reference, referenced, may_commit, is_repeat, commit_reference, given_back, release_claim,
  is_stale, run_out, stale_claims, expire_claims,
}

pub data Call : Type 0 where
  acquires : String → String → ℕ → Option String → When → ℕ → Call
  commits : String → ℕ → String → Reference → When → Call
  releases : String → ℕ → String → When → Call
  expires : ℕ → When → (ℕ → Bool) → Call

unfoldable pub step : Db → Call → Db
unfolding acquire_upload_claim commit_reference release_claim expire_claims
step db (acquires key owner n media_type w claim_id) =
    after db (acquire_upload_claim db key owner n media_type w claim_id)
step db (commits key generation owner r w) = after db (commit_reference db key generation owner r w)
step db (releases key generation owner w) = after db (release_claim db key generation owner w)
step db (expires limit w locked) = after db (expire_claims db limit w locked)

unfoldable pub run : Db → List Call → Db
unfolding step
run db [] = db
run db (c ∷ cs) = run (step db c) cs

-- How a call may change a claim.
pub record Aged (c c' : ArtifactUploadClaim) : Type 0 where
  pub same_id : c'.claim_id ≡ c.claim_id
  pub same_key : c'.object_key ≡ c.object_key
  pub newer : c.claim_generation ≤ c'.claim_generation
  pub frozen : is_committed c.status ≡ true → c' ≡ c

Aged-refl : (c : ArtifactUploadClaim) → Aged c c
Aged-refl c = record { same_id = refl; same_key = refl; newer = omega arith; frozen = λ _. refl }

pub record Grown (db db' : Db) : Type 0 where
  pub unique : Unique claim_key db'.upload_claims
  pub ages :
      (i : ℕ) (c : ArtifactUploadClaim)
      → find claim_key i db.upload_claims ≡ some c
      → (c' : ArtifactUploadClaim) × (find claim_key i db'.upload_claims ≡ some c') × Aged c c'

Grown-refl : (db : Db) → Unique claim_key db.upload_claims → Grown db db
Grown-refl db u = record { unique = u; ages = λ i c f. (c, f, Aged-refl c) }

update-Grown :
    (db : Db) (p : ArtifactUploadClaim → Bool) (f : ArtifactUploadClaim → ArtifactUploadClaim)
    → ((r : ArtifactUploadClaim) → p r ≡ true → claim_key (f r) ≡ claim_key r)
    → All (λ r. p r ≡ true → Aged r (f r)) db.upload_claims
    → Unique claim_key db.upload_claims
    → Grown db (record db { upload_claims = update_where p f db.upload_claims })
update-Grown db p f same aged u = record {
  unique = update_where-Unique claim_key p f db.upload_claims same u;
  ages = λ i c found. (
    (if p c then f c else c),
    rw (find-update_where claim_key i p f db.upload_claims same, found) refl,
    elim (Bool-cases (p c)) [
      | inl e ↦ rw e (find-All claim_key _ i db.upload_claims c aged found e)
      | inr e ↦ rw e (Aged-refl c)
    ],
  );
}

All-rows {κ} :
    (P : ArtifactUploadClaim → Type κ) (rows : List ArtifactUploadClaim)
    → ((c : ArtifactUploadClaim) → P c)
    → All P rows
All-rows P [] h = tt
All-rows P (c ∷ rows) h = (h c, All-rows P rows h)

live-Aged :
    (c c' : ArtifactUploadClaim)
    → c'.claim_id ≡ c.claim_id
    → c'.object_key ≡ c.object_key
    → c.claim_generation ≤ c'.claim_generation
    → is_committed c.status ≡ false
    → Aged c c'
live-Aged c c' i k g live = record {
  same_id = i;
  same_key = k;
  newer = g;
  frozen = λ h. absurd (cc);
}

held-not_committed : (s : UploadClaimStatus) → is_held s ≡ true → is_committed s ≡ false
held-not_committed s h = ground arith

-- A flush of one loaded claim.
save-Grown :
    (db : Db) (c c' : ArtifactUploadClaim)
    → Unique claim_key db.upload_claims
    → find claim_key c.claim_id db.upload_claims ≡ some c
    → Aged c c'
    → Grown db (save_claim c' db)
unfolding save_claim
save-Grown db c c' u f aged =
    update-Grown db (λ x. x.claim_id == c'.claim_id) (λ _. c') (λ r e. sym ((==_iff _ _).0 e))
      (All-map_pred (λ x. (x.claim_id == c.claim_id) ≡ true → x ≡ c) _ db.upload_claims
        (λ r only e.
          let same : r ≡ c = only (subst (λ n. (r.claim_id == n) ≡ true) aged.same_id e) in
          subst (λ x. Aged x c') (sym same) aged)
        (only_row claim_key c.claim_id db.upload_claims c u f))
      u

acquire_locked-Grown :
    (db : Db) (c : ArtifactUploadClaim) (owner : String) (until now : ℕ)
    (media_type : Option String)
    → Unique claim_key db.upload_claims
    → find claim_key c.claim_id db.upload_claims ≡ some c
    → Grown db (after db (acquire_locked db c owner until now media_type))
unfolding acquire_locked
acquire_locked-Grown db c owner until now media_type u f =
    elim (Bool-cases (is_committed c.status)) [
      | inl e ↦ rw (acquire_locked, e) (Grown-refl db u)
      | inr e ↦ elim (Bool-cases (is_alive now c)) [
        | inl a ↦ elim (Bool-cases (str_eq c.owner owner)) [
          | inl o ↦
              rw (acquire_locked, e, a, o)
                (save-Grown db c (prolonged until now media_type c) u f (
                  unfold prolonged in
                  live-Aged c (prolonged until now media_type c) refl refl (omega arith) e))
          | inr o ↦ rw (acquire_locked, e, a, o) (Grown-refl db u)
        ]
        | inr a ↦
            rw (acquire_locked, e, a)
              (save-Grown db c (reacquired owner until now media_type c) u f (
                unfold reacquired in
                live-Aged c (reacquired owner until now media_type c) refl refl (omega arith) e))
      ]
    ]

acquire-Grown :
    (db : Db) (key owner : String) (n : ℕ) (media_type : Option String) (w : When) (claim_id : ℕ)
    → Unique claim_key db.upload_claims
    → Grown db (after db (acquire_upload_claim db key owner n media_type w claim_id))
unfolding acquire_upload_claim get_claim
acquire-Grown db key owner n media_type w claim_id u =
    after-bind (Grown db) db (require (leb 1 n) value_error) _ (Grown-refl db u) λ _ _.
      after-bind (Grown db) db (resolve_now w) _ (Grown-refl db u) λ now _.
        elim (Option-cases (get_claim db key)) [
          | inl e ↦ rw e (
              added now (new_claim key owner (now + seconds n) now media_type claim_id)
                (unfold new_claim in refl))
          | inr (c, e) ↦ rw e (
              acquire_locked-Grown db c owner (now + seconds n) now media_type u
                (one_or_none-find claim_key _ db.upload_claims c u (unfold get_claim in e)).0)
        ]
  where
    grow :
        (x : ArtifactUploadClaim)
        → find claim_key (claim_key x) db.upload_claims ≡ none
        → Grown db (record db { upload_claims = db.upload_claims ++ x ∷ [] })
    grow x fresh = record {
      unique = append-Unique claim_key db.upload_claims x u fresh;
      ages = λ i c f. (c, find-append_found claim_key i db.upload_claims x c f, Aged-refl c);
    }

    added :
        (now : ℕ) (x : ArtifactUploadClaim)
        → claim_key x ≡ claim_id
        → Grown db (
            after {A = ArtifactUploadClaim} db (
              require (is_none (find claim_key claim_id db.upload_claims)) integrity_error
              >> ok (x, record db { upload_claims = db.upload_claims ++ x ∷ [] })))
    added now x k = elim (Option-cases (find claim_key claim_id db.upload_claims)) [
      | inl e ↦ rw e (grow x (rw k e))
      | inr (y, e) ↦ rw e (Grown-refl db u)
    ]

-- A change of the rows of the holder of a lease.
holder-Grown :
    (db : Db) (p : ArtifactUploadClaim → Bool) (f : ArtifactUploadClaim → ArtifactUploadClaim)
    → ((c : ArtifactUploadClaim) → p c ≡ true → is_held c.status ≡ true)
    → ((c : ArtifactUploadClaim) → is_committed c.status ≡ false → Aged c (f c))
    → Unique claim_key db.upload_claims
    → Grown db (record db { upload_claims = update_where p f db.upload_claims })
holder-Grown db p f held aged u =
    update-Grown db p f (λ r e. (aged r (held-not_committed r.status (held r e))).same_id)
      (All-rows _ db.upload_claims (λ r e. aged r (held-not_committed r.status (held r e)))) u

is_holder-held :
    (key : String) (g : ℕ) (owner : String) (c : ArtifactUploadClaim)
    → is_holder key g owner c ≡ true
    → is_held c.status ≡ true
unfolding is_holder
is_holder-held key g owner c h = ground arith

may_commit-held :
    (key : String) (g : ℕ) (owner : String) (now : ℕ) (c : ArtifactUploadClaim)
    → may_commit key g owner now c ≡ true
    → is_held c.status ≡ true
unfolding may_commit
may_commit-held key g owner now c h =
    is_holder-held key g owner c (&&_parts (is_holder key g owner c) _ h).0

commit-Grown :
    (db : Db) (key : String) (g : ℕ) (owner : String) (r : Reference) (w : When)
    → Unique claim_key db.upload_claims
    → Grown db (after db (commit_reference db key g owner r w))
unfolding commit_reference referenced
commit-Grown db key g owner r w u =
    after-bind (Grown db) db (resolve_now w) _ (Grown-refl db u) λ now _.
      elim (Option-cases (one_or_none (rows_where (may_commit key g owner now) db.upload_claims))) [
        | inr (c, e) ↦ rw e (
            holder-Grown db (may_commit key g owner now) (referenced r now)
              (may_commit-held key g owner now)
              (λ c live. live-Aged c (referenced r now c) refl refl (omega arith) live) u)
        | inl e ↦ elim (Option-cases (get_claim db key)) [
          | inl n ↦ rw (e, n) (Grown-refl db u)
          | inr (c, f) ↦ elim (Bool-cases (is_repeat g owner r.sha256 c)) [
            | inl y ↦ rw (e, f, y) (Grown-refl db u)
            | inr y ↦ rw (e, f, y) (Grown-refl db u)
          ]
        ]
      ]

release-Grown :
    (db : Db) (key : String) (g : ℕ) (owner : String) (w : When)
    → Unique claim_key db.upload_claims
    → Grown db (after db (release_claim db key g owner w))
unfolding release_claim given_back
release-Grown db key g owner w u =
    after-bind (Grown db) db (resolve_now w) _ (Grown-refl db u) λ now _.
      elim (Option-cases (one_or_none (rows_where (is_holder key g owner) db.upload_claims))) [
        | inr (c, e) ↦ rw e (
            holder-Grown db (is_holder key g owner) (given_back now) (is_holder-held key g owner)
              (λ c live. live-Aged c (given_back now c) refl refl (omega arith) live) u)
        | inl e ↦ rw e (Grown-refl db u)
      ]

is_stale-held :
    (now : ℕ) (c : ArtifactUploadClaim) → is_stale now c ≡ true → is_held c.status ≡ true
unfolding is_stale
is_stale-held now c h = ground arith

expire-Grown :
    (db : Db) (limit : ℕ) (w : When) (locked : ℕ → Bool)
    → Unique claim_key db.upload_claims
    → Grown db (after db (expire_claims db limit w locked))
unfolding expire_claims stale_claims run_out
expire-Grown db limit w locked u =
    after-bind (Grown db) db (resolve_now w) _ (Grown-refl db u) λ now _.
      update-Grown db _ (run_out now) (λ r e. refl)
        (All-map_pred _ _ db.upload_claims
          (λ c h e. live-Aged c (run_out now c) refl refl (omega arith) (
            held-not_committed c.status
              (is_stale-held now c (&&_parts (is_stale now c) (not (locked c.claim_id)) (h e)).0)))
          (among-select claim_key locked (λ a b. leb a.lease_expires_at b.lease_expires_at)
            (is_stale now) limit db.upload_claims u))
        u

pub step-Grown : (db : Db) (c : Call) → Unique claim_key db.upload_claims → Grown db (step db c)
unfolding step
step-Grown db (acquires key owner n media_type w claim_id) u =
    acquire-Grown db key owner n media_type w claim_id u
step-Grown db (commits key g owner r w) u = commit-Grown db key g owner r w u
step-Grown db (releases key g owner w) u = release-Grown db key g owner w u
step-Grown db (expires limit w locked) u = expire-Grown db limit w locked u

-- Where the ids of the claims are distinct, no sequence of calls removes a claim, changes its key or
-- lowers its generation.
pub run-generation :
    (db : Db) (cs : List Call) (i : ℕ) (c : ArtifactUploadClaim)
    → Unique claim_key db.upload_claims
    → find claim_key i db.upload_claims ≡ some c
    → (c' : ArtifactUploadClaim) × (find claim_key i (run db cs).upload_claims ≡ some c')
      × (c'.object_key ≡ c.object_key)
      × (c.claim_generation ≤ c'.claim_generation)
unfolding run
run-generation db [] i c u f = (c, f, refl, omega arith)
run-generation db (x ∷ cs) i c u f =
    let g = step-Grown db x u in
    let (d, found, aged) = g.ages i c f in
    let (c', found', same, newer) = run-generation (step db x) cs i d g.unique found in
    (c', found', same ∙ aged.same_key, omega (arith, aged.newer, newer))

-- Where the ids of the claims are distinct, a committed claim is final: no sequence of calls changes
-- it in any column.
pub run-committed :
    (db : Db) (cs : List Call) (i : ℕ) (c : ArtifactUploadClaim)
    → Unique claim_key db.upload_claims
    → find claim_key i db.upload_claims ≡ some c
    → is_committed c.status ≡ true
    → find claim_key i (run db cs).upload_claims ≡ some c
unfolding run
run-committed db [] i c u f k = f
run-committed db (x ∷ cs) i c u f k =
    let g = step-Grown db x u in
    let (d, found, aged) = g.ages i c f in
    run-committed (step db x) cs i c g.unique
      (subst (λ y. find claim_key i (step db x).upload_claims ≡ some y) (aged.frozen k) found) k

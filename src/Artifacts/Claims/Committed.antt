-- ===== src/Artifacts/Claims/Committed.antt =====
-- The claim that `commit_reference` leaves behind.
use ua_web_data_collector_sp.Base.{
  ℕ, ◌≡◌, refl, ap, String, true, Option, none, some, List, [], ◌∷◌, str_eq, eq_iff, column_is,
  Bool-cases, Option-cases, inl, inr, arith,
}
use ua_web_data_collector_sp.Errors.{IfOk, IfOk-bind}
use ua_web_data_collector_sp.Clock.{When, resolve_now}
use ua_web_data_collector_sp.Sql.{rows_where, update_where, one_or_none, find, Unique}
use ua_web_data_collector_sp.Sql.Laws.{find-update_where}
use ua_web_data_collector_sp.Sql.Select.{one_or_none-find}
use ua_web_data_collector_sp.Artifacts.Rows.{
  ArtifactUploadClaim, Db, claim_key, is_committed, get_claim,
}
use ua_web_data_collector_sp.Artifacts.Claims.{
  Reference, referenced, may_commit, is_holder, is_repeat, commit_reference,
}
use ua_web_data_collector_sp.Artifacts.Claims.Grows.{Call, step, run, step-Grown}

-- A committed claim of the key, with the digest.
pub record Committed (key : String) (digest : Option String) (db : Db) : Type 0 where
  pub claim : ArtifactUploadClaim
  pub found : find claim_key claim.claim_id db.upload_claims ≡ some claim
  pub of_key : claim.object_key ≡ key
  pub is_done : is_committed claim.status ≡ true
  pub holds : claim.sha256 ≡ digest

column-eq : (c : Option String) (s : String) → column_is c s ≡ true → c ≡ some s
column-eq none s h = absurd (cc)
column-eq (some t) s h = ap some ((eq_iff t s).0 h)

may_commit-key :
    (key : String) (g : ℕ) (owner : String) (now : ℕ) (c : ArtifactUploadClaim)
    → may_commit key g owner now c ≡ true
    → str_eq c.object_key key ≡ true
unfolding may_commit is_holder
may_commit-key key g owner now c h = ground (arith, h)

is_repeat-parts :
    (g : ℕ) (owner digest : String) (c : ArtifactUploadClaim)
    → is_repeat g owner digest c ≡ true
    → (is_committed c.status ≡ true) × (column_is c.sha256 digest ≡ true)
unfolding is_repeat
is_repeat-parts g owner digest c h = (ground (arith, h), ground (arith, h))

pub commit-Committed :
    (db : Db) (key : String) (g : ℕ) (owner : String) (r : Reference) (w : When)
    → Unique claim_key db.upload_claims
    → IfOk (λ x. Committed key (some r.sha256) x.1) (commit_reference db key g owner r w)
unfolding commit_reference get_claim
commit-Committed db key g owner r w u = IfOk-bind Spec (resolve_now w) _ λ now _.
    elim (Option-cases (one_or_none (rows_where (may_commit key g owner now) db.upload_claims))) [
      | inr (c, e) ↦ rw e (written now c e)
      | inl e ↦ elim (Option-cases (get_claim db key)) [
        | inl n ↦ rw (e, n) tt
        | inr (c, f) ↦ elim (Bool-cases (is_repeat g owner r.sha256 c)) [
          | inl y ↦ rw (e, f, y) (repeated c (unfold get_claim in f) y)
          | inr y ↦ rw (e, f, y) tt
        ]
      ]
    ]
  where
    Spec : ArtifactUploadClaim × Db → Type 0
    Spec x = Committed key (some r.sha256) x.1

    written :
        (now : ℕ) (c : ArtifactUploadClaim)
        → one_or_none (rows_where (may_commit key g owner now) db.upload_claims) ≡ some c
        → Committed key (some r.sha256) (record db {
          upload_claims =
              update_where (may_commit key g owner now) (referenced r now) db.upload_claims;
        })
    written now c e =
        let (found, passes) =
          one_or_none-find claim_key (may_commit key g owner now) db.upload_claims c u e in
        unfold referenced in
        record {
          claim = referenced r now c;
          found =
              rw
                (
                  find-update_where claim_key c.claim_id (may_commit key g owner now)
                      (referenced r now) db.upload_claims (λ x h. refl),
                  found,
                )
                (rw passes refl);
          of_key = (eq_iff c.object_key key).0 (may_commit-key key g owner now c passes);
          is_done = refl;
          holds = refl;
        }

    repeated :
        (c : ArtifactUploadClaim)
        → one_or_none
            (rows_where (λ (x : ArtifactUploadClaim). str_eq x.object_key key) db.upload_claims)
          ≡ some c
        → is_repeat g owner r.sha256 c ≡ true
        → Committed key (some r.sha256) db
    repeated c f y =
        let (found, passes) =
          one_or_none-find claim_key (λ x. str_eq x.object_key key) db.upload_claims c u f in
        record {
          claim = c;
          found = found;
          of_key = (eq_iff c.object_key key).0 passes;
          is_done = (is_repeat-parts g owner r.sha256 c y).0;
          holds = column-eq c.sha256 r.sha256 (is_repeat-parts g owner r.sha256 c y).1;
        }

pub run-Unique :
    (db : Db) (cs : List Call)
    → Unique claim_key db.upload_claims
    → Unique claim_key (run db cs).upload_claims
unfolding run
run-Unique db [] u = u
run-Unique db (c ∷ cs) u = run-Unique (step db c) cs (step-Grown db c u).unique

pub Committed-same :
    (key : String) (digest : Option String) (db db' : Db)
    → db'.upload_claims ≡ db.upload_claims
    → Committed key digest db
    → Committed key digest db'
Committed-same key digest db db' same k = record {
  claim = k.claim;
  found = rw same k.found;
  of_key = k.of_key;
  is_done = k.is_done;
  holds = k.holds;
}

-- ===== src/Artifacts/Claims/Fencing.antt =====
-- What holds of an object key after a successful `acquire_upload_claim`: the fencing that the sweeper
-- relies on.
use ua_web_data_collector_sp.Base.{
  ℕ, ◌+◌, ◌<◌, ◌≤◌, ◌==◌, ◌≡◌, refl, sym, subst, String, Bool, true, false, ◌&&◌, &&_parts, Option,
  none, some, List, [], ◌∷◌, ◌++◌, arith, leb, le→leb, str_eq, eq_refl, eq_iff, is_none, length,
  Bool-cases, Option-cases, inl, inr,
}
use ua_web_data_collector_sp.Errors.{
  ok, err, ◌>>=◌, IfOk, IfOk-bind, require, value_error, integrity_error, stale_claim,
}
use ua_web_data_collector_sp.Clock.{When, resolve_now, seconds}
use ua_web_data_collector_sp.Sql.{rows_where, one_or_none, find, Unique}
use ua_web_data_collector_sp.Sql.Select.{one_or_none-find}
use ua_web_data_collector_sp.Artifacts.Rows.{
  ArtifactUploadClaim, Db, claim_key, is_committed, is_held, get_claim, save_claim,
}
use ua_web_data_collector_sp.Artifacts.Claims.{
  new_claim, is_alive, prolonged, reacquired, acquire_locked, acquire_upload_claim, is_holder,
  Reference, may_commit, is_repeat, commit_reference,
}
use ua_web_data_collector_sp.Artifacts.Claims.Selected.{
  replaced, rows_where-append_one, rows_where-narrow,
}

abbrev has_key : String → ArtifactUploadClaim → Bool
has_key key c = str_eq c.object_key key

-- The claims of a key.
abbrev pub of_key : Db → String → List ArtifactUploadClaim
of_key db key = rows_where (has_key key) db.upload_claims

-- The key is leased to the owner until an instant, and nobody else has a claim on it.
pub record Exclusive (db : Db) (key owner : String) (until : ℕ) (c : ArtifactUploadClaim)
    : Type 0 where
  pub alone : of_key db key ≡ c ∷ []
  pub held : is_held c.status ≡ true
  pub mine : c.owner ≡ owner
  pub lasts : c.lease_expires_at ≡ until

at_most_one :
    (xs : List ArtifactUploadClaim) (c : ArtifactUploadClaim)
    → length xs ≤ 1
    → one_or_none xs ≡ some c
    → xs ≡ c ∷ []
unfolding one_or_none
at_most_one [] c h e = absurd (cc)
at_most_one (x ∷ []) c h e = ground arith
at_most_one (x ∷ y ∷ xs) c h e = absurd (omega (arith))

nothing : (xs : List ArtifactUploadClaim) → one_or_none xs ≡ none → xs ≡ []
unfolding one_or_none
nothing [] e = refl
nothing (x ∷ xs) e = absurd (cc)

locked-Exclusive :
    (db : Db) (key owner : String) (until now : ℕ) (media_type : Option String)
    (c : ArtifactUploadClaim)
    → Unique claim_key db.upload_claims
    → of_key db key ≡ c ∷ []
    → IfOk (λ a. Exclusive a.1 key owner until a.0) (acquire_locked db c owner until now media_type)
unfolding acquire_locked save_claim prolonged reacquired
locked-Exclusive db key owner until now media_type c u only =
    elim (Bool-cases (is_committed c.status)) [
      | inl e ↦ rw (acquire_locked, e) tt
      | inr e ↦ elim (Bool-cases (is_alive now c)) [
        | inl a ↦ elim (Bool-cases (str_eq c.owner owner)) [
          | inl o ↦
              rw (acquire_locked, e, a, o)
                (record {
                  alone =
                      replaced (has_key key) c (prolonged until now media_type c) db.upload_claims u
                        only refl passes;
                  held = (&&_parts (is_held c.status) _ (unfold is_alive in a)).0;
                  mine = (eq_iff c.owner owner).0 o;
                  lasts = refl;
                })
          | inr o ↦ rw (acquire_locked, e, a, o) tt
        ]
        | inr a ↦
            rw (acquire_locked, e, a)
              (record {
                alone =
                    replaced (has_key key) c (reacquired owner until now media_type c)
                      db.upload_claims u only refl passes;
                held = refl;
                mine = refl;
                lasts = refl;
              })
      ]
    ]
  where
    passes : has_key key c ≡ true
    passes =
        (one_or_none-find claim_key (has_key key) db.upload_claims c u
          (rw only (unfold one_or_none in refl))).1

acquired-Exclusive :
    (db : Db) (key owner : String) (n t claim_id : ℕ) (media_type : Option String) (w : When)
    → Unique claim_key db.upload_claims
    → length (of_key db key) ≤ 1
    → resolve_now w ≡ ok t
    → IfOk
        (λ a. Exclusive a.1 key owner (t + seconds n) a.0)
        (acquire_upload_claim db key owner n media_type w claim_id)
unfolding acquire_upload_claim get_claim
acquired-Exclusive db key owner n t claim_id media_type w u few r =
    IfOk-bind Spec (require (leb 1 n) value_error) _ λ _ _.
      rw r (elim (Option-cases (get_claim db key)) [
        | inl e ↦ rw e (
            IfOk-bind Spec
              (require (is_none (find claim_key claim_id db.upload_claims)) integrity_error) _
              λ _ _. fresh (unfold get_claim in e))
        | inr (c, e) ↦ rw e (
            locked-Exclusive db key owner (t + seconds n) t media_type c u
              (at_most_one (of_key db key) c few (unfold get_claim in e)))
      ])
  where
    Spec : ArtifactUploadClaim × Db → Type 0
    Spec a = Exclusive a.1 key owner (t + seconds n) a.0

    made : ArtifactUploadClaim
    made = new_claim key owner (t + seconds n) t media_type claim_id

    fresh :
        one_or_none (of_key db key) ≡ none
        → Exclusive
            (record db { upload_claims = db.upload_claims ++ made ∷ [] })
            key
            owner
            (t + seconds n)
            made
    fresh e = record {
      alone =
          rows_where-append_one (has_key key) made db.upload_claims (nothing (of_key db key) e)
            (unfold new_claim in eq_refl key);
      held = unfold new_claim in refl;
      mine = unfold new_claim in refl;
      lasts = unfold new_claim in refl;
    }

commit-has_key :
    (key : String) (g : ℕ) (owner : String) (t : ℕ) (c : ArtifactUploadClaim)
    → may_commit key g owner t c ≡ true
    → has_key key c ≡ true
unfolding may_commit is_holder
commit-has_key key g owner t c h = ground arith

commit_fails :
    (key : String) (g : ℕ) (owner : String) (t : ℕ) (c : ArtifactUploadClaim)
    → (str_eq c.owner owner && (c.claim_generation == g)) ≡ false
    → may_commit key g owner t c ≡ false
unfolding may_commit is_holder
commit_fails key g owner t c h = ground arith

module _ (db : Db) (key owner : String) (until t : ℕ) (w : When) (c : ArtifactUploadClaim)
    (x : Exclusive db key owner until c) (r : resolve_now w ≡ ok t) where
  there : get_claim db key ≡ some c
  unfolding get_claim
  there = rw x.alone (unfold one_or_none in refl)

  not_committed : is_committed c.status ≡ false
  not_committed = ground (arith, x.held)

  other_cannot_acquire :
      (other : String) (n claim_id : ℕ) (media_type : Option String)
      → 1 ≤ n
      → t < until
      → str_eq owner other ≡ false
      → acquire_upload_claim db key other n media_type w claim_id ≡ err stale_claim
  unfolding acquire_upload_claim acquire_locked is_alive
  other_cannot_acquire other n claim_id media_type positive early differs =
      let alive : is_alive t c ≡ true = ground (arith, x.held, x.lasts) in
      let theirs : str_eq c.owner other ≡ false =
        subst (λ o. str_eq o other ≡ false) (sym x.mine) differs in
      rw (le→leb 1 n positive)
        (rw r (rw there (rw (acquire_locked, not_committed, alive, theirs) refl)))

  stale_commit :
      (other : String) (g : ℕ) (ref : Reference)
      → (str_eq owner other && (c.claim_generation == g)) ≡ false
      → commit_reference db key g other ref w ≡ err stale_claim
  unfolding commit_reference is_repeat one_or_none
  stale_commit other g ref differs =
      let theirs : (str_eq c.owner other && (c.claim_generation == g)) ≡ false =
        subst (λ o. (str_eq o other && (c.claim_generation == g)) ≡ false) (sym x.mine) differs in
      let none_passes : rows_where (may_commit key g other t) db.upload_claims ≡ [] =
        rows_where-narrow (may_commit key g other t) (has_key key) c db.upload_claims
          (λ y h. commit-has_key key g other t y h) x.alone (commit_fails key g other t c theirs) in
      let again : is_repeat g other ref.sha256 c ≡ false = rw (is_repeat, not_committed) refl in
      rw (r, ◌>>=◌) (rw none_passes (rw there (rw again refl)))

-- A claim fences off everybody else. Where the ids of the claims are distinct and the key has at most
-- one, a successful `acquire_upload_claim` makes the owner the only holder of the key until
-- now + lease_seconds. In the state that it leaves, every other owner's `acquire_upload_claim` of the
-- key with a positive lease raises `StaleClaimError` before that instant, and so does, at any instant,
-- before it or after, every `commit_reference` whose owner and generation are not both those of the
-- claim. Both are called with an aware time.
pub acquire-fences :
    (db db' : Db) (key owner other committer : String) (n n' t t' u claim_id claim_id' g : ℕ)
    (media_type media_type' : Option String) (w w' v : When) (c : ArtifactUploadClaim)
    (ref : Reference)
    → Unique claim_key db.upload_claims
    → length (of_key db key) ≤ 1
    → resolve_now w ≡ ok t
    → resolve_now w' ≡ ok t'
    → resolve_now v ≡ ok u
    → acquire_upload_claim db key owner n media_type w claim_id ≡ ok (c, db')
    → str_eq owner other ≡ false
    → 1 ≤ n'
    → t' < t + seconds n
    → (str_eq owner committer && (c.claim_generation == g)) ≡ false
    → Exclusive db' key owner (t + seconds n) c
      × (acquire_upload_claim db' key other n' media_type' w' claim_id' ≡ err stale_claim)
      × (commit_reference db' key g committer ref v ≡ err stale_claim)
acquire-fences db db' key owner other committer n n' t t' u claim_id claim_id' g media_type
      media_type' w w' v c ref unique few r r' rv ran differs positive early old =
    let x : Exclusive db' key owner (t + seconds n) c =
      subst (IfOk (λ a. Exclusive a.1 key owner (t + seconds n) a.0)) ran
        (acquired-Exclusive db key owner n t claim_id media_type w unique few r) in
    (
      x,
      other_cannot_acquire db' key owner (t + seconds n) t' w' c x r' other n' claim_id' media_type'
          positive early differs,
      stale_commit db' key owner (t + seconds n) u v c x rv committer g ref old,
    )

-- ===== src/Artifacts/Sweeper/Others.antt =====
-- What the calls of a sweep on one key leave of another key's claims.
use ua_web_data_collector_sp.Base.{
  ℕ, ◌+◌, ◌==◌, ◌≡◌, refl, sym, subst, ◌∙◌, ap, String, Bool, true, false, &&_parts, none, some,
  List, [], ◌∷◌, ◌++◌, leb, str_eq, eq_iff, is_none, if◌then◌else◌, All, All-map_pred, Bool-cases,
  Option-cases, inl, inr,
}
use ua_web_data_collector_sp.Errors.{after, after-bind, require, value_error, integrity_error}
use ua_web_data_collector_sp.Clock.{resolve_now, seconds}
use ua_web_data_collector_sp.Sql.{rows_where, update_where, one_or_none, find, Unique}
use ua_web_data_collector_sp.Sql.Select.{one_or_none-find, only_row}
use ua_web_data_collector_sp.Artifacts.Rows.{
  ArtifactUploadClaim, Db, claim_key, is_committed, get_claim, save_claim,
}
use ua_web_data_collector_sp.Artifacts.Claims.{
  new_claim, is_alive, prolonged, reacquired, acquire_locked, acquire_upload_claim, is_holder,
  given_back, release_claim,
}
use ua_web_data_collector_sp.Artifacts.Sweeper.{Sweep, reading}

module _ {A : Type 0} (h p : A → Bool) (f : A → A) where
  -- An update of rows that do not pass, before and after, changes nothing of what is selected.
  rows_where-update_other :
      (rows : List A)
      → All (λ r. p r ≡ true → (h r ≡ false) × (h (f r) ≡ false)) rows
      → rows_where h (update_where p f rows) ≡ rows_where h rows
  unfolding rows_where update_where
  rows_where-update_other [] k = refl
  rows_where-update_other (r ∷ rows) k = elim (Bool-cases (p r)) [
    | inl e ↦ rw (e, (k.0 e).0) (rw (k.0 e).1 (rows_where-update_other rows k.1))
    | inr e ↦ rw e (ap (λ xs. if h r then r ∷ xs else xs) (rows_where-update_other rows k.1))
  ]

  rows_where-append_other :
      (rows : List A) (x : A) → h x ≡ false → rows_where h (rows ++ x ∷ []) ≡ rows_where h rows
  unfolding rows_where
  rows_where-append_other [] x k = rw k refl
  rows_where-append_other (r ∷ rows) x k =
      ap (λ xs. if h r then r ∷ xs else xs) (rows_where-append_other rows x k)

module _ (s : Sweep) (key : String) where
  abbrev pub has_key : ArtifactUploadClaim → Bool
  has_key x = str_eq x.object_key key

  -- The claims of the key are as they were.
  unfoldable pub Same : (db db' : Db) → Type 0
  Same db db' = rows_where has_key db'.upload_claims ≡ rows_where has_key db.upload_claims

  other_key :
      (key' : String) (x : ArtifactUploadClaim)
      → str_eq key' key ≡ false
      → x.object_key ≡ key'
      → has_key x ≡ false
  other_key key' x differs e = subst (λ k. str_eq k key ≡ false) (sym e) differs

  save-Same :
      (db : Db) (key' : String) (d d' : ArtifactUploadClaim)
      → str_eq key' key ≡ false
      → Unique claim_key db.upload_claims
      → get_claim db key' ≡ some d
      → d'.claim_id ≡ d.claim_id
      → d'.object_key ≡ d.object_key
      → Same db (save_claim d' db)
  unfolding get_claim save_claim Same
  save-Same db key' d d' differs u f same_id same_key =
      let (found, at) = one_or_none-find claim_key _ db.upload_claims d u f in
      let d_key : d.object_key ≡ key' = (eq_iff d.object_key key').0 at in
      rows_where-update_other has_key (λ x. x.claim_id == d'.claim_id) (λ _. d') db.upload_claims
        (All-map_pred (λ x. (x.claim_id == d.claim_id) ≡ true → x ≡ d) _ db.upload_claims
          (λ x only e.
            let x_d : x ≡ d = only (subst (λ n. (x.claim_id == n) ≡ true) same_id e) in
            (
              other_key key' x differs (ap (λ (y : ArtifactUploadClaim). y.object_key) x_d ∙ d_key),
              other_key key' d' differs (same_key ∙ d_key),
            ))
          (only_row claim_key d.claim_id db.upload_claims d u found))

  locked-Same :
      (db : Db) (key' : String) (d : ArtifactUploadClaim) (until now : ℕ)
      → str_eq key' key ≡ false
      → Unique claim_key db.upload_claims
      → get_claim db key' ≡ some d
      → Same db (after db (acquire_locked db d s.owner until now none))
  unfolding acquire_locked Same
  locked-Same db key' d until now differs u f = elim (Bool-cases (is_committed d.status)) [
    | inl e ↦ rw (acquire_locked, e) refl
    | inr e ↦ elim (Bool-cases (is_alive now d)) [
      | inl a ↦ elim (Bool-cases (str_eq d.owner s.owner)) [
        | inl o ↦
            rw (acquire_locked, e, a, o)
              (save-Same db key' d (prolonged until now none d) differs u f
                (unfold prolonged in refl) (unfold prolonged in refl))
        | inr o ↦ rw (acquire_locked, e, a, o) refl
      ]
      | inr a ↦
          rw (acquire_locked, e, a)
            (save-Same db key' d (reacquired s.owner until now none d) differs u f
              (unfold reacquired in refl) (unfold reacquired in refl))
    ]
  ]

  pub acquire-Same :
      (db : Db) (key' : String) (n : ℕ)
      → str_eq key' key ≡ false
      → Unique claim_key db.upload_claims
      → Same db (
          after db
            (acquire_upload_claim db key' s.owner s.lease_seconds none (reading s n) (s.new_id n)))
  unfolding acquire_upload_claim Same
  acquire-Same db key' n differs u =
      after-bind (Same db) db (require (leb 1 s.lease_seconds) value_error) _ refl λ _ _.
        after-bind (Same db) db (resolve_now (reading s n)) _ refl λ t _.
          elim (Option-cases (get_claim db key')) [
            | inl e ↦ rw e (
                after-bind (Same db) db
                  (require (is_none (find claim_key (s.new_id n) db.upload_claims)) integrity_error)
                  _ refl
                  λ _ _.
                    rows_where-append_other has_key has_key (λ x. x) db.upload_claims _
                      (unfold new_claim in differs))
            | inr (d, e) ↦ rw e (locked-Same db key' d (t + seconds s.lease_seconds) t differs u e)
          ]

  pub release-Same :
      (db : Db) (key' : String) (g n : ℕ)
      → str_eq key' key ≡ false
      → Same db (after db (release_claim db key' g s.owner (reading s n)))
  unfolding release_claim Same
  release-Same db key' g n differs =
      after-bind (Same db) db (resolve_now (reading s n)) _ refl λ t _.
        elim (Option-cases (one_or_none (rows_where (is_holder key' g s.owner) db.upload_claims))) [
          | inl e ↦ rw e refl
          | inr (d, e) ↦ rw e (
              rows_where-update_other has_key (is_holder key' g s.owner) (given_back t)
                db.upload_claims (each t db.upload_claims))
        ]
    where
      held_other :
          (t : ℕ) (x : ArtifactUploadClaim)
          → is_holder key' g s.owner x ≡ true
          → (has_key x ≡ false) × (has_key (given_back t x) ≡ false)
      held_other t x e =
          let at : x.object_key ≡ key' =
            (eq_iff x.object_key key').0 (&&_parts _ _ (unfold is_holder in e)).0 in
          (other_key key' x differs at, unfold given_back in other_key key' x differs at)

      each :
          (t : ℕ) (rows : List ArtifactUploadClaim)
          → All
              (λ x.
                is_holder key' g s.owner x ≡ true
                → (has_key x ≡ false) × (has_key (given_back t x) ≡ false))
              rows
      each t [] = tt
      each t (x ∷ rows) = (held_other t x, each t rows)

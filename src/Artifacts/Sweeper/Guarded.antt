-- ===== src/Artifacts/Sweeper/Guarded.antt =====
-- The keys that a sweep must not delete: those that are committed, or leased to somebody else.
use ua_web_data_collector_sp.Base.{
  ℕ, ◌+◌, ◌<◌, ◌≡◌, ◌⊎◌, refl, sym, subst, ◌∙◌, ap, String, true, false, Option, none, some, List,
  [], ◌∷◌, ◌++◌, arith, leb, str_eq, eq_iff, mentions, Bool-cases, inl, inr,
}
use ua_web_data_collector_sp.Errors.{
  Error, Result, ok, err, after, IfOk, IfOk-bind, require, value_error,
}
use ua_web_data_collector_sp.Clock.{
  Stamp, aware, naive, resolve_now, resolve, require_aware_utc, seconds,
}
use ua_web_data_collector_sp.Sql.{one_or_none, Unique}
use ua_web_data_collector_sp.Artifacts.Rows.{
  ArtifactUploadClaim, Db, claim_key, is_committed, is_held, get_claim,
}
use ua_web_data_collector_sp.Artifacts.Claims.{
  is_alive, acquire_locked, acquire_upload_claim, release_claim,
}
use ua_web_data_collector_sp.Artifacts.Claims.Grows.{acquires, releases, step, step-Grown, Grown}
use ua_web_data_collector_sp.Artifacts.Sweeper.Others.{Same, acquire-Same, release-Same}
use ua_web_data_collector_sp.Artifacts.Sweeper.{
  SweepEnd, swept, raised, store_failed, Sweep, reading, OneKey, is_skipped, is_deleted, stops,
  is_stale_claim, finish_key, after_acquire, sweep_key, sweep_keys,
}

-- The claim is committed, or another owner leases it beyond every reading of the sweep's clock.
abbrev pub IsGuarded : Sweep → ArtifactUploadClaim → Type 0
IsGuarded s c =
    (is_committed c.status ≡ true)
    ⊎ ((is_held c.status ≡ true)
        × (str_eq c.owner s.owner ≡ false)
        × ((n t : ℕ) → s.clock n ≡ aware t → t < c.lease_expires_at))

resolved : (s : Sweep) (n t : ℕ) → resolve_now (reading s n) ≡ ok t → s.clock n ≡ aware t
unfolding resolve_now reading resolve
resolved s n t h = go (s.clock n) h
  where
    go : (x : Stamp) → require_aware_utc x ≡ ok t → x ≡ aware t
    go (naive m) e = absurd (unfold require_aware_utc in cc)
    go (aware m) e = unfold require_aware_utc in cc

-- The sweep cannot acquire it.
locked_out :
    (s : Sweep) (db : Db) (c : ArtifactUploadClaim) (until n t : ℕ)
    → IsGuarded s c
    → resolve_now (reading s n) ≡ ok t
    → IfOk (λ _. ⊥) (acquire_locked db c s.owner until t none)
unfolding acquire_locked
locked_out s db c until n t (inl committed) r = rw (acquire_locked, committed) tt
locked_out s db c until n t (inr (held, other, late)) r =
    let early : t < c.lease_expires_at = late n t (resolved s n t r) in
    let alive : is_alive t c ≡ true = unfold is_alive in ground (arith, held, early) in
    let live : is_committed c.status ≡ false = ground (arith, held) in
    rw (acquire_locked, live, alive, other) tt

cannot_acquire :
    (s : Sweep) (db : Db) (key : String) (c : ArtifactUploadClaim) (n : ℕ)
    → get_claim db key ≡ some c
    → IsGuarded s c
    → IfOk
        (λ _. ⊥)
        (acquire_upload_claim db key s.owner s.lease_seconds none (reading s n) (s.new_id n))
unfolding acquire_upload_claim
cannot_acquire s db key c n there guarded =
    IfOk-bind (λ _. ⊥) (require (leb 1 s.lease_seconds) value_error) _
      λ _ _.
        IfOk-bind (λ _. ⊥) (resolve_now (reading s n)) _
          λ t r. rw there (locked_out s db c (t + seconds s.lease_seconds) n t guarded r)

module _ (s : Sweep) (key : String) (c : ArtifactUploadClaim) (guarded : IsGuarded s c) where
  -- The key still has its claim, and the ids are distinct.
  record Kept (db : Db) : Type 0 where
    unique : Unique claim_key db.upload_claims
    there : get_claim db key ≡ some c

  Same-Kept : (db db' : Db) → Kept db → Grown db db' → Same s key db db' → Kept db'
  unfolding get_claim Same
  Same-Kept db db' k g same = record { unique = g.unique; there = ap one_or_none same ∙ k.there }

  -- The key is not among those that the sweep deleted, or failed to delete.
  abbrev pub IsSpared : SweepEnd → Type 0
  IsSpared (swept report) = mentions report.deleted key ≡ false
  IsSpared (raised e) = Unit {0}
  IsSpared (store_failed key') = str_eq key' key ≡ false

  Spared : (key' : String) → OneKey → Type 0
  Spared key' (is_skipped db) = Kept db
  Spared key' (is_deleted db) = Kept db × (str_eq key' key ≡ false)
  Spared key' (stops e db) = Kept db × IsSpared e

  finish-Spared :
      (db : Db) (key' : String) (m : Result (Option ArtifactUploadClaim × Db))
      → str_eq key' key ≡ false
      → Kept db
      → Kept (after db m)
      → Spared key' (finish_key s key' db m)
  unfolding finish_key Spared
  finish-Spared db key' (err e) differs k k' = (k, tt)
  finish-Spared db key' (ok (_, db')) differs k k' = elim (Bool-cases (s.fails key')) [
    | inl e ↦ rw e (k', differs)
    | inr e ↦ rw e (k', differs)
  ]

  refused-Spared :
      (db : Db) (key' : String) (n : ℕ) (e : Error)
      → Kept db
      → Spared key' (after_acquire s key' n db (err e))
  unfolding after_acquire Spared
  refused-Spared db key' n e k = elim (Bool-cases (is_stale_claim e)) [
    | inl y ↦ rw y k
    | inr y ↦ rw y (k, tt)
  ]

  same_key-Spared :
      (db : Db) (key' : String) (n : ℕ) (m : Result (ArtifactUploadClaim × Db))
      → IfOk (λ _. ⊥) m
      → Kept db
      → Spared key' (after_acquire s key' n db m)
  same_key-Spared db key' n (ok a) never k = absurd never
  same_key-Spared db key' n (err e) never k = refused-Spared db key' n e k

  other_key-Spared :
      (db : Db) (key' : String) (n : ℕ) (m : Result (ArtifactUploadClaim × Db))
      → str_eq key' key ≡ false
      → Kept db
      → Kept (after db m)
      → Spared key' (after_acquire s key' n db m)
  unfolding after_acquire step
  other_key-Spared db key' n (err e) differs k k' = refused-Spared db key' n e k
  other_key-Spared db key' n (ok (claim, db')) differs k k' =
      let w = reading s (n + 1) in
      finish-Spared db' key' (release_claim db' key' claim.claim_generation s.owner w) differs k' (
        Same-Kept db' (after db' (release_claim db' key' claim.claim_generation s.owner w)) k'
          (step-Grown db' (releases key' claim.claim_generation s.owner w) k'.unique)
          (release-Same s key db' key' claim.claim_generation (n + 1) differs))

  sweep_key-Spared :
      (db : Db) (key' : String) (n : ℕ) → Kept db → Spared key' (sweep_key s key' n db)
  unfolding sweep_key step
  sweep_key-Spared db key' n k = elim (Bool-cases (str_eq key' key)) [
    | inl e ↦
        same_key-Spared db key' n _
          (cannot_acquire s db key' c n
            (subst (λ x. get_claim db x ≡ some c) (sym ((eq_iff key' key).0 e)) k.there) guarded)
          k
    | inr e ↦ other_key-Spared db key' n _ e k (
        Same-Kept db _ k
          (step-Grown db (acquires key' s.owner s.lease_seconds none (reading s n) (s.new_id n))
            k.unique)
          (acquire-Same s key db key' n e k.unique))
  ]

  not_added :
      (keys : List String) (key' : String)
      → mentions keys key ≡ false
      → str_eq key' key ≡ false
      → mentions (keys ++ key' ∷ []) key ≡ false
  unfolding mentions
  not_added [] key' h e = rw e refl
  not_added (x ∷ keys) key' h e = ground (arith, h, not_added keys key')

  sweep_keys-Spared :
      (candidates n : ℕ) (db : Db) (keys deleted skipped : List String)
      → Kept db
      → mentions deleted key ≡ false
      → IsSpared (sweep_keys s candidates n db keys deleted skipped).0
        × Kept (sweep_keys s candidates n db keys deleted skipped).1
  unfolding sweep_keys Spared
  sweep_keys-Spared candidates n db [] deleted skipped k h = (h, k)
  sweep_keys-Spared candidates n db (key' ∷ keys) deleted skipped k h =
      go (sweep_key s key' n db) (sweep_key-Spared db key' n k)
        (λ db' k'.
          sweep_keys-Spared candidates (n + 1) db' keys deleted (skipped ++ key' ∷ []) k' h)
        (λ db' k' e.
          sweep_keys-Spared candidates (n + 2) db' keys (deleted ++ key' ∷ []) skipped k'
            (not_added deleted key' h e))
    where
      Good : SweepEnd × Db → Type 0
      Good r = IsSpared r.0 × Kept r.1

      go :
          (o : OneKey)
          → Spared key' o
          → ((db' : Db)
              → Kept db'
              → Good (sweep_keys s candidates (n + 1) db' keys deleted (skipped ++ key' ∷ [])))
          → ((db' : Db)
              → Kept db'
              → str_eq key' key ≡ false
              → Good (sweep_keys s candidates (n + 2) db' keys (deleted ++ key' ∷ []) skipped))
          → Good (elim o as (λ _. SweepEnd × Db) [
            | is_skipped db' ↦
                sweep_keys s candidates (n + 1) db' keys deleted (skipped ++ key' ∷ [])
            | is_deleted db' ↦
                sweep_keys s candidates (n + 2) db' keys (deleted ++ key' ∷ []) skipped
            | stops e db' ↦ (e, db')
          ])
      go (is_skipped db') k' skip delete = skip db' k'
      go (is_deleted db') k' skip delete = delete db' k'.0 k'.1
      go (stops e db') k' skip delete = (k'.1, k'.0)

-- Being a candidate is no authority to delete. Whatever keys the loop of a sweep is given, for the
-- claims may have changed since they were selected: a key whose claim is committed, or leased to another
-- owner beyond every reading of the sweep's clock, is neither reported as deleted nor the one whose
-- deletion failed, however the sweep ends, and its claim is as it was. Here the ids of the claims are
-- distinct.
pub sweep_keys-spares :
    (s : Sweep) (candidates n : ℕ) (db : Db) (keys : List String) (key : String)
    (c : ArtifactUploadClaim)
    → Unique claim_key db.upload_claims
    → get_claim db key ≡ some c
    → (guarded : IsGuarded s c)
    → IsSpared s key c guarded (sweep_keys s candidates n db keys [] []).0
      × (get_claim (sweep_keys s candidates n db keys [] []).1 key ≡ some c)
sweep_keys-spares s candidates n db keys key c u f guarded =
    let (spared, kept) =
      sweep_keys-Spared s key c guarded candidates n db keys [] []
        (record { unique = u; there = f }) (unfold mentions in refl) in
    (spared, kept.there)

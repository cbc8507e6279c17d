-- ===== src/Artifacts/Sweeper.antt =====
-- src/collector/storage/sweeper.py: `sweep_orphans`. Every call on the claims is a transaction of its
-- own. The clock, the new ids and the keys that the store fails to delete are parameters.
pub mod Others
pub mod Guarded
use ua_web_data_collector_sp.Base.{
  ℕ, ◌+◌, ◌≡◌, subst, String, Bool, true, false, Option, none, some, List, [], ◌∷◌, ◌++◌, length,
  if◌then◌else◌, Bool-cases, inl, inr, ℤ, ltb_ℤ,
}
use ua_web_data_collector_sp.Errors.{Error, stale_claim, value_error, Result, ok, err, after}
use ua_web_data_collector_sp.Clock.{Stamp, When}
use ua_web_data_collector_sp.Sql.{find, Unique}
use ua_web_data_collector_sp.Artifacts.Rows.{ArtifactUploadClaim, Db, claim_key, is_committed}
use ua_web_data_collector_sp.Artifacts.Claims.{
  acquire_upload_claim, release_claim, list_orphan_candidates,
}
use ua_web_data_collector_sp.Artifacts.Claims.Grows.{
  Call, acquires, releases, step, step-Grown, Grown,
}

pub record SweepReport : Type 0 where
  pub candidates : ℕ
  pub deleted : List String
  pub skipped : List String

-- How a sweep ends: with its report, with the error of a call, or with the store's.
pub data SweepEnd : Type 0 where
  swept : SweepReport → SweepEnd
  raised : Error → SweepEnd
  store_failed : (key : String) → SweepEnd

-- The arguments of the sweep and its surroundings.
pub record Sweep : Type 0 where
  pub grace : ℤ
  pub minimum_grace : ℤ
  pub owner : String
  pub lease_seconds : ℕ
  pub limit : ℕ
  pub clock : ℕ → Stamp
  pub new_id : ℕ → ℕ
  pub fails : String → Bool
  pub key_le : String → String → Bool

-- The clock's n-th answer.
unfoldable pub reading : Sweep → ℕ → When
reading s n = record { utcnow = 0; now = some (s.clock n) }

-- What became of one candidate.
pub data OneKey : Type 0 where
  is_skipped is_deleted : Db → OneKey
  stops : SweepEnd → Db → OneKey

unfoldable pub is_stale_claim : Error → Bool
is_stale_claim stale_claim = true
is_stale_claim _ = false

-- The `finally` clause, after the deletion.
unfoldable pub finish_key :
    Sweep → (key : String) → Db → Result (Option ArtifactUploadClaim × Db) → OneKey
finish_key s key db (err e) = stops (raised e) db
finish_key s key db (ok (_, db')) =
    if s.fails key then stops (store_failed key) db' else is_deleted db'

unfoldable pub after_acquire :
    Sweep → (key : String) → (n : ℕ) → Db → Result (ArtifactUploadClaim × Db) → OneKey
unfolding is_stale_claim finish_key reading
after_acquire s key n db (err e) = if is_stale_claim e then is_skipped db else stops (raised e) db
after_acquire s key n db (ok (claim, db')) =
    finish_key s key db' (release_claim db' key claim.claim_generation s.owner (reading s (n + 1)))

unfoldable pub sweep_key : Sweep → (key : String) → (n : ℕ) → Db → OneKey
unfolding after_acquire reading
sweep_key s key n db =
    after_acquire s key n db
      (acquire_upload_claim db key s.owner s.lease_seconds none (reading s n) (s.new_id n))

-- The loop over the candidates: a skipped key takes one reading of the clock, a deleted one two.
unfoldable pub sweep_keys :
    Sweep → (candidates n : ℕ) → Db → List String → (deleted skipped : List String) → SweepEnd × Db
unfolding sweep_key
sweep_keys s candidates n db [] deleted skipped =
    (swept (record { candidates = candidates; deleted = deleted; skipped = skipped }), db)
sweep_keys s candidates n db (key ∷ keys) deleted skipped = elim (sweep_key s key n db) [
  | is_skipped db' ↦ sweep_keys s candidates (n + 1) db' keys deleted (skipped ++ key ∷ [])
  | is_deleted db' ↦ sweep_keys s candidates (n + 2) db' keys (deleted ++ key ∷ []) skipped
  | stops e db' ↦ (e, db')
]

listed : Sweep → Db → Result (List String) → SweepEnd × Db
unfolding sweep_keys
listed s db (err e) = (raised e, db)
listed s db (ok keys) = sweep_keys s (length keys) 1 db keys [] []

unfoldable pub sweep_orphans : Sweep → Db → SweepEnd × Db
unfolding listed reading
sweep_orphans s db =
    if ltb_ℤ s.minimum_grace s.grace
    then listed s db (list_orphan_candidates db s.key_le s.grace s.limit (reading s 0))
    else (raised value_error, db)

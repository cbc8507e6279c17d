-- ===== src/Queue/Moves/Many.antt =====
-- The claim and the recovery keep the life of every row that they change, and of no other.
use ua_web_data_collector_sp.Base.{
  ℕ, ◌≡◌, sym, String, Bool, true, false, not, ◌&&◌, &&_parts, List, [], ◌∷◌, arith, leb, All,
  All-map_pred, or_default,
}
use ua_web_data_collector_sp.Errors.{after, after-bind, require, value_error, data_error}
use ua_web_data_collector_sp.Clock.{When, resolve_now}
use ua_web_data_collector_sp.Sql.{among, Unique}
use ua_web_data_collector_sp.Sql.Select.{among-select}
use ua_web_data_collector_sp.Queue.Rows.{
  Status, is_claimable, is_leased, is_quarantined, Job, Db, job_key, claim_order,
}
use ua_web_data_collector_sp.Queue.Claim.{
  claimable, lease, candidates, lease_all, has_room, claim, is_expired, recovered, expired_jobs,
  recover_expired_leases,
}
use ua_web_data_collector_sp.Queue.Moves.{Keeps, Keeps-refl, update-Keeps}
use ua_web_data_collector_sp.Queue.Moves.Rows.{lease-Moved, recovered-Moved}
use ua_web_data_collector_sp.Queue.Moves.Settle.{leased-not_quarantined}

claimable-not_quarantined : (s : Status) → is_claimable s ≡ true → is_quarantined s ≡ false
claimable-not_quarantined s h = ground arith

-- A row that a claim changes was claimable and not locked.
pub among-candidates :
    (db : Db) (job_types : List String) (limit now : ℕ) (locked : ℕ → Bool)
    → Unique job_key db.jobs
    → All
        (λ j.
          among job_key (candidates db job_types limit now locked) j ≡ true
          → (claimable job_types now j ≡ true) × (locked j.job_id ≡ false))
        db.jobs
unfolding candidates
among-candidates db job_types limit now locked u =
    All-map_pred _ _ db.jobs
      (λ j h e.
        let (p, free) = &&_parts (claimable job_types now j) (not (locked j.job_id)) (h e) in
        (p, ground arith))
      (among-select job_key locked claim_order (claimable job_types now) limit db.jobs u)

pub claimable-status :
    (job_types : List String) (now : ℕ) (j : Job)
    → claimable job_types now j ≡ true
    → is_claimable j.status ≡ true
unfolding claimable
claimable-status job_types now j h = (&&_parts (is_claimable j.status) _ h).0

lease_all-Keeps :
    (db : Db) (job_types : List String) (worker : String) (n limit now : ℕ) (locked : ℕ → Bool)
    → Unique job_key db.jobs
    → Keeps db (lease_all db (candidates db job_types limit now locked) worker n now).1
unfolding lease_all
lease_all-Keeps db job_types worker n limit now locked u =
    update-Keeps db _ (lease worker n now)
      (All-map_pred _ _ db.jobs
        (λ j h e. lease-Moved worker n now j (claimable-status job_types now j (h e).0)) chosen)
      (All-map_pred _ _ db.jobs
        (λ j h e.
          unfold lease in
          sym (claimable-not_quarantined j.status (claimable-status job_types now j (h e).0)))
        chosen)
  where
    chosen :
        All
          (λ j.
            among job_key (candidates db job_types limit now locked) j ≡ true
            → (claimable job_types now j ≡ true) × (locked j.job_id ≡ false))
          db.jobs
    chosen = among-candidates db job_types limit now locked u

pub claim-Keeps :
    (db : Db) (job_types : List String) (worker : String) (n limit : ℕ) (w : When)
    (locked : ℕ → Bool)
    → Unique job_key db.jobs
    → Keeps db (after db (claim db job_types worker n limit w locked))
unfolding claim
claim-Keeps db [] worker n limit w locked u = Keeps-refl db
claim-Keeps db (t ∷ ts) worker n limit w locked u =
    after-bind (Keeps db) db (require (leb 1 limit && leb 1 n) value_error) _ (Keeps-refl db) λ _ _.
      after-bind (Keeps db) db (resolve_now w) _ (Keeps-refl db) λ now _.
        after-bind (Keeps db) db
          (require (has_room (candidates db (t ∷ ts) limit now locked)) data_error) _
          (Keeps-refl db) λ _ _. lease_all-Keeps db (t ∷ ts) worker n limit now locked u

expired-leased : (now : ℕ) (j : Job) → is_expired now j ≡ true → is_leased j.status ≡ true
unfolding is_expired
expired-leased now j h = (&&_parts (is_leased j.status) _ h).0

-- A row that a recovery changes had an expired lease.
pub among-expired :
    (db : Db) (limit now : ℕ) (locked : ℕ → Bool)
    → Unique job_key db.jobs
    → All
        (λ j. among job_key (expired_jobs db limit now locked) j ≡ true → is_expired now j ≡ true)
        db.jobs
unfolding expired_jobs
among-expired db limit now locked u =
    All-map_pred _ _ db.jobs
      (λ j h e. (&&_parts (is_expired now j) (not (locked j.job_id)) (h e)).0)
      (among-select job_key locked
        (λ a b. leb (or_default a.lease_expires_at 0) (or_default b.lease_expires_at 0))
        (is_expired now) limit db.jobs u)

pub recover-Keeps :
    (db : Db) (limit : ℕ) (w : When) (locked : ℕ → Bool)
    → Unique job_key db.jobs
    → Keeps db (after db (recover_expired_leases db limit w locked))
unfolding recover_expired_leases
recover-Keeps db limit w locked u =
    after-bind (Keeps db) db (resolve_now w) _ (Keeps-refl db) λ now _.
      update-Keeps db _ (recovered now)
        (All-map_pred _ _ db.jobs (λ j h e. recovered-Moved now j (expired-leased now j (h e)))
          (among-expired db limit now locked u))
        (All-map_pred _ _ db.jobs
          (λ j h e.
            unfold recovered in sym (leased-not_quarantined j.status (expired-leased now j (h e))))
          (among-expired db limit now locked u))

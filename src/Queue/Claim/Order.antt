-- ===== src/Queue/Claim/Order.antt =====
-- Which jobs a claim takes.
use ua_web_data_collector_sp.Base.{
  ℕ, min, ◌≡◌, ◌<◌, ◌≤◌, ◌⊎◌, inl, inr, refl, subst, Bool, true, false, not, ◌&&◌, String, List,
  ◌∷◌, ◌++◌, Perm, arith, All, All-map_pred, Bool-cases, length, map, leb, ltb, ltb_ℤ, sort-perm,
}
use ua_web_data_collector_sp.Errors.{ok, IfOk, IfOk-bind, require, value_error, data_error}
use ua_web_data_collector_sp.Clock.{When, resolve_now}
use ua_web_data_collector_sp.Sql.{rows_where, update_where, among}
use ua_web_data_collector_sp.Sql.Select.{select-best, length-select}
use ua_web_data_collector_sp.Queue.Rows.{Job, Db, job_key, claim_order}
use ua_web_data_collector_sp.Queue.Claim.{claimable, candidates, lease, lease_all, has_room, claim}

claim_order_total : (a b : Job) → claim_order a b ≡ false → claim_order b a ≡ true
unfolding claim_order
claim_order_total a b h = ground arith

claim_order_trans :
    (a b c : Job) → claim_order a b ≡ true → claim_order b c ≡ true → claim_order a c ≡ true
unfolding claim_order
claim_order_trans a b c h k = ground arith

-- The jobs that a claim may take: claimable by the caller now, and not locked by another claimer.
abbrev pub eligible : Db → List String → (now : ℕ) → (ℕ → Bool) → List Job
eligible db job_types now locked =
    rows_where (λ j. claimable job_types now j && not (locked j.job_id)) db.jobs

-- `x` comes before `y`: by higher priority, then by earlier `not_before`, then by id.
abbrev pub Precedes : (x y : Job) → Type 0
Precedes x y =
    (ltb_ℤ y.priority x.priority ≡ true)
    ⊎ ((ltb_ℤ x.priority y.priority ≡ false)
        × ((x.not_before < y.not_before) ⊎ ((x.not_before ≡ y.not_before) × (x.job_id ≤ y.job_id))))

claim_order-Precedes : (x y : Job) → claim_order x y ≡ true → Precedes x y
unfolding claim_order
claim_order-Precedes x y h = elim (Bool-cases (ltb_ℤ y.priority x.priority)) [
  | inl p ↦ inl p
  | inr p ↦ elim (Bool-cases (ltb_ℤ x.priority y.priority)) [
    | inl q ↦ absurd (ground arith)
    | inr q ↦ elim (Bool-cases (ltb x.not_before y.not_before)) [
      | inl b ↦ inr (q, inl (ground arith))
      | inr b ↦ inr (q, inr (ground arith, ground arith))
    ]
  ]
]

-- What a claim has taken.
abbrev pub Best :
    Db → List String → (worker : String) → (n limit now : ℕ) → (ℕ → Bool) → List Job × Db → Type 0
Best db job_types worker n limit now locked (xs, db') =
    (chosen : List Job) × (rest : List Job) × Perm (chosen ++ rest)
      (eligible db job_types now locked)
    × (length chosen ≡ min limit (length (eligible db job_types now locked)))
    × All (λ x. All (λ y. Precedes x y) rest) chosen
    × (db'.jobs ≡ update_where (among job_key chosen) (lease worker n now) db.jobs)
    × Perm xs (map (lease worker n now) (rows_where (among job_key chosen) db.jobs))

-- A successful claim leases as many of the eligible jobs as its limit allows, no more and no fewer, and
-- the best of them: every job that it takes comes before every eligible job that it leaves, by higher
-- priority, then by earlier `not_before`, then by id. The rows of the chosen jobs are changed, no other
-- row is, and they are what the claim returns. Here the caller names at least one type of jobs.
pub claim-Best :
    (db db' : Db) (ty : String) (ts : List String) (worker : String) (n limit now : ℕ) (w : When)
    (locked : ℕ → Bool) (xs : List Job)
    → resolve_now w ≡ ok now
    → claim db (ty ∷ ts) worker n limit w locked ≡ ok (xs, db')
    → Best db (ty ∷ ts) worker n limit now locked (xs, db')
unfolding claim candidates lease_all
claim-Best db db' ty ts worker n limit now w locked xs r h =
    subst (IfOk (Best db (ty ∷ ts) worker n limit now locked)) h (
      IfOk-bind Spec (require (leb 1 limit && leb 1 n) value_error) _ λ _ _. rw r (
        IfOk-bind Spec (require (has_room chosen) data_error) _ λ _ _.
          let (rest, same, best) =
            select-best job_key locked claim_order (claimable (ty ∷ ts) now) limit db.jobs
              claim_order_total claim_order_trans in
          (
            chosen,
            rest,
            same,
            length-select job_key locked claim_order (claimable (ty ∷ ts) now) limit db.jobs,
            All-map_pred _ _ chosen
                (λ x e. All-map_pred _ _ rest (λ y before. claim_order-Precedes x y before) e) best,
            refl,
            sort-perm claim_order
                (map (lease worker n now) (rows_where (among job_key chosen) db.jobs)),
          )))
  where
    chosen : List Job
    chosen = candidates db (ty ∷ ts) limit now locked

    Spec : List Job × Db → Type 0
    Spec a = Best db (ty ∷ ts) worker n limit now locked a

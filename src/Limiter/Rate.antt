-- ===== src/Limiter/Rate.antt =====
-- How fast an origin can be asked: a token bucket.
use ua_web_data_collector_sp.Base.{
  ℕ, suc, ◌+◌, ◌-◌, ◌*◌, ◌≤◌, ◌<◌, ◌≡◌, refl, sym, subst, ◌∙◌, ap, String, Bool, true, false,
  Bool-cases, Option, some, List, [], ◌∷◌, arith, if◌then◌else◌, inl, inr,
}
use ua_web_data_collector_sp.Errors.{Result, ok, err, after}
use ua_web_data_collector_sp.Clock.{at_instant, resolve_now}
use ua_web_data_collector_sp.Limiter.Rows.{
  Bucket, Db, one_token, refill_unit, get_bucket, refilled_tokens,
}
use ua_web_data_collector_sp.Limiter.Acquire.{PermitDecision, is_blocked, acquire_permit}
use ua_web_data_collector_sp.Limiter.Grants.{allows, bucket_after, acquire-Outcome, bucket-origin}

-- A call of `acquire_permit` for the origin, by any worker and at any instant.
pub record Ask : Type 0 where
  pub owner : String
  pub lease_seconds : ℕ
  pub job_id : Option ℕ
  pub instant : ℕ
  pub permit_id : ℕ

abbrev pub ask : Db → String → Ask → Result (PermitDecision × Db)
ask db origin a =
    acquire_permit db origin a.owner a.lease_seconds a.job_id (at_instant a.instant) a.permit_id

abbrev was_granted : Result (PermitDecision × Db) → Bool
was_granted (ok (d, db)) = d.granted
was_granted (err e) = false

-- How many of the calls are granted, one after another.
unfoldable pub grants : Db → String → List Ask → ℕ
grants db origin [] = 0
grants db origin (a ∷ more) =
    let rest = grants (after db (ask db origin a)) origin more in
    if was_granted (ask db origin a) then suc rest else rest

-- The clock does not run backwards from call to call, and each lease is positive.
abbrev pub Ordered : (last : ℕ) → List Ask → (end : ℕ) → Type 0
Ordered last [] end = last ≤ end
Ordered last (a ∷ more) end =
    (last ≤ a.instant) × (0 < a.lease_seconds) × Ordered a.instant more end

-- What the bucket holds and what has dripped into it since, in the unit of the refill.
abbrev credit : Bucket → (end : ℕ) → ℕ
credit b end = b.available_tokens * refill_unit + (end - b.last_refill_at) * b.refill_per_second

split_interval : (l t e r : ℕ) → l ≤ t → t ≤ e → (e - l) * r ≡ (t - l) * r + (e - t) * r
split_interval l t e r h k = let x : e - l ≡ (t - l) + (e - t) = omega arith in rw x (omega arith)

refilled-le :
    (b : Bucket) (t : ℕ)
    → refilled_tokens b t * refill_unit
      ≤ b.available_tokens * refill_unit + (t - b.last_refill_at) * b.refill_per_second
unfolding refilled_tokens
refilled-le b t = omega arith

abbrev cost : Bool → ℕ
cost true = one_token * refill_unit
cost false = 0

-- An attempt spends what it grants.
spends :
    (b : Bucket) (g : Bool) (t e : ℕ)
    → b.last_refill_at ≤ t
    → t ≤ e
    → (g ≡ true → one_token ≤ refilled_tokens b t)
    → (g ≡ true → is_blocked b.blocked_until t ≡ false)
    → cost g + credit (bucket_after b g t) e ≤ credit b e
spends b true t e h k rich free = rw (free refl) (
    omega (
      arith,
      rich refl,
      refilled-le b t,
      split_interval b.last_refill_at t e b.refill_per_second h k,
    ))
spends b false t e h k rich free = elim (Bool-cases (is_blocked b.blocked_until t)) [
  | inl s ↦ rw s (omega arith)
  | inr s ↦
      rw s (
        omega (arith, refilled-le b t, split_interval b.last_refill_at t e b.refill_per_second h k))
]

-- What a granted attempt had.
allows-rich :
    (db : Db) (b : Bucket) (t : ℕ) → allows db b t ≡ true → one_token ≤ refilled_tokens b t
allows-rich db b t h = ground arith

allows-free :
    (db : Db) (b : Bucket) (t : ℕ) → allows db b t ≡ true → is_blocked b.blocked_until t ≡ false
allows-free db b t h = ground arith

after-last :
    (b : Bucket) (g : Bool) (t : ℕ) → b.last_refill_at ≤ t → (bucket_after b g t).last_refill_at ≤ t
after-last b g t h = ground arith

after-origin : (b : Bucket) (g : Bool) (t : ℕ) → (bucket_after b g t).origin ≡ b.origin
after-origin b g t = ground arith

after-refill :
    (b : Bucket) (g : Bool) (t : ℕ) → (bucket_after b g t).refill_per_second ≡ b.refill_per_second
after-refill b g t = ground arith

Ordered-le : (last : ℕ) (asks : List Ask) (end : ℕ) → Ordered last asks end → last ≤ end
Ordered-le last [] end h = h
Ordered-le last (a ∷ more) end h = omega (arith, Ordered-le a.instant more end h.2)

tally :
    (g : Bool) (later mid total : ℕ)
    → cost g + mid ≤ total
    → later * (one_token * refill_unit) ≤ mid
    → (if g then suc later else later) * (one_token * refill_unit) ≤ total
tally true later mid total h k = omega arith
tally false later mid total h k = omega arith

starved :
    (db : Db) (b : Bucket) (t : ℕ)
    → refilled_tokens b t ≡ b.available_tokens
    → b.available_tokens < one_token
    → allows db b t ≡ false
starved db b t e h = ground arith

grants-credit :
    (db : Db) (origin : String) (asks : List Ask) (b : Bucket) (last end : ℕ)
    → get_bucket origin db.buckets ≡ some b
    → b.last_refill_at ≤ last
    → Ordered last asks end
    → grants db origin asks * (one_token * refill_unit) ≤ credit b end
unfolding grants
grants-credit db origin [] b last end f l o = omega arith
grants-credit db origin (a ∷ more) b last end f l o =
    let (r, e, out) =
      acquire-Outcome db origin a.owner a.lease_seconds a.job_id (at_instant a.instant) a.instant
        a.permit_id b o.1 (unfold resolve_now in refl) f in
    let found : get_bucket origin r.1.buckets ≡ some (bucket_after b r.0.granted a.instant) =
      subst (λ s. get_bucket s r.1.buckets ≡ some (bucket_after b r.0.granted a.instant))
        (bucket-origin origin db.buckets b f) out.bucket in
    let spent =
      spends b r.0.granted a.instant end (omega arith) (Ordered-le a.instant more end o.2)
        (λ g. allows-rich db b a.instant (sym out.exactly ∙ g))
        (λ g. allows-free db b a.instant (sym out.exactly ∙ g)) in
    let later =
      grants-credit r.1 origin more (bucket_after b r.0.granted a.instant) a.instant end found
        (after-last b r.0.granted a.instant (omega arith)) o.2 in
    rw e (tally r.0.granted (grants r.1 origin more) _ _ spent later)

-- In any sequence of calls, by any workers, with positive leases and at instants that do not go
-- back before the last refill or one another, the origin grants at most the tokens that its bucket
-- held at the start and what drips in from the last refill to the end. One token is 10 ^ 12 of the
-- unit in which a rate of one millionth of a token per second drips for a microsecond.
pub grants-le :
    (db : Db) (origin : String) (asks : List Ask) (b : Bucket) (end : ℕ)
    → get_bucket origin db.buckets ≡ some b
    → Ordered b.last_refill_at asks end
    → grants db origin asks * 1000000000000
      ≤ b.available_tokens * 100000000 + (end - b.last_refill_at) * b.refill_per_second
grants-le db origin asks b end f o =
    omega (arith, grants-credit db origin asks b b.last_refill_at end f (omega arith) o)

-- The clock does not run backwards, each lease is positive, no call comes while the block lasts, and
-- less than a quantum (0.0001 token) drips in between the last refill and the first call, and from
-- each call to the next.
abbrev pub Close : Bucket → (last : ℕ) → List Ask → Type 0
Close b last [] = Unit {0}
Close b last (a ∷ more) =
    (last ≤ a.instant)
    × (0 < a.lease_seconds)
    × ((a.instant - last) * b.refill_per_second < refill_unit)
    × (is_blocked b.blocked_until a.instant ≡ false)
    × Close b a.instant more

no_drip :
    (b : Bucket) (t : ℕ)
    → (t - b.last_refill_at) * b.refill_per_second < refill_unit
    → b.available_tokens ≤ b.capacity_tokens
    → refilled_tokens b t ≡ b.available_tokens
unfolding refilled_tokens
no_drip b t h cap = omega arith

after_refusal :
    (b : Bucket) (g : Bool) (t : ℕ)
    → is_blocked b.blocked_until t ≡ false
    → refilled_tokens b t ≡ b.available_tokens
    → g ≡ false
    → bucket_after b g t ≡ record b { last_refill_at = t; updated_at = t }
after_refusal b g t free same refused = rw free (rw refused (ground arith))

-- An origin that is polled too often never grants: each refusal moves the time of the refill on,
-- and drops the part of a quantum that had dripped in. With less than a token in its bucket, and no
-- more than the capacity, no sequence of calls is granted anything, by any workers, for any jobs and
-- at any distances, where the instants do not go back before the last refill or one another, every
-- lease is positive, no call comes while a block lasts, and less than a quantum (0.0001 token) drips
-- in from the last refill to the first call and from each call to the next.
pub polls-starve :
    (db : Db) (origin : String) (asks : List Ask) (b : Bucket)
    → get_bucket origin db.buckets ≡ some b
    → b.available_tokens < one_token
    → b.available_tokens ≤ b.capacity_tokens
    → Close b b.last_refill_at asks
    → grants db origin asks ≡ 0
unfolding grants
polls-starve db origin [] b f poor cap close = refl
polls-starve db origin (a ∷ more) b f poor cap (later, pos, slow, unblocked, close) =
    let (r, e, out) =
      acquire-Outcome db origin a.owner a.lease_seconds a.job_id (at_instant a.instant) a.instant
        a.permit_id b pos (unfold resolve_now in refl) f in
    let same : refilled_tokens b a.instant ≡ b.available_tokens = no_drip b a.instant slow cap in
    let refused : r.0.granted ≡ false = out.exactly ∙ starved db b a.instant same poor in
    let found : get_bucket origin r.1.buckets ≡ some (bucket_after b r.0.granted a.instant) =
      subst (λ s. get_bucket s r.1.buckets ≡ some (bucket_after b r.0.granted a.instant))
        (bucket-origin origin db.buckets b f) out.bucket in
    let left : get_bucket origin r.1.buckets
        ≡ some (record b { last_refill_at = a.instant; updated_at = a.instant }) =
      found ∙ ap some (after_refusal b r.0.granted a.instant unblocked same refused) in
    rw (e, refused)
      (polls-starve r.1 origin more
        (record b { last_refill_at = a.instant; updated_at = a.instant }) left poor cap
        (moved more a.instant close))
  where
    moved :
        (asks : List Ask) (last : ℕ)
        → Close b last asks
        → Close (record b { last_refill_at = a.instant; updated_at = a.instant }) last asks
    moved [] last c = tt
    moved (x ∷ xs) last (l, n, s, u, c) = (l, n, s, u, moved xs x.instant c)

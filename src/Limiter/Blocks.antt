-- ===== src/Limiter/Blocks.antt =====
-- What a block of an origin promises, and the giving back of permits.
use ua_web_data_collector_sp.Base.{
  ℕ, ◌-◌, ◌*◌, ◌≤◌, ◌<◌, ◌≡◌, refl, sym, subst, ◌∙◌, ap, String, Bool, true, false, Bool-cases,
  Option, some, List, [], ◌∷◌, arith, inl, inr,
}
use ua_web_data_collector_sp.Errors.{ok, or_raise, IfOk, IfOk-bind}
use ua_web_data_collector_sp.Clock.{When, resolve_now}
use ua_web_data_collector_sp.Audit.{require_audit_context}
use ua_web_data_collector_sp.Sql.{rows_where, update_where, one_or_none}
use ua_web_data_collector_sp.Limiter.Rows.{
  Bucket, Permit, Db, released, one_token, refill_unit, get_bucket, refilled_tokens,
}
use ua_web_data_collector_sp.Limiter.Acquire.{PermitDecision, is_blocked, acquire_permit}
use ua_web_data_collector_sp.Limiter.Maintain.{
  extends_block, blocked_bucket, block_origin, releasable, closed, release_permit,
}
use ua_web_data_collector_sp.Limiter.Grants.{allows, acquire-Outcome, get-save_bucket}

block-bucket :
    (db db' : Db) (origin actor reason : String) (until audit_id : ℕ) (request : Option String)
    (w : When) (b b' : Bucket)
    → get_bucket origin db.buckets ≡ some b
    → extends_block b.blocked_until until ≡ true
    → block_origin db origin until actor reason request w audit_id ≡ ok (b', db')
    → (b'.blocked_until ≡ some until)
      × (b'.available_tokens ≡ 0)
      × (b'.last_refill_at ≡ until)
      × (b'.refill_per_second ≡ b.refill_per_second)
      × (get_bucket origin db'.buckets ≡ some b')
unfolding block_origin
block-bucket db db' origin actor reason until audit_id request w b b' f longer h =
    subst (IfOk Spec) h (
      IfOk-bind Spec (require_audit_context (some actor) (some reason)) _ λ _ _.
        IfOk-bind Spec (resolve_now w) _ λ t _.
          rw (f, or_raise)
            (rw longer (
              unfold blocked_bucket in
              (refl, refl, refl, refl, get-save_bucket origin db.buckets b _ f refl))))
  where
    Spec : Bucket × Db → Type 0
    Spec a =
        (a.0.blocked_until ≡ some until)
        × (a.0.available_tokens ≡ 0)
        × (a.0.last_refill_at ≡ until)
        × (a.0.refill_per_second ≡ b.refill_per_second)
        × (get_bucket origin a.1.buckets ≡ some a.0)

allows-after :
    (db : Db) (b : Bucket) (t until : ℕ)
    → b.blocked_until ≡ some until
    → b.available_tokens ≡ 0
    → b.last_refill_at ≡ until
    → allows db b t ≡ true
    → (until ≤ t) × (one_token * refill_unit ≤ (t - until) * b.refill_per_second)
unfolding refilled_tokens is_blocked
allows-after db b t until e none_left last h =
    rw (sym last) (rw last (ground (arith, ap (λ x. x * b.refill_per_second) last)))

-- The end of a block is no burst: after `block_origin` has prolonged the block of an origin, a
-- permit that the next call grants comes no earlier than a whole token has dripped in since the end
-- of the block. (In the unit of the refill one token is 10 ^ 12.)
pub block-no_burst :
    (db db' : Db) (origin actor reason owner : String) (until audit_id n t i : ℕ)
    (request : Option String) (w w' : When) (job : Option ℕ) (b b' : Bucket)
    (r : PermitDecision × Db)
    → get_bucket origin db.buckets ≡ some b
    → extends_block b.blocked_until until ≡ true
    → block_origin db origin until actor reason request w audit_id ≡ ok (b', db')
    → 0 < n
    → resolve_now w' ≡ ok t
    → acquire_permit db' origin owner n job w' i ≡ ok r
    → r.0.granted ≡ true
    → (until ≤ t) × (1000000000000 ≤ (t - until) * b.refill_per_second)
block-no_burst db db' origin actor reason owner until audit_id n t i request w w' job b b' r f
      longer h pos now h' g =
    let (blocked, none_left, last, rate, found) =
      block-bucket db db' origin actor reason until audit_id request w b b' f longer h in
    let (r', e, out) = acquire-Outcome db' origin owner n job w' t i b' pos now found in
    let same : r'.0.granted ≡ true =
      subst (IfOk (λ (x : PermitDecision × Db). x.0.granted ≡ true)) (sym h' ∙ e) g in
    subst (λ x. (until ≤ t) × (1000000000000 ≤ (t - until) * x)) rate
      (allows-after db' b' t until blocked none_left last (sym out.exactly ∙ same))

none_pass :
    (p : Permit → Bool) (f g : Permit → Permit) (rows : List Permit)
    → ((r : Permit) → p (f r) ≡ false)
    → (rows_where p (update_where p f rows) ≡ [])
      × (update_where p g (update_where p f rows) ≡ update_where p f rows)
unfolding rows_where update_where
none_pass p f g [] off = (refl, refl)
none_pass p f g (r ∷ rs) off =
    let (rest, same) = none_pass p f g rs off in
    elim (Bool-cases (p r)) [
      | inl e ↦ rw e (rw (off r) (rest, ap (λ x. f r ∷ x) same))
      | inr e ↦ rw e (rw e (rest, ap (λ x. r ∷ x) same))
    ]

closed-not_releasable :
    (i : ℕ) (owner : Option String) (t : ℕ) (p : Permit)
    → releasable i owner (closed released t p) ≡ false
unfolding releasable closed
closed-not_releasable i owner t p = ground arith

-- A release is idempotent: a second release of the permit by the same caller, right after the first
-- and at any aware time, answers `False` and changes nothing.
pub release-once :
    (db db' : Db) (i : ℕ) (owner : Option String) (w w' : When) (t' : ℕ) (answer : Bool)
    → resolve_now w' ≡ ok t'
    → release_permit db i owner w ≡ ok (answer, db')
    → release_permit db' i owner w' ≡ ok (false, db')
unfolding release_permit one_or_none
release-once db db' i owner w w' t' answer r h = subst (IfOk Spec) h (
    IfOk-bind Spec (resolve_now w) _ λ t _.
      let (empty, same) =
        none_pass (releasable i owner) (closed released t) (closed released t') db.permits
          (closed-not_releasable i owner t) in
      rw r (rw (empty, one_or_none) (rw same refl)))
  where
    Spec : Bool × Db → Type 0
    Spec a = release_permit a.1 i owner w' ≡ ok (false, a.1)

-- ===== src/Limiter/Grants.antt =====
-- When `acquire_permit` grants, and what it leaves behind.
use ua_web_data_collector_sp.Base.{
  ℕ, ◌+◌, ◌-◌, ◌≤◌, ◌<◌, ◌≡◌, refl, sym, subst, String, Bool, true, false, ◌&&◌, not, Bool-cases,
  Option, some, List, [], ◌∷◌, ◌++◌, arith, ltb, leb, le→leb, str_eq, eq_iff, eq_refl,
  if◌then◌else◌, inl, inr, or_default,
}
use ua_web_data_collector_sp.Errors.{ok, or_raise}
use ua_web_data_collector_sp.Clock.{When, resolve_now}
use ua_web_data_collector_sp.Sql.{update_where, count_where}
use ua_web_data_collector_sp.Limiter.Rows.{
  Bucket, Permit, Db, one_token, get_bucket, save_bucket, is_live, live_permit_count,
  refilled_tokens,
}
use ua_web_data_collector_sp.Limiter.Acquire.{
  PermitDecision, is_blocked, refill, new_permit, denied, blocked, decide, acquire_permit,
}

pub bucket-origin :
    (origin : String) (bs : List Bucket) (b : Bucket)
    → get_bucket origin bs ≡ some b
    → b.origin ≡ origin
unfolding get_bucket
bucket-origin origin [] b h = cc
bucket-origin origin (x ∷ xs) b h =
    ground (arith, eq_iff x.origin origin, bucket-origin origin xs b)

pub get-save_bucket :
    (origin : String) (bs : List Bucket) (b b' : Bucket)
    → get_bucket origin bs ≡ some b
    → b'.origin ≡ b.origin
    → get_bucket origin (save_bucket b' bs) ≡ some b'
unfolding get_bucket save_bucket update_where
get-save_bucket origin [] b b' h e = cc
get-save_bucket origin (x ∷ xs) b b' h e =
    let same : b.origin ≡ origin = bucket-origin origin (x ∷ xs) b h in
    elim (Bool-cases (str_eq x.origin origin)) [
      | inl k ↦
          ground (arith, eq_iff x.origin origin, eq_iff x.origin b'.origin, eq_iff b'.origin origin)
      | inr k ↦
          ground (
            arith,
            eq_iff x.origin origin,
            eq_iff x.origin b'.origin,
            get-save_bucket origin xs b b',
          )
    ]

-- Does the state of the origin at the instant allow a permit?
abbrev pub allows : Db → Bucket → (now : ℕ) → Bool
allows db b now =
    not (is_blocked b.blocked_until now)
    && (leb one_token (refilled_tokens b now)
        && ltb (live_permit_count db b.origin now) b.max_concurrency)

count-one :
    (p : Permit → Bool) (ps : List Permit) (x : Permit)
    → p x ≡ true
    → count_where p (ps ++ x ∷ []) ≡ count_where p ps + 1
unfolding count_where
count-one p [] x h = ground arith
count-one p (y ∷ ys) x h = ground (arith, count-one p ys x h)

new_permit-live :
    (origin owner : String) (n : ℕ) (job : Option ℕ) (t i : ℕ)
    → 0 < n
    → is_live origin t (new_permit origin owner n job t i) ≡ true
unfolding is_live new_permit
new_permit-live origin owner n job t i h = ground (arith, eq_refl origin)

-- The bucket after an attempt: untouched while blocked, refilled otherwise, and a token taken.
abbrev pub bucket_after : Bucket → (granted : Bool) → (now : ℕ) → Bucket
bucket_after b granted now = if is_blocked b.blocked_until now then b else record b {
  available_tokens = if granted then refilled_tokens b now - one_token else refilled_tokens b now;
  last_refill_at = now;
  updated_at = now;
}

-- What an attempt leaves, by whether it was granted.
abbrev pub Attempted : (granted : Bool) → (db db' : Db) → Bucket → (now : ℕ) → Type 0
Attempted true db db' b now =
    (live_permit_count db' b.origin now ≡ live_permit_count db b.origin now + 1)
    × (live_permit_count db' b.origin now ≤ b.max_concurrency)
Attempted false db db' b now =
    (live_permit_count db' b.origin now ≡ live_permit_count db b.origin now)
    × (db'.permits ≡ db.permits)

-- The outcome of an attempt.
pub record Outcome (db : Db) (b : Bucket) (now : ℕ) (r : PermitDecision × Db) : Type 0 where
  pub exactly : r.0.granted ≡ allows db b now
  pub bucket : get_bucket b.origin r.1.buckets ≡ some (bucket_after b r.0.granted now)
  pub counted : Attempted r.0.granted db r.1 b now

below_of_leb : (m n : ℕ) → leb m n ≡ false → n < m
below_of_leb m n h = ground arith

decide-Outcome :
    (db : Db) (b : Bucket) (permit : Permit) (now : ℕ)
    → is_live b.origin now permit ≡ true
    → get_bucket b.origin db.buckets ≡ some b
    → is_blocked b.blocked_until now ≡ false
    → Outcome db b now (decide db (refill b now) (live_permit_count db b.origin now) permit now)
unfolding decide refill
decide-Outcome db b permit now live f free =
    elim (Bool-cases (ltb (refilled_tokens b now) one_token)) [
      | inl poor ↦ rw poor (record {
        exactly = rw free (ground arith);
        bucket = rw free (get-save_bucket b.origin db.buckets b _ f refl);
        counted = (unfold live_permit_count in refl, refl);
      })
      | inr rich ↦
          rw rich (elim (Bool-cases (leb b.max_concurrency (live_permit_count db b.origin now))) [
            | inl full ↦ rw full (record {
              exactly = rw free (ground arith);
              bucket = rw free (get-save_bucket b.origin db.buckets b _ f refl);
              counted = (unfold live_permit_count in refl, refl);
            })
            | inr room ↦
                let one_more = count-one (is_live b.origin now) db.permits permit live in
                let small : count_where (is_live b.origin now) db.permits < b.max_concurrency =
                  unfold live_permit_count in below_of_leb b.max_concurrency _ room in
                rw room (record {
                  exactly = rw free (ground arith);
                  bucket = rw free (get-save_bucket b.origin db.buckets b _ f refl);
                  counted = unfold live_permit_count in (one_more, omega (arith, one_more, small));
                })
          ])
    ]

blocked-Outcome :
    (db : Db) (b : Bucket) (now : ℕ)
    → get_bucket b.origin db.buckets ≡ some b
    → is_blocked b.blocked_until now ≡ true
    → Outcome db b now (denied blocked (or_default b.blocked_until now) 0 b.available_tokens, db)
blocked-Outcome db b now f h = record {
  exactly = rw h refl;
  bucket = rw h f;
  counted = (refl, refl);
}

-- An attempt with a positive lease at an origin with a bucket always returns a decision. It grants
-- exactly when the origin is not blocked, a whole token is available after the refill and fewer
-- than `max_concurrency` permits are live. A grant adds one live permit, stays within
-- `max_concurrency` and takes one token; a refusal adds no permit and takes no token; a refusal by
-- a block leaves the bucket as it was.
pub acquire-Outcome :
    (db : Db) (origin owner : String) (n : ℕ) (job : Option ℕ) (w : When) (t i : ℕ) (b : Bucket)
    → 0 < n
    → resolve_now w ≡ ok t
    → get_bucket origin db.buckets ≡ some b
    → (r : PermitDecision × Db) × (acquire_permit db origin owner n job w i ≡ ok r)
      × Outcome db b t r
unfolding acquire_permit
acquire-Outcome db origin owner n job w t i b pos r f =
    let same : b.origin ≡ origin = bucket-origin origin db.buckets b f in
    let f' : get_bucket b.origin db.buckets ≡ some b =
      subst (λ o. get_bucket o db.buckets ≡ some b) (sym same) f in
    let positive : leb 1 n ≡ true = le→leb 1 n pos in
    elim (Bool-cases (is_blocked b.blocked_until t)) [
      | inl h ↦ (
        (denied blocked (or_default b.blocked_until t) 0 b.available_tokens, db),
        rw positive (rw r (rw (f, or_raise) (rw h refl))),
        blocked-Outcome db b t f' h,
      )
      | inr h ↦ (
        decide db (refill b t) (live_permit_count db b.origin t)
            (new_permit b.origin owner n job t i) t,
        rw positive (rw r (rw (f, or_raise) (rw h (rw same refl)))),
        decide-Outcome db b (new_permit b.origin owner n job t i) t
            (new_permit-live b.origin owner n job t i pos) f' h,
      )
    ]

-- ===== src/Outbox/Attempts/Deliveries.antt =====
-- How often one event is delivered.
use ua_web_data_collector_sp.Base.{
  ℕ, ◌+◌, ◌≤◌, ◌==◌, ==_iff, ◌≡◌, refl, sym, subst, String, Bool, true, false, ◌||◌, ◌&&◌, some,
  List, [], ◌∷◌, arith, leb, if◌then◌else◌, All, Bool-cases, inl, inr,
}
use ua_web_data_collector_sp.Errors.{Result, ok, err, after, IfOk, IfOk-bind, require, value_error}
use ua_web_data_collector_sp.Clock.{When, resolve_now}
use ua_web_data_collector_sp.Sql.{Unique}
use ua_web_data_collector_sp.Outbox.Rows.{OutboxEvent, Db, event_key, get_row}
use ua_web_data_collector_sp.Outbox.Publish.{is_empty, fetch_unpublished}
use ua_web_data_collector_sp.Outbox.Deliver.{fetch-Delivered}
use ua_web_data_collector_sp.Outbox.Attempts.Counts.{unparks_it, used, step-Counts}
use ua_web_data_collector_sp.Outbox.Attempts.{
  Call, fetches, publishes, fails, unparks, purges, step,
}

unfoldable pub has_id : ℕ → List OutboxEvent → Bool
has_id i [] = false
has_id i (x ∷ xs) = x.outbox_id == i || has_id i xs

-- One if the event is in the answer.
unfoldable pub delivered_in : ℕ → Result (List OutboxEvent × Db) → ℕ
unfolding has_id
delivered_in i (err e) = 0
delivered_in i (ok (xs, db)) = if has_id i xs then 1 else 0

unfoldable pub delivers : (id max_delivery_attempts : ℕ) → Db → Call → ℕ
unfolding delivered_in
delivers i m db (fetches topics limit v w locked) =
    delivered_in i (fetch_unpublished db topics limit v m w locked)
delivers i m db _ = 0

-- The fetches of the sequence whose answer has the event.
unfoldable pub deliveries : (id max_delivery_attempts : ℕ) → Db → List Call → ℕ
unfolding delivers
deliveries i m db [] = 0
deliveries i m db (c ∷ cs) = delivers i m db c + deliveries i m (step m db c) cs

has_id-All {κ} :
    (P : OutboxEvent → Type κ) (i : ℕ) (xs : List OutboxEvent)
    → All P xs
    → has_id i xs ≡ true
    → (x : OutboxEvent) × (x.outbox_id ≡ i) × P x
unfolding has_id
has_id-All P i [] h e = absurd (cc)
has_id-All P i (x ∷ xs) h e = elim (Bool-cases (x.outbox_id == i)) [
  | inl k ↦ (x, (==_iff _ _).0 k, h.0)
  | inr k ↦ has_id-All P i xs h.1 (ground arith)
]

fetch-resolved :
    (db : Db) (topics : List String) (limit v m : ℕ) (w : When) (locked : ℕ → Bool)
    → IfOk (λ _. (t : ℕ) × (resolve_now w ≡ ok t)) (fetch_unpublished db topics limit v m w locked)
unfolding fetch_unpublished
fetch-resolved db topics limit v m w locked =
    IfOk-bind Spec (require (leb 1 limit && (leb 1 v && leb 1 m)) value_error) _ λ _ _.
      IfOk-bind Spec (require (if is_empty topics then false else true) value_error) _
        λ _ _. IfOk-bind Spec (resolve_now w) _ λ t r. (t, r)
  where
    Spec : List OutboxEvent × Db → Type 0
    Spec _ = (t : ℕ) × (resolve_now w ≡ ok t)

module _ (i m : ℕ) where
  fetch-used :
      (db : Db) (topics : List String) (limit v : ℕ) (w : When) (locked : ℕ → Bool)
      (r : Result (List OutboxEvent × Db))
      → fetch_unpublished db topics limit v m w locked ≡ r
      → Unique event_key db.events
      → used m (get_row db i) ≤ used m (get_row (after db r) i)
      → delivered_in i r + used m (get_row db i) ≤ used m (get_row (after db r) i)
  unfolding delivered_in used
  fetch-used db topics limit v w locked (err e) ran u k = omega (arith, k)
  fetch-used db topics limit v w locked (ok (xs, db')) ran u k = elim (Bool-cases (has_id i xs)) [
    | inr e ↦ rw e (omega (arith, k))
    | inl e ↦
        let (t, r) =
          subst (IfOk (λ _. (t : ℕ) × (resolve_now w ≡ ok t))) ran
            (fetch-resolved db topics limit v m w locked) in
        let (x, at, d) =
          has_id-All _ i xs (fetch-Delivered db db' topics limit v m t w locked xs u r ran) e in
        let before : get_row db i ≡ some d.was =
          subst (λ n. get_row db n ≡ some d.was) at d.there in
        let now : get_row db' i ≡ some x = subst (λ n. get_row db' n ≡ some x) at d.stored in
        rw (e, before, now) (omega (arith, d.counted))
  ]

  step-used :
      (db : Db) (c : Call)
      → Unique event_key db.events
      → used m (get_row db i) ≤ used m (get_row (step m db c) i)
      → delivers i m db c + used m (get_row db i) ≤ used m (get_row (step m db c) i)
  unfolding delivers step
  step-used db (fetches topics limit v w locked) u k =
      fetch-used db topics limit v w locked (fetch_unpublished db topics limit v m w locked) refl u
        k
  step-used db (publishes ids w) u k = omega (arith, k)
  step-used db (fails j code message policy rng max_attempts w) u k = omega (arith, k)
  step-used db (unparks j actor reason request w audit_id) u k = omega (arith, k)
  step-used db (purges p older_than behind limit w locked) u k = omega (arith, k)

  run-used :
      (db : Db) (cs : List Call)
      → All (λ c. unparks_it i c ≡ false) cs
      → Unique event_key db.events
      → used m (get_row db i) ≤ m
      → deliveries i m db cs + used m (get_row db i) ≤ m
  unfolding deliveries
  run-used db [] n u k = omega (arith, k)
  run-used db (c ∷ cs) n u k =
      let counts = step-Counts i m db c n.0 u k in
      omega (
        arith,
        step-used db c u counts.counted,
        run-used (step m db c) cs n.1 counts.unique counts.within,
      )

-- An event is delivered at most `max_delivery_attempts` times. Where every fetch uses the same limit,
-- through any sequence of fetches, confirmations, failures, purges and unparkings of other events, the
-- fetches whose answer has the event are, with the deliveries that its row counts at the start, no more
-- than the limit, whether or not the publishers live to report what became of them. Here the ids of the
-- events are distinct, the row counts no more than the limit at the start, and no operator unparks this
-- event in between, which would count its deliveries anew.
pub run-deliveries :
    (i m : ℕ) (db : Db) (cs : List Call) (e : OutboxEvent)
    → Unique event_key db.events
    → get_row db i ≡ some e
    → e.delivery_attempts ≤ m
    → All (λ c. unparks_it i c ≡ false) cs
    → deliveries i m db cs + e.delivery_attempts ≤ m
unfolding used
run-deliveries i m db cs e u f few n =
    subst (λ o. deliveries i m db cs + used m o ≤ m) f
      (run-used i m db cs n u (subst (λ o. used m o ≤ m) (sym f) few))

-- ===== src/Outbox/Failures.antt =====
-- What a reported failure of a delivery does.
use mathlib.Core.Option
use ua_web_data_collector_sp.Base.{
  ℕ, ◌+◌, ◌≤◌, ◌==◌, ==_iff, ==_refl, ◌≡◌, refl, sym, ◌∙◌, ap, String, Bool, true, false, Option,
  some, arith, leb, le→leb, if◌then◌else◌, Bool-cases, inl, inr, or_default,
}
use ua_web_data_collector_sp.Errors.{ok, or_raise}
use ua_web_data_collector_sp.Clock.{When, resolve_now}
use ua_web_data_collector_sp.Sql.Laws.{find-update_where}
use ua_web_data_collector_sp.Queue.Rows.{Message}
use ua_web_data_collector_sp.Queue.Backoff.{BackoffPolicy, Rng, default_policy}
use ua_web_data_collector_sp.Queue.Backoff.Bounds.{delay_for-bounds}
use ua_web_data_collector_sp.Outbox.Rows.{OutboxEvent, Db, event_key, get_row, is_waiting}
use ua_web_data_collector_sp.Outbox.Publish.{save_row, failed, mark_failed}

-- Parked now, or to be delivered again no later than the policy's maximum from now.
abbrev pub Reported : (exhausted : Bool) → (now maximum : ℕ) → (e e' : OutboxEvent) → Type 0
Reported true now maximum e e' = (e'.parked_at ≡ some now) × (e'.available_at ≡ e.available_at)
Reported false now maximum e e' =
    (e'.parked_at ≡ e.parked_at) × (now ≤ e'.available_at) × (e'.available_at ≤ now + maximum)

-- What stays, and what is counted.
abbrev pub Counted : (e e' : OutboxEvent) → Type 0
Counted e e' =
    (e'.outbox_id ≡ e.outbox_id)
    × (e'.attempts ≡ e.attempts + 1)
    × (e'.delivery_attempts ≡ e.delivery_attempts)
    × (e'.published_at ≡ e.published_at)

module _ (code : String) (message : Option Message) (policy : BackoffPolicy) (rng : Rng)
    (max_attempts now : ℕ) (e : OutboxEvent) where
  failed-Counted : Counted e (failed code message policy rng max_attempts now e)
  unfolding failed
  failed-Counted = elim (Bool-cases (leb max_attempts (e.attempts + 1))) [
    | inl h ↦ rw (failed, h) (refl, refl, refl, refl)
    | inr h ↦ rw (failed, h) (refl, refl, refl, refl)
  ]

  failed-Reported :
      Reported
        (leb max_attempts (e.attempts + 1))
        now
        policy.maximum
        e
        (failed code message policy rng max_attempts now e)
  unfolding failed
  failed-Reported = elim (Bool-cases (leb max_attempts (e.attempts + 1))) [
    | inl h ↦ rw (failed, h) (refl, refl)
    | inr h ↦
        rw (failed, h)
          (refl, omega arith, omega (arith, (delay_for-bounds policy (e.attempts + 1) rng).0))
  ]

save_row-get_row :
    (db : Db) (i : ℕ) (e e' : OutboxEvent)
    → get_row db i ≡ some e
    → e'.outbox_id ≡ e.outbox_id
    → get_row (save_row e' db) i ≡ some e'
unfolding save_row get_row
save_row-get_row db i e e' f same =
    find-update_where event_key i (λ x. x.outbox_id == e'.outbox_id) (λ _. e') db.events
      (λ r h. sym ((==_iff _ _).0 h))
    ∙ ap (Option.map (λ x. if x.outbox_id == e'.outbox_id then e' else x)) f
    ∙ rw (same, ==_refl e.outbox_id) refl

-- A failed delivery of a waiting event is always recorded: it counts one attempt and no delivery, and
-- the table holds the new row. At `max_attempts` the event is parked; before that it becomes available
-- again no earlier than now and no later than the policy's maximum from now.
pub mark_failed-Reported :
    (db : Db) (i : ℕ) (code : String) (message : Option Message) (policy : Option BackoffPolicy)
    (rng : Rng) (max_attempts t : ℕ) (w : When) (e : OutboxEvent)
    → 1 ≤ max_attempts
    → resolve_now w ≡ ok t
    → get_row db i ≡ some e
    → is_waiting e ≡ true
    → (e' : OutboxEvent) × (db' : Db) × (mark_failed db i code message policy rng max_attempts w
        ≡ ok (e', db'))
      × (get_row db' i ≡ some e')
      × Counted e e'
      × Reported
          (leb max_attempts (e.attempts + 1))
          t
          (or_default policy default_policy).maximum
          e
          e'
unfolding mark_failed
mark_failed-Reported db i code message policy rng max_attempts t w e positive r f waits =
    let e' : OutboxEvent =
      failed code message (or_default policy default_policy) rng max_attempts t e in
    let counted : Counted e e' =
      failed-Counted code message (or_default policy default_policy) rng max_attempts t e in
    (
      e',
      save_row e' db,
      rw (le→leb 1 max_attempts positive) (rw r (rw (f, or_raise) (rw waits refl))),
      save_row-get_row db i e e' f counted.0,
      counted,
      failed-Reported code message (or_default policy default_policy) rng max_attempts t e,
    )

-- ===== src/Outbox/Attempts.antt =====
-- The calls of publishers, operators and the retention in any order.
pub mod Counts
pub mod Deliveries
use ua_web_data_collector_sp.Base.{
  ℕ, ◌+◌, ◌≤◌, ◌≡◌, refl, String, Bool, true, false, Option, some, List, [], ◌∷◌, arith, leb,
  if◌then◌else◌, All, Bool-cases, inl, inr, ℤ, pos, negsuc, or_default, is_some, is_none, ◌&&◌,
}
use ua_web_data_collector_sp.Errors.{
  after, after-bind, require, or_raise, or_raise-eq-ok, not_found, value_error, invalid_transition,
}
use ua_web_data_collector_sp.Clock.{When, resolve_now}
use ua_web_data_collector_sp.Audit.{require_audit_context}
use ua_web_data_collector_sp.Sql.Laws.{rows_where-All, update_where-All, find-All}
use ua_web_data_collector_sp.Queue.Rows.{Message}
use ua_web_data_collector_sp.Queue.Backoff.{BackoffPolicy, Rng, default_policy}
use ua_web_data_collector_sp.Outbox.Rows.{OutboxEvent, Db, event_key, get_row, is_waiting}
use ua_web_data_collector_sp.Outbox.Publish.{
  handed_out, hand_out, is_empty, fetch_unpublished, published, mark_published, save_row, failed,
  mark_failed,
}
use ua_web_data_collector_sp.Outbox.Operate.{
  unparked, unpark, Projection, purge_older, purge_published,
}

-- A call; the deliveries of a fetch are limited by the same number in every call.
pub data Call : Type 0 where
  fetches : List String → ℕ → ℕ → When → (ℕ → Bool) → Call
  publishes : List ℕ → When → Call
  fails : ℕ → String → Option Message → Option BackoffPolicy → Rng → ℕ → When → Call
  unparks : ℕ → String → String → Option String → When → ℕ → Call
  purges : Projection → ℤ → Option ℕ → ℕ → When → (ℕ → Bool) → Call

unfoldable pub step : (max_delivery_attempts : ℕ) → Db → Call → Db
unfolding fetch_unpublished mark_published mark_failed unpark purge_published
step m db (fetches topics limit v w locked) =
    after db (fetch_unpublished db topics limit v m w locked)
step m db (publishes ids w) = after db (mark_published db ids w)
step m db (fails i code message policy rng max_attempts w) =
    after db (mark_failed db i code message policy rng max_attempts w)
step m db (unparks i actor reason request w audit_id) =
    after db (unpark db i actor reason request w audit_id)
step m db (purges p older_than behind limit w locked) =
    after db (purge_published db p older_than behind limit w locked)

unfoldable pub run : (max_delivery_attempts : ℕ) → Db → List Call → Db
unfolding step
run m db [] = db
run m db (c ∷ cs) = run m (step m db c) cs

handed_out-le :
    (v m now : ℕ) (e : OutboxEvent)
    → e.delivery_attempts ≤ m
    → (handed_out v m now e).delivery_attempts ≤ m
unfolding handed_out
handed_out-le v m now e h = ground arith

failed-attempts :
    (code : String) (message : Option Message) (policy : BackoffPolicy) (rng : Rng)
    (max_attempts now : ℕ) (e : OutboxEvent)
    → (failed code message policy rng max_attempts now e).delivery_attempts ≡ e.delivery_attempts
unfolding failed
failed-attempts code message policy rng max_attempts now e =
    elim (Bool-cases (leb max_attempts (e.attempts + 1))) [
      | inl h ↦ rw (failed, h) refl
      | inr h ↦ rw (failed, h) refl
    ]

-- ===== src/Outbox/Publish.antt =====
-- `fetch_unpublished`, `mark_published` and `mark_failed` of repositories/outbox.py: the cycle of a
-- publisher. `locked` holds the rows that other transactions have locked.
use ua_web_data_collector_sp.Base.{
  ℕ, ◌+◌, ◌==◌, String, Bool, true, false, ◌&&◌, Option, none, some, List, [], ◌∷◌, map, leb, ltb,
  if◌then◌else◌, is_none, length, elem, mentions, sort, or_default,
}
use ua_web_data_collector_sp.Errors.{
  Result, ok, ◌>>=◌, ◌>>◌, require, or_raise, value_error, not_found,
}
use ua_web_data_collector_sp.Clock.{When, resolve_now, seconds}
use ua_web_data_collector_sp.Sql.{rows_where, update_where, select_for_update, among}
use ua_web_data_collector_sp.Queue.Rows.{Message, truncated}
use ua_web_data_collector_sp.Queue.Backoff.{BackoffPolicy, Rng, default_policy, delay_for}
use ua_web_data_collector_sp.Outbox.Rows.{
  OutboxEvent, Db, event_key, get_row, is_waiting, delivery_attempts_exhausted,
}

unfoldable pub deliverable : List String → (now : ℕ) → OutboxEvent → Bool
unfolding is_waiting
deliverable topics now e = is_waiting e && (leb e.available_at now && mentions topics e.topic)

-- ORDER BY available_at, event_id
unfoldable pub delivery_order : OutboxEvent → OutboxEvent → Bool
delivery_order a b =
    if ltb a.available_at b.available_at
    then true
    else if ltb b.available_at a.available_at
    then false
    else leb a.event_id b.event_id

-- The sort of the answer, by (created_at, event_id).
unfoldable pub creation_order : OutboxEvent → OutboxEvent → Bool
creation_order a b =
    if ltb a.created_at b.created_at
    then true
    else if ltb b.created_at a.created_at
    then false
    else leb a.event_id b.event_id

-- One UPDATE: a visibility lease and one delivery more, or the row parked once it is exhausted.
unfoldable pub handed_out :
    (visibility_seconds max_delivery_attempts now : ℕ) → OutboxEvent → OutboxEvent
handed_out visibility_seconds max_delivery_attempts now e =
    if leb max_delivery_attempts e.delivery_attempts
    then record e {
      parked_at = some now;
      last_error_code = some delivery_attempts_exhausted;
      updated_at = now;
    }
    else record e {
      available_at = now + seconds visibility_seconds;
      delivery_attempts = e.delivery_attempts + 1;
      updated_at = now;
    }

unfoldable pub due : Db → List String → (limit now : ℕ) → (ℕ → Bool) → List OutboxEvent
unfolding deliverable delivery_order
due db topics limit now locked =
    select_for_update event_key locked delivery_order (deliverable topics now) limit db.events

-- UPDATE … RETURNING, with the rows that were not parked, sorted.
unfoldable pub hand_out :
    Db
    → List OutboxEvent
    → (visibility_seconds max_delivery_attempts now : ℕ) → List OutboxEvent × Db
unfolding handed_out creation_order
hand_out db chosen visibility_seconds max_delivery_attempts now =
    let change = handed_out visibility_seconds max_delivery_attempts now in
    (
      sort creation_order (
          rows_where (λ e. is_none e.parked_at)
            (map change (rows_where (among event_key chosen) db.events))),
      record db { events = update_where (among event_key chosen) change db.events },
    )

unfoldable pub is_empty : List String → Bool
is_empty [] = true
is_empty (t ∷ ts) = false

unfoldable pub fetch_unpublished :
    Db
    → (topics : List String) → (limit visibility_seconds max_delivery_attempts : ℕ) → When
    → (locked : ℕ → Bool) → Result (List OutboxEvent × Db)
unfolding due hand_out is_empty
fetch_unpublished db topics limit visibility_seconds max_delivery_attempts w locked = do
  require (leb 1 limit && (leb 1 visibility_seconds && leb 1 max_delivery_attempts)) value_error
  require (if is_empty topics then false else true) value_error
  current ← resolve_now w
  ok (
      hand_out db (due db topics limit current locked) visibility_seconds max_delivery_attempts
        current)

unfoldable pub publishable : List ℕ → OutboxEvent → Bool
publishable outbox_ids e = elem e.outbox_id outbox_ids && is_none e.published_at

unfoldable pub published : (now : ℕ) → OutboxEvent → OutboxEvent
published now e = record e {
  published_at = some now;
  last_error_code = none;
  last_error_message = none;
  updated_at = now;
}

unfoldable pub mark_published : Db → (outbox_ids : List ℕ) → When → Result (ℕ × Db)
unfolding publishable published
mark_published db [] w = ok (0, db)
mark_published db (i ∷ ids) w = do
  current ← resolve_now w
  ok (
    length (rows_where (publishable (i ∷ ids)) db.events),
    record db { events = update_where (publishable (i ∷ ids)) (published current) db.events },
  )

unfoldable pub save_row : OutboxEvent → Db → Db
save_row e db = record db {
  events = update_where (λ x. x.outbox_id == e.outbox_id) (λ _. e) db.events;
}

unfoldable pub failed :
    (error_code : String)
    → Option Message
    → BackoffPolicy
    → Rng
    → (max_attempts now : ℕ) → OutboxEvent
    → OutboxEvent
unfolding truncated
failed error_code error_message policy rng max_attempts now e =
    let e' = record e {
      attempts = e.attempts + 1;
      last_error_code = some error_code;
      last_error_message = truncated error_message;
      updated_at = now;
    } in
    if leb max_attempts (e.attempts + 1)
    then record e' { parked_at = some now }
    else record e' { available_at = now + delay_for policy (e.attempts + 1) rng }

unfoldable pub mark_failed :
    Db
    → (outbox_id : ℕ) → (error_code : String) → Option Message
    → Option BackoffPolicy
    → Rng
    → (max_attempts : ℕ) → When
    → Result (OutboxEvent × Db)
unfolding failed save_row get_row is_waiting
mark_failed db i error_code error_message policy rng max_attempts w = do
  require (leb 1 max_attempts) value_error
  current ← resolve_now w
  event ← or_raise (get_row db i) not_found
  if is_waiting event
      then (let event' =
            failed error_code error_message (or_default policy default_policy) rng max_attempts
              current event in
          ok (event', save_row event' db))
      else ok (event, db)

-- ===== src/Outbox/Operate.antt =====
-- `list_parked`, `unpark`, `purge_published`, `get_event`, `count_backlog` and
-- `oldest_unpublished_age` of repositories/outbox.py.
use ua_web_data_collector_sp.Base.{
  ℕ, ◌+◌, ◌-◌, ◌==◌, min, max, String, Bool, true, false, ◌&&◌, ◌||◌, not, Option, none, some, List,
  [], ◌∷◌, leb, ltb, if◌then◌else◌, is_none, is_some, length, elem, mentions, sort, take, str_eq,
  or_default, ℤ, pos, negsuc,
}
use ua_web_data_collector_sp.Errors.{
  Result, ok, err, ◌>>=◌, ◌>>◌, require, or_raise, value_error, not_found, invalid_transition,
}
use ua_web_data_collector_sp.Clock.{When, resolve_now}
use ua_web_data_collector_sp.Audit.{
  AuditEntry, uuid, null, number, text, time_or_null, text_or_null, require_audit_context,
  append_audit,
}
use ua_web_data_collector_sp.Sql.{rows_where, select_for_update, among, one_or_none, count_where}
use ua_web_data_collector_sp.Outbox.Rows.{
  OutboxEvent, Db, event_key, get_row, is_waiting, domain_topic, internal_topic,
}
use ua_web_data_collector_sp.Outbox.Publish.{save_row}

unfoldable pub parked_order : OutboxEvent → OutboxEvent → Bool
parked_order a b =
    let s = or_default a.parked_at 0 in
    let t = or_default b.parked_at 0 in
    if ltb s t then true else if ltb t s then false else leb a.event_id b.event_id

unfoldable pub list_parked : Db → (limit : ℕ) → List OutboxEvent
unfolding parked_order
list_parked db limit =
    take limit (
      sort parked_order (rows_where (λ e. is_some e.parked_at && is_none e.published_at) db.events))

unfoldable pub unparked : (now : ℕ) → OutboxEvent → OutboxEvent
unparked now e = record e {
  parked_at = none;
  attempts = 0;
  delivery_attempts = 0;
  available_at = now;
  updated_at = now;
}

unfoldable pub audit_unpark :
    OutboxEvent → (actor reason : String) → Option String → (now audit_id : ℕ) → AuditEntry
audit_unpark e actor reason request_id now audit_id = record {
  audit_id = audit_id;
  created_at = now;
  actor = actor;
  action = "outbox.unpark";
  resource_type = "outbox_event";
  resource_id = uuid e.event_id;
  before_state = some (
      ("parked_at", time_or_null e.parked_at)
      ∷ ("attempts", number e.attempts)
      ∷ ("delivery_attempts", number e.delivery_attempts)
      ∷ ("last_error_code", text_or_null e.last_error_code)
      ∷ []);
  after_state = some (
      ("parked_at", null)
      ∷ ("attempts", number 0)
      ∷ ("delivery_attempts", number 0)
      ∷ ("reason", text reason)
      ∷ []);
  request_id = request_id;
  idempotency_key = none;
}

unfoldable pub unpark :
    Db
    → (outbox_id : ℕ) → (actor reason : String) → Option String
    → When
    → (audit_id : ℕ) → Result (OutboxEvent × Db)
unfolding unparked audit_unpark save_row get_row append_audit require_audit_context
unpark db i actor reason request_id w audit_id = do
  context ← require_audit_context (some actor) (some reason)
  current ← resolve_now w
  event ← or_raise (get_row db i) not_found
  require (is_some event.parked_at && is_none event.published_at) invalid_transition
  let event' = unparked current event
  let entry = audit_unpark event actor reason request_id current audit_id
  let db' = save_row event' db
  ok (event', record db' { audit_log = (append_audit db'.audit_log entry).1 })

-- What the purge reads of the projection: each task with whether it has succeeded, and the tasks
-- that have an acknowledgement.
pub record Projection : Type 0 where
  pub tasks : List (ℕ × Bool)
  pub acknowledgements : List ℕ

succeeded_task : List (ℕ × Bool) → ℕ → Bool
succeeded_task [] i = false
succeeded_task ((j, done) ∷ ts) i = (j == i && done) || succeeded_task ts i

-- The EXISTS subquery: the task of the command has succeeded and is acknowledged.
unfoldable pub acknowledged : Projection → (event_id : ℕ) → Bool
unfolding succeeded_task
acknowledged p i = succeeded_task p.tasks i && elem i p.acknowledgements

-- A NULL is before no instant; `older` is `older_than`, so the column is compared with the cutoff.
unfoldable pub before_cutoff : Option ℕ → (older now : ℕ) → Bool
before_cutoff none older now = false
before_cutoff (some t) older now = ltb (t + older) now

unfoldable pub purgeable : Projection → (older now : ℕ) → OutboxEvent → Bool
unfolding before_cutoff
purgeable p older now e =
    (str_eq e.topic domain_topic && before_cutoff e.published_at older now)
    || (str_eq e.topic internal_topic
        && (before_cutoff (some e.created_at) older now && acknowledged p e.event_id))

-- The keyset condition `event_id > after`.
unfoldable pub is_behind : Option ℕ → OutboxEvent → Bool
is_behind none e = true
is_behind (some i) e = ltb i e.event_id

pub record PurgeResult : Type 0 where
  pub deleted : ℕ
  pub last_event_id : Option ℕ

-- max(row.event_id for row in rows)
greatest : List OutboxEvent → Option ℕ
greatest [] = none
greatest (e ∷ es) = some (max e.event_id (or_default (greatest es) 0))

unfoldable pub purge_batch :
    Db
    → Projection
    → (older : ℕ) → (after : Option ℕ) → (limit now : ℕ) → (ℕ → Bool)
    → List OutboxEvent
unfolding purgeable is_behind
purge_batch db p older after limit now locked =
    select_for_update event_key locked (λ a b. leb a.event_id b.event_id)
      (λ e. purgeable p older now e && is_behind after e) limit db.events

unfoldable pub purge_older :
    Db
    → Projection
    → (older : ℕ) → (after : Option ℕ) → (limit : ℕ) → When
    → (ℕ → Bool)
    → Result (PurgeResult × Db)
unfolding purge_batch greatest
purge_older db p older after limit w locked = do
  current ← resolve_now w
  let rows = purge_batch db p older after limit current locked
  ok (
    record {
      deleted = length (rows_where (among event_key rows) db.events);
      last_event_id = greatest rows;
    },
    record db { events = rows_where (λ e. not (among event_key rows e)) db.events },
  )

unfoldable pub purge_published :
    Db
    → Projection
    → (older_than : ℤ) → (after : Option ℕ) → (limit : ℕ) → When
    → (locked : ℕ → Bool) → Result (PurgeResult × Db)
unfolding purge_older
purge_published db p older_than after limit w locked = do
  require (leb 1 limit) value_error
  elim older_than [
    | negsuc n ↦ err value_error
    | pos older ↦ purge_older db p older after limit w locked
  ]

unfoldable pub get_event : Db → (event_id : ℕ) → Option OutboxEvent
get_event db i = one_or_none (rows_where (λ e. e.event_id == i) db.events)

of_topic : Option String → OutboxEvent → Bool
of_topic none e = true
of_topic (some topic) e = str_eq e.topic topic

unfoldable pub count_backlog : Db → Option String → ℕ
unfolding of_topic is_waiting
count_backlog db topic = count_where (λ e. is_waiting e && of_topic topic e) db.events

-- SELECT min(created_at)
oldest : List OutboxEvent → Option ℕ
oldest [] = none
oldest (e ∷ es) = some (elim (oldest es) [ none ↦ e.created_at | some t ↦ min e.created_at t ])

-- The difference of two instants, of either sign.
age : ℕ → Option ℕ → Option ℤ
age now none = none
age now (some t) = some (if leb t now then pos (now - t) else negsuc (t - now - 1))

unfoldable pub oldest_unpublished_age : Db → (topics : List String) → When → Result (Option ℤ)
unfolding oldest age is_waiting
oldest_unpublished_age db topics w = do
  require (is_some (one_or_none topics)) value_error
  current ← resolve_now w
  ok (age current (oldest (rows_where (λ e. is_waiting e && mentions topics e.topic) db.events)))

-- ===== src/Reconciliation.antt =====
-- src/collector/persistence/postgres/repositories/reconciliation.py: what the reconciler reads of the
-- projection's tables and the outbox. An `older_than` that reaches behind the least `datetime`, where
-- Python raises OverflowError, finds no task here.
pub mod Complete
pub mod Examples
use ua_web_data_collector_sp.Base.{
  ℕ, zero, suc, ◌+◌, ◌==◌, min, String, Bool, true, false, ◌&&◌, ◌||◌, not, Option, none, some,
  List, [], ◌∷◌, leb, ltb, str_eq, is_none, sort, take, ℤ, pos, negsuc,
}
use ua_web_data_collector_sp.Errors.{Result, ok, err, ◌>>=◌, ◌>>◌, require, value_error}
use ua_web_data_collector_sp.Clock.{Stamp, When, resolve_now, require_aware_utc}
use ua_web_data_collector_sp.Sql.{rows_where, one_or_none, count_where}
use ua_web_data_collector_sp.Queue.Rows.{
  Status, leased, succeeded, quarantined, is_claimable, is_leased,
}
use ua_web_data_collector_sp.Outbox.Rows.{OutboxEvent}
use ua_web_data_collector_sp.Projection.Rows.{ProjectionTask, EntityIndex, Db}

-- `OPEN_TASK_STATUSES`
abbrev pub is_open : Status → Bool
is_open leased = true
is_open s = is_claimable s

abbrev pub is_quarantined : Status → Bool
is_quarantined quarantined = true
is_quarantined _ = false

abbrev pub is_succeeded : Status → Bool
is_succeeded succeeded = true
is_succeeded _ = false

-- `time <= now - older_than`; NULL is not.
abbrev pub is_before_cutoff : (older_than now : ℕ) → Option ℕ → Bool
is_before_cutoff older_than now none = false
is_before_cutoff older_than now (some t) = leb (t + older_than) now

unfoldable pub is_stale_task : (older_than now : ℕ) → ProjectionTask → Bool
is_stale_task older_than now t =
    (is_claimable t.status && is_before_cutoff older_than now (some t.not_before))
    || (is_leased t.status && is_before_cutoff older_than now t.leased_at)

-- `ProjectionTask.task_id > after`; no cursor excludes none.
abbrev pub is_after : Option ℕ → ProjectionTask → Bool
is_after none t = true
is_after (some after) t = ltb after t.task_id

-- ORDER BY task_id
abbrev pub by_task_id : ProjectionTask → ProjectionTask → Bool
by_task_id a b = leb a.task_id b.task_id

-- `older_than < timedelta(0)` raises.
given_duration : ℤ → Result ℕ
given_duration (pos n) = ok n
given_duration (negsuc n) = err value_error

unfoldable pub list_stale_projection_tasks :
    Db → (older_than : ℤ) → (after : Option ℕ) → (limit : ℕ) → When → Result (List ProjectionTask)
unfolding is_stale_task given_duration
list_stale_projection_tasks db older_than after limit w = do
  require (leb 1 limit) value_error
  duration ← given_duration older_than
  current ← resolve_now w
  ok (
      take limit (
        sort by_task_id
          (rows_where (λ t. is_stale_task duration current t && is_after after t) db.tasks)))

-- JOIN entity_index ON entity_uuid WHERE source_id; no filter excludes none.
unfoldable pub is_of_source : Db → Option String → (entity_uuid : ℕ) → Bool
is_of_source db none u = true
is_of_source db (some source_id) u =
    elim (one_or_none (rows_where (λ (e : EntityIndex). e.entity_uuid == u) db.entities)) [
      | none ↦ false
      | some e ↦ str_eq e.source_id source_id
    ]

unfoldable pub list_quarantined_projection_tasks :
    Db
    → (source_id : Option String) → (after : Option ℕ) → (limit : ℕ) → Result (List ProjectionTask)
unfolding is_of_source
list_quarantined_projection_tasks db source_id after limit = do
  require (leb 1 limit) value_error
  ok (
      take limit (
        sort by_task_id (
          rows_where
            (λ t.
              is_quarantined t.status
              && (is_of_source db source_id t.entity_uuid && is_after after t))
            db.tasks)))

pub record ProjectionCompleteness : Type 0 where
  pub open_tasks : ℕ
  pub oldest_open_task_created_at : Option ℕ
  pub quarantined_tasks : ℕ
  pub oldest_quarantined_task_created_at : Option ℕ
  pub unpublished_domain_events : ℕ
  pub oldest_unpublished_domain_event_created_at : Option ℕ

unfoldable pub settled : ProjectionCompleteness → Bool
settled c = c.open_tasks == 0

unfoldable pub complete : ProjectionCompleteness → Bool
complete c = c.open_tasks == 0 && c.quarantined_tasks == 0

-- `func.min(created_at)`
unfoldable pub oldest_created_at : {A : Type 0} → (A → ℕ) → List A → Option ℕ
oldest_created_at created_at [] = none
oldest_created_at created_at (r ∷ rs) =
    some (elim (oldest_created_at created_at rs) [
      | none ↦ created_at r
      | some t ↦ min (created_at r) t
    ])

-- The filters that the caller gives.
pub record Scope : Type 0 where
  pub source_id : Option String
  pub entity_uuid : Option ℕ
  pub created_before : Option Stamp

abbrev pub is_entity : Option ℕ → (entity_uuid : ℕ) → Bool
is_entity none u = true
is_entity (some given) u = u == given

abbrev pub is_created_before : Option ℕ → (created_at : ℕ) → Bool
is_created_before none t = true
is_created_before (some watermark) t = ltb t watermark

-- `require_aware_utc` of a watermark that is given.
unfoldable pub given_watermark : Option Stamp → Result (Option ℕ)
unfolding require_aware_utc
given_watermark none = ok none
given_watermark (some stamp) = require_aware_utc stamp >>= λ t. ok (some t)

unfoldable pub is_in_scope :
    Db → Scope → (watermark : Option ℕ) → (entity_uuid created_at : ℕ) → Bool
unfolding is_of_source
is_in_scope db s watermark u t =
    is_of_source db s.source_id u && (is_entity s.entity_uuid u && is_created_before watermark t)

-- The tasks that the first query aggregates.
unfoldable pub counted_tasks : Db → Scope → (watermark : Option ℕ) → List ProjectionTask
unfolding is_in_scope
counted_tasks db s watermark =
    rows_where
      (λ t. not (is_succeeded t.status) && is_in_scope db s watermark t.entity_uuid t.created_at)
      db.tasks

-- The events that the second query aggregates.
unfoldable pub counted_events : Db → Scope → (watermark : Option ℕ) → List OutboxEvent
unfolding is_in_scope
counted_events db s watermark =
    rows_where
      (λ (e : OutboxEvent).
        (str_eq e.topic "domain" && is_none e.published_at)
        && is_in_scope db s watermark e.aggregate_id e.created_at)
      db.events

unfoldable pub aggregates : List ProjectionTask → List OutboxEvent → ProjectionCompleteness
unfolding oldest_created_at
aggregates tasks events = record {
  open_tasks = count_where (λ t. is_open t.status) tasks;
  oldest_open_task_created_at =
      oldest_created_at (λ (t : ProjectionTask). t.created_at)
        (rows_where (λ t. is_open t.status) tasks);
  quarantined_tasks = count_where (λ t. is_quarantined t.status) tasks;
  oldest_quarantined_task_created_at =
      oldest_created_at (λ (t : ProjectionTask). t.created_at)
        (rows_where (λ t. is_quarantined t.status) tasks);
  unpublished_domain_events = count_where (λ (e : OutboxEvent). true) events;
  oldest_unpublished_domain_event_created_at =
      oldest_created_at (λ (e : OutboxEvent). e.created_at) events;
}

unfoldable pub projection_completeness : Db → Scope → Result ProjectionCompleteness
unfolding given_watermark counted_tasks counted_events aggregates
projection_completeness db s = do
  watermark ← given_watermark s.created_before
  ok (aggregates (counted_tasks db s watermark) (counted_events db s watermark))

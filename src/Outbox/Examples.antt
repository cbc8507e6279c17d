-- ===== src/Outbox/Examples.antt =====
-- Runs of the outbox on small tables.
use ua_web_data_collector_sp.Base.{
  ℕ, ◌+◌, ◌≤◌, ◌≡◌, refl, Bool, false, none, some, List, [], ◌∷◌, All, pos, sort,
}
use ua_web_data_collector_sp.Errors.{ok}
use ua_web_data_collector_sp.Clock.{at_instant, resolve_now, resolve, require_aware_utc}
use ua_web_data_collector_sp.Sql.{find, Unique, rows_where, select_for_update, among}
use ua_web_data_collector_sp.Outbox.Rows.{OutboxEvent, Db, event_key, get_row}
use ua_web_data_collector_sp.Outbox.Publish.{fetch_unpublished, hand_out, due, is_empty}
use ua_web_data_collector_sp.Outbox.Operate.{Projection, purge_published, purge_older}
use ua_web_data_collector_sp.Outbox.Purge.{purge-pending_kept}
use ua_web_data_collector_sp.Outbox.Deliver.{Delivered, fetch-Delivered}
use ua_web_data_collector_sp.Base.{arith}
use ua_web_data_collector_sp.Queue.Backoff.{default_policy}
use ua_web_data_collector_sp.Outbox.Publish.{mark_failed}
use ua_web_data_collector_sp.Outbox.Rows.{is_waiting}
use ua_web_data_collector_sp.Outbox.Attempts.{Call, fetches, publishes, purges}
use ua_web_data_collector_sp.Outbox.Attempts.Deliveries.{deliveries, run-deliveries}
use ua_web_data_collector_sp.Outbox.Failures.{Counted, Reported, mark_failed-Reported}

abbrev free : ℕ → Bool
free i = false

abbrev waiting : OutboxEvent
waiting = record {
  outbox_id = 1;
  event_id = 11;
  topic = "domain";
  event_type = "article.created";
  aggregate_id = 5;
  aggregate_version = 1;
  payload_schema_version = "1.0";
  payload_bytes = some (123 ∷ 125 ∷ []);
  payload_media_type = "application/json";
  payload_sha256 = "44136fa3";
  payload_artifact_uri = none;
  available_at = 0;
  published_at = none;
  parked_at = none;
  attempts = 0;
  delivery_attempts = 0;
  last_error_code = none;
  last_error_message = none;
  created_at = 0;
  updated_at = 0;
}

abbrev sent : OutboxEvent
sent = record waiting { outbox_id = 2; event_id = 12; published_at = some 10 }

abbrev two_events : Db
two_events = record { events = waiting ∷ sent ∷ []; audit_log = [] }

two_ids : Unique event_key two_events.events
unfolding find
two_ids = (refl, (refl, tt))

now : (t : ℕ) → resolve_now (at_instant t) ≡ ok t
unfolding resolve_now resolve require_aware_utc
now t = refl

abbrev no_tasks : Projection
no_tasks = record { tasks = []; acknowledgements = [] }

abbrev purged : Db
purged = record { events = waiting ∷ []; audit_log = [] }

purge_ok :
    purge_published two_events no_tasks (pos 50) none 10 (at_instant 100) free
    ≡ ok (record { deleted = 1; last_event_id = some 12 }, purged)
unfolding purge_published purge_older resolve_now resolve require_aware_utc rows_where
    select_for_update among sort
purge_ok = refl

purge-pending_kept_example : get_row purged 1 ≡ some waiting
purge-pending_kept_example =
    purge-pending_kept two_events no_tasks (pos 50) none 10 (at_instant 100) free two_ids 1 waiting
      (record { deleted = 1; last_event_id = some 12 }) purged (unfold get_row find in refl) refl
      refl purge_ok

abbrev fetched : List OutboxEvent × Db
fetched = hand_out two_events (due two_events ("domain" ∷ []) 10 100 free) 60 8 100

fetch_ok : fetch_unpublished two_events ("domain" ∷ []) 10 60 8 (at_instant 100) free ≡ ok fetched
unfolding fetch_unpublished resolve_now resolve require_aware_utc is_empty
fetch_ok = refl

fetch-Delivered_example :
    All (Delivered two_events fetched.1 ("domain" ∷ []) 60 8 100 free) fetched.0
fetch-Delivered_example =
    fetch-Delivered two_events fetched.1 ("domain" ∷ []) 10 60 8 100 (at_instant 100) free fetched.0
      two_ids (now 100) fetch_ok

-- A publisher that dies after every fetch, and a purge.
abbrev crashing : List Call
crashing =
    fetches ("domain" ∷ []) 10 60 (at_instant 100) free
    ∷ fetches ("domain" ∷ []) 10 60 (at_instant 90000000) free
    ∷ publishes (1 ∷ []) (at_instant 90000001)
    ∷ purges no_tasks (pos 50) none 10 (at_instant 90000100) free
    ∷ []

run-deliveries_example : deliveries 1 1 two_events crashing + 0 ≤ 1
run-deliveries_example =
    run-deliveries 1 1 two_events crashing waiting two_ids (unfold get_row find in refl)
      (omega arith) (refl, (refl, (refl, (refl, tt))))

mark_failed-Reported_example :
    (e' : OutboxEvent) × (db' : Db) × (mark_failed two_events 1 "timeout" none
        (some default_policy)
        (λ hi. 0)
        8
        (at_instant 100)
      ≡ ok (e', db'))
    × (get_row db' 1 ≡ some e')
    × Counted waiting e'
    × Reported false 100 default_policy.maximum waiting e'
mark_failed-Reported_example =
    mark_failed-Reported two_events 1 "timeout" none (some default_policy) (λ hi. 0) 8 100
      (at_instant 100) waiting (omega arith) (now 100) (unfold get_row find in refl)
      (unfold is_waiting in refl)

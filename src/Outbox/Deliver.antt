-- ===== src/Outbox/Deliver.antt =====
-- What a fetch delivers.
use mathlib.Core.Option
use ua_web_data_collector_sp.Base.{
  ℕ, ◌+◌, ◌≤◌, ◌≡◌, refl, sym, subst, ◌∙◌, ap, Bool, true, false, not, ◌&&◌, &&_parts, String, some,
  List, arith, leb, if◌then◌else◌, All, All-map_pred, sort-All, is_none, Bool-cases, inl, inr,
}
use ua_web_data_collector_sp.Errors.{ok, IfOk, IfOk-bind, require, value_error}
use ua_web_data_collector_sp.Clock.{When, resolve_now, seconds}
use ua_web_data_collector_sp.Sql.{find, among, Unique, rows_where}
use ua_web_data_collector_sp.Sql.Laws.{find-update_where, rows_where-All, rows_where-pass}
use ua_web_data_collector_sp.Sql.Select.{find_self, All-both, All-map, among-select}
use ua_web_data_collector_sp.Outbox.Rows.{OutboxEvent, Db, event_key, get_row}
use ua_web_data_collector_sp.Outbox.Publish.{
  deliverable, delivery_order, creation_order, handed_out, due, hand_out, is_empty,
  fetch_unpublished,
}

-- An event of the answer: it was deliverable, free and below the limit of deliveries, and the table
-- holds it as delivered once more and hidden for the visibility timeout.
pub record Delivered (db db' : Db) (topics : List String) (v m now : ℕ) (locked : ℕ → Bool)
    (x : OutboxEvent) : Type 0 where
  pub was : OutboxEvent
  pub there : get_row db x.outbox_id ≡ some was
  pub could : deliverable topics now was ≡ true
  pub free : locked x.outbox_id ≡ false
  pub counted : x.delivery_attempts ≡ was.delivery_attempts + 1
  pub bounded : x.delivery_attempts ≤ m
  pub hidden : x.available_at ≡ now + seconds v
  pub stored : get_row db' x.outbox_id ≡ some x

pub handed_out-id : (v m now : ℕ) (e : OutboxEvent) → (handed_out v m now e).outbox_id ≡ e.outbox_id
unfolding handed_out
handed_out-id v m now e = elim (Bool-cases (leb m e.delivery_attempts)) [
  | inl h ↦ rw (handed_out, h) refl
  | inr h ↦ rw (handed_out, h) refl
]

exhausted-parked :
    (v m now : ℕ) (e : OutboxEvent)
    → leb m e.delivery_attempts ≡ true
    → is_none (handed_out v m now e).parked_at ≡ false
unfolding handed_out
exhausted-parked v m now e h = rw (handed_out, h) refl

Given : (v m now : ℕ) (e x : OutboxEvent) → Type 0
Given v m now e x =
    (x.delivery_attempts ≡ e.delivery_attempts + 1)
    × (x.delivery_attempts ≤ m)
    × (x.available_at ≡ now + seconds v)

handed_out-Given :
    (v m now : ℕ) (e : OutboxEvent)
    → is_none (handed_out v m now e).parked_at ≡ true
    → Given v m now e (handed_out v m now e)
unfolding handed_out Given
handed_out-Given v m now e k = elim (Bool-cases (leb m e.delivery_attempts)) [
  | inl h ↦ absurd (let gone = exhausted-parked v m now e h in cc)
  | inr h ↦ rw (handed_out, h) (refl, ground arith, refl)
]

module _ (db : Db) (topics : List String) (v m limit now : ℕ) (locked : ℕ → Bool)
    (u : Unique event_key db.events) where
  abbrev chosen : List OutboxEvent
  chosen = due db topics limit now locked

  among-due :
      All
        (λ e.
          among event_key chosen e ≡ true
          → (deliverable topics now e ≡ true) × (locked e.outbox_id ≡ false))
        db.events
  unfolding due
  among-due =
      All-map_pred _ _ db.events
        (λ e h a.
          let (p, free) = &&_parts (deliverable topics now e) (not (locked e.outbox_id)) (h a) in
          (p, ground arith))
        (among-select event_key locked delivery_order (deliverable topics now) limit db.events u)

  given_one :
      (e : OutboxEvent)
      → (find event_key e.outbox_id db.events ≡ some e)
        × (among event_key chosen e ≡ true
            → (deliverable topics now e ≡ true) × (locked e.outbox_id ≡ false))
      → among event_key chosen e ≡ true
      → is_none (handed_out v m now e).parked_at ≡ true
      → Delivered db (hand_out db chosen v m now).1 topics v m now locked (handed_out v m now e)
  unfolding hand_out get_row Given
  given_one e (f, could) a k = record {
    was = e;
    there = subst (λ k. find event_key k db.events ≡ some e) (sym (handed_out-id v m now e)) f;
    could = (could a).0;
    free = subst (λ k. locked k ≡ false) (sym (handed_out-id v m now e)) (could a).1;
    counted = (handed_out-Given v m now e k).0;
    bounded = (handed_out-Given v m now e k).1;
    hidden = (handed_out-Given v m now e k).2;
    stored =
        find-update_where event_key (handed_out v m now e).outbox_id (among event_key chosen)
          (handed_out v m now) db.events (λ r _. handed_out-id v m now r)
        ∙ ap (Option.map (λ r. if among event_key chosen r then handed_out v m now r else r))
            (subst (λ k. find event_key k db.events ≡ some e) (sym (handed_out-id v m now e)) f)
        ∙ rw a refl;
  }

  hand_out-Delivered :
      All
        (Delivered db (hand_out db chosen v m now).1 topics v m now locked)
        (hand_out db chosen v m now).0
  unfolding hand_out
  hand_out-Delivered = sort-All creation_order _ _ (
      All-map_pred _ _ _ (λ x h. h.0 h.1)
        (All-both _ _ _
          (rows_where-All _ (λ e. is_none e.parked_at) _
            (All-map
              (λ x.
                is_none x.parked_at ≡ true
                → Delivered db (hand_out db chosen v m now).1 topics v m now locked x)
              (handed_out v m now) (rows_where (among event_key chosen) db.events)
              (All-map_pred _ _ (rows_where (among event_key chosen) db.events)
                (λ e h. given_one e h.0 h.1)
                (All-both _ _ (rows_where (among event_key chosen) db.events)
                  (rows_where-All _ (among event_key chosen) db.events
                    (All-both _ _ db.events (find_self event_key db.events u) among-due))
                  (rows_where-pass (among event_key chosen) db.events)))))
          (rows_where-pass (λ e. is_none e.parked_at) _)))

-- Where the ids of the events are distinct, every event that a fetch delivers waited (neither
-- published nor parked), was available, of an asked topic and not locked by another publisher; it
-- comes back with one delivery more, at most `max_delivery_attempts` in all, and hidden until now +
-- visibility_seconds, and the table holds it so.
pub fetch-Delivered :
    (db db' : Db) (topics : List String) (limit v m t : ℕ) (w : When) (locked : ℕ → Bool)
    (xs : List OutboxEvent)
    → Unique event_key db.events
    → resolve_now w ≡ ok t
    → fetch_unpublished db topics limit v m w locked ≡ ok (xs, db')
    → All (Delivered db db' topics v m t locked) xs
unfolding fetch_unpublished
fetch-Delivered db db' topics limit v m t w locked xs u r h = subst (IfOk Spec) h (
    IfOk-bind Spec (require (leb 1 limit && (leb 1 v && leb 1 m)) value_error) _ λ _ _.
      IfOk-bind Spec (require (if is_empty topics then false else true) value_error) _
        λ _ _. rw r (hand_out-Delivered db topics v m limit t locked u))
  where
    Spec : List OutboxEvent × Db → Type 0
    Spec a = All (Delivered db a.1 topics v m t locked) a.0

-- ===== src/Outbox/Purge.antt =====
-- What the purge may delete.
use ua_web_data_collector_sp.Base.{
  ℕ, ◌==◌, ◌≡◌, refl, sym, subst, Bool, true, false, ◌&&◌, not, Option, none, some, List, [], ◌∷◌,
  arith, leb, str_eq, All, All-map_pred, Bool-cases, inl, inr, &&_parts, ℤ, pos, negsuc,
}
use ua_web_data_collector_sp.Errors.{ok, err, require, IfOk, IfOk-bind, value_error}
use ua_web_data_collector_sp.Clock.{When, resolve_now}
use ua_web_data_collector_sp.Sql.{rows_where, find, among, Unique}
use ua_web_data_collector_sp.Sql.Laws.{find-All}
use ua_web_data_collector_sp.Sql.Select.{among-select}
use ua_web_data_collector_sp.Outbox.Rows.{OutboxEvent, Db, event_key, get_row, internal_topic}
use ua_web_data_collector_sp.Outbox.Operate.{
  Projection, before_cutoff, purgeable, is_behind, purge_batch, PurgeResult, purge_older,
  purge_published,
}

-- A row that a DELETE does not select stays under its key.
find-rows_where :
    {A : Type 0} (key : A → ℕ) (i : ℕ) (p : A → Bool) (rows : List A) (r : A)
    → find key i rows ≡ some r
    → p r ≡ true
    → find key i (rows_where p rows) ≡ some r
unfolding find rows_where
find-rows_where key i p [] r h k = absurd (cc)
find-rows_where key i p (x ∷ rows) r h k = elim (Bool-cases (key x == i)) [
  | inl e ↦ let same : x ≡ r = ground arith in ground (arith, subst (λ z. p z ≡ true) (sym same) k)
  | inr e ↦ ground (arith, find-rows_where key i p rows r)
]

module _ (db : Db) (p : Projection) (older : ℕ) (after : Option ℕ) (limit now : ℕ)
    (locked : ℕ → Bool) (u : Unique event_key db.events) where
  among-purgeable :
      All
        (λ e.
          among event_key (purge_batch db p older after limit now locked) e ≡ true
          → purgeable p older now e ≡ true)
        db.events
  unfolding purge_batch
  among-purgeable =
      All-map_pred _ _ db.events
        (λ e h a.
          (&&_parts (purgeable p older now e) (is_behind after e)
            (&&_parts (purgeable p older now e && is_behind after e) (not (locked e.outbox_id))
              (h a)).0).0)
        (among-select event_key locked (λ a b. leb a.event_id b.event_id)
          (λ e. purgeable p older now e && is_behind after e) limit db.events u)

  unpurgeable-kept :
      (i : ℕ) (e : OutboxEvent)
      → get_row db i ≡ some e
      → purgeable p older now e ≡ false
      → find event_key i (
          rows_where
            (λ x. not (among event_key (purge_batch db p older after limit now locked) x))
            db.events)
        ≡ some e
  unfolding get_row
  unpurgeable-kept i e f np =
      find-rows_where event_key i _ db.events e f
        (elim (Bool-cases (among event_key (purge_batch db p older after limit now locked) e)) [
          | inl a ↦ absurd (let q = find-All event_key _ i db.events e among-purgeable f a in cc)
          | inr a ↦ rw a refl
        ])

pending-unpurgeable :
    (p : Projection) (older now : ℕ) (e : OutboxEvent)
    → e.published_at ≡ none
    → str_eq e.topic internal_topic ≡ false
    → purgeable p older now e ≡ false
unfolding purgeable
pending-unpurgeable p older now e h k = rw (purgeable, before_cutoff, h, k) (ground arith)

module _ (db : Db) (p : Projection) (older_than : ℤ) (after : Option ℕ) (limit : ℕ) (w : When)
    (locked : ℕ → Bool) (u : Unique event_key db.events) where
  -- Where the ids of the events are distinct, an event that is not published is never deleted by a
  -- purge, whatever its age and whether it waits or is parked, unless it is an internal command:
  -- its row is there afterwards, unchanged.
  pub purge-pending_kept :
      (i : ℕ) (e : OutboxEvent) (r : PurgeResult) (db' : Db)
      → get_row db i ≡ some e
      → e.published_at ≡ none
      → str_eq e.topic internal_topic ≡ false
      → purge_published db p older_than after limit w locked ≡ ok (r, db')
      → get_row db' i ≡ some e
  unfolding purge_published purge_older get_row
  purge-pending_kept i e r db' f h k ran =
      subst (IfOk Kept) ran
        (IfOk-bind Kept (require (leb 1 limit) value_error) _ λ _ _. at older_than)
    where
      Kept : PurgeResult × Db → Type 0
      Kept a = find event_key i a.1.events ≡ some e

      at :
          (o : ℤ)
          → IfOk Kept (elim o [
            | negsuc n ↦ err value_error
            | pos older ↦ purge_older db p older after limit w locked
          ])
      at (negsuc n) = tt
      at (pos older) = IfOk-bind Kept (resolve_now w) _ λ now _.
          unpurgeable-kept db p older after limit now locked u i e f
            (pending-unpurgeable p older now e h k)

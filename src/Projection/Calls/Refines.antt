-- ===== src/Projection/Calls/Refines.antt =====
-- The counters of an entity as a machine of their own, which the calls of repositories/projection.py
-- implement.
use ua_web_data_collector_sp.Base.{
  ℕ, ◌+◌, ◌≤◌, max, ◌==◌, ==_iff, ◌≡◌, refl, sym, ◌∙◌, ap, arith, All-map_pred,
}
use ua_web_data_collector_sp.Sql.Pointwise.{Pointwise, Pointwise-refl, update_where-Pointwise}
use ua_web_data_collector_sp.Projection.Rows.{EntityIndex, AppliedProjectionReceipt, Encoding, Db}
use ua_web_data_collector_sp.Projection.Versions.{top, top-up_to}
use ua_web_data_collector_sp.Projection.Record.{with_version}
use ua_web_data_collector_sp.Projection.Acknowledge.{confirmed_at_version}
use ua_web_data_collector_sp.Projection.Calls.{Call, step}
use ua_web_data_collector_sp.Projection.Calls.Counts.{task_versions, Sound, IsCounted}
use ua_web_data_collector_sp.Projection.Calls.Effects.{Effect, stays, moves, issues, confirms}
use ua_web_data_collector_sp.Projection.Calls.Steps.{step-Effect}
use ua_web_data_collector_sp.Projection.Calls.Invariant.{found-Sound}

-- The two counters of an entity: the version last issued, and the greatest confirmed.
pub record Counters : Type 0 where
  pub issued : ℕ
  pub confirmed : ℕ

unfoldable pub counters : EntityIndex → Counters
counters e = record { issued = e.projection_version; confirmed = e.confirmed_projection_version }

-- What the machine may do: nothing, the issue of the next version, or the confirmation of an issued
-- one, which is forgotten where a greater one was confirmed before.
pub data Move (from to : Counters) : Type 0 where
  idles : to ≡ from → Move from to
  issues_next : to ≡ record from { issued = from.issued + 1 } → Move from to
  confirms_issued :
      (v : ℕ)
      → v ≤ from.issued
      → to ≡ record from { confirmed = max from.confirmed v }
      → Move from to

-- The same entity, its counters moved.
abbrev pub Moved : EntityIndex → EntityIndex → Type 0
Moved e e' = (e'.entity_uuid ≡ e.entity_uuid) × Move (counters e) (counters e')

Moved-refl : (e : EntityIndex) → Moved e e
Moved-refl e = (refl, idles refl)

-- The counter of issued versions is what the tasks say.
issued_by_tasks :
    (db : Db) (e : EntityIndex) (u : ℕ)
    → Sound db.tasks db.acknowledgements e
    → e.entity_uuid ≡ u
    → top (task_versions db.tasks u) ≡ e.projection_version
issued_by_tasks db e u s k =
    ap (λ n. top (task_versions db.tasks n)) (sym k)
    ∙ ap top s.issued
    ∙ top-up_to e.projection_version

issued-Moved :
    (v now : ℕ) (x : EntityIndex) → x.projection_version ≡ v → Moved x (with_version (v + 1) now x)
unfolding with_version counters
issued-Moved v now x same = (
  refl,
  issues_next
      (ap (λ n. record { issued = n + 1; confirmed = x.confirmed_projection_version }) (sym same)),
)

confirmed-Moved :
    (r : AppliedProjectionReceipt) (now : ℕ) (x : EntityIndex)
    → r.projection_version ≤ x.projection_version
    → Moved x (confirmed_at_version r now x)
unfolding confirmed_at_version counters
confirmed-Moved r now x below = (refl, confirms_issued r.projection_version below refl)

Effect-Moved :
    (db db' : Db) → Effect db db' → IsCounted db → Pointwise Moved db.entities db'.entities
Effect-Moved db db' (stays es ts acks) h = rw es (Pointwise-refl Moved Moved-refl db.entities)
Effect-Moved db db' (moves p f same es ts acks) h =
    rw es (Pointwise-refl Moved Moved-refl db.entities)
Effect-Moved db db' (issues u e t now found of_entity next es ts acks) h = rw es (
    update_where-Pointwise Moved _ (with_version (e.projection_version + 1) now) db.entities
      Moved-refl
      (All-map_pred (Sound db.tasks db.acknowledgements) _ db.entities
        (λ x s k.
          let same : x.projection_version ≡ e.projection_version =
            sym (issued_by_tasks db x e.entity_uuid s ((==_iff _ _).0 k))
            ∙ issued_by_tasks db e e.entity_uuid (found-Sound db u e h found).0 refl in
          issued-Moved e.projection_version now x same)
        h.sound))
Effect-Moved db db' (confirms a r now p f of_entity version issued same es ts acks) h = rw es (
    update_where-Pointwise Moved (λ (x : EntityIndex). x.entity_uuid == r.entity_uuid)
      (confirmed_at_version r now) db.entities Moved-refl
      (All-map_pred (Sound db.tasks db.acknowledgements) _ db.entities
        (λ x s k.
          let below : r.projection_version ≤ x.projection_version = omega (
            arith,
            issued,
            version,
            issued_by_tasks db x a.entity_uuid s ((==_iff _ _).0 k ∙ sym of_entity),
          ) in
          confirmed-Moved r now x below)
        h.sound))

-- From counters that agree with the tables, a call, whether or not it succeeds, moves the counters of
-- each entity the way the machine may: it keeps them, issues the next version or confirms an issued
-- one, so neither counter ever goes back; and no call removes an entity.
pub step-Moved :
    (enc : Encoding) (db : Db) (c : Call)
    → IsCounted db
    → Pointwise Moved db.entities (step enc db c).entities
step-Moved enc db c h = Effect-Moved db (step enc db c) (step-Effect enc db c) h

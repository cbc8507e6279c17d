-- ===== src/Projection/Calls/Invariant.antt =====
-- The versions that `record_parse_result` issues and `acknowledge_projection` confirms, through any
-- sequence of calls.
use ua_web_data_collector_sp.Base.{
  ℕ, ◌==◌, ==_iff, ◌≤◌, ◌≡◌, ◌∙◌, ap, sym, subst, true, some, List, [], ◌∷◌, ◌++◌, Bool-cases, inl,
  inr, arith, All, All-map_pred,
}
use ua_web_data_collector_sp.Sql.{rows_where, update_where, one_or_none}
use ua_web_data_collector_sp.Sql.Select.{one_or_none-All}
use ua_web_data_collector_sp.Sql.Laws.{rows_where-All, rows_where-pass}
use ua_web_data_collector_sp.Projection.Rows.{ProjectionAcknowledgement, EntityIndex, Encoding, Db}
use ua_web_data_collector_sp.Projection.Versions.{versions_of, up_to, top, top-up_to}
use ua_web_data_collector_sp.Projection.Acknowledge.{confirmed_at_version}
use ua_web_data_collector_sp.Projection.Calls.{Call, step, run}
use ua_web_data_collector_sp.Projection.Calls.Counts.{
  task_versions, acknowledged_versions, Sound, IsCounted, IsIssued, tasks-IsCounted,
  issued-IsCounted, confirmed-IsCounted,
}
use ua_web_data_collector_sp.Projection.Calls.Effects.{Effect, stays, moves, issues, confirms}
use ua_web_data_collector_sp.Projection.Calls.Steps.{step-Effect}

-- The entity that was found, and the counters that go with it.
pub found-Sound :
    (db : Db) (u : ℕ) (e : EntityIndex)
    → IsCounted db
    → one_or_none (rows_where (λ (x : EntityIndex). x.entity_uuid == u) db.entities) ≡ some e
    → Sound db.tasks db.acknowledgements e × (u ≡ e.entity_uuid)
found-Sound db u e h one = (
  one_or_none-All (Sound db.tasks db.acknowledgements) _ e (rows_where-All _ _ db.entities h.sound)
      one,
  sym (
      (==_iff _ _).0 (
        one_or_none-All (λ x. (x.entity_uuid == u) ≡ true) _ e (rows_where-pass _ db.entities)
          one)),
)

pub Effect-IsCounted : (db db' : Db) → Effect db db' → IsCounted db → IsCounted db'
Effect-IsCounted db db' (stays es ts acks) h = rw (es, ts, acks) h
Effect-IsCounted db db' (moves p f same es ts acks) h =
    rw (es, ts, acks) (tasks-IsCounted db p f same h)
Effect-IsCounted db db' (issues u e t now found of_entity next es ts acks) h =
    let (own, at) = found-Sound db u e h found in
    rw (es, ts, acks) (issued-IsCounted db e t now own (of_entity ∙ at) next h)
Effect-IsCounted db db' (confirms a r now p f of_entity version issued same es ts acks) h =
    rw (es, ts, acks)
      (tasks-IsCounted
        (record db {
          acknowledgements = db.acknowledgements ++ a ∷ [];
          entities =
              update_where (λ x. x.entity_uuid == r.entity_uuid) (confirmed_at_version r now)
                db.entities;
        })
        p f same (confirmed-IsCounted db a r now of_entity version issued h))

pub run-IsCounted :
    (enc : Encoding) (db : Db) (cs : List Call) → IsCounted db → IsCounted (run enc db cs)
unfolding run
run-IsCounted enc db [] h = h
run-IsCounted enc db (c ∷ cs) h =
    run-IsCounted enc (step enc db c) cs
      (Effect-IsCounted db (step enc db c) (step-Effect enc db c) h)

-- Of versions that are bounded, so is the greatest of an entity's.
top-bounded :
    (acks : List ProjectionAcknowledgement) (u n : ℕ)
    → All (λ a. (a.entity_uuid == u) ≡ true → a.projection_version ≤ n) acks
    → top (acknowledged_versions acks u) ≤ n
unfolding acknowledged_versions versions_of top
top-bounded [] u n h = omega arith
top-bounded (a ∷ acks) u n h = elim (Bool-cases (a.entity_uuid == u)) [
  | inl e ↦ rw e (omega (arith, h.0 e, top-bounded acks u n h.1))
  | inr e ↦ rw e (top-bounded acks u n h.1)
]

pub confirmed-below :
    (db : Db)
    → IsCounted db
    → (e : EntityIndex) → Sound db.tasks db.acknowledgements e
    → e.confirmed_projection_version ≤ e.projection_version
confirmed-below db h e s = rw (s.confirmed) (
    top-bounded db.acknowledgements e.entity_uuid e.projection_version (
      All-map_pred (IsIssued db.tasks) _ db.acknowledgements
        (λ a below k.
          let at : a.projection_version ≤ top (task_versions db.tasks e.entity_uuid) =
            subst (λ u. a.projection_version ≤ top (task_versions db.tasks u)) ((==_iff _ _).0 k)
              below in
          subst (λ n. a.projection_version ≤ n) (ap top s.issued ∙ top-up_to e.projection_version)
            at)
        h.below))

-- Where the counters of the entities agree with the tasks and the acknowledgements (`IsCounted`), they
-- do so after any sequence of calls; the versions of the tasks of an entity are then 1, 2, … up to its
-- `projection_version`, each once and in this order, whatever calls failed in between.
pub run-issued :
    (enc : Encoding) (db : Db) (cs : List Call)
    → IsCounted db
    → IsCounted (run enc db cs)
      × All
          (λ e. task_versions (run enc db cs).tasks e.entity_uuid ≡ up_to e.projection_version)
          (run enc db cs).entities
run-issued enc db cs h =
    let end = run-IsCounted enc db cs h in
    (end, All-map_pred (Sound _ _) _ (run enc db cs).entities (λ e s. s.issued) end.sound)

-- From counters that agree with the tables, after any sequence of calls, in whatever order the
-- acknowledgements came: the confirmed version of an entity is the greatest that was acknowledged for
-- it, 0 where none was, and is at most the version last issued.
pub run-confirmed :
    (enc : Encoding) (db : Db) (cs : List Call)
    → IsCounted db
    → All
        (λ e.
          (e.confirmed_projection_version
            ≡ top (acknowledged_versions (run enc db cs).acknowledgements e.entity_uuid))
          × (e.confirmed_projection_version ≤ e.projection_version))
        (run enc db cs).entities
run-confirmed enc db cs h =
    let end = run-IsCounted enc db cs h in
    All-map_pred (Sound _ _) _ (run enc db cs).entities
      (λ e s. (s.confirmed, confirmed-below (run enc db cs) end e s)) end.sound

-- ===== src/Projection/Calls/Effects.antt =====
-- What a call of repositories/projection.py may do to the entities, the tasks and the acknowledgements,
-- the other tables left aside: nothing, a change of tasks, the issue of a version or its confirmation.
use ua_web_data_collector_sp.Base.{ℕ, ◌+◌, ◌==◌, ◌≡◌, refl, Bool, some, [], ◌∷◌, ◌++◌}
use ua_web_data_collector_sp.Sql.{rows_where, update_where, one_or_none}
use ua_web_data_collector_sp.Projection.Rows.{
  ProjectionTask, ProjectionAcknowledgement, EntityIndex, AppliedProjectionReceipt, Db,
}
use ua_web_data_collector_sp.Projection.Record.{with_version}
use ua_web_data_collector_sp.Projection.Acknowledge.{confirmed_at_version}
use ua_web_data_collector_sp.Projection.Calls.Counts.{Keeps, IsIssued}

pub data Effect (db db' : Db) : Type 0 where
  stays :
      db'.entities ≡ db.entities
      → db'.tasks ≡ db.tasks
      → db'.acknowledgements ≡ db.acknowledgements
      → Effect db db'
  moves :
      (p : ProjectionTask → Bool) (f : ProjectionTask → ProjectionTask)
      → Keeps f
      → db'.entities ≡ db.entities
      → db'.tasks ≡ update_where p f db.tasks
      → db'.acknowledgements ≡ db.acknowledgements
      → Effect db db'
  issues :
      (u : ℕ) (e : EntityIndex) (t : ProjectionTask) (now : ℕ)
      → one_or_none (rows_where (λ (x : EntityIndex). x.entity_uuid == u) db.entities) ≡ some e
      → t.entity_uuid ≡ u
      → t.projection_version ≡ e.projection_version + 1
      → db'.entities
        ≡ update_where
            (λ x. x.entity_uuid == e.entity_uuid)
            (with_version (e.projection_version + 1) now)
            db.entities
      → db'.tasks ≡ db.tasks ++ t ∷ []
      → db'.acknowledgements ≡ db.acknowledgements
      → Effect db db'
  confirms :
      (a : ProjectionAcknowledgement) (r : AppliedProjectionReceipt) (now : ℕ)
      (p : ProjectionTask → Bool) (f : ProjectionTask → ProjectionTask)
      → a.entity_uuid ≡ r.entity_uuid
      → a.projection_version ≡ r.projection_version
      → IsIssued db.tasks a
      → Keeps f
      → db'.entities
        ≡ update_where
            (λ x. x.entity_uuid == r.entity_uuid)
            (confirmed_at_version r now)
            db.entities
      → db'.tasks ≡ update_where p f db.tasks
      → db'.acknowledgements ≡ db.acknowledgements ++ a ∷ []
      → Effect db db'

pub unchanged : {db : Db} → Effect db db
unchanged = stays refl refl refl

pub retasked :
    {db : Db} (p : ProjectionTask → Bool) (f : ProjectionTask → ProjectionTask)
    → Keeps f
    → Effect db (record db { tasks = update_where p f db.tasks })
retasked p f same = moves p f same refl refl refl

-- ===== src/Projection/Calls/Counts.antt =====
-- The versions of the tasks and of the acknowledgements of each entity, against its two counters: what
-- an issued version, a confirmed one and a change of tasks do to them.
use mathlib.Core.List
use ua_web_data_collector_sp.Base.{
  ℕ, ◌+◌, ◌==◌, ==_iff, ◌≤◌, ◌≡◌, refl, sym, ◌∙◌, subst, Bool, true, false, List, [], ◌∷◌, ◌++◌,
  Bool-cases, inl, inr, arith, All, All-map_pred,
}
use ua_web_data_collector_sp.Sql.{update_where}
use ua_web_data_collector_sp.Projection.Rows.{
  ProjectionTask, ProjectionAcknowledgement, EntityIndex, AppliedProjectionReceipt, Db,
}
use ua_web_data_collector_sp.Projection.Versions.{
  versions_of, versions_of-append, versions_of-update_where, up_to, up_to-next, top, top-append_one,
  update_where-cases,
}
use ua_web_data_collector_sp.Projection.Record.{with_version}
use ua_web_data_collector_sp.Projection.Acknowledge.{confirmed_at_version}

-- The versions of the tasks of an entity, in the order in which they were issued.
unfoldable pub task_versions : List ProjectionTask → ℕ → List ℕ
task_versions tasks u = versions_of (λ t. t.entity_uuid) (λ t. t.projection_version) u tasks

-- The versions of the acknowledgements of an entity.
unfoldable pub acknowledged_versions : List ProjectionAcknowledgement → ℕ → List ℕ
acknowledged_versions acks u = versions_of (λ a. a.entity_uuid) (λ a. a.projection_version) u acks

pub record Sound (tasks : List ProjectionTask) (acks : List ProjectionAcknowledgement)
    (e : EntityIndex) : Type 0 where
  pub issued : task_versions tasks e.entity_uuid ≡ up_to e.projection_version
  pub confirmed : e.confirmed_projection_version ≡ top (acknowledged_versions acks e.entity_uuid)

-- An acknowledged version was issued.
abbrev pub IsIssued : List ProjectionTask → ProjectionAcknowledgement → Type 0
IsIssued tasks a = a.projection_version ≤ top (task_versions tasks a.entity_uuid)

pub record Counts (entities : List EntityIndex) (tasks : List ProjectionTask)
    (acks : List ProjectionAcknowledgement) : Type 0 where
  pub sound : All (Sound tasks acks) entities
  pub below : All (IsIssued tasks) acks

-- Every counter of the database agrees with its tables.
abbrev pub IsCounted : Db → Type 0
IsCounted db = Counts db.entities db.tasks db.acknowledgements

-- A change of tasks that leaves their entities and versions.
abbrev pub Keeps : (ProjectionTask → ProjectionTask) → Type 0
Keeps f =
    (t : ProjectionTask)
    → ((f t).entity_uuid ≡ t.entity_uuid) × ((f t).projection_version ≡ t.projection_version)

task_versions-same :
    (p : ProjectionTask → Bool) (f : ProjectionTask → ProjectionTask) (tasks : List ProjectionTask)
    (u : ℕ)
    → Keeps f
    → task_versions (update_where p f tasks) u ≡ task_versions tasks u
unfolding task_versions
task_versions-same p f tasks u same =
    versions_of-update_where (λ t. t.entity_uuid) (λ t. t.projection_version) u p f tasks same

pub tasks-IsCounted :
    (db : Db) (p : ProjectionTask → Bool) (f : ProjectionTask → ProjectionTask)
    → Keeps f
    → IsCounted db
    → IsCounted (record db { tasks = update_where p f db.tasks })
tasks-IsCounted db p f same h = record {
  sound =
      All-map_pred (Sound db.tasks db.acknowledgements) _ db.entities
        (λ e s. record {
          issued = task_versions-same p f db.tasks e.entity_uuid same ∙ s.issued;
          confirmed = s.confirmed;
        })
        h.sound;
  below =
      All-map_pred (IsIssued db.tasks) _ db.acknowledgements
        (λ a s.
          subst (λ vs. a.projection_version ≤ top vs)
            (sym (task_versions-same p f db.tasks a.entity_uuid same)) s)
        h.below;
}

module _ (tasks : List ProjectionTask) (t : ProjectionTask) where
  task_versions-other :
      (u : ℕ)
      → (t.entity_uuid == u) ≡ false
      → task_versions (tasks ++ t ∷ []) u ≡ task_versions tasks u
  unfolding task_versions
  task_versions-other u e =
      versions_of-append (λ t. t.entity_uuid) (λ t. t.projection_version) u tasks t
      ∙ (rw e (List.append-nil _))

  task_versions-own :
      (u : ℕ)
      → (t.entity_uuid == u) ≡ true
      → task_versions (tasks ++ t ∷ []) u ≡ task_versions tasks u ++ t.projection_version ∷ []
  unfolding task_versions
  task_versions-own u e =
      versions_of-append (λ t. t.entity_uuid) (λ t. t.projection_version) u tasks t ∙ (rw e refl)

  top-grows : (u : ℕ) → top (task_versions tasks u) ≤ top (task_versions (tasks ++ t ∷ []) u)
  top-grows u = elim (Bool-cases (t.entity_uuid == u)) [
    | inl e ↦
        rw (task_versions-own u e, top-append_one (task_versions tasks u) t.projection_version)
          (omega arith)
    | inr e ↦ rw (task_versions-other u e) (omega arith)
  ]

-- The next version of an entity, issued with its task.
pub issued-IsCounted :
    (db : Db) (e : EntityIndex) (t : ProjectionTask) (now : ℕ)
    → Sound db.tasks db.acknowledgements e
    → t.entity_uuid ≡ e.entity_uuid
    → t.projection_version ≡ e.projection_version + 1
    → IsCounted db
    → IsCounted (record db {
      entities =
          update_where
            (λ x. x.entity_uuid == e.entity_uuid)
            (with_version (e.projection_version + 1) now)
            db.entities;
      tasks = db.tasks ++ t ∷ [];
    })
issued-IsCounted db e t now own of_entity next h = record {
  sound = update_where-cases (Sound (db.tasks ++ t ∷ []) db.acknowledgements) _ _ db.entities (
      All-map_pred (Sound db.tasks db.acknowledgements) _ db.entities
        (λ x s. (λ k. counted x s ((==_iff _ _).0 k), λ k. left x s k)) h.sound);
  below =
      All-map_pred (IsIssued db.tasks) _ db.acknowledgements
        (λ a s. omega (arith, s, top-grows db.tasks t a.entity_uuid)) h.below;
}
  where
    counted :
        (x : EntityIndex)
        → Sound db.tasks db.acknowledgements x
        → x.entity_uuid ≡ e.entity_uuid
        → Sound
            (db.tasks ++ t ∷ [])
            db.acknowledgements
            (with_version (e.projection_version + 1) now x)
    counted x s k =
        unfold with_version in
        record {
          issued =
              task_versions-own db.tasks t x.entity_uuid (ground (arith, of_entity, k))
              ∙ (rw (k, own.issued, next) (up_to-next e.projection_version));
          confirmed = s.confirmed;
        }

    left :
        (x : EntityIndex)
        → Sound db.tasks db.acknowledgements x
        → (x.entity_uuid == e.entity_uuid) ≡ false
        → Sound (db.tasks ++ t ∷ []) db.acknowledgements x
    left x s k = record {
      issued = task_versions-other db.tasks t x.entity_uuid (ground (arith, of_entity)) ∙ s.issued;
      confirmed = s.confirmed;
    }

module _ (acks : List ProjectionAcknowledgement) (a : ProjectionAcknowledgement) where
  acknowledged-other :
      (u : ℕ)
      → (a.entity_uuid == u) ≡ false
      → acknowledged_versions (acks ++ a ∷ []) u ≡ acknowledged_versions acks u
  unfolding acknowledged_versions
  acknowledged-other u e =
      versions_of-append (λ a. a.entity_uuid) (λ a. a.projection_version) u acks a
      ∙ (rw e (List.append-nil _))

  acknowledged-own :
      (u : ℕ)
      → (a.entity_uuid == u) ≡ true
      → acknowledged_versions (acks ++ a ∷ []) u
        ≡ acknowledged_versions acks u ++ a.projection_version ∷ []
  unfolding acknowledged_versions
  acknowledged-own u e =
      versions_of-append (λ a. a.entity_uuid) (λ a. a.projection_version) u acks a ∙ (rw e refl)

All-append_one {κ} :
    {A : Type 0} (P : A → Type κ) (xs : List A) (x : A) → All P xs → P x → All P (xs ++ x ∷ [])
All-append_one P [] x h p = (p, tt)
All-append_one P (y ∷ xs) x h p = (h.0, All-append_one P xs x h.1 p)

-- An issued version of an entity, acknowledged and confirmed.
pub confirmed-IsCounted :
    (db : Db) (a : ProjectionAcknowledgement) (r : AppliedProjectionReceipt) (now : ℕ)
    → a.entity_uuid ≡ r.entity_uuid
    → a.projection_version ≡ r.projection_version
    → IsIssued db.tasks a
    → IsCounted db
    → Counts
        (update_where
          (λ x. x.entity_uuid == r.entity_uuid)
          (confirmed_at_version r now)
          db.entities)
        db.tasks
        (db.acknowledgements ++ a ∷ [])
confirmed-IsCounted db a r now of_entity version issued h = record {
  sound = update_where-cases (Sound db.tasks (db.acknowledgements ++ a ∷ [])) _ _ db.entities (
      All-map_pred (Sound db.tasks db.acknowledgements) _ db.entities
        (λ x s. (λ k. raised x s k, λ k. left x s k)) h.sound);
  below = All-append_one (IsIssued db.tasks) db.acknowledgements a h.below issued;
}
  where
    raised :
        (x : EntityIndex)
        → Sound db.tasks db.acknowledgements x
        → (x.entity_uuid == r.entity_uuid) ≡ true
        → Sound db.tasks (db.acknowledgements ++ a ∷ []) (confirmed_at_version r now x)
    raised x s k =
        unfold confirmed_at_version in
        record {
          issued = s.issued;
          confirmed =
              rw
                (
                  acknowledged-own db.acknowledgements a x.entity_uuid
                      (ground (arith, of_entity, k)),
                  top-append_one (acknowledged_versions db.acknowledgements x.entity_uuid)
                      a.projection_version,
                  version,
                  s.confirmed,
                )
                refl;
        }

    left :
        (x : EntityIndex)
        → Sound db.tasks db.acknowledgements x
        → (x.entity_uuid == r.entity_uuid) ≡ false
        → Sound db.tasks (db.acknowledgements ++ a ∷ []) x
    left x s k = record {
      issued = s.issued;
      confirmed =
          rw (acknowledged-other db.acknowledgements a x.entity_uuid (ground (arith, of_entity)))
            s.confirmed;
    }

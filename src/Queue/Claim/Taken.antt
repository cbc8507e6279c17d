-- ===== src/Queue/Claim/Taken.antt =====
-- What a claim returns and what it leaves in the table.
use mathlib.Core.Option
use ua_web_data_collector_sp.Base.{
  ℕ, ◌+◌, ◌≤◌, &&_parts, leb→le, mentions, ◌≡◌, refl, sym, subst, ◌∙◌, ap, Bool, true, false, ◌&&◌,
  String, some, List, [], ◌∷◌, leb, if◌then◌else◌, All, All-map_pred, sort-All,
}
use ua_web_data_collector_sp.Errors.{ok, IfOk, IfOk-bind, require, value_error, data_error}
use ua_web_data_collector_sp.Clock.{When, resolve_now, seconds}
use ua_web_data_collector_sp.Sql.{find, among, Unique, rows_where}
use ua_web_data_collector_sp.Sql.Laws.{find-update_where, rows_where-All, rows_where-pass}
use ua_web_data_collector_sp.Sql.Select.{find_self, All-both, All-map}
use ua_web_data_collector_sp.Queue.Rows.{
  is_claimable, is_leased, Job, Db, job_key, get_job, claim_order,
}
use ua_web_data_collector_sp.Queue.Claim.{claimable, lease, candidates, lease_all, has_room, claim}
use ua_web_data_collector_sp.Queue.Moves.Many.{among-candidates, claimable-status}

-- A job of the answer: it was claimable and free, and the table holds it with its new lease.
pub record Taken (db db' : Db) (job_types : List String) (worker : String) (n now : ℕ)
    (locked : ℕ → Bool) (x : Job) : Type 0 where
  pub was : Job
  pub there : get_job db x.job_id ≡ some was
  pub could : claimable job_types now was ≡ true
  pub free : locked x.job_id ≡ false
  pub waited : is_claimable was.status ≡ true
  pub reached : was.not_before ≤ now
  pub asked : mentions job_types was.job_type ≡ true
  pub held : (is_leased x.status ≡ true) × (x.lease_owner ≡ some worker)
  pub until : x.lease_expires_at ≡ some (now + seconds n)
  pub one_more : x.attempt ≡ was.attempt + 1
  pub now_leased : x ≡ lease worker n now was
  pub stored : get_job db' x.job_id ≡ some x

lease-id : (worker : String) (n now : ℕ) (j : Job) → (lease worker n now j).job_id ≡ j.job_id
unfolding lease
lease-id worker n now j = refl

claimable-parts :
    (job_types : List String) (now : ℕ) (j : Job)
    → claimable job_types now j ≡ true
    → (leb j.not_before now ≡ true) × (mentions job_types j.job_type ≡ true)
unfolding claimable
claimable-parts job_types now j h =
    &&_parts (leb j.not_before now) (mentions job_types j.job_type)
      (&&_parts (is_claimable j.status) (leb j.not_before now && mentions job_types j.job_type) h).1

module _ (db : Db) (job_types : List String) (worker : String) (n limit now : ℕ) (locked : ℕ → Bool)
    (u : Unique job_key db.jobs) where
  abbrev chosen : List Job
  chosen = candidates db job_types limit now locked

  Taken-one :
      (j : Job)
      → (find job_key j.job_id db.jobs ≡ some j)
        × (among job_key chosen j ≡ true
            → (claimable job_types now j ≡ true) × (locked j.job_id ≡ false))
      → among job_key chosen j ≡ true
      → Taken db
          (lease_all db chosen worker n now).1
          job_types
          worker
          n
          now
          locked
          (lease worker n now j)
  unfolding lease_all get_job
  Taken-one j (f, could) a = record {
    was = j;
    there = subst (λ k. find job_key k db.jobs ≡ some j) (sym (lease-id worker n now j)) f;
    could = (could a).0;
    free = subst (λ k. locked k ≡ false) (sym (lease-id worker n now j)) (could a).1;
    waited = claimable-status job_types now j (could a).0;
    reached = leb→le j.not_before now (claimable-parts job_types now j (could a).0).0;
    asked = (claimable-parts job_types now j (could a).0).1;
    held = (unfold lease in refl, unfold lease in refl);
    until = unfold lease in refl;
    one_more = unfold lease in refl;
    now_leased = refl;
    stored =
        find-update_where job_key (lease worker n now j).job_id (among job_key chosen)
          (lease worker n now) db.jobs (λ r _. lease-id worker n now r)
        ∙ ap (Option.map (λ r. if among job_key chosen r then lease worker n now r else r))
            (subst (λ k. find job_key k db.jobs ≡ some j) (sym (lease-id worker n now j)) f)
        ∙ rw a refl;
  }

  lease_all-Taken :
      All
        (Taken db (lease_all db chosen worker n now).1 job_types worker n now locked)
        (lease_all db chosen worker n now).0
  unfolding lease_all
  lease_all-Taken = sort-All claim_order _ _ (
      All-map _ (lease worker n now) (rows_where (among job_key chosen) db.jobs) (
        All-map_pred _ _ (rows_where (among job_key chosen) db.jobs) (λ j h. Taken-one j h.0 h.1)
          (All-both _ _ (rows_where (among job_key chosen) db.jobs)
            (rows_where-All _ (among job_key chosen) db.jobs (
              All-both _ _ db.jobs (find_self job_key db.jobs u)
                (among-candidates db job_types limit now locked u)))
            (rows_where-pass (among job_key chosen) db.jobs))))

-- Where the ids of the jobs are distinct, every job that a claim returns was claimable by the
-- caller at that instant (pending or retry, its `not_before` reached, of an asked type) and not
-- locked by another claimer; it comes back leased to the worker until now + lease_seconds with one
-- attempt more, and the table holds that row.
pub claim-Taken :
    (db db' : Db) (job_types : List String) (worker : String) (n limit t : ℕ) (w : When)
    (locked : ℕ → Bool) (xs : List Job)
    → Unique job_key db.jobs
    → resolve_now w ≡ ok t
    → claim db job_types worker n limit w locked ≡ ok (xs, db')
    → All (Taken db db' job_types worker n t locked) xs
unfolding claim
claim-Taken db db' [] worker n limit t w locked xs u r h =
    subst (IfOk (λ a. All (Taken db a.1 [] worker n t locked) a.0)) h tt
claim-Taken db db' (ty ∷ ts) worker n limit t w locked xs u r h = subst (IfOk Spec) h (
    IfOk-bind Spec (require (leb 1 limit && leb 1 n) value_error) _ λ _ _. rw r (
      IfOk-bind Spec (require (has_room (candidates db (ty ∷ ts) limit t locked)) data_error) _
        λ _ _. lease_all-Taken db (ty ∷ ts) worker n limit t locked u))
  where
    Spec : List Job × Db → Type 0
    Spec a = All (Taken db a.1 (ty ∷ ts) worker n t locked) a.0

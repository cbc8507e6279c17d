-- ===== src/Queue/Roundtrip.antt =====
-- Pairs of calls that undo or repeat one another.
use ua_web_data_collector_sp.Base.{
  ℕ, ◌≡◌, ◌≢◌, refl, sym, subst, ◌∙◌, ap, Bool, true, false, ◌&&◌, String, Option, none, some, List,
  arith, All, All-map_pred, column_is, eq_refl,
}
use ua_web_data_collector_sp.Errors.{ok, or_raise, after}
use ua_web_data_collector_sp.Clock.{Stamp, When, resolve_now}
use ua_web_data_collector_sp.Sql.{Unique, rows_where, update_where, one_or_none}
use ua_web_data_collector_sp.Sql.Laws.{one_or_none-rows_where}
use ua_web_data_collector_sp.Queue.Backoff.{clamp_not_before}
use ua_web_data_collector_sp.Queue.Rows.{
  pending, is_leased, is_claimable, Job, Db, job_key, get_job, owned,
}
use ua_web_data_collector_sp.Queue.Claim.{claim, claimable, lease}
use ua_web_data_collector_sp.Queue.Claim.Taken.{Taken, claim-Taken}
use ua_web_data_collector_sp.Queue.Settle.{update_owned, released, release}
use ua_web_data_collector_sp.Queue.Moves.Many.{claimable-status, claim-Keeps}
use ua_web_data_collector_sp.Queue.Moves.{Moved}
use ua_web_data_collector_sp.Sql.Pointwise.{Pointwise-Unique}

update_owned-found :
    (db : Db) (i : ℕ) (owner : String) (change : Job → Job) (j : Job)
    → Unique job_key db.jobs
    → get_job db i ≡ some j
    → (is_leased j.status && column_is j.lease_owner owner) ≡ true
    → update_owned db i owner change
      ≡ ok (change j, record db { jobs = update_where (owned i owner) change db.jobs })
unfolding update_owned get_job
update_owned-found db i owner change j u f h =
    let selected : one_or_none (rows_where (owned i owner) db.jobs) ≡ some j =
      unfold owned in
      (one_or_none-rows_where job_key i (λ x. is_leased x.status && column_is x.lease_owner owner)
          db.jobs u
        ∙ rw f (rw h refl)) in
    rw (selected, or_raise) refl

lease-status :
    (worker : String) (n t : ℕ) (j : Job) → is_claimable (lease worker n t j).status ≡ false
unfolding lease
lease-status worker n t j = refl

lease-held :
    (worker : String) (n t : ℕ) (j : Job)
    → (is_leased (lease worker n t j).status && column_is (lease worker n t j).lease_owner worker)
      ≡ true
unfolding lease
lease-held worker n t j = eq_refl worker

-- What is left of a job after a claim and a release: its attempts and its last error are as they
-- were, it is pending with the `not_before` of the release, and nothing else of it has changed but
-- the times of the lease and of the update.
abbrev pub IsReleased : (was now_job : Job) → (next t : ℕ) → Type 0
IsReleased was x next t = x ≡ record was {
  status = pending;
  lease_owner = none;
  lease_expires_at = none;
  leased_at = none;
  not_before = next;
  updated_at = t;
}

released-lease :
    (worker : String) (n t next t' : ℕ) (j : Job)
    → released next t' (lease worker n t j) ≡ record j {
      status = pending;
      lease_owner = none;
      lease_expires_at = none;
      leased_at = none;
      not_before = next;
      updated_at = t';
    }
unfolding released lease
released-lease worker n t next t' j = ground arith

claim-Unique :
    (db db' : Db) (job_types : List String) (worker : String) (n limit : ℕ) (w : When)
    (locked : ℕ → Bool) (xs : List Job)
    → Unique job_key db.jobs
    → claim db job_types worker n limit w locked ≡ ok (xs, db')
    → Unique job_key db'.jobs
claim-Unique db db' job_types worker n limit w locked xs u h =
    subst (λ r. Unique job_key (after db r).jobs) h
      (Pointwise-Unique Moved job_key (λ x y m. m.same_id) db.jobs _
        (claim-Keeps db job_types worker n limit w locked u).moves u)

-- A claim that is released burns no attempt: where the ids of the jobs are distinct, for every job
-- that a claim returned, the release by the same worker in the state that the claim left succeeds,
-- and the job is as it was before the claim, but pending from the given `not_before`, with no lease
-- and the time of the update; no dead letter is written.
pub claim-release :
    (db db' : Db) (job_types : List String) (worker : String) (n limit t t' next : ℕ) (w w' : When)
    (locked : ℕ → Bool) (xs : List Job) (not_before : Option Stamp)
    → Unique job_key db.jobs
    → resolve_now w ≡ ok t
    → resolve_now w' ≡ ok t'
    → clamp_not_before not_before t' ≡ ok next
    → claim db job_types worker n limit w locked ≡ ok (xs, db')
    → All
        (λ x.
          (was : Job) × (y : Job) × (db'' : Db) × (get_job db x.job_id ≡ some was)
          × (release db' x.job_id worker not_before w' ≡ ok (y, db''))
          × IsReleased was y next t'
          × (db''.dead_letters ≡ db'.dead_letters))
        xs
unfolding release
claim-release db db' job_types worker n limit t t' next w w' locked xs not_before u r r' c h =
    let u' : Unique job_key db'.jobs =
      claim-Unique db db' job_types worker n limit w locked xs u h in
    All-map_pred (Taken db db' job_types worker n t locked) _ xs
      (λ x k. (
        k.was,
        released next t' x,
        record db' { jobs = update_where (owned x.job_id worker) (released next t') db'.jobs },
        k.there,
        rw r' (
            rw c (
              update_owned-found db' x.job_id worker (released next t') x u' k.stored (
                subst (λ j. (is_leased j.status && column_is j.lease_owner worker) ≡ true)
                  (sym k.now_leased) (lease-held worker n t k.was)))),
        ap (released next t') k.now_leased ∙ released-lease worker n t next t' k.was,
        refl,
      ))
      (claim-Taken db db' job_types worker n limit t w locked xs u r h)

-- Where the ids of the jobs are distinct, two successful claims, one right after the other, never
-- give out the same job: neither to another worker nor to the same one again, whatever their times,
-- types and limits.
pub claim-disjoint :
    (db db' db'' : Db) (ts ts' : List String) (worker worker' : String) (n n' limit limit' t t' : ℕ)
    (w w' : When) (locked locked' : ℕ → Bool) (xs ys : List Job)
    → Unique job_key db.jobs
    → resolve_now w ≡ ok t
    → resolve_now w' ≡ ok t'
    → claim db ts worker n limit w locked ≡ ok (xs, db')
    → claim db' ts' worker' n' limit' w' locked' ≡ ok (ys, db'')
    → All (λ x. All (λ y. x.job_id ≢ y.job_id) ys) xs
claim-disjoint db db' db'' ts ts' worker worker' n n' limit limit' t t' w w' locked locked' xs ys u
      r r' h h' =
    All-map_pred (Taken db db' ts worker n t locked) _ xs
      (λ x k.
        All-map_pred (Taken db' db'' ts' worker' n' t' locked') _ ys
          (λ y k' e.
            not_both x.job_id k.was k'.was worker n t ts' t' k.now_leased
              (sym k.stored ∙ ap (get_job db') e ∙ k'.there) k'.could)
          (claim-Taken db' db'' ts' worker' n' limit' t' w' locked' ys
            (claim-Unique db db' ts worker n limit w locked xs u h) r' h'))
      (claim-Taken db db' ts worker n limit t w locked xs u r h)
  where
    not_both :
        (i : ℕ) {x : Job} (was was' : Job) (worker : String) (n t : ℕ) (ts' : List String) (t' : ℕ)
        → x ≡ lease worker n t was
        → some x ≡ some was'
        → claimable ts' t' was' ≡ true
        → ⊥
    not_both i was was' worker n t ts' t' e s c =
        let status : is_claimable was'.status ≡ true = claimable-status ts' t' was' c in
        cc (status, ap (λ (j : Job). is_claimable j.status) e, s, lease-status worker n t was)

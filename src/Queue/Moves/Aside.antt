-- ===== src/Queue/Moves/Aside.antt =====
-- Putting a job aside, and the operations that may do so, keep the life of every row.
use ua_web_data_collector_sp.Base.{
  ℕ, ◌==◌, ◌≡◌, refl, subst, sym, String, Bool, true, false, ◌&&◌, &&_parts, Option, none, some,
  arith, leb, if◌then◌else◌, All, All-map_pred, length-append, Bool-cases, inl, inr, ◌⊎◌, column_is,
  ==_iff, ==_refl, ◌∙◌,
}
use ua_web_data_collector_sp.Errors.{ok, ◌>>=◌, or_raise-eq-ok, after, after-bind, lease_not_owned}
use ua_web_data_collector_sp.Clock.{Stamp, When, resolve_now}
use ua_web_data_collector_sp.Sql.{rows_where, one_or_none, find, Unique}
use ua_web_data_collector_sp.Sql.Laws.{keep, one_or_none-rows_where, count-update_one, find-key}
use ua_web_data_collector_sp.Sql.Pointwise.{update_where-Pointwise}
use ua_web_data_collector_sp.Sql.Select.{only_row}
use ua_web_data_collector_sp.Queue.Backoff.{BackoffPolicy, Rng, next_attempt_at}
use ua_web_data_collector_sp.Queue.Rows.{
  is_leased, is_quarantined, is_terminal, Status, Message, Job, Reason, Db, job_key, owned,
  lock_owned, lock_any, quarantine_requested, save, put_aside, quarantine_locked,
  max_attempts_reached, get_job,
}
use ua_web_data_collector_sp.Queue.Settle.{postponed, retry}
use ua_web_data_collector_sp.Audit.{require_audit_context}
use ua_web_data_collector_sp.Queue.Quarantine.{
  audit_quarantine, quarantine_by_owner, quarantine_by_operator, quarantine,
}
use ua_web_data_collector_sp.Queue.Moves.Settle.{leased-not_terminal, leased-not_quarantined}
use ua_web_data_collector_sp.Queue.Moves.{Moved, Moved-refl, Keeps, Keeps-refl, update-Keeps}
use ua_web_data_collector_sp.Queue.Moves.Rows.{postponed-Moved, put_aside-Moved}

not_terminal-not_quarantined : (s : Status) → is_terminal s ≡ false → is_quarantined s ≡ false
not_terminal-not_quarantined s h = ground arith

keep-some :
    {A : Type 0} (p : A → Bool) (o : Option A) (a : A)
    → keep p o ≡ some a
    → (o ≡ some a) × (p a ≡ true)
keep-some p none a h = absurd (cc)
keep-some p (some x) a h = elim (Bool-cases (p x)) [
  | inl e ↦ ground arith
  | inr e ↦ absurd (ground arith)
]

-- What `_lock_owned` finds is the row under the key, held by the owner.
pub lock_owned-find :
    (db : Db) (i : ℕ) (owner : String) (job : Job)
    → Unique job_key db.jobs
    → lock_owned db i owner ≡ ok job
    → (get_job db i ≡ some job)
      × (is_leased job.status ≡ true)
      × (column_is job.lease_owner owner ≡ true)
unfolding lock_owned get_job
lock_owned-find db i owner job u h =
    let q : Job → Bool = λ j. is_leased j.status && column_is j.lease_owner owner in
    let selected =
      or_raise-eq-ok (one_or_none (rows_where (owned i owner) db.jobs)) lease_not_owned h in
    let found =
      keep-some q (find job_key i db.jobs) job
        (sym (one_or_none-rows_where job_key i q db.jobs u) ∙ selected) in
    let parts = &&_parts (is_leased job.status) _ found.1 in (found.0, parts.0, parts.1)

-- The rows under the key of a row that was found are that row.
at_key :
    (P : Job → Type 0) (db : Db) (i k : ℕ) (job : Job)
    → Unique job_key db.jobs
    → get_job db i ≡ some job
    → k ≡ i
    → P job
    → All (λ j. (j.job_id == k) ≡ true → P j) db.jobs
unfolding get_job
at_key P db i k job u found e h =
    All-map_pred (λ j. (j.job_id == i) ≡ true → j ≡ job) _ db.jobs
      (λ j only m. subst P (sym (only (subst (λ n. (j.job_id == n) ≡ true) e m))) h)
      (only_row job_key i db.jobs job u found)

found-id : (db : Db) (i : ℕ) (job : Job) → get_job db i ≡ some job → job.job_id ≡ i
unfolding get_job
found-id db i job found = find-key job_key i db.jobs job found

save-Keeps :
    (db : Db) (i : ℕ) (job job' : Job)
    → Unique job_key db.jobs
    → get_job db i ≡ some job
    → Moved job job'
    → is_quarantined job'.status ≡ is_quarantined job.status
    → Keeps db (save job' db)
unfolding save
save-Keeps db i job job' u found moved same =
    let id' : job'.job_id ≡ i = moved.same_id ∙ found-id db i job found in
    update-Keeps db (λ j. j.job_id == job'.job_id) (λ _. job')
      (at_key (λ j. Moved j job') db i job'.job_id job u found id' moved)
      (at_key (λ j. is_quarantined job'.status ≡ is_quarantined j.status) db i job'.job_id job u
        found id' same)

-- A job aside, with its dead letter.
pub quarantine_locked-Keeps :
    (db : Db) (i : ℕ) (job : Job) (reason : Reason) (code : String) (message : Option Message)
    (now letter_id : ℕ)
    → Unique job_key db.jobs
    → get_job db i ≡ some job
    → is_terminal job.status ≡ false
    → Keeps db (quarantine_locked db job reason code message now letter_id).1
unfolding quarantine_locked get_job
quarantine_locked-Keeps db i job reason code message now letter_id u found live = record {
  moves = update_where-Pointwise Moved _ _ db.jobs Moved-refl (
      at_key (λ j. Moved j (put_aside code message now job)) db i _ job u found
        (found-id db i job found) (put_aside-Moved code message now job live));
  balanced = omega (
    arith,
    length-append db.dead_letters,
    count-update_one job_key i (λ j. is_quarantined j.status) (λ j. j.job_id == job.job_id)
        (λ _. put_aside code message now job) db.jobs job u
        (λ x e. (==_iff _ _).0 e ∙ found-id db i job found) found (==_refl job.job_id)
        (not_terminal-not_quarantined job.status live) refl,
  );
}

pub retry-Keeps :
    (db : Db) (i : ℕ) (owner code : String) (message : Option Message)
    (policy : Option BackoffPolicy) (rng : Rng) (not_before : Option Stamp) (w : When)
    (letter_id : ℕ)
    → Unique job_key db.jobs
    → Keeps db (after db (retry db i owner code message policy rng not_before w letter_id))
unfolding retry
retry-Keeps db i owner code message policy rng not_before w letter_id u =
    after-bind (Keeps db) db (resolve_now w) _ (Keeps-refl db) λ t _.
      after-bind (Keeps db) db (lock_owned db i owner) _ (Keeps-refl db) λ job locked.
        let (found, live, _) = lock_owned-find db i owner job u locked in
        go t job found live (Bool-cases (leb job.max_attempts job.attempt))
  where
    go :
        (t : ℕ) (job : Job)
        → get_job db i ≡ some job
        → is_leased job.status ≡ true
        → (leb job.max_attempts job.attempt ≡ true) ⊎ (leb job.max_attempts job.attempt ≡ false)
        → Keeps db (
            after db (
              if leb job.max_attempts job.attempt
              then ok (quarantine_locked db job max_attempts_reached code message t letter_id)
              else (do
                next ← next_attempt_at t job.attempt policy rng not_before
                let job' = postponed code message next t job
                ok (job', save job' db))))
    go t job found live (inl e) = rw e (
        quarantine_locked-Keeps db i job max_attempts_reached code message t letter_id u found
          (leased-not_terminal job.status live))
    go t job found live (inr e) = rw e (
        after-bind (Keeps db) db (next_attempt_at t job.attempt policy rng not_before) _
          (Keeps-refl db)
          λ next _.
            save-Keeps db i job (postponed code message next t job) u found
              (postponed-Moved code message next t job live)
              (unfold postponed in sym (leased-not_quarantined job.status live)))

by_owner-Keeps :
    (db : Db) (i : ℕ) (owner code : String) (message : Option Message) (t letter_id : ℕ)
    → Unique job_key db.jobs
    → Keeps db (after db (quarantine_by_owner db i owner code message t letter_id))
unfolding quarantine_by_owner
by_owner-Keeps db i owner code message t letter_id u =
    after-bind (Keeps db) db (lock_owned db i owner) _ (Keeps-refl db) λ job locked.
      let (found, live, _) = lock_owned-find db i owner job u locked in
      quarantine_locked-Keeps db i job quarantine_requested code message t letter_id u found
        (leased-not_terminal job.status live)

lock_any-find :
    (db : Db) (i : ℕ) (job : Job)
    → lock_any db i ≡ ok job
    → (get_job db i ≡ some job) × (is_terminal job.status ≡ false)
unfolding lock_any
lock_any-find db i job h = ground arith

-- An audit record changes neither the jobs nor the dead letters.
audited-Keeps :
    (db db' : Db) (before job : Job) (actor reason : Option String) (code : String)
    (request : Option String) (now audit_id : ℕ)
    → Keeps db db'
    → Keeps db (audit_quarantine before job actor reason code request now audit_id db')
unfolding audit_quarantine
audited-Keeps db db' before job none reason code request now audit_id k = k
audited-Keeps db db' before job (some actor) reason code request now audit_id k = record {
  moves = k.moves;
  balanced = k.balanced;
}

by_operator-Keeps :
    (db : Db) (i : ℕ) (code : String) (message : Option Message)
    (actor reason request : Option String) (t letter_id audit_id : ℕ)
    → Unique job_key db.jobs
    → Keeps db (
        after db
          (quarantine_by_operator db i code message actor reason request t letter_id audit_id))
unfolding quarantine_by_operator
by_operator-Keeps db i code message actor reason request t letter_id audit_id u =
    after-bind (Keeps db) db (require_audit_context actor reason) _ (Keeps-refl db) λ _ _.
      after-bind (Keeps db) db (lock_any db i) _ (Keeps-refl db) λ job locked.
        let (found, live) = lock_any-find db i job locked in
        audited-Keeps db _ job
          (quarantine_locked db job quarantine_requested code message t letter_id).0 actor reason
          code request t audit_id
          (quarantine_locked-Keeps db i job quarantine_requested code message t letter_id u found
            live)

pub quarantine-Keeps :
    (db : Db) (i : ℕ) (owner : Option String) (code : String) (message : Option Message)
    (actor reason request : Option String) (w : When) (letter_id audit_id : ℕ)
    → Unique job_key db.jobs
    → Keeps db
        (after db (quarantine db i owner code message actor reason request w letter_id audit_id))
unfolding quarantine
quarantine-Keeps db i (some owner) code message actor reason request w letter_id audit_id u =
    after-bind (Keeps db) db (resolve_now w) _ (Keeps-refl db)
      λ t _. by_owner-Keeps db i owner code message t letter_id u
quarantine-Keeps db i none code message actor reason request w letter_id audit_id u =
    after-bind (Keeps db) db (resolve_now w) _ (Keeps-refl db)
      λ t _. by_operator-Keeps db i code message actor reason request t letter_id audit_id u

-- ===== src/Queue/Moves/Settle.antt =====
-- What the owner of a lease does with its job keeps the life of every row.
use ua_web_data_collector_sp.Base.{
  ℕ, ◌+◌, ◌==◌, ◌≡◌, refl, subst, sym, String, true, false, &&_parts, Option, List, [], ◌∷◌, arith,
  All, ◌∙◌,
}
use ua_web_data_collector_sp.Errors.{or_raise, after, after-bind, after-answer, lease_not_owned}
use ua_web_data_collector_sp.Clock.{Stamp, When, resolve_now, seconds}
use ua_web_data_collector_sp.Sql.{rows_where, one_or_none}
use ua_web_data_collector_sp.Queue.Backoff.{clamp_not_before}
use ua_web_data_collector_sp.Queue.Rows.{
  is_leased, is_quarantined, is_terminal, Status, Job, Db, owned,
}
use ua_web_data_collector_sp.Queue.Settle.{
  update_owned, extended, finished, released, heartbeat, complete, release,
}
use ua_web_data_collector_sp.Queue.Moves.{Moved, Keeps, Keeps-refl, update-Keeps}
use ua_web_data_collector_sp.Queue.Moves.Rows.{extended-Moved, finished-Moved, released-Moved}

pub leased-not_terminal : (s : Status) → is_leased s ≡ true → is_terminal s ≡ false
leased-not_terminal s h = ground arith

pub leased-not_quarantined : (s : Status) → is_leased s ≡ true → is_quarantined s ≡ false
leased-not_quarantined s h = ground arith

owned-leased :
    (i : ℕ) (owner : String) (j : Job) → owned i owner j ≡ true → is_leased j.status ≡ true
unfolding owned
owned-leased i owner j h = (&&_parts (is_leased j.status) _ (&&_parts (j.job_id == i) _ h).1).0

All-of {κ} : {A : Type 0} (P : A → Type κ) (xs : List A) → ((x : A) → P x) → All P xs
All-of P [] h = tt
All-of P (x ∷ xs) h = (h x, All-of P xs h)

-- One UPDATE by the owner of the lease.
update_owned-Keeps :
    (db : Db) (i : ℕ) (owner : String) (change : Job → Job)
    → ((j : Job) → is_leased j.status ≡ true → Moved j (change j))
    → ((j : Job) → is_leased j.status ≡ true → is_quarantined (change j).status ≡ false)
    → Keeps db (after db (update_owned db i owner change))
unfolding update_owned
update_owned-Keeps db i owner change moved live =
    after-bind (Keeps db) db
      (or_raise (one_or_none (rows_where (owned i owner) db.jobs)) lease_not_owned) _
      (Keeps-refl db)
      λ job _.
        update-Keeps db (owned i owner) change
          (All-of _ db.jobs (λ j h. moved j (owned-leased i owner j h)))
          (All-of _ db.jobs (λ j h.
            live j (owned-leased i owner j h)
            ∙ sym (leased-not_quarantined j.status (owned-leased i owner j h))))

pub heartbeat-Keeps :
    (db : Db) (i : ℕ) (owner : String) (n : ℕ) (w : When)
    → Keeps db (after db (heartbeat db i owner n w))
unfolding heartbeat
heartbeat-Keeps db i owner n w = after-bind (Keeps db) db (resolve_now w) _ (Keeps-refl db) λ t _.
    subst (Keeps db) (sym (after-answer db (update_owned db i owner (extended _ t)) _)) (
      update_owned-Keeps db i owner (extended (t + seconds n) t) (extended-Moved (t + seconds n) t)
        (λ j h. leased-not_quarantined j.status h))

pub complete-Keeps :
    (db : Db) (i : ℕ) (owner : String) (w : When) → Keeps db (after db (complete db i owner w))
unfolding complete finished
complete-Keeps db i owner w =
    after-bind (Keeps db) db (resolve_now w) _ (Keeps-refl db)
      λ t _. update_owned-Keeps db i owner (finished t) (finished-Moved t) (λ j h. refl)

pub release-Keeps :
    (db : Db) (i : ℕ) (owner : String) (not_before : Option Stamp) (w : When)
    → Keeps db (after db (release db i owner not_before w))
unfolding release released
release-Keeps db i owner not_before w =
    after-bind (Keeps db) db (resolve_now w) _ (Keeps-refl db) λ t _.
      after-bind (Keeps db) db (clamp_not_before not_before t) _ (Keeps-refl db) λ next _.
        update_owned-Keeps db i owner (released next t) (released-Moved next t) (λ j h. refl)

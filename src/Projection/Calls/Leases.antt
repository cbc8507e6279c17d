-- ===== src/Projection/Calls/Leases.antt =====
-- The operations on leases leave the versions of the tasks.
use ua_web_data_collector_sp.Projection.Calls.Effects.{Effect, unchanged, retasked}
use ua_web_data_collector_sp.Base.{
  ℕ, ◌+◌, refl, String, Bool, ◌&&◌, Option, List, leb, Bool-cases, inl, inr,
}
use ua_web_data_collector_sp.Errors.{after, after-bind, require, or_raise, value_error, not_found}
use ua_web_data_collector_sp.Clock.{Stamp, When, resolve_now, seconds}
use ua_web_data_collector_sp.Queue.Backoff.{BackoffPolicy, Rng, next_attempt_at, clamp_not_before}
use ua_web_data_collector_sp.Queue.Rows.{Message, is_terminal}
use ua_web_data_collector_sp.Projection.Rows.{ProjectionTask, Db, get_projection_task}
use ua_web_data_collector_sp.Projection.Tasks.{
  claimed, prolonged_task, quarantined_task, postponed_task, released_task, recovered_task,
  change_task, lock_owned_task, claim_projection_tasks, heartbeat_projection_task,
  retry_projection_task, release_projection_task, quarantine_projection_task,
  recover_expired_projection_leases,
}
use ua_web_data_collector_sp.Projection.Calls.Counts.{Keeps}

pub claim-Effect :
    (db : Db) (worker : String) (n : ℕ) (targets : List String) (limit : ℕ) (w : When)
    (locked : ℕ → Bool)
    → Effect db (after db (claim_projection_tasks db worker n targets limit w locked))
unfolding claim_projection_tasks claimed
claim-Effect db worker n targets limit w locked =
    after-bind (Effect db) db (require (leb 1 limit && leb 1 n) value_error) _ unchanged λ _ _.
      after-bind (Effect db) db (resolve_now w) _ unchanged
        λ now _. retasked _ (claimed worker n now) (λ t. (refl, refl))

pub heartbeat-Effect :
    (db : Db) (i : ℕ) (owner : String) (n : ℕ) (w : When)
    → Effect db (after db (heartbeat_projection_task db i owner n w))
unfolding heartbeat_projection_task prolonged_task
heartbeat-Effect db i owner n w = after-bind (Effect db) db (resolve_now w) _ unchanged λ now _.
    after-bind (Effect db) db (lock_owned_task db i owner) _ unchanged
      λ t _. retasked _ (prolonged_task (now + seconds n) now) (λ t. (refl, refl))

change-Effect :
    (db : Db) (t : ProjectionTask) (f : ProjectionTask → ProjectionTask)
    → Keeps f
    → Effect db (change_task db t f).1
unfolding change_task
change-Effect db t f same = retasked _ f same

pub retry-Effect :
    (db : Db) (i : ℕ) (owner code : String) (message : Option Message)
    (policy : Option BackoffPolicy) (rng : Rng) (not_before : Option Stamp) (w : When)
    → Effect db (after db (retry_projection_task db i owner code message policy rng not_before w))
unfolding retry_projection_task quarantined_task postponed_task
retry-Effect db i owner code message policy rng not_before w =
    after-bind (Effect db) db (resolve_now w) _ unchanged λ now _.
      after-bind (Effect db) db (lock_owned_task db i owner) _ unchanged λ t _.
        elim (Bool-cases (leb t.max_attempts t.attempt)) [
          | inl e ↦
              rw e (change-Effect db t (quarantined_task code message now) (λ t. (refl, refl)))
          | inr e ↦ rw e (
              after-bind (Effect db) db (next_attempt_at now t.attempt policy rng not_before) _
                unchanged
                λ next _.
                  change-Effect db t (postponed_task code message next now) (λ t. (refl, refl)))
        ]

pub release-Effect :
    (db : Db) (i : ℕ) (owner : String) (not_before : Option Stamp) (w : When)
    → Effect db (after db (release_projection_task db i owner not_before w))
unfolding release_projection_task released_task
release-Effect db i owner not_before w =
    after-bind (Effect db) db (resolve_now w) _ unchanged λ now _.
      after-bind (Effect db) db (clamp_not_before not_before now) _ unchanged λ next _.
        after-bind (Effect db) db (lock_owned_task db i owner) _ unchanged
          λ t _. retasked _ (released_task next now) (λ t. (refl, refl))

pub quarantine-Effect :
    (db : Db) (i : ℕ) (code : String) (message : Option Message) (w : When)
    → Effect db (after db (quarantine_projection_task db i code message w))
unfolding quarantine_projection_task quarantined_task
quarantine-Effect db i code message w =
    after-bind (Effect db) db (resolve_now w) _ unchanged λ now _.
      after-bind (Effect db) db (or_raise (get_projection_task db i) not_found) _ unchanged λ t _.
        elim (Bool-cases (is_terminal t.status)) [
          | inl e ↦ rw e unchanged
          | inr e ↦
              rw e (change-Effect db t (quarantined_task code message now) (λ t. (refl, refl)))
        ]

pub recover-Effect :
    (db : Db) (limit : ℕ) (w : When) (locked : ℕ → Bool)
    → Effect db (after db (recover_expired_projection_leases db limit w locked))
unfolding recover_expired_projection_leases recovered_task
recover-Effect db limit w locked =
    after-bind (Effect db) db (resolve_now w) _ unchanged
      λ now _. retasked _ (recovered_task now) (λ t. (refl, refl))

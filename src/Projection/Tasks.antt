-- ===== src/Projection/Tasks.antt =====
-- The leases on projection tasks in repositories/projection.py: `claim_projection_tasks`,
-- `heartbeat_projection_task`, `retry_projection_task`, `release_projection_task`,
-- `quarantine_projection_task` and `recover_expired_projection_leases`. `locked` holds the rows that
-- other transactions have locked.
use ua_web_data_collector_sp.Base.{
  ℕ, ◌+◌, ◌-◌, ◌==◌, String, Bool, true, false, ◌&&◌, none, some, Option, List, [], ◌∷◌, map, leb,
  ltb, column_le, column_is, or_default, sort, ltb_ℤ, mentions, if◌then◌else◌,
}
use ua_web_data_collector_sp.Errors.{
  Result, ok, err, ◌>>=◌, ◌>>◌, require, or_raise, value_error, not_found, lease_not_owned,
}
use ua_web_data_collector_sp.Clock.{Stamp, When, resolve_now, seconds}
use ua_web_data_collector_sp.Sql.{rows_where, update_where, one_or_none, select_for_update, among}
use ua_web_data_collector_sp.Queue.Backoff.{BackoffPolicy, Rng, clamp_not_before, next_attempt_at}
use ua_web_data_collector_sp.Queue.Rows.{
  pending, leased, retrying, quarantined, is_claimable, is_leased, is_terminal, Message, truncated,
}
use ua_web_data_collector_sp.Projection.Rows.{ProjectionTask, Db, task_key, get_projection_task}

-- `if target_collections`: none or an empty list restricts nothing.
unfoldable pub is_targeted : List String → String → Bool
is_targeted [] c = true
is_targeted (t ∷ ts) c = mentions (t ∷ ts) c

unfoldable pub is_claimable_task : List String → (now : ℕ) → ProjectionTask → Bool
unfolding is_targeted
is_claimable_task targets now t =
    is_claimable t.status && (leb t.not_before now && is_targeted targets t.target_collection)

-- ORDER BY priority DESC, not_before, task_id
unfoldable pub task_order : ProjectionTask → ProjectionTask → Bool
task_order a b =
    if ltb_ℤ b.priority a.priority
    then true
    else if ltb_ℤ a.priority b.priority
    then false
    else if ltb a.not_before b.not_before
    then true
    else if ltb b.not_before a.not_before
    then false
    else leb a.task_id b.task_id

unfoldable pub claimed : String → (lease_seconds now : ℕ) → ProjectionTask → ProjectionTask
claimed worker lease_seconds now t = record t {
  status = leased;
  lease_owner = some worker;
  lease_expires_at = some (now + seconds lease_seconds);
  leased_at = some now;
  attempt = t.attempt + 1;
  updated_at = now;
}

unfoldable pub task_candidates :
    Db → List String → (limit now : ℕ) → (ℕ → Bool) → List ProjectionTask
unfolding is_claimable_task task_order
task_candidates db targets limit now locked =
    select_for_update task_key locked task_order (is_claimable_task targets now) limit db.tasks

unfoldable pub claim_projection_tasks :
    Db
    → (worker : String) → (lease_seconds : ℕ) → (target_collections : List String) → (limit : ℕ)
    → When
    → (locked : ℕ → Bool) → Result (List ProjectionTask × Db)
unfolding task_candidates claimed
claim_projection_tasks db worker lease_seconds targets limit w locked = do
  require (leb 1 limit && leb 1 lease_seconds) value_error
  current ← resolve_now w
  let chosen = task_candidates db targets limit current locked
  ok (
    sort task_order
        (map (claimed worker lease_seconds current) (rows_where (among task_key chosen) db.tasks)),
    record db {
      tasks = update_where (among task_key chosen) (claimed worker lease_seconds current) db.tasks;
    },
  )

-- `_owned`
unfoldable pub is_owned : ℕ → String → ProjectionTask → Bool
is_owned i owner t = t.task_id == i && (is_leased t.status && column_is t.lease_owner owner)

-- `_lock_owned`
unfoldable pub lock_owned_task : Db → ℕ → String → Result ProjectionTask
unfolding is_owned
lock_owned_task db i owner =
    or_raise (one_or_none (rows_where (is_owned i owner) db.tasks)) lease_not_owned

unfoldable pub prolonged_task : (expires now : ℕ) → ProjectionTask → ProjectionTask
prolonged_task expires now t = record t { lease_expires_at = some expires; updated_at = now }

unfoldable pub heartbeat_projection_task :
    Db → (task_id : ℕ) → (owner : String) → (lease_seconds : ℕ) → When → Result (ℕ × Db)
unfolding lock_owned_task is_owned prolonged_task
heartbeat_projection_task db i owner lease_seconds w = do
  current ← resolve_now w
  let expires = current + seconds lease_seconds
  updated ← lock_owned_task db i owner
  ok (
    expires,
    record db { tasks = update_where (is_owned i owner) (prolonged_task expires current) db.tasks },
  )

unfoldable pub quarantined_task :
    (error_code : String) → Option Message → (now : ℕ) → ProjectionTask → ProjectionTask
unfolding truncated
quarantined_task error_code error_message now t = record t {
  status = quarantined;
  lease_owner = none;
  lease_expires_at = none;
  finished_at = some now;
  last_error_code = some error_code;
  last_error_message = truncated error_message;
  updated_at = now;
}

unfoldable pub postponed_task :
    (error_code : String) → Option Message → (next now : ℕ) → ProjectionTask → ProjectionTask
unfolding truncated
postponed_task error_code error_message next now t = record t {
  status = retrying;
  lease_owner = none;
  lease_expires_at = none;
  not_before = next;
  last_error_code = some error_code;
  last_error_message = truncated error_message;
  updated_at = now;
}

-- The flush of the changed attributes of one loaded task.
unfoldable pub change_task :
    Db → ProjectionTask → (ProjectionTask → ProjectionTask) → ProjectionTask × Db
change_task db t change =
    (change t, record db { tasks = update_where (λ x. x.task_id == t.task_id) change db.tasks })

unfoldable pub retry_projection_task :
    Db
    → (task_id : ℕ) → (owner error_code : String) → Option Message
    → Option BackoffPolicy
    → Rng
    → (not_before : Option Stamp) → When
    → Result (ProjectionTask × Db)
unfolding lock_owned_task quarantined_task postponed_task change_task
retry_projection_task db i owner error_code error_message policy rng not_before w = do
  current ← resolve_now w
  task ← lock_owned_task db i owner
  if leb task.max_attempts task.attempt
      then ok (change_task db task (quarantined_task error_code error_message current))
      else next_attempt_at current task.attempt policy rng not_before >>= λ next.
          ok (change_task db task (postponed_task error_code error_message next current))

unfoldable pub released_task : (next now : ℕ) → ProjectionTask → ProjectionTask
released_task next now t = record t {
  status = pending;
  lease_owner = none;
  lease_expires_at = none;
  leased_at = none;
  not_before = next;
  attempt = t.attempt - 1;
  updated_at = now;
}

unfoldable pub release_projection_task :
    Db
    → (task_id : ℕ) → (owner : String) → (not_before : Option Stamp) → When
    → Result (ProjectionTask × Db)
unfolding lock_owned_task is_owned released_task
release_projection_task db i owner not_before w = do
  current ← resolve_now w
  next ← clamp_not_before not_before current
  task ← lock_owned_task db i owner
  ok (
    released_task next current task,
    record db { tasks = update_where (is_owned i owner) (released_task next current) db.tasks },
  )

unfoldable pub quarantine_projection_task :
    Db
    → (task_id : ℕ) → (error_code : String) → Option Message
    → When
    → Result (ProjectionTask × Db)
unfolding get_projection_task quarantined_task change_task
quarantine_projection_task db i error_code error_message w = do
  current ← resolve_now w
  task ← or_raise (get_projection_task db i) not_found
  if is_terminal task.status
      then err lease_not_owned
      else ok (change_task db task (quarantined_task error_code error_message current))

-- status = 'leased' AND lease_expires_at <= now
unfoldable pub is_expired_task : (now : ℕ) → ProjectionTask → Bool
is_expired_task now t = is_leased t.status && column_le t.lease_expires_at now

unfoldable pub recovered_task : (now : ℕ) → ProjectionTask → ProjectionTask
recovered_task now t = record t {
  status = pending;
  lease_owner = none;
  lease_expires_at = none;
  updated_at = now;
}

unfoldable pub recover_expired_projection_leases :
    Db → (limit : ℕ) → When → (locked : ℕ → Bool) → Result (List ℕ × Db)
unfolding is_expired_task recovered_task
recover_expired_projection_leases db limit w locked = do
  current ← resolve_now w
  let expired =
      select_for_update task_key locked
        (λ a b. leb (or_default a.lease_expires_at 0) (or_default b.lease_expires_at 0))
        (is_expired_task current) limit db.tasks
  ok (
    map task_key (rows_where (among task_key expired) db.tasks),
    record db { tasks = update_where (among task_key expired) (recovered_task current) db.tasks },
  )

-- ===== src/Queue/DeadLetters.antt =====
-- `list_dead_letters` of repositories/queue.py, by keyset pagination.
use ua_web_data_collector_sp.Base.{
  ℕ, ◌==◌, Bool, true, false, ◌&&◌, ◌||◌, not, Option, none, some, List, ltb, leb, if◌then◌else◌,
  is_none, sort, take,
}
use ua_web_data_collector_sp.Sql.{rows_where}
use ua_web_data_collector_sp.Queue.Rows.{DeadLetter, Db}

unfoldable pub letter_order : DeadLetter → DeadLetter → Bool
letter_order a b =
    if ltb a.created_at b.created_at
    then true
    else if ltb b.created_at a.created_at
    then false
    else leb a.id b.id

-- The keyset condition: behind the last row of the page before.
unfoldable pub is_after : Option (ℕ × ℕ) → DeadLetter → Bool
is_after none l = true
is_after (some (created_at, id)) l =
    ltb created_at l.created_at || (l.created_at == created_at && ltb id l.id)

unfoldable pub list_dead_letters :
    Db → (after : Option (ℕ × ℕ)) → (limit : ℕ) → (unresolved_only : Bool) → List DeadLetter
unfolding is_after letter_order
list_dead_letters db after limit unresolved_only = take limit (
    sort letter_order (
      rows_where (λ l. (not unresolved_only || is_none l.resolved_at) && is_after after l)
        db.dead_letters))

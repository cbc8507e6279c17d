-- ===== src/Sql.antt =====
-- The SQL statements that the repositories send, over a table as the list of its rows. The key of a
-- row is its primary key. A row that another transaction has locked is skipped where the statement
-- says SKIP LOCKED; every other statement sees the rows as committed (READ COMMITTED).
pub mod Laws
pub mod Pointwise
pub mod Select
use ua_web_data_collector_sp.Base.{
  ℕ, ◌==◌, Bool, ◌&&◌, not, Option, none, some, List, [], ◌∷◌, if◌then◌else◌, elem, take, sort, ◌≡◌,
}

module _ {A : Type 0} where
  -- SELECT … WHERE p
  unfoldable pub rows_where : (A → Bool) → List A → List A
  rows_where p [] = []
  rows_where p (r ∷ rs) = let rest = rows_where p rs in if p r then r ∷ rest else rest

  -- UPDATE … SET f WHERE p
  unfoldable pub update_where : (A → Bool) → (A → A) → List A → List A
  update_where p f [] = []
  update_where p f (r ∷ rs) = (if p r then f r else r) ∷ update_where p f rs

  -- `scalar_one_or_none()`, `session.scalar(…)`
  unfoldable pub one_or_none : List A → Option A
  one_or_none [] = none
  one_or_none (r ∷ rs) = some r

  -- SELECT count(*) WHERE p
  unfoldable pub count_where : (A → Bool) → List A → ℕ
  unfolding rows_where
  count_where p [] = 0
  count_where p (r ∷ rs) = let rest = count_where p rs in if p r then ℕ.suc rest else rest

module _ {A : Type 0} (key : A → ℕ) where
  -- `session.get(Model, key)`
  unfoldable pub find : ℕ → List A → Option A
  find i [] = none
  find i (r ∷ rs) = if key r == i then some r else find i rs

  -- SELECT … WHERE p ORDER BY before LIMIT n FOR UPDATE SKIP LOCKED
  unfoldable pub select_for_update :
      (locked : ℕ → Bool) (before : A → A → Bool) (p : A → Bool) → ℕ → List A → List A
  select_for_update locked before p n rows =
      take n (sort before (rows_where (λ r. p r && not (locked (key r))) rows))

  unfoldable pub keys : List A → List ℕ
  keys [] = []
  keys (r ∷ rs) = key r ∷ keys rs

  -- WHERE key IN (…)
  unfoldable pub among : List A → A → Bool
  unfolding keys
  among chosen r = elem (key r) (keys chosen)

  -- The primary key is unique.
  abbrev pub Unique : List A → Type 0
  Unique [] = Unit {0}
  Unique (r ∷ rs) = (find (key r) rs ≡ none) × Unique rs

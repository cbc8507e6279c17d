-- ===== src/Sql/Select.antt =====
-- What `SELECT … ORDER BY … LIMIT n FOR UPDATE SKIP LOCKED` selects, and what an update by the
-- selected keys then changes.
use mathlib.Core.Option
use ua_web_data_collector_sp.Base.{
  ℕ, zero, suc, min, ◌==◌, ==_iff, ==_refl, ◌≡◌, sym, ◌∙◌, ap, subst, Bool, true, false, not, ◌&&◌,
  Bool-cases, none, some, List, [], ◌∷◌, map, ◌++◌, Perm, arith, All, All-map_pred, inl, inr, elem,
  is_none, refl, take, drop, length, length-take, take-append-drop, sort, sort-All, sort-perm,
  length-sort, sort-IsSorted, take-before-drop,
}
use ua_web_data_collector_sp.Sql.{
  rows_where, one_or_none, update_where, find, keys, among, Unique, select_for_update,
}
use ua_web_data_collector_sp.Sql.Laws.{rows_where-All, rows_where-pass}

module _ {A : Type 0} where
  pub take-All {κ} : (P : A → Type κ) (n : ℕ) (xs : List A) → All P xs → All P (take n xs)
  take-All P zero xs h = tt
  take-All P (suc n) [] h = tt
  take-All P (suc n) (x ∷ xs) h = (h.0, take-All P n xs h.1)

  pub All-both {κ μ} :
      (P : A → Type κ) (Q : A → Type μ) (xs : List A)
      → All P xs
      → All Q xs
      → All (λ x. P x × Q x) xs
  All-both P Q [] h k = tt
  All-both P Q (x ∷ xs) h k = ((h.0, k.0), All-both P Q xs h.1 k.1)

module _ {A : Type 0} (key : A → ℕ) where
  -- Under a unique key every row is found.
  pub find_self : (rows : List A) → Unique key rows → All (λ r. find key (key r) rows ≡ some r) rows
  unfolding find
  find_self [] u = tt
  find_self (x ∷ rs) u = (
    rw (==_refl (key x)),
    All-map_pred (λ r. find key (key r) rs ≡ some r) _ rs
        (λ r h. elim (Bool-cases (key x == key r)) [
          | inl e ↦
              absurd (ground (arith, subst (λ k. find key k rs ≡ none) ((==_iff _ _).0 e) u.0))
          | inr e ↦ ground arith
        ])
        (find_self rs u.1),
  )

  -- A row that two finds agree on is one row.
  same_row :
      (i : ℕ) (rows : List A) (a b : A)
      → find key i rows ≡ some a
      → find key i rows ≡ some b
      → a ≡ b
  same_row i rows a b h k = cc

  chosen_passes :
      (q : A → Bool) (rows chosen : List A) (r : A)
      → All (λ c. (find key (key c) rows ≡ some c) × (q c ≡ true)) chosen
      → find key (key r) rows ≡ some r
      → elem (key r) (keys key chosen) ≡ true
      → q r ≡ true
  unfolding keys
  chosen_passes q rows [] r h f e = absurd (ground arith)
  chosen_passes q rows (c ∷ cs) r h f e = elim (Bool-cases (key c == key r)) [
    | inl k ↦
        let at_r : find key (key r) rows ≡ some c =
          subst (λ n. find key n rows ≡ some c) ((==_iff _ _).0 k) h.0.0 in
        subst (λ x. q x ≡ true) (same_row (key r) rows c r at_r f) h.0.1
    | inr k ↦ chosen_passes q rows cs r h.1 f (ground arith)
  ]

  -- Of the rows of the table, only those that pass the condition, and are not locked, are among
  -- the selected ones.
  pub among-select :
      (locked : ℕ → Bool) (before : A → A → Bool) (p : A → Bool) (n : ℕ) (rows : List A)
      → Unique key rows
      → All
          (λ r.
            among key (select_for_update key locked before p n rows) r ≡ true
            → (p r && not (locked (key r))) ≡ true)
          rows
  unfolding among select_for_update
  among-select locked before p n rows u =
      All-map_pred (λ r. find key (key r) rows ≡ some r) _ rows
        (λ r f e. chosen_passes q rows _ r sound f e) (find_self rows u)
    where
      q : A → Bool
      q r = p r && not (locked (key r))

      found : All (λ c. (find key (key c) rows ≡ some c) × (q c ≡ true)) (rows_where q rows)
      found =
          All-both _ _ (rows_where q rows) (rows_where-All _ q rows (find_self rows u))
            (rows_where-pass q rows)

      sound :
          All
            (λ c. (find key (key c) rows ≡ some c) × (q c ≡ true))
            (take n (sort before (rows_where q rows)))
      sound = take-All _ n _ (sort-All before _ (rows_where q rows) found)

  -- The selected rows with the others that were eligible: as many as the limit allows, and none
  -- that comes behind a row left out.
  pub select-best :
      (locked : ℕ → Bool) (before : A → A → Bool) (p : A → Bool) (n : ℕ) (rows : List A)
      → ((x y : A) → before x y ≡ false → before y x ≡ true)
      → ((x y z : A) → before x y ≡ true → before y z ≡ true → before x z ≡ true)
      → (rest : List A) × Perm
          (select_for_update key locked before p n rows ++ rest)
          (rows_where (λ r. p r && not (locked (key r))) rows)
        × All
            (λ x. All (λ y. before x y ≡ true) rest)
            (select_for_update key locked before p n rows)
  unfolding select_for_update
  select-best locked before p n rows total trans = (
    drop n sorted,
    subst (λ l. Perm l eligible) (sym (take-append-drop n sorted)) (sort-perm before eligible),
    take-before-drop before n sorted (sort-IsSorted before total trans eligible),
  )
    where
      eligible : List A
      eligible = rows_where (λ r. p r && not (locked (key r))) rows

      sorted : List A
      sorted = sort before eligible

  -- The rows with the key of a row that was found are that row.
  pub only_row :
      (i : ℕ) (rows : List A) (r : A)
      → Unique key rows
      → find key i rows ≡ some r
      → All (λ x. (key x == i) ≡ true → x ≡ r) rows
  only_row i rows r u f =
      All-map_pred (λ x. find key (key x) rows ≡ some x) _ rows
        (λ x h e.
          same_row i rows x r (subst (λ k. find key k rows ≡ some x) ((==_iff _ _).0 e) h) f)
        (find_self rows u)

  -- As many rows as the limit allows.
  pub length-select :
      (locked : ℕ → Bool) (before : A → A → Bool) (p : A → Bool) (n : ℕ) (rows : List A)
      → length (select_for_update key locked before p n rows)
        ≡ min n (length (rows_where (λ r. p r && not (locked (key r))) rows))
  unfolding select_for_update
  length-select locked before p n rows =
      length-take n _
      ∙ ap (min n) (length-sort before (rows_where (λ r. p r && not (locked (key r))) rows))

pub All-map {κ} :
    {A : Type 0} (P : A → Type κ) (f : A → A) (xs : List A)
    → All (λ x. P (f x)) xs
    → All P (map f xs)
All-map P f [] h = tt
All-map P f (x ∷ xs) h = (h.0, All-map P f xs h.1)

-- What every row of a table has, the row of an answer has.
pub one_or_none-All {κ} :
    {A : Type 0} (P : A → Type κ) (rows : List A) (r : A)
    → All P rows
    → one_or_none rows ≡ some r
    → P r
unfolding one_or_none
one_or_none-All P [] r h e = absurd (cc)
one_or_none-All P (x ∷ rows) r h e = subst P (ground arith) h.0

-- The row that a query answers with is in the table, and passes the condition.
pub one_or_none-find :
    {A : Type 0} (key : A → ℕ) (p : A → Bool) (rows : List A) (r : A)
    → Unique key rows
    → one_or_none (rows_where p rows) ≡ some r
    → (find key (key r) rows ≡ some r) × (p r ≡ true)
one_or_none-find key p rows r u e =
    one_or_none-All (λ x. (find key (key x) rows ≡ some x) × (p x ≡ true)) (rows_where p rows) r
      (All-both _ _ (rows_where p rows) (rows_where-All _ p rows (find_self key rows u))
        (rows_where-pass p rows))
      e

-- The row that an update of the rows of a query changes first.
pub one_or_none-update_where :
    {A : Type 0} (p : A → Bool) (f : A → A) (rows : List A)
    → ((r : A) → p (f r) ≡ p r)
    → one_or_none (rows_where p (update_where p f rows))
      ≡ Option.map f (one_or_none (rows_where p rows))
unfolding one_or_none rows_where update_where
one_or_none-update_where p f [] same = refl
one_or_none-update_where p f (r ∷ rows) same = elim (Bool-cases (p r)) [
  | inl e ↦ rw (e, same r) (rw e refl)
  | inr e ↦ rw e (rw e (one_or_none-update_where p f rows same))
]

-- A row that is appended to the table is the only one that passes.
pub one_or_none-append_only :
    {A : Type 0} (p : A → Bool) (rows : List A) (x : A)
    → is_none (one_or_none (rows_where p rows)) ≡ true
    → p x ≡ true
    → one_or_none (rows_where p (rows ++ x ∷ [])) ≡ some x
unfolding one_or_none rows_where
one_or_none-append_only p [] x h e = rw e refl
one_or_none-append_only p (r ∷ rows) x h e = ground (arith, one_or_none-append_only p rows x)

-- Where no row passes a test, the row that is read does not.
pub one_or_none-fails :
    {A : Type 0} (p : A → Bool) (rows : List A) (x : A)
    → is_none (one_or_none (rows_where p rows)) ≡ true
    → one_or_none rows ≡ some x
    → p x ≡ false
unfolding one_or_none rows_where
one_or_none-fails p [] x h e = absurd (cc)
one_or_none-fails p (r ∷ rows) x h e = elim (Bool-cases (p r)) [
  | inl k ↦ absurd (ground arith)
  | inr k ↦ subst (λ y. p y ≡ false) (ground arith) k
]

-- ===== src/Sql/Laws.antt =====
-- Laws of the statements: what a table shows under each key after an update, and what survives it.
use mathlib.Core.Option
use ua_web_data_collector_sp.Base.{
  ℕ, suc, ◌==◌, ==_iff, ◌≡◌, ◌≢◌, refl, subst, ◌∙◌, ap, Bool, true, false, ◌&&◌, Bool-cases, Option,
  none, some, List, [], ◌∷◌, ◌++◌, map, arith, if◌then◌else◌, All, inl, inr, ◌⊎◌,
}
use ua_web_data_collector_sp.Sql.{rows_where, update_where, one_or_none, count_where, find, Unique}

-- A row, if it passes the test.
abbrev pub keep : {A : Type 0} → (A → Bool) → Option A → Option A
keep p none = none
keep p (some r) = if p r then some r else none

module _ {A : Type 0} where
  pub rows_where-All {κ} :
      (P : A → Type κ) (p : A → Bool) (rows : List A) → All P rows → All P (rows_where p rows)
  unfolding rows_where
  rows_where-All P p [] h = tt
  rows_where-All P p (r ∷ rs) h = elim (Bool-cases (p r)) [
    | inl e ↦ rw e (h.0, rows_where-All P p rs h.1)
    | inr e ↦ rw e (rows_where-All P p rs h.1)
  ]

  pub rows_where-pass : (p : A → Bool) (rows : List A) → All (λ r. p r ≡ true) (rows_where p rows)
  unfolding rows_where
  rows_where-pass p [] = tt
  rows_where-pass p (r ∷ rs) = elim (Bool-cases (p r)) [
    | inl e ↦ rw e (e, rows_where-pass p rs)
    | inr e ↦ rw e (rows_where-pass p rs)
  ]

  pub update_where-All {κ} :
      (P : A → Type κ) (p : A → Bool) (f : A → A) (rows : List A)
      → ((r : A) → P r → p r ≡ true → P (f r))
      → All P rows
      → All P (update_where p f rows)
  unfolding update_where
  update_where-All P p f [] step h = tt
  update_where-All P p f (r ∷ rs) step h = elim (Bool-cases (p r)) [
    | inl e ↦ rw e (step r h.0 e, update_where-All P p f rs step h.1)
    | inr e ↦ rw e (h.0, update_where-All P p f rs step h.1)
  ]

  -- An update that does not change the answer of a test does not change its count.
  pub count-update_same :
      (q p : A → Bool) (f : A → A) (rows : List A)
      → All (λ r. p r ≡ true → q (f r) ≡ q r) rows
      → count_where q (update_where p f rows) ≡ count_where q rows
  unfolding count_where update_where
  count-update_same q p f [] same = refl
  count-update_same q p f (r ∷ rs) same = ground (arith, same.0, count-update_same q p f rs same.1)

  pub count-append_one :
      (q : A → Bool) (rows : List A) (r : A)
      → q r ≡ false
      → count_where q (rows ++ r ∷ []) ≡ count_where q rows
  unfolding count_where
  count-append_one q [] r h = rw h
  count-append_one q (x ∷ rs) r h = ground (arith, count-append_one q rs r h)

  pub one_or_none-map :
      (f : A → A) (rows : List A) → one_or_none (map f rows) ≡ Option.map f (one_or_none rows)
  unfolding one_or_none
  one_or_none-map f [] = refl
  one_or_none-map f (r ∷ rs) = refl

module _ {A : Type 0} (key : A → ℕ) where
  -- What the table shows under a key after an update that keeps the keys.
  pub find-update_where :
      (i : ℕ) (p : A → Bool) (f : A → A) (rows : List A)
      → ((r : A) → p r ≡ true → key (f r) ≡ key r)
      → find key i (update_where p f rows)
        ≡ Option.map (λ r. if p r then f r else r) (find key i rows)
  unfolding find update_where
  find-update_where i p f [] same = refl
  find-update_where i p f (r ∷ rs) same = ground (arith, same r, find-update_where i p f rs same)

  pub update_where-Unique :
      (p : A → Bool) (f : A → A) (rows : List A)
      → ((r : A) → p r ≡ true → key (f r) ≡ key r)
      → Unique key rows
      → Unique key (update_where p f rows)
  unfolding find update_where
  update_where-Unique p f [] same u = tt
  update_where-Unique p f (r ∷ rs) same u =
      (go (Bool-cases (p r)), update_where-Unique p f rs same u.1)
    where
      at_key : (i : ℕ) → i ≡ key r → find key i (update_where p f rs) ≡ none
      at_key i e = rw (e, find-update_where (key r) p f rs same, u.0) refl

      go :
          (p r ≡ true) ⊎ (p r ≡ false)
          → find key (key (if p r then f r else r)) (update_where p f rs) ≡ none
      go (inl e) = at_key _ (ap key (rw e refl) ∙ same r e)
      go (inr e) = at_key _ (ap key (rw e refl))

  pub find-append_found :
      (i : ℕ) (rows : List A) (x r : A)
      → find key i rows ≡ some r
      → find key i (rows ++ x ∷ []) ≡ some r
  unfolding find
  find-append_found i [] x r h = cc
  find-append_found i (y ∷ rs) x r h = ground (arith, find-append_found i rs x r)

  pub find-append_other :
      (i : ℕ) (rows : List A) (x : A) → i ≢ key x → find key i (rows ++ x ∷ []) ≡ find key i rows
  unfolding find
  find-append_other i [] x h = ground arith
  find-append_other i (y ∷ rs) x h = ground (arith, find-append_other i rs x h)

  pub find-append_self :
      (rows : List A) (x : A)
      → find key (key x) rows ≡ none
      → find key (key x) (rows ++ x ∷ []) ≡ some x
  unfolding find
  find-append_self [] x h = ground arith
  find-append_self (y ∷ rs) x h = ground (arith, find-append_self rs x)

  pub append-Unique :
      (rows : List A) (x : A)
      → Unique key rows
      → find key (key x) rows ≡ none
      → Unique key (rows ++ x ∷ [])
  unfolding find
  append-Unique [] x u h = (refl, tt)
  append-Unique (y ∷ rs) x u h = elim (Bool-cases (key y == key x)) [
    | inl e ↦ absurd (ground arith)
    | inr e ↦
        (find-append_other (key y) rs x (ground arith) ∙ u.0, append-Unique rs x u.1 (ground arith))
  ]

  pub find-key : (i : ℕ) (rows : List A) (r : A) → find key i rows ≡ some r → key r ≡ i
  unfolding find
  find-key i [] r h = cc
  find-key i (x ∷ rs) r h = ground (arith, find-key i rs r)

  pub find-All {κ} :
      (P : A → Type κ) (i : ℕ) (rows : List A) (r : A) → All P rows → find key i rows ≡ some r → P r
  unfolding find
  find-All P i [] r a h = cc
  find-All P i (x ∷ rs) r a h = elim (Bool-cases (key x == i)) [
    | inl e ↦ subst P (ground arith) a.0
    | inr e ↦ find-All P i rs r a.1 (ground arith)
  ]

  none_left :
      (i : ℕ) (q : A → Bool) (rows : List A)
      → find key i rows ≡ none
      → rows_where (λ r. key r == i && q r) rows ≡ []
  unfolding find rows_where
  none_left i q [] h = refl
  none_left i q (x ∷ rs) h = ground (arith, none_left i q rs)

  -- `WHERE key = i AND q` over a primary key selects the row under the key, if it passes `q`.
  pub one_or_none-rows_where :
      (i : ℕ) (q : A → Bool) (rows : List A)
      → Unique key rows
      → one_or_none (rows_where (λ r. key r == i && q r) rows) ≡ keep q (find key i rows)
  unfolding find rows_where one_or_none
  one_or_none-rows_where i q [] u = refl
  one_or_none-rows_where i q (x ∷ rs) u = elim (Bool-cases (key x == i)) [
    | inl e ↦
        let gone : find key i rs ≡ none =
          subst (λ k. find key k rs ≡ none) ((==_iff _ _).0 e) u.0 in
        ground (arith, none_left i q rs gone)
    | inr e ↦ ground (arith, one_or_none-rows_where i q rs u.1)
  ]

  untouched :
      (i : ℕ) (c p : A → Bool) (f : A → A) (rows : List A)
      → ((r : A) → p r ≡ true → key r ≡ i)
      → find key i rows ≡ none
      → count_where c (update_where p f rows) ≡ count_where c rows
  unfolding find count_where update_where
  untouched i c p f [] only h = refl
  untouched i c p f (x ∷ rs) only h = ground (arith, only x, untouched i c p f rs only)

  -- An update of one row that makes it pass a test counts one more.
  pub count-update_one :
      (i : ℕ) (c p : A → Bool) (f : A → A) (rows : List A) (r : A)
      → Unique key rows
      → ((x : A) → p x ≡ true → key x ≡ i)
      → find key i rows ≡ some r
      → p r ≡ true
      → c r ≡ false
      → c (f r) ≡ true
      → count_where c (update_where p f rows) ≡ suc (count_where c rows)
  unfolding find count_where update_where
  count-update_one i c p f [] r u only h pr old new = cc
  count-update_one i c p f (x ∷ rs) r u only h pr old new = elim (Bool-cases (key x == i)) [
    | inl e ↦
        let gone : find key i rs ≡ none =
          subst (λ k. find key k rs ≡ none) ((==_iff _ _).0 e) u.0 in
        ground (arith, untouched i c p f rs only gone)
    | inr e ↦
        ground (arith, only x, count-update_one i c p f rs r u.1 only (ground arith) pr old new)
  ]

-- ===== src/Sql/Pointwise.antt =====
-- Statements that change rows one by one: a relation between the table before and after.
use ua_web_data_collector_sp.Base.{
  ℕ, ◌==◌, ◌≡◌, refl, sym, subst, Bool, true, Bool-cases, none, some, List, [], ◌∷◌, arith, All,
  inl, inr, some,
}
use ua_web_data_collector_sp.Sql.{update_where, find, Unique}

module _ {A : Type 0} (R : A → A → Type 0) where
  abbrev pub Pointwise : List A → List A → Type 0
  Pointwise [] [] = Unit {0}
  Pointwise [] (y ∷ ys) = ⊥
  Pointwise (x ∷ xs) [] = ⊥
  Pointwise (x ∷ xs) (y ∷ ys) = R x y × Pointwise xs ys

module _ {A : Type 0} (R : A → A → Type 0) where
  pub Pointwise-refl : ((r : A) → R r r) → (rows : List A) → Pointwise R rows rows
  Pointwise-refl same [] = tt
  Pointwise-refl same (r ∷ rs) = (same r, Pointwise-refl same rs)

  pub update_where-Pointwise :
      (p : A → Bool) (f : A → A) (rows : List A)
      → ((r : A) → R r r)
      → All (λ r. p r ≡ true → R r (f r)) rows
      → Pointwise R rows (update_where p f rows)
  unfolding update_where
  update_where-Pointwise p f [] same h = tt
  update_where-Pointwise p f (r ∷ rs) same h = elim (Bool-cases (p r)) [
    | inl e ↦ rw e (h.0 e, update_where-Pointwise p f rs same h.1)
    | inr e ↦ rw e (same r, update_where-Pointwise p f rs same h.1)
  ]

  pub Pointwise-All {κ} :
      (P : A → Type κ) (xs ys : List A)
      → ((x y : A) → R x y → P x → P y)
      → Pointwise R xs ys
      → All P xs
      → All P ys
  Pointwise-All P [] [] step r h = tt
  Pointwise-All P [] (y ∷ ys) step r h = absurd r
  Pointwise-All P (x ∷ xs) [] step r h = absurd r
  Pointwise-All P (x ∷ xs) (y ∷ ys) step r h =
      (step x y r.0 h.0, Pointwise-All P xs ys step r.1 h.1)

module _ {A : Type 0} (R : A → A → Type 0) (key : A → ℕ)
    (same_key : (x y : A) → R x y → key y ≡ key x) where
  -- A row under a key stays under it, related to what it was.
  pub find-Pointwise :
      (i : ℕ) (xs ys : List A) (x : A)
      → Pointwise R xs ys
      → find key i xs ≡ some x
      → (y : A) × (find key i ys ≡ some y) × R x y
  unfolding find
  find-Pointwise i [] ys x r h = absurd (cc)
  find-Pointwise i (a ∷ xs) [] x r h = absurd r
  find-Pointwise i (a ∷ xs) (b ∷ ys) x r h = elim (Bool-cases (key a == i)) [
    | inl e ↦ (b, ground (arith, same_key a b r.0), subst (λ z. R z b) (ground arith) r.0)
    | inr e ↦
        let (y, found, rel) = find-Pointwise i xs ys x r.1 (ground arith) in
        (y, ground (arith, same_key a b r.0), rel)
  ]

  pub find-none-Pointwise :
      (i : ℕ) (xs ys : List A) → Pointwise R xs ys → find key i xs ≡ none → find key i ys ≡ none
  unfolding find
  find-none-Pointwise i [] [] r h = refl
  find-none-Pointwise i [] (b ∷ ys) r h = absurd r
  find-none-Pointwise i (a ∷ xs) [] r h = absurd r
  find-none-Pointwise i (a ∷ xs) (b ∷ ys) r h =
      ground (arith, same_key a b r.0, find-none-Pointwise i xs ys r.1)

  pub Pointwise-Unique : (xs ys : List A) → Pointwise R xs ys → Unique key xs → Unique key ys
  Pointwise-Unique [] [] r u = tt
  Pointwise-Unique [] (b ∷ ys) r u = absurd r
  Pointwise-Unique (a ∷ xs) [] r u = absurd r
  Pointwise-Unique (a ∷ xs) (b ∷ ys) r u = (
    subst (λ k. find key k ys ≡ none) (sym (same_key a b r.0))
        (find-none-Pointwise (key a) xs ys r.1 u.0),
    Pointwise-Unique xs ys r.1 u.1,
  )

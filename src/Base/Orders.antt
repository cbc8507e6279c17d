-- ===== src/Base/Orders.antt =====
-- Insertion sort by a Boolean order, as `ORDER BY` and `list.sort` use it.
use Prim.Native.Nat.{ℕ, zero, suc}
use mathlib.Core.Path.{◌≡◌, refl, ap, ◌∙◌}
use mathlib.Core.Logic.{inl, inr}
use mathlib.Core.Bool.{Bool, true, false}
use mathlib.Core.List.{List, [], ◌∷◌, Perm}
use mathlib.Core.List.Perm
use ua_web_data_collector_sp.Base.Tests.{if◌then◌else◌, Bool-cases}
use ua_web_data_collector_sp.Base.Lists.{All, All-map_pred, take, drop, length}

module _ {ℓ} {A : Type ℓ} (before : A → A → Bool) where
  pub insert : A → List A → List A
  insert x [] = x ∷ []
  insert x (y ∷ ys) = if before x y then x ∷ y ∷ ys else y ∷ insert x ys

  unfoldable pub sort : List A → List A
  unfolding insert
  sort [] = []
  sort (x ∷ xs) = insert x (sort xs)

  abbrev pub IsSorted : List A → Type 0
  IsSorted [] = Unit {0}
  IsSorted (x ∷ xs) = All (λ y. before x y ≡ true) xs × IsSorted xs

  insert-perm : (x : A) (ys : List A) → Perm (insert x ys) (x ∷ ys)
  unfolding insert
  insert-perm x [] = Perm.refl (x ∷ [])
  insert-perm x (y ∷ ys) = elim (Bool-cases (before x y)) [
    | inl h ↦ rw h (Perm.refl (x ∷ y ∷ ys))
    | inr h ↦ rw h (Perm.trans (Perm.cons y (insert-perm x ys)) (Perm.swap x y ys))
  ]

  pub sort-perm : (xs : List A) → Perm (sort xs) xs
  unfolding sort
  sort-perm [] = Perm.refl []
  sort-perm (x ∷ xs) = Perm.trans (insert-perm x (sort xs)) (Perm.cons x (sort-perm xs))

  pub sort-All {κ} : (P : A → Type κ) (xs : List A) → All P xs → All P (sort xs)
  unfolding sort
  sort-All P [] h = tt
  sort-All P (x ∷ xs) h = go x (sort xs) h.0 (sort-All P xs h.1)
    where
      go : (x : A) (ys : List A) → P x → All P ys → All P (insert x ys)
      go x [] hx hy = (hx, tt)
      go x (y ∷ ys) hx hy = elim (Bool-cases (before x y)) [
        | inl h ↦ rw h (hx, hy)
        | inr h ↦ rw h (hy.0, go x ys hx hy.1)
      ]

  module _ (total : (x y : A) → before x y ≡ false → before y x ≡ true)
      (trans : (x y z : A) → before x y ≡ true → before y z ≡ true → before x z ≡ true) where
    insert-All :
        (z x : A) (ys : List A)
        → before z x ≡ true
        → All (λ y. before z y ≡ true) ys
        → All (λ y. before z y ≡ true) (insert x ys)
    unfolding insert
    insert-All z x [] hx hy = (hx, tt)
    insert-All z x (y ∷ ys) hx hy = elim (Bool-cases (before x y)) [
      | inl h ↦ rw h (hx, hy)
      | inr h ↦ rw h (hy.0, insert-All z x ys hx hy.1)
    ]

    insert-IsSorted : (x : A) (ys : List A) → IsSorted ys → IsSorted (insert x ys)
    unfolding insert
    insert-IsSorted x [] s = (tt, tt)
    insert-IsSorted x (y ∷ ys) s = elim (Bool-cases (before x y)) [
      | inl h ↦ rw h ((h, All-map_pred _ _ ys (λ z p. trans x y z h p) s.0), s)
      | inr h ↦ rw h (insert-All y x ys (total x y h) s.0, insert-IsSorted x ys s.1)
    ]

    pub sort-IsSorted : (xs : List A) → IsSorted (sort xs)
    unfolding sort
    sort-IsSorted [] = tt
    sort-IsSorted (x ∷ xs) = insert-IsSorted x (sort xs) (sort-IsSorted xs)

-- What a limit keeps of a sorted list comes before what it leaves out.
module _ {ℓ} {A : Type ℓ} (before : A → A → Bool) where
  All-drop :
      (x : A) (n : ℕ) (ys : List A)
      → All (λ y. before x y ≡ true) ys
      → All (λ y. before x y ≡ true) (drop n ys)
  All-drop x zero ys h = h
  All-drop x (suc n) [] h = tt
  All-drop x (suc n) (y ∷ ys) h = All-drop x n ys h.1

  pub take-before-drop :
      (n : ℕ) (xs : List A)
      → IsSorted before xs
      → All (λ x. All (λ y. before x y ≡ true) (drop n xs)) (take n xs)
  take-before-drop zero xs s = tt
  take-before-drop (suc n) [] s = tt
  take-before-drop (suc n) (x ∷ xs) s = (All-drop x n xs s.0, take-before-drop n xs s.1)

module _ {ℓ} {A : Type ℓ} (before : A → A → Bool) where
  length-insert : (x : A) (ys : List A) → length (insert before x ys) ≡ suc (length ys)
  unfolding insert
  length-insert x [] = refl
  length-insert x (y ∷ ys) = elim (Bool-cases (before x y)) [
    | inl h ↦ rw h refl
    | inr h ↦ rw h (ap suc (length-insert x ys))
  ]

  pub length-sort : (xs : List A) → length (sort before xs) ≡ length xs
  unfolding sort
  length-sort [] = refl
  length-sort (x ∷ xs) = length-insert x (sort before xs) ∙ ap suc (length-sort xs)

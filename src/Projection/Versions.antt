-- ===== src/Projection/Versions.antt =====
-- The versions that the rows of an entity carry, in the order in which the rows were written.
use ua_web_data_collector_sp.Base.{
  ℕ, zero, suc, ◌+◌, ◌==◌, ◌≤◌, max, ◌≡◌, refl, ◌∙◌, Bool, true, false, List, [], ◌∷◌, ◌++◌,
  if◌then◌else◌, Bool-cases, inl, inr, arith, All, All-map_pred, ==_refl,
}
use ua_web_data_collector_sp.Sql.{update_where}

module _ {A : Type 0} (entity version : A → ℕ) where
  unfoldable pub versions_of : ℕ → List A → List ℕ
  versions_of u [] = []
  versions_of u (r ∷ rs) =
      let rest = versions_of u rs in if entity r == u then version r ∷ rest else rest

  pub versions_of-append :
      (u : ℕ) (rows : List A) (x : A)
      → versions_of u (rows ++ x ∷ [])
        ≡ versions_of u rows ++ (if entity x == u then version x ∷ [] else [])
  unfolding versions_of
  versions_of-append u [] x = refl
  versions_of-append u (r ∷ rs) x = elim (Bool-cases (entity r == u)) [
    | inl e ↦ rw (e, versions_of-append u rs x) refl
    | inr e ↦ rw (e, versions_of-append u rs x) refl
  ]

  pub versions_of-update_where :
      (u : ℕ) (p : A → Bool) (f : A → A) (rows : List A)
      → ((r : A) → (entity (f r) ≡ entity r) × (version (f r) ≡ version r))
      → versions_of u (update_where p f rows) ≡ versions_of u rows
  unfolding versions_of update_where
  versions_of-update_where u p f [] same = refl
  versions_of-update_where u p f (r ∷ rs) same = elim (Bool-cases (p r)) [
    | inl e ↦ rw (e, (same r).0, (same r).1, versions_of-update_where u p f rs same) refl
    | inr e ↦ rw (e, versions_of-update_where u p f rs same) refl
  ]

-- 1, 2, … n
unfoldable pub up_to : ℕ → List ℕ
up_to zero = []
up_to (suc n) = up_to n ++ suc n ∷ []

pub up_to-next : (n : ℕ) → up_to n ++ (n + 1) ∷ [] ≡ up_to (n + 1)
up_to-next n = let e : n + 1 ≡ suc n = omega arith in rw e (unfold up_to in refl)

-- The greatest of the versions, 0 where there is none.
unfoldable pub top : List ℕ → ℕ
top [] = 0
top (v ∷ vs) = max v (top vs)

pub top-append_one : (vs : List ℕ) (v : ℕ) → top (vs ++ v ∷ []) ≡ max (top vs) v
unfolding top
top-append_one [] v = omega arith
top-append_one (w ∷ vs) v = rw (top-append_one vs v) (omega arith)

pub top-up_to : (n : ℕ) → top (up_to n) ≡ n
unfolding up_to
top-up_to zero = unfold top in refl
top-up_to (suc n) = top-append_one (up_to n) (suc n) ∙ (rw (top-up_to n) (omega arith))

module _ {A : Type 0} (entity version : A → ℕ) where
  top-one_more :
      (x : A) (rows : List A) (u n : ℕ)
      → n ≤ top (versions_of entity version u rows)
      → n ≤ top (versions_of entity version u (x ∷ rows))
  unfolding versions_of top
  top-one_more x rows u n h = elim (Bool-cases (entity x == u)) [
    | inl e ↦ rw e (omega (arith, h))
    | inr e ↦ rw e h
  ]

  -- The version of a row is at most the greatest of its entity.
  pub top-versions_of :
      (rows : List A) → All (λ r. version r ≤ top (versions_of entity version (entity r) rows)) rows
  top-versions_of [] = tt
  top-versions_of (x ∷ rows) = (
    unfold versions_of top in rw (==_refl (entity x)) (omega arith),
    All-map_pred (λ r. version r ≤ top (versions_of entity version (entity r) rows)) _ rows
        (λ r h. top-one_more x rows (entity r) (version r) h) (top-versions_of rows),
  )

-- What holds of the rows that an update changes, and of those that it leaves.
pub update_where-cases {κ} :
    {A : Type 0} (P : A → Type κ) (p : A → Bool) (f : A → A) (rows : List A)
    → All (λ r. (p r ≡ true → P (f r)) × (p r ≡ false → P r)) rows
    → All P (update_where p f rows)
unfolding update_where
update_where-cases P p f [] h = tt
update_where-cases P p f (r ∷ rows) h = elim (Bool-cases (p r)) [
  | inl e ↦ rw e (h.0.0 e, update_where-cases P p f rows h.1)
  | inr e ↦ rw e (h.0.1 e, update_where-cases P p f rows h.1)
]

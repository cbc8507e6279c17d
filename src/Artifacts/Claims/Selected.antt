-- ===== src/Artifacts/Claims/Selected.antt =====
-- Conditions that one claim of the table passes.
use ua_web_data_collector_sp.Base.{
  ℕ, ◌==◌, ==_iff, ==_refl, ◌≡◌, refl, sym, ◌∙◌, ap, subst, Bool, true, false, none, some, List, [],
  ◌∷◌, ◌++◌, arith, Bool-cases, inl, inr,
}
use ua_web_data_collector_sp.Sql.{rows_where, update_where, one_or_none, find, Unique}
use ua_web_data_collector_sp.Sql.Select.{one_or_none-find}
use ua_web_data_collector_sp.Artifacts.Rows.{ArtifactUploadClaim, claim_key}

update_where-missing :
    (i : ℕ) (f : ArtifactUploadClaim → ArtifactUploadClaim) (rows : List ArtifactUploadClaim)
    → find claim_key i rows ≡ none
    → update_where (λ x. x.claim_id == i) f rows ≡ rows
unfolding find update_where
update_where-missing i f [] h = refl
update_where-missing i f (x ∷ rows) h = ground (arith, update_where-missing i f rows)

-- The one row that passes, replaced by one that passes.
pub replaced :
    (q : ArtifactUploadClaim → Bool) (c c' : ArtifactUploadClaim) (rows : List ArtifactUploadClaim)
    → Unique claim_key rows
    → rows_where q rows ≡ c ∷ []
    → c'.claim_id ≡ c.claim_id
    → q c' ≡ true
    → rows_where q (update_where (λ x. x.claim_id == c'.claim_id) (λ _. c') rows) ≡ c' ∷ []
unfolding rows_where update_where
replaced q c c' [] u only same passes = absurd (cc)
replaced q c c' (x ∷ rows) u only same passes = elim (Bool-cases (q x)) [
  | inl e ↦
      let this : x ≡ c = ground arith in
      let gone : find claim_key c'.claim_id rows ≡ none =
        subst (λ n. find claim_key n rows ≡ none) (ap claim_key this ∙ sym same) u.0 in
      let here : (x.claim_id == c'.claim_id) ≡ true =
        subst (λ n. (x.claim_id == n) ≡ true) (ap claim_key this ∙ sym same) (==_refl x.claim_id) in
      rw here (rw passes (rw (update_where-missing c'.claim_id (λ _. c') rows gone) (ground arith)))
  | inr e ↦
      let rest : rows_where q rows ≡ c ∷ [] = ground arith in
      let found : find claim_key c.claim_id rows ≡ some c =
        (one_or_none-find claim_key q rows c u.1 (rw rest (unfold one_or_none in refl))).0 in
      elim (Bool-cases (x.claim_id == c'.claim_id)) [
        | inl k ↦ absurd (
            let k' : x.claim_id ≡ c.claim_id = (==_iff _ _).0 k ∙ same in
            let f' : find claim_key c.claim_id rows ≡ none =
              subst (λ n. find claim_key n rows ≡ none) k' u.0 in
            cc)
        | inr k ↦ rw k (rw e (replaced q c c' rows u.1 rest same passes))
      ]
]

pub rows_where-append_one :
    (q : ArtifactUploadClaim → Bool) (x : ArtifactUploadClaim) (rows : List ArtifactUploadClaim)
    → rows_where q rows ≡ []
    → q x ≡ true
    → rows_where q (rows ++ x ∷ []) ≡ x ∷ []
unfolding rows_where
rows_where-append_one q x [] h k = rw k refl
rows_where-append_one q x (y ∷ rows) h k = ground (arith, rows_where-append_one q x rows)

-- A stronger condition that the one row fails selects nothing.
pub rows_where-narrow :
    (p q : ArtifactUploadClaim → Bool) (c : ArtifactUploadClaim) (rows : List ArtifactUploadClaim)
    → ((x : ArtifactUploadClaim) → p x ≡ true → q x ≡ true)
    → rows_where q rows ≡ c ∷ []
    → p c ≡ false
    → rows_where p rows ≡ []
unfolding rows_where
rows_where-narrow p q c [] weaker h k = refl
rows_where-narrow p q c (x ∷ rows) weaker h k = elim (Bool-cases (q x)) [
  | inl e ↦
      let this : x ≡ c = ground arith in
      let fails : p x ≡ false = subst (λ y. p y ≡ false) (sym this) k in
      rw fails (empty p q rows weaker (ground arith))
  | inr e ↦ ground (arith, weaker x, rows_where-narrow p q c rows weaker)
]
  where
    empty :
        (p q : ArtifactUploadClaim → Bool) (rows : List ArtifactUploadClaim)
        → ((x : ArtifactUploadClaim) → p x ≡ true → q x ≡ true)
        → rows_where q rows ≡ []
        → rows_where p rows ≡ []
    empty p q [] weaker h = refl
    empty p q (x ∷ rows) weaker h = ground (arith, weaker x, empty p q rows weaker)

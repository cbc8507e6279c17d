-- ===== src/Projection/Record/Found.antt =====
-- The artifact that `_artifact_for` answers with: the one under its id, with the bytes of the reference.
use ua_web_data_collector_sp.Base.{
  ℕ, ◌≡◌, refl, subst, String, Bool, true, false, ◌&&◌, &&_parts, Option, none, some, List, str_eq,
  eq_refl, is_none, Bool-cases, inl, inr, arith,
}
use ua_web_data_collector_sp.Errors.{
  ok, ◌>>=◌, ◌>>◌, IfOk, IfOk-bind, require, or_raise, or_raise-eq-ok, conflict, not_found,
}
use ua_web_data_collector_sp.Sql.{rows_where, one_or_none, find, Unique}
use ua_web_data_collector_sp.Sql.Laws.{find-append_self}
use ua_web_data_collector_sp.Sql.Select.{one_or_none-find, one_or_none-fails}
use ua_web_data_collector_sp.Artifacts.Rows.{
  NormalizedArtifact, NormalizedArtifactRef, normalized_artifact_values,
}
use ua_web_data_collector_sp.Projection.Rows.{Db, artifact_key}
use ua_web_data_collector_sp.Projection.Parse.{
  has_same_content, is_foreign, existing_artifact, artifact_for,
}

pub is_none-eq : {A : Type 0} (o : Option A) → is_none o ≡ true → o ≡ none
is_none-eq none h = refl
is_none-eq (some a) h = absurd (cc)

-- The artifact of the answer stands under its id, and holds the bytes of the reference.
abbrev pub Holds : NormalizedArtifactRef → NormalizedArtifact × List NormalizedArtifact → Type 0
Holds r x = (find artifact_key x.0.artifact_id x.1 ≡ some x.0) × (str_eq x.0.sha256 r.sha256 ≡ true)

not_foreign :
    (r : NormalizedArtifactRef) (a : NormalizedArtifact)
    → is_foreign r a ≡ false
    → str_eq a.sha256 r.sha256 ≡ true
unfolding is_foreign
not_foreign r a h = ground (arith, h)

existing_artifact-Holds :
    (r : NormalizedArtifactRef) (object_key : String) (rows : List NormalizedArtifact)
    → Unique artifact_key rows
    → IfOk (Holds r) (
        existing_artifact r (rows_where (has_same_content r object_key) rows) >>= λ a. ok (a, rows))
unfolding existing_artifact
existing_artifact-Holds r object_key rows u =
    IfOk-bind (Holds r)
      (require (is_none (one_or_none (rows_where (is_foreign r) candidates))) conflict
        >> or_raise (one_or_none candidates) not_found)
      _ λ a e. held a e
  where
    candidates : List NormalizedArtifact
    candidates = rows_where (has_same_content r object_key) rows

    held :
        (a : NormalizedArtifact)
        → (require (is_none (one_or_none (rows_where (is_foreign r) candidates))) conflict
            >> or_raise (one_or_none candidates) not_found)
          ≡ ok a
        → Holds r (a, rows)
    held a e = elim (Bool-cases (is_none (one_or_none (rows_where (is_foreign r) candidates)))) [
      | inl k ↦
          let e' : or_raise (one_or_none candidates) not_found ≡ ok a =
            subst (λ b. (require b conflict >> or_raise (one_or_none candidates) not_found) ≡ ok a)
              k e in
          let one : one_or_none candidates ≡ some a = or_raise-eq-ok _ _ e' in
          (
            (one_or_none-find artifact_key (has_same_content r object_key) rows a u one).0,
            not_foreign r a (one_or_none-fails (is_foreign r) candidates a k one),
          )
      | inr k ↦
          let e' : (require false conflict >> or_raise (one_or_none candidates) not_found) ≡ ok a =
            subst (λ b. (require b conflict >> or_raise (one_or_none candidates) not_found) ≡ ok a)
              k e in
          absurd (cc)
    ]

pub artifact_for-Holds :
    (db : Db) (r : NormalizedArtifactRef) (object_key : String) (now i : ℕ)
    → Unique artifact_key db.artifacts
    → IfOk (Holds r) (artifact_for db r object_key now i)
unfolding artifact_for
artifact_for-Holds db r object_key now i u = elim (Bool-cases test) [
  | inr e ↦ rw e (existing_artifact-Holds r object_key db.artifacts u)
  | inl e ↦ rw e (
    find-append_self artifact_key db.artifacts (normalized_artifact_values r object_key now i) (
        unfold normalized_artifact_values in
        is_none-eq _
          (&&_parts
            (is_none (one_or_none (rows_where (has_same_content r object_key) db.artifacts))) _
            e).1),
    (unfold normalized_artifact_values in eq_refl r.sha256),
  )
]
  where
    test : Bool
    test =
        is_none (one_or_none (rows_where (has_same_content r object_key) db.artifacts))
        && is_none (find artifact_key i db.artifacts)

-- ===== src/Projection/ParseKey.antt =====
-- The bytes that the parse key of repositories/projection.py digests.
use ua_web_data_collector_sp.Base.{
  ℕ, String, ◌≡◌, ◌≢◌, refl, ap, false, List, [], ◌∷◌, ◌++◌, elem, length, arith, All,
}
use ua_web_data_collector_sp.Projection.Rows.{Bytes, Encoding}
use ua_web_data_collector_sp.Projection.Parse.{separator, join, parse_key}

-- No byte of the part is the separator.
abbrev pub IsFree : Bytes → Type 0
IsFree p = elem separator p ≡ false

split :
    (p q r s : Bytes)
    → IsFree p
    → IsFree q
    → p ++ separator ∷ r ≡ q ++ separator ∷ s
    → (p ≡ q) × (r ≡ s)
split [] [] r s f g e = (refl, ground arith)
split [] (y ∷ q) r s f g e = absurd (ground arith)
split (x ∷ p) [] r s f g e = absurd (ground arith)
split (x ∷ p) (y ∷ q) r s f g e = ground (arith, split p q r s)

-- Where no part holds the separator, two joins of equally many parts are equal only if their parts
-- are the same.
join-injective :
    (ps qs : List Bytes)
    → All IsFree ps
    → All IsFree qs
    → length ps ≡ length qs
    → join ps ≡ join qs
    → ps ≡ qs
unfolding join
join-injective [] [] f g n e = refl
join-injective [] (q ∷ qs) f g n e = absurd (omega (arith, n))
join-injective (p ∷ ps) [] f g n e = absurd (omega (arith, n))
join-injective (p ∷ []) (q ∷ []) f g n e = ap (λ x. x ∷ []) e
join-injective (p ∷ []) (q ∷ q' ∷ qs) f g n e = absurd (omega (arith, n))
join-injective (p ∷ p' ∷ ps) (q ∷ []) f g n e = absurd (omega (arith, n))
join-injective (p ∷ p' ∷ ps) (q ∷ q' ∷ qs) f g n e =
    let (first, others) = split p q (join (p' ∷ ps)) (join (q' ∷ qs)) f.0 g.0 e in
    let rest : p' ∷ ps ≡ q' ∷ qs =
      join-injective (p' ∷ ps) (q' ∷ qs) f.1 g.1 (omega (arith, n)) others in
    cc

-- The bytes of the five fields of a parse step.
abbrev pub fields :
    Encoding
    → (fetch_id : ℕ) → (raw_sha256 parser_version : String) → (entity_uuid : ℕ)
    → (target_collection : String) → List Bytes
fields enc fetch_id raw_sha256 parser_version entity_uuid target_collection =
    enc.utf8 (enc.uuid_text fetch_id)
    ∷ enc.utf8 raw_sha256
    ∷ enc.utf8 parser_version
    ∷ enc.utf8 (enc.uuid_text entity_uuid)
    ∷ enc.utf8 target_collection
    ∷ []

-- Two parse steps that differ in the bytes of a field (the fetch, the raw digest, the parser's version,
-- the entity or the collection) have different parse keys. Here no field holds the separator byte 0x1f,
-- and the digests of the two joined texts collide only if the texts are the same.
pub parse_key-distinct :
    (enc : Encoding) (fetch fetch' : ℕ) (raw raw' version version' : String) (entity entity' : ℕ)
    (target target' : String)
    → All IsFree (fields enc fetch raw version entity target)
    → All IsFree (fields enc fetch' raw' version' entity' target')
    → (enc.sha256_hex (join (fields enc fetch raw version entity target))
          ≡ enc.sha256_hex (join (fields enc fetch' raw' version' entity' target'))
        → join (fields enc fetch raw version entity target)
          ≡ join (fields enc fetch' raw' version' entity' target'))
    → fields enc fetch raw version entity target ≢ fields enc fetch' raw' version' entity' target'
    → parse_key enc fetch raw version entity target
      ≢ parse_key enc fetch' raw' version' entity' target'
unfolding parse_key
parse_key-distinct enc fetch fetch' raw raw' version version' entity entity' target target' f g
      no_collision differ same =
    differ (
      join-injective (fields enc fetch raw version entity target)
        (fields enc fetch' raw' version' entity' target') f g refl (no_collision same))

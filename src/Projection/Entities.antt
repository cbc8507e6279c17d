-- ===== src/Projection/Entities.antt =====
-- src/collector/persistence/postgres/repositories/entities.py: the index of entities whose counters the
-- projection moves.
use ua_web_data_collector_sp.Base.{
  ℕ, zero, suc, refl, ◌<◌, ◌≤◌, ◌⊎◌, ◌↔◌, inl, inr, Bool-cases, All-map_pred, IsSorted, &&_parts,
  eq_iff, ◌==◌, ◌≡◌, sym, subst, ◌∙◌, ap, min, length, length-take, length-sort, String, Bool, true,
  false, ◌&&◌, Option, none, some, List, [], ◌∷◌, ◌++◌, leb, ltb, str_eq, if◌then◌else◌, is_none,
  sort, take, drop, Perm, All, sort-perm, sort-IsSorted, take-append-drop, take-before-drop, arith,
}
use ua_web_data_collector_sp.Errors.{
  Result, ok, ◌>>=◌, ◌>>◌, IfOk, IfOk-bind, require, or_raise, integrity_error, not_found,
  value_error,
}
use ua_web_data_collector_sp.Clock.{When, resolve_now}
use ua_web_data_collector_sp.Sql.{rows_where, update_where, one_or_none, find}
use ua_web_data_collector_sp.Sql.Select.{take-All}
use ua_web_data_collector_sp.Artifacts.Rows.{DataDomain}
use ua_web_data_collector_sp.Projection.Rows.{EntityIndex, Db, value}
use ua_web_data_collector_sp.Projection.Acknowledge.{entity_row}

pub data EntityKind : Type 0 where
  catalog_item catalog_offer vehicle_listing seller : EntityKind

unfoldable pub kind_value : EntityKind → String
kind_value catalog_item = "catalog_item"
kind_value catalog_offer = "catalog_offer"
kind_value vehicle_listing = "vehicle_listing"
kind_value seller = "seller"

pub record EntityIdentity : Type 0 where
  pub source_id : String
  pub source_item_id : String
  pub domain : DataDomain
  pub entity_kind : EntityKind
  pub identity_hash : Option String
  pub canonical_url : Option String

-- The columns that are not passed take their defaults.
unfoldable pub new_entity : EntityIdentity → (now entity_uuid : ℕ) → EntityIndex
unfolding kind_value
new_entity i now entity_uuid = record {
  entity_uuid = entity_uuid;
  domain = value i.domain;
  entity_kind = kind_value i.entity_kind;
  source_id = i.source_id;
  source_item_id = i.source_item_id;
  identity_hash = i.identity_hash;
  canonical_url = i.canonical_url;
  mongo_collection = none;
  mongo_document_id = none;
  projection_version = 0;
  confirmed_projection_version = 0;
  confirmed_at = none;
  created_at = now;
  updated_at = now;
}

-- `find_entity`
unfoldable pub find_entity : Db → (source_id source_item_id : String) → Option EntityIndex
find_entity db source_id source_item_id = one_or_none (
    rows_where
      (λ (e : EntityIndex). str_eq e.source_id source_id && str_eq e.source_item_id source_item_id)
      db.entities)

-- `get_entity`
unfoldable pub get_entity : Db → (entity_uuid : ℕ) → Option EntityIndex
get_entity db u = find (λ (e : EntityIndex). e.entity_uuid) u db.entities

unfoldable pub upsert_entity :
    Db → EntityIdentity → When → (entity_uuid : ℕ) → Result (EntityIndex × Db)
unfolding find_entity new_entity get_entity
upsert_entity db i w entity_uuid = do
  current ← resolve_now w
  elim (find_entity db i.source_id i.source_item_id) [
    | some e ↦ ok (e, db)
    | none ↦
        require (is_none (get_entity db entity_uuid)) integrity_error
        >> ok (
          new_entity i current entity_uuid,
          record db { entities = db.entities ++ new_entity i current entity_uuid ∷ [] },
        )
  ]

unfoldable pub get_confirmed_version : Db → (entity_uuid : ℕ) → Result ℕ
unfolding entity_row
get_confirmed_version db u = do
  e ← or_raise (entity_row db u) not_found
  ok e.confirmed_projection_version

unfoldable pub linked : (collection : String) → (document_id now : ℕ) → EntityIndex → EntityIndex
linked collection document_id now e = record e {
  mongo_collection = some collection;
  mongo_document_id = some document_id;
  updated_at = now;
}

unfoldable pub set_mongo_document :
    Db
    → (entity_uuid : ℕ) → (collection : String) → (document_id : ℕ) → When
    → Result (EntityIndex × Db)
unfolding entity_row linked
set_mongo_document db u collection document_id w = do
  current ← resolve_now w
  e ← or_raise (entity_row db u) not_found
  ok (
    linked collection document_id current e,
    record db {
      entities =
          update_where (λ x. x.entity_uuid == u) (linked collection document_id current)
            db.entities;
    },
  )

-- ORDER BY confirmed_projection_version, entity_uuid
unfoldable pub index_order : EntityIndex → EntityIndex → Bool
index_order a b =
    if ltb a.confirmed_projection_version b.confirmed_projection_version
    then true
    else if ltb b.confirmed_projection_version a.confirmed_projection_version
    then false
    else leb a.entity_uuid b.entity_uuid

-- (confirmed_projection_version, entity_uuid) > (version, uuid), row by row; no cursor excludes none.
unfoldable pub is_behind : Option (ℕ × ℕ) → EntityIndex → Bool
is_behind none e = true
is_behind (some (version, u)) e =
    if ltb version e.confirmed_projection_version
    then true
    else e.confirmed_projection_version == version && ltb u e.entity_uuid

unfoldable pub is_listed : DataDomain → Option (ℕ × ℕ) → EntityIndex → Bool
unfolding is_behind
is_listed domain after e = str_eq e.domain (value domain) && is_behind after e

unfoldable pub list_entities :
    Db → DataDomain → (after : Option (ℕ × ℕ)) → (limit : ℕ) → Result (List EntityIndex)
unfolding index_order is_listed
list_entities db domain after limit = do
  require (leb 1 limit) value_error
  ok (take limit (sort index_order (rows_where (is_listed domain after) db.entities)))

index_order_total : (a b : EntityIndex) → index_order a b ≡ false → index_order b a ≡ true
unfolding index_order
index_order_total a b h = ground (arith, h)

index_order_trans :
    (a b c : EntityIndex) → index_order a b ≡ true → index_order b c ≡ true → index_order a c ≡ true
unfolding index_order
index_order_trans a b c h k = ground (arith, h, k)

-- Strictly after the cursor, by confirmed version and then by UUID; everything where there is none.
abbrev pub IsPast : Option (ℕ × ℕ) → EntityIndex → Type 0
IsPast none e = Unit {0}
IsPast (some (version, u)) e =
    (version < e.confirmed_projection_version)
    ⊎ ((e.confirmed_projection_version ≡ version) × (u < e.entity_uuid))

-- `x` stands before `y`, by confirmed version and then by UUID.
abbrev pub Precedes : (x y : EntityIndex) → Type 0
Precedes x y =
    (x.confirmed_projection_version < y.confirmed_projection_version)
    ⊎ ((x.confirmed_projection_version ≡ y.confirmed_projection_version)
        × (x.entity_uuid ≤ y.entity_uuid))

-- Each row of the list stands before those behind it.
abbrev pub InOrder : List EntityIndex → Type 0
InOrder [] = Unit {0}
InOrder (x ∷ xs) = All (Precedes x) xs × InOrder xs

index_order-Precedes : (x y : EntityIndex) → index_order x y ≡ true → Precedes x y
unfolding index_order
index_order-Precedes x y h =
    elim (Bool-cases (ltb x.confirmed_projection_version y.confirmed_projection_version)) [
      | inl e ↦ inl (ground arith)
      | inr e ↦ inr (ground arith, ground arith)
    ]

sorted-InOrder : (xs : List EntityIndex) → IsSorted index_order xs → InOrder xs
sorted-InOrder [] s = tt
sorted-InOrder (x ∷ xs) s =
    (All-map_pred _ _ xs (λ y h. index_order-Precedes x y h) s.0, sorted-InOrder xs s.1)

take-InOrder : (n : ℕ) (xs : List EntityIndex) → InOrder xs → InOrder (take n xs)
take-InOrder zero xs h = tt
take-InOrder (suc n) [] h = tt
take-InOrder (suc n) (x ∷ xs) h = (take-All (Precedes x) n xs h.0, take-InOrder n xs h.1)

listed-IsPast :
    (domain : DataDomain) (after : Option (ℕ × ℕ)) (e : EntityIndex)
    → (is_listed domain after e ≡ true) ↔ ((e.domain ≡ value domain) × IsPast after e)
unfolding is_listed is_behind
listed-IsPast domain none e = (
  λ h.
      ((eq_iff e.domain (value domain)).0 (&&_parts (str_eq e.domain (value domain)) true h).0, tt),
  λ h. rw ((eq_iff e.domain (value domain)).1 h.0) refl,
)
listed-IsPast domain (some (version, u)) e = (
  λ h.
      let (same, behind) = &&_parts (str_eq e.domain (value domain)) _ h in
      (
        (eq_iff e.domain (value domain)).0 same,
        elim (Bool-cases (ltb version e.confirmed_projection_version)) [
          | inl later ↦ inl (ground arith)
          | inr later ↦ inr (ground (arith, behind), ground (arith, behind))
        ],
      ),
  λ h. rw ((eq_iff e.domain (value domain)).1 h.0) (past h.1),
)
  where
    past : IsPast (some (version, u)) e → is_behind (some (version, u)) e ≡ true
    past (inl l) = ground (arith, l)
    past (inr (s, l)) = ground (arith, s, l)

-- What a page of the index is.
pub record IsPage (db : Db) (domain : DataDomain) (after : Option (ℕ × ℕ)) (limit : ℕ)
    (page : List EntityIndex) : Type 0 where
  pub listed : EntityIndex → Bool
  pub exactly : (e : EntityIndex) → (listed e ≡ true) ↔ ((e.domain ≡ value domain) × IsPast after e)
  pub rest : List EntityIndex
  pub all : Perm (page ++ rest) (rows_where listed db.entities)
  pub ordered : InOrder page
  pub first : All (λ x. All (Precedes x) rest) page
  pub long : length page ≡ min limit (length (rows_where listed db.entities))

-- A page of the index that is returned is made of the rows of the domain strictly behind the cursor,
-- by confirmed version and then by UUID: it is in that order, no such row that it leaves out comes
-- before one of its rows, and it has as many as the limit allows.
pub list_entities-IsPage :
    (db : Db) (domain : DataDomain) (after : Option (ℕ × ℕ)) (limit : ℕ) (page : List EntityIndex)
    → list_entities db domain after limit ≡ ok page
    → IsPage db domain after limit page
unfolding list_entities
list_entities-IsPage db domain after limit page ran =
    subst (IfOk (IsPage db domain after limit)) ran (
      IfOk-bind (IsPage db domain after limit) (require (leb 1 limit) value_error) _ λ _ _. record {
        listed = is_listed domain after;
        exactly = listed-IsPast domain after;
        rest = drop limit sorted;
        all =
            subst (λ l. Perm l rows) (sym (take-append-drop limit sorted))
              (sort-perm index_order rows);
        ordered = take-InOrder limit sorted (
            sorted-InOrder sorted
              (sort-IsSorted index_order index_order_total index_order_trans rows));
        first =
            All-map_pred _ _ (take limit sorted)
              (λ x h. All-map_pred _ _ (drop limit sorted) (λ y b. index_order-Precedes x y b) h)
              (take-before-drop index_order limit sorted
                (sort-IsSorted index_order index_order_total index_order_trans rows));
        long = length-take limit sorted ∙ ap (min limit) (length-sort index_order rows);
      })
  where
    rows : List EntityIndex
    rows = rows_where (is_listed domain after) db.entities

    sorted : List EntityIndex
    sorted = sort index_order rows

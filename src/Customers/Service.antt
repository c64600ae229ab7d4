-- ===== src/Customers/Service.antt =====
-- Create, Get and Resolve of internal/customers/service.go. What the database has a choice in when
-- it answers the relations of a customer is a parameter. Attributes are their JSON text. The times of
-- the rows are left out.
use orvexa.Base.{
  ◌∷◌, Bool, ℕ, List, if◌then◌else◌, Option, select, some, ◌==◌, any, ◌++◌, ◌&&◌, not, map, ◌||◌,
  find, ltb, length,
}
use orvexa.Customers.Identifiers.{
  Text, IdType, type_name, is_empty, normalize_identifier, trim, size,
}
use orvexa.Bytes.{same_bytes, codes}
use orvexa.Errors.{Result, ok, err, internal_error, not_found_error, conflict_error, invalid_error}
use orvexa.Database.{Db, ◌>>=◌, pure, raise, ◌>>◌, fresh, lift, guard, read, begin, commit}
use mathlib.Core.Option.{none}
use mathlib.Core.List.{[]}
use orvexa.Database.Inserting.{tx_insert}
use orvexa.Database.Querying.{cut, query_rows}

pub record Identifier : Type 0 where
  pub id_type : IdType
  pub value : Text
  pub is_primary : Bool

pub record CreateInput : Type 0 where
  pub display_name : Text
  pub company : Text
  pub language : Text
  pub timezone : Text
  pub attributes : Option Text
  pub identifiers : List Identifier
  pub tags : List Text

pub record CustomerRow : Type 0 where
  pub id : ℕ
  pub tenant_id : ℕ
  pub display_name : Text
  pub company : Text
  pub language : Text
  pub timezone : Text
  pub attributes : Text

pub record IdentifierRow : Type 0 where
  pub id : ℕ
  pub tenant_id : ℕ
  pub customer_id : ℕ
  pub identifier : Identifier

pub record TagRow : Type 0 where
  pub tenant_id : ℕ
  pub customer_id : ℕ
  pub tag : Text

pub record Store : Type 0 where
  pub customers : List CustomerRow
  pub identifiers : List IdentifierRow
  pub tags : List TagRow

pub record Customer : Type 0 where
  pub row : CustomerRow
  pub tags : List Text
  pub identifiers : List Identifier

-- How the database answers a query for relations that is statement n: `by_tag` is its ORDER BY tag,
-- `by_created` its ORDER BY created_at with its choice among equal times, and `broken` tells where
-- the iteration breaks off.
pub record Reading : Type 0 where
  pub by_tag : ℕ → List Text → List Text
  pub by_created : ℕ → List IdentifierRow → List IdentifierRow
  pub broken : ℕ → Option ℕ

abbrev pub is_customer : ℕ → ℕ → CustomerRow → Bool
is_customer tenant id r = r.id == id && r.tenant_id == tenant

abbrev pub has_type : IdType → IdType → Bool
has_type t u = same_bytes (type_name t) (type_name u)

-- WHERE tenant_id = $1 AND type = $2 AND value = $3
unfoldable pub is_identifier : ℕ → IdType → Text → IdentifierRow → Bool
is_identifier tenant t value r =
    r.tenant_id == tenant && has_type r.identifier.id_type t && same_bytes r.identifier.value value

-- defaultStr
unfoldable pub default_str : Text → Text → Text
default_str v def = if is_empty (trim v) then def else v

abbrev pub or_empty : Option Text → Text
or_empty none = codes "{}"
or_empty (some a) = a

-- dedupe: the tags that were seen come first.
unfoldable pub dedupe : List Text → List Text → List Text
dedupe seen [] = []
dedupe seen (s ∷ rest) =
    let others = dedupe seen rest in
    let more = s ∷ dedupe (s ∷ seen) rest in if any (same_bytes s) seen then others else more

abbrev pub key_of : IdType → Text → Text
key_of t value = type_name t ++ b':' ∷ value

unfoldable pub cons_ok : Identifier → Result (List Identifier) → Result (List Identifier)
cons_ok i (ok is) = ok (i ∷ is)
cons_ok i (err e) = err e

abbrev pub is_of : ℕ → ℕ → IdentifierRow → Bool
is_of tenant id r = r.customer_id == id && r.tenant_id == tenant

abbrev pub is_tag_of : ℕ → ℕ → TagRow → Bool
is_tag_of tenant id r = r.customer_id == id && r.tenant_id == tenant

-- The JOIN with customers.
unfoldable pub is_joined : Store → IdentifierRow → Bool
is_joined s r = any (λ c. c.id == r.customer_id) s.customers

-- ORDER BY is_primary DESC
abbrev pub primary_first : List IdentifierRow → List IdentifierRow
primary_first rows =
    select (λ r. r.identifier.is_primary) rows ++ select (λ r. not r.identifier.is_primary) rows

unfoldable pub or_not_found {ℓ} : {A : Type ℓ} → Option A → Db Store A
or_not_found none = raise (not_found_error "customer.not_found")
or_not_found (some a) = pure a

unfoldable pub insert_customer : CustomerRow → Db Store (Unit {0})
insert_customer r =
    tx_insert (internal_error "db.write_failed") (conflict_error "customer.conflict")
      (λ s. any (λ c. c.id == r.id) s.customers)
      (λ s. record s { customers = s.customers ++ r ∷ [] })

-- UNIQUE (tenant_id, type, value)
unfoldable pub insert_identifier : IdentifierRow → Db Store (Unit {0})
insert_identifier r =
    tx_insert (internal_error "db.write_failed") (conflict_error "customer.identifier_exists")
      (λ s. any (is_identifier r.tenant_id r.identifier.id_type r.identifier.value) s.identifiers)
      (λ s. record s { identifiers = s.identifiers ++ r ∷ [] })

unfoldable pub insert_identifiers : ℕ → ℕ → List Identifier → Db Store (Unit {0})
insert_identifiers tenant id [] = pure tt
insert_identifiers tenant id (i ∷ is) = do
  row ← fresh
  insert_identifier (record { id = row; tenant_id = tenant; customer_id = id; identifier = i })
  insert_identifiers tenant id is

-- PRIMARY KEY (tenant_id, customer_id, tag)
unfoldable pub insert_tag : TagRow → Db Store (Unit {0})
insert_tag r =
    tx_insert (internal_error "db.write_failed") (internal_error "db.write_failed")
      (λ s. any (λ q. is_tag_of r.tenant_id r.customer_id q && same_bytes q.tag r.tag) s.tags)
      (λ s. record s { tags = s.tags ++ r ∷ [] })

unfoldable pub insert_tags : ℕ → ℕ → List Text → Db Store (Unit {0})
insert_tags tenant id [] = pure tt
insert_tags tenant id (tag ∷ tags) = do
  guard (not (is_empty tag || ltb 64 (size tag))) (invalid_error "customer.invalid_tag")
  insert_tag (record { tenant_id = tenant; customer_id = id; tag = tag })
  insert_tags tenant id tags

-- One identifier of a request, with its normal form and the rest after its key was seen.
unfoldable pub add_identifier :
    List Text
    → Identifier
    → Result Text
    → (List Text → Result (List Identifier))
    → Result (List Identifier)
unfolding cons_ok
add_identifier seen i (err e) next = err e
add_identifier seen i (ok value) next =
    if any (same_bytes (key_of i.id_type value)) seen
    then err (invalid_error "customer.duplicate_identifier")
    else cons_ok (record i { value = value }) (next (key_of i.id_type value ∷ seen))

module _ (to_lower : ℕ → ℕ) where
  -- The keys that were seen come first.
  unfoldable pub normalize_all : List Text → List Identifier → Result (List Identifier)
  unfolding add_identifier
  normalize_all seen [] = ok []
  normalize_all seen (i ∷ is) =
      add_identifier seen i (normalize_identifier to_lower i.id_type i.value)
        (λ keys. normalize_all keys is)

  abbrev pub row_of : ℕ → ℕ → CreateInput → CustomerRow
  row_of tenant id input = record {
    id = id;
    tenant_id = tenant;
    display_name = input.display_name;
    company = input.company;
    language = default_str input.language (codes "en");
    timezone = default_str input.timezone (codes "Africa/Nairobi");
    attributes = or_empty input.attributes;
  }

  module _ (reading : Reading) where
    abbrev pub identifiers_of : ℕ → ℕ → ℕ → Store → List Identifier
    identifiers_of tenant id n s =
        map (λ q. q.identifier)
          (primary_first (reading.by_created n (select (is_of tenant id) s.identifiers)))

    abbrev pub tags_of : ℕ → ℕ → ℕ → Store → List Text
    tags_of tenant id n s =
        reading.by_tag n (map (λ q. q.tag) (select (is_tag_of tenant id) s.tags))

    -- What statement n reads of a row's identifiers, and statement m of its tags.
    abbrev pub view : ℕ → ℕ → ℕ → CustomerRow → Store → Customer
    view tenant n m r s = record {
      row = r;
      identifiers = cut (reading.broken n) (identifiers_of tenant r.id n s);
      tags = cut (reading.broken m) (tags_of tenant r.id m s);
    }

    -- attachRelations
    unfoldable pub attach_relations : ℕ → CustomerRow → Db Store Customer
    attach_relations tenant r = do
      ids ← query_rows reading.broken (identifiers_of tenant r.id)
      tags ← query_rows reading.broken (tags_of tenant r.id)
      pure (record { row = r; tags = tags; identifiers = ids })

    unfoldable pub get : ℕ → ℕ → Db Store Customer
    get tenant id = do
      found ← read (internal_error "db.read_failed") (λ s. find (is_customer tenant id) s.customers)
      row ← or_not_found found
      attach_relations tenant row

    unfoldable pub create : ℕ → CreateInput → Db Store Customer
    create tenant input = do
      guard (ltb 0 (length input.identifiers)) (invalid_error "customer.identifiers_required")
      norm ← lift (normalize_all [] input.identifiers)
      id ← fresh
      begin (internal_error "db.tx_failed")
      insert_customer (row_of tenant id input)
      insert_identifiers tenant id norm
      insert_tags tenant id (dedupe [] input.tags)
      commit (internal_error "db.commit_failed")
      get tenant id

    unfoldable pub resolve : ℕ → IdType → Text → Db Store Customer
    resolve tenant t value = do
      val ← lift (normalize_identifier to_lower t value)
      found ←
          read (internal_error "db.read_failed")
            (λ s. find (is_identifier tenant t val) (select (is_joined s) s.identifiers))
      row ← or_not_found found
      get tenant row.customer_id

-- ===== src/Customers/Rows.antt =====
-- The INSERTs of Create in internal/customers/service.go, and the uniqueness that they keep.
use orvexa.Base.{
  ◌∷◌, List, ℕ, ◌≡◌, any, ◌++◌, false, map, [], sym, any-append, arith, All, append-nil, refl, ◌∙◌,
  append_assoc, ap,
}
use orvexa.Customers.Identifiers.{type_name}
use orvexa.Customers.Service.{
  Store, is_identifier, insert_identifiers, IdentifierRow, Identifier, insert_identifier,
}
use orvexa.Database.{World}
use orvexa.Database.Rules.{Post, pure-Post, fresh_then, Post-map}
use orvexa.Bytes.{same_bytes_comm}
use mathlib.Core.List.{[]}
use orvexa.Database.Inserting.{tx_insert_then}

-- No two rows have the tenant, the type and the value in common.
abbrev pub IsUnique : List IdentifierRow → Type 0
IsUnique [] = Unit
IsUnique (r ∷ rs) =
    (any (is_identifier r.tenant_id r.identifier.id_type r.identifier.value) rs ≡ false)
    × IsUnique rs

pub is_identifier_comm :
    (r q : IdentifierRow)
    → is_identifier r.tenant_id r.identifier.id_type r.identifier.value q
      ≡ is_identifier q.tenant_id q.identifier.id_type q.identifier.value r
unfolding is_identifier
is_identifier_comm r q =
    rw
      (
        same_bytes_comm (type_name q.identifier.id_type) (type_name r.identifier.id_type),
        same_bytes_comm q.identifier.value r.identifier.value,
      )
      (ground arith)

IsUnique-append :
    (rs : List IdentifierRow) (r : IdentifierRow)
    → IsUnique rs
    → any (is_identifier r.tenant_id r.identifier.id_type r.identifier.value) rs ≡ false
    → IsUnique (rs ++ r ∷ [])
IsUnique-append [] r h free = (refl, tt)
IsUnique-append (q ∷ rs) r h free = (apart, IsUnique-append rs r h.1 (ground arith))
  where
    apart :
        any (is_identifier q.tenant_id q.identifier.id_type q.identifier.value) (rs ++ r ∷ [])
        ≡ false
    apart =
        rw
          (
            any-append (is_identifier q.tenant_id q.identifier.id_type q.identifier.value) rs
                (r ∷ []),
            h.0,
            is_identifier_comm q r,
          )
          (ground arith)

-- The rows of the identifiers, added in their order.
pub record Inserted (tenant id : ℕ) (is : List Identifier) (w v : World Store) : Type 0 where
  pub db : v.db ≡ w.db
  pub customers : v.tx.customers ≡ w.tx.customers
  pub tags : v.tx.tags ≡ w.tx.tags
  pub rows : List IdentifierRow
  pub identifiers : v.tx.identifiers ≡ w.tx.identifiers ++ rows
  pub are : map (λ r. r.identifier) rows ≡ is
  pub of : All (λ r. (r.customer_id ≡ id) × (r.tenant_id ≡ tenant)) rows
  pub unique : IsUnique w.tx.identifiers → IsUnique v.tx.identifiers

pub insert_identifiers-Post :
    (tenant id : ℕ) (is : List Identifier) (w : World Store)
    → Post
        (λ _ v. Inserted tenant id is w v)
        (λ e v. v.db ≡ w.db)
        (insert_identifiers tenant id is w)
unfolding insert_identifiers insert_identifier
insert_identifiers-Post tenant id [] w = pure-Post _ _ (record {
  db = refl;
  customers = refl;
  tags = refl;
  rows = [];
  identifiers = sym (append-nil w.tx.identifiers);
  are = refl;
  of = tt;
  unique = λ h. h;
})
insert_identifiers-Post tenant id (i ∷ is) w =
    let r : IdentifierRow = record {
      id = w.next_id;
      tenant_id = tenant;
      customer_id = id;
      identifier = i;
    } in
    fresh_then _ _ (
      tx_insert_then _ _ _ _ _ _ refl (λ taken. refl)
        λ free.
          Post-map
            (λ _ v more. record {
              db = more.db;
              customers = more.customers;
              tags = more.tags;
              rows = r ∷ more.rows;
              identifiers = more.identifiers ∙ append_assoc w.tx.identifiers (r ∷ []) more.rows;
              are = ap (◌∷◌ i) more.are;
              of = ((refl, refl), more.of);
              unique = λ h. more.unique (IsUnique-append w.tx.identifiers r h free);
            })
            (λ e v same. same) (insert_identifiers-Post tenant id is _))

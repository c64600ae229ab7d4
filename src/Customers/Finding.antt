-- ===== src/Customers/Finding.antt =====
-- What the tables of internal/customers/service.go hold of an identifier that Create accepted.
use orvexa.Base.{
  ◌∷◌, ℕ, Bool, List, ◌≡◌, any, In, true, false, find, inl, select, some, arith, subst, ap, sym,
  inr, Bool-cases, refl, ◌≢◌, ◌∙◌, ◌++◌, map, All,
}
use orvexa.Customers.Identifiers.{Text, type_name, normalize_identifier}
use orvexa.Customers.Service.{
  IdentifierRow, is_identifier, normalize_all, add_identifier, Identifier, key_of, cons_ok,
}
use orvexa.Customers.Rows.{IsUnique, is_identifier_comm}
use orvexa.Bytes.{same_bytes_refl, same_bytes}
use orvexa.Errors.{ok, Result, err, Error}
use mathlib.Core.List.{[]}

is_own_identifier :
    (r : IdentifierRow) → is_identifier r.tenant_id r.identifier.id_type r.identifier.value r ≡ true
unfolding is_identifier
is_own_identifier r =
    rw (same_bytes_refl (type_name r.identifier.id_type), same_bytes_refl r.identifier.value)
      (ground arith)

skipped :
    (r q : IdentifierRow) (qs : List IdentifierRow)
    → any (is_identifier q.tenant_id q.identifier.id_type q.identifier.value) qs ≡ false
    → In r qs
    → is_identifier r.tenant_id r.identifier.id_type r.identifier.value q ≡ false
skipped r q [] free m = absurd m
skipped r q (x ∷ qs) free (inl same) =
    is_identifier_comm r q
    ∙ ap (is_identifier q.tenant_id q.identifier.id_type q.identifier.value) same
    ∙ ground arith
skipped r q (x ∷ qs) free (inr m) = skipped r q qs (ground arith) m

-- Among unique rows, a row is found by its key.
pub find_unique :
    (j : IdentifierRow → Bool) (r : IdentifierRow) (rows : List IdentifierRow)
    → IsUnique rows
    → In r rows
    → j r ≡ true
    → find (is_identifier r.tenant_id r.identifier.id_type r.identifier.value) (select j rows)
      ≡ some r
find_unique j r [] u m joined = absurd m
find_unique j r (q ∷ rows) u (inl same) joined =
    let at_q : j q ≡ true = subst (λ x. j x ≡ true) same joined in
    let own : is_identifier r.tenant_id r.identifier.id_type r.identifier.value q ≡ true =
      subst (λ x. is_identifier r.tenant_id r.identifier.id_type r.identifier.value x ≡ true) same
        (is_own_identifier r) in
    rw (at_q, own) (ap some (sym same))
find_unique j r (q ∷ rows) u (inr m) joined =
    let rest = find_unique j r rows u.1 m joined in
    elim (Bool-cases (j q)) [
      | inl here ↦ rw (here, skipped r q rows u.0 m) rest
      | inr out ↦ rw out rest
    ]

abbrev Parts :
    List Text
    → Identifier
    → Result Text
    → (List Text → Result (List Identifier))
    → List Identifier
    → Type 0
Parts seen x r next norm =
    (u : Text) × ((rest : List Identifier) × (r ≡ ok u)
      × (next (key_of x.id_type u ∷ seen) ≡ ok rest)
      × (norm ≡ (record x { value = u }) ∷ rest))

add_identifier-Parts :
    (seen : List Text) (x : Identifier) (r : Result Text)
    (next : List Text → Result (List Identifier)) (norm : List Identifier)
    → add_identifier seen x r next ≡ ok norm
    → Parts seen x r next norm
unfolding add_identifier cons_ok
add_identifier-Parts seen x (err e) next norm h = cc
add_identifier-Parts seen x (ok u) next norm h =
    elim (Bool-cases (any (same_bytes (key_of x.id_type u)) seen)) [
      | inl twice ↦ absurd (refused _ norm (rw twice at h))
      | inr once ↦ with_rest (next (key_of x.id_type u ∷ seen)) refl (rw once at h)
    ]
  where
    refused : (e : Error) (is : List Identifier) → err e ≢ ok is
    refused e is p = cc

    with_rest :
        (q : Result (List Identifier))
        → next (key_of x.id_type u ∷ seen) ≡ q
        → cons_ok (record x { value = u }) q ≡ ok norm
        → Parts seen x (ok u) next norm
    with_rest (err e) same k = cc
    with_rest (ok rest) same k = (u, (rest, refl, same, cc))

module _ (to_lower : ℕ → ℕ) where
  -- Each identifier of a request is accepted, and its normal form is in the list.
  pub In-normalize_all :
      (seen : List Text) (is norm : List Identifier) (i : Identifier)
      → normalize_all to_lower seen is ≡ ok norm
      → In i is
      → (u : Text) × (normalize_identifier to_lower i.id_type i.value ≡ ok u)
        × In (record i { value = u }) norm
  unfolding normalize_all add_identifier
  In-normalize_all seen [] norm i h m = absurd m
  In-normalize_all seen (x ∷ is) norm i h m =
      let (u, (rest, is_u, is_rest, is_norm)) =
        add_identifier-Parts seen x (normalize_identifier to_lower x.id_type x.value)
          (λ keys. normalize_all to_lower keys is) norm h in
      elim m [
        | inl same ↦ (
          u,
          subst (λ y. normalize_identifier to_lower y.id_type y.value ≡ ok u) (sym same) is_u,
          subst (λ ns. In (record i { value = u }) ns) (sym is_norm)
              (inl (ap {A = Identifier} (λ y. record y { value = u }) same)),
        )
        | inr later ↦
            let (v, is_v, found) =
              In-normalize_all (key_of x.id_type u ∷ seen) is rest i is_rest later in
            (v, is_v, subst (λ ns. In (record i { value = v }) ns) (sym is_norm) (inr found))
      ]

  -- The row of an identifier of the list.
  pub In-rows :
      (tenant id : ℕ) (rows : List IdentifierRow) (norm : List Identifier) (i : Identifier)
      → map (λ r. r.identifier) rows ≡ norm
      → All (λ r. (r.customer_id ≡ id) × (r.tenant_id ≡ tenant)) rows
      → In i norm
      → (r : IdentifierRow) × (In r rows
          × (r.identifier ≡ i)
          × (r.customer_id ≡ id)
          × (r.tenant_id ≡ tenant))
  In-rows tenant id [] norm i are of m = absurd (subst (λ ns. In i ns) (sym are) m)
  In-rows tenant id (r ∷ rows) norm i are of m = elim (subst (λ ns. In i ns) (sym are) m) [
    | inl same ↦ (r, (inl refl, sym same, of.0.0, of.0.1))
    | inr later ↦
        let (q, (there, is_i, c, t)) = In-rows tenant id rows _ i refl of.1 later in
        (q, (inr there, is_i, c, t))
  ]

pub In-append : {A : Type 0} (a : A) (xs ys : List A) → In a ys → In a (xs ++ ys)
In-append a [] ys m = m
In-append a (x ∷ xs) ys m = inr (In-append a xs ys m)

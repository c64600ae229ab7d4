-- ===== src/Customers/Resolving.antt =====
-- Resolve of internal/customers/service.go finds what Create stored, however it is spelt.
use orvexa.Base.{
  ◌∷◌, ℕ, List, ◌≡◌, any, In, true, find, inl, select, some, arith, subst, ap, sym, inr, refl, ◌≢◌,
  ◌∙◌, ◌++◌, ◌==◌, Option, ◌⊎◌, none,
}
use orvexa.Customers.Identifiers.{Text, normalize_identifier}
use orvexa.Customers.Service.{
  IdentifierRow, is_identifier, Identifier, is_joined, CreateInput, Store, create, Customer, row_of,
  CustomerRow, resolve, or_not_found, is_customer, Reading,
}
use orvexa.Customers.Rows.{IsUnique}
use orvexa.Errors.{ok, err, Error, internal}
use mathlib.Core.List.{[]}
use orvexa.Database.{World}
use orvexa.Customers.Creating.{Creates, create-Creates, find-new, get-Post, IsRead}
use orvexa.Database.Rules.{Post, Post-ok, Post-map, lift_then, read_then, pure_then}
use orvexa.Customers.Finding.{In-normalize_all, In-rows, In-append, find_unique}

any-new :
    (id : ℕ) (rows : List CustomerRow) (r : CustomerRow)
    → r.id ≡ id
    → any (λ c. c.id == id) (rows ++ r ∷ []) ≡ true
any-new id [] r same = ground arith
any-new id (q ∷ rows) r same = ground (arith, any-new id rows r same)

module _ (to_lower : ℕ → ℕ) (reading : Reading) where
  -- The row that the identifier of a request has in the tables.
  stored_row :
      (tenant : ℕ) (input : CreateInput) (w : World Store) (s : Store) (i : Identifier)
      → Creates to_lower reading tenant input w s
      → IsUnique w.db.identifiers
      → In i input.identifiers
      → (u : Text) × (r : IdentifierRow) × (normalize_identifier to_lower i.id_type i.value ≡ ok u)
        × (r.customer_id ≡ w.next_id)
        × (find (is_identifier tenant i.id_type u) (select (is_joined s) s.identifiers) ≡ some r)
  unfolding is_joined
  stored_row tenant input w s i done unique m =
      let (u, is_u, in_norm) =
        In-normalize_all to_lower [] input.identifiers done.norm i done.normal m in
      let (r, (in_rows, is_i, owner, of)) =
        In-rows to_lower tenant w.next_id done.rows done.norm (record i { value = u }) done.are
          done.of in_norm in
      let there : In r s.identifiers =
        subst (λ rs. In r rs) (sym done.identifiers)
          (In-append r w.db.identifiers done.rows in_rows) in
      let joined : any (λ c. c.id == r.customer_id) s.customers ≡ true =
        rw (done.customers, owner)
          (any-new w.next_id w.db.customers (row_of to_lower tenant w.next_id input) refl) in
      let here = find_unique (is_joined s) r s.identifiers (done.unique unique) there joined in
      (
        u,
        r,
        is_u,
        owner,
        subst
            (λ t. find (is_identifier t i.id_type u) (select (is_joined s) s.identifiers) ≡ some r)
            of
            (subst
              (λ j.
                find (is_identifier r.tenant_id j.id_type j.value)
                  (select (is_joined s) s.identifiers)
                ≡ some r)
              is_i here),
      )

  resolve-Creates :
      (now : Reading) (tenant : ℕ) (input : CreateInput) (w v : World Store) (i : Identifier)
      → Creates to_lower reading tenant input w v.db
      → IsUnique w.db.identifiers
      → In i input.identifiers
      → Post
          (λ d x. IsRead to_lower now tenant (row_of to_lower tenant w.next_id input) v.db d)
          (λ e x. e.kind ≡ internal)
          (resolve to_lower now tenant i.id_type i.value v)
  unfolding resolve or_not_found
  resolve-Creates now tenant input w v i done unique m =
      let (u, r, is_u, owner, found) = stored_row tenant input w v.db i done unique m in
      let there : find (is_customer tenant r.customer_id) v.db.customers
          ≡ some (row_of to_lower tenant w.next_id input) =
        rw (owner, done.customers)
          (find-new to_lower reading tenant input w w.db.customers done.is_new) in
      lift_then _ _ _ (λ e bad. absurd (ok_err u e (sym is_u ∙ bad)))
        λ val is_val. read_then _ _ _ _ refl (
          rw (same_ok val u (sym is_val ∙ is_u), found)
            (pure_then _ _ _ (
              Post-map
                (λ d x (same, (q, at, seen)).
                  subst (λ y. IsRead to_lower now tenant y v.db d)
                    (some_same q (row_of to_lower tenant w.next_id input) (sym at ∙ there)) seen)
                (λ e x (same, why). kind e why there)
                (get-Post to_lower now tenant r.customer_id _))))
    where
      ok_err : (a : Text) (e : Error) → ok a ≢ err e
      ok_err a e p = cc

      same_ok : (a b : Text) → ok a ≡ ok b → a ≡ b
      same_ok a b p = cc

      some_same : (a b : CustomerRow) → some a ≡ some b → a ≡ b
      some_same a b p = cc

      kind :
          {o : Option CustomerRow} {c : CustomerRow} (e : Error)
          → (e.kind ≡ internal) ⊎ (o ≡ none)
          → o ≡ some c
          → e.kind ≡ internal
      kind e (inl k) p = k
      kind e (inr gone) p = cc

  -- Every identifier of a request that Create accepted resolves, under each spelling of the request,
  -- to the customer that Create answered, as long as the tables stay as they are: its row is the
  -- same, and its identifiers and tags are those of the tables, or the first of them where the read
  -- broke off. The lookup fails only where a statement fails.
  pub resolve-create :
      (now : Reading) (tenant : ℕ) (input : CreateInput) (w v : World Store) (i : Identifier)
      (c : Customer)
      → IsUnique w.db.identifiers
      → (create to_lower reading tenant input w).0 ≡ ok c
      → In i input.identifiers
      → v.db ≡ (create to_lower reading tenant input w).1.db
      → Post
          (λ d x. (d.row ≡ c.row) × IsRead to_lower now tenant c.row v.db d)
          (λ e x. e.kind ≡ internal)
          (resolve to_lower now tenant i.id_type i.value v)
  resolve-create now tenant input w v i c unique made m same =
      let (done, (n, (k, is_c))) =
        Post-ok c (create-Creates to_lower reading tenant input w) made in
      Post-map
        (λ d x (p, (q, is_d)). (
          ap (λ y. y.row) is_d ∙ sym (ap (λ y. y.row) is_c),
          subst (λ r. IsRead to_lower now tenant r v.db d) (sym (ap (λ y. y.row) is_c))
              (p, (q, is_d)),
        ))
        (λ e x k. k) (resolve-Creates now tenant input w v i (rw same done) unique m)

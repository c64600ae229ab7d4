-- ===== src/Customers/Creating.antt =====
-- Create of internal/customers/service.go: what is committed, and that no identifier forks.
use orvexa.Base.{
  ◌∷◌, ℕ, List, ◌≡◌, ◌++◌, sym, find, any, Bool-cases, append-nil, some, ◌==◌, false, ◌∙◌, inl, ◌⊎◌,
  ap, none, map, inr, All, append_assoc, Option-cases, refl, arith, subst,
}
use orvexa.Customers.Identifiers.{Text}
use orvexa.Customers.Service.{
  Store, CreateInput, create, get, or_not_found, insert_tag, insert_tags, TagRow, attach_relations,
  Identifier, CustomerRow, normalize_all, is_customer, view, row_of, IdentifierRow, dedupe,
  insert_customer, Reading, Customer,
}
use orvexa.Customers.Rows.{IsUnique, insert_identifiers-Post}
use orvexa.Database.Rules.{
  Post, pure-Post, guard_then, bind-Post, Post-map, read_then, raise-Post, pure_then, lift_then,
  fresh_then, begin_then, commit_then,
}
use mathlib.Core.List.{[]}
use orvexa.Database.{World}
use orvexa.Errors.{ok, internal, Error}
use orvexa.Database.Inserting.{tx_insert_then}
use orvexa.Database.Querying.{query_rows_then}

abbrev pub tag_rows : ℕ → ℕ → List Text → List TagRow
tag_rows tenant id [] = []
tag_rows tenant id (tag ∷ tags) =
    (record { tenant_id = tenant; customer_id = id; tag = tag }) ∷ tag_rows tenant id tags

record Tagged (tenant id : ℕ) (ts : List Text) (w v : World Store) : Type 0 where
  pub db : v.db ≡ w.db
  pub customers : v.tx.customers ≡ w.tx.customers
  pub identifiers : v.tx.identifiers ≡ w.tx.identifiers
  pub tags : v.tx.tags ≡ w.tx.tags ++ tag_rows tenant id ts

insert_tags-Post :
    (tenant id : ℕ) (tags : List Text) (w : World Store)
    → Post (λ _ v. Tagged tenant id tags w v) (λ e v. v.db ≡ w.db) (insert_tags tenant id tags w)
unfolding insert_tags insert_tag
insert_tags-Post tenant id [] w =
    pure-Post _ _ (record {
      db = refl;
      customers = refl;
      identifiers = refl;
      tags = sym (append-nil w.tx.tags);
    })
insert_tags-Post tenant id (tag ∷ tags) w =
    let r : TagRow = record { tenant_id = tenant; customer_id = id; tag = tag } in
    guard_then _ _ _ _ refl λ _.
      tx_insert_then _ _ _ _ _ _ refl (λ taken. refl)
        λ free.
          Post-map
            (λ _ x t. record {
              db = t.db;
              customers = t.customers;
              identifiers = t.identifiers;
              tags = t.tags ∙ append_assoc w.tx.tags (r ∷ []) (tag_rows tenant id tags);
            })
            (λ e x same. same) (insert_tags-Post tenant id tags _)

-- The customer of the row, with the relations that two statements read.
abbrev pub IsRead : (ℕ → ℕ) → Reading → ℕ → CustomerRow → Store → Customer → Type 0
IsRead to_lower reading tenant r s c =
    (n : ℕ) × ((m : ℕ) × (c ≡ view to_lower reading tenant n m r s))

module _ (to_lower : ℕ → ℕ) (reading : Reading) where
  -- The customer of the request, committed with its identifiers in their normal forms and its tags.
  pub record Creates (tenant : ℕ) (input : CreateInput) (w : World Store) (s : Store) : Type 0 where
    pub norm : List Identifier
    pub normal : normalize_all to_lower [] input.identifiers ≡ ok norm
    pub is_new : any (λ c. c.id == w.next_id) w.db.customers ≡ false
    pub customers : s.customers ≡ w.db.customers ++ row_of to_lower tenant w.next_id input ∷ []
    pub rows : List IdentifierRow
    pub identifiers : s.identifiers ≡ w.db.identifiers ++ rows
    pub are : map (λ r. r.identifier) rows ≡ norm
    pub of : All (λ r. (r.customer_id ≡ w.next_id) × (r.tenant_id ≡ tenant)) rows
    pub tags : s.tags ≡ w.db.tags ++ tag_rows tenant w.next_id (dedupe [] input.tags)
    pub unique : IsUnique w.db.identifiers → IsUnique s.identifiers

  pub get-Post :
      (tenant id : ℕ) (w : World Store)
      → Post
          (λ c v.
            (v.db ≡ w.db)
            × ((r : CustomerRow) × (find (is_customer tenant id) w.db.customers ≡ some r)
                × IsRead to_lower reading tenant r w.db c))
          (λ e v.
            (v.db ≡ w.db)
            × ((e.kind ≡ internal) ⊎ (find (is_customer tenant id) w.db.customers ≡ none)))
          (get to_lower reading tenant id w)
  unfolding get attach_relations or_not_found
  get-Post tenant id w =
      read_then _ _ _ _ (refl, inl refl)
        (elim (Option-cases (find (is_customer tenant id) w.db.customers)) [
          | inl gone ↦ rw gone (bind-Post _ _ _ (raise-Post _ _ (refl, inr refl)))
          | inr (r, here) ↦ rw here (
              pure_then _ _ _ (
                query_rows_then _ _ _ _ (refl, inl refl) (refl, inl refl)
                  (query_rows_then _ _ _ _ (refl, inl refl) (refl, inl refl)
                    (pure-Post _ _ (refl, (r, refl, (_, (_, refl))))))))
        ])

  abbrev pub created : (tenant : ℕ) (input : CreateInput) (w : World Store) → CustomerRow
  created tenant input w = row_of to_lower tenant w.next_id input

  pub find-new :
      (tenant : ℕ) (input : CreateInput) (w : World Store) (rows : List CustomerRow)
      → any (λ c. c.id == w.next_id) rows ≡ false
      → find (is_customer tenant w.next_id) (rows ++ created tenant input w ∷ [])
        ≡ some (created tenant input w)
  find-new tenant input w [] free = ground arith
  find-new tenant input w (r ∷ rows) free = elim (Bool-cases (r.id == w.next_id)) [
    | inl same ↦ ground (arith, same)
    | inr other ↦ rw other (find-new tenant input w rows (rw other at free))
  ]

  get-Creates :
      (tenant : ℕ) (input : CreateInput) (w : World Store) (s : Store)
      → Creates tenant input w s
      → (v : World Store) → v.db ≡ s
      → Post
          (λ c x.
            Creates tenant input w x.db
            × IsRead to_lower reading tenant (created tenant input w) x.db c)
          (λ e x. (x.db ≡ w.db) ⊎ (Creates tenant input w x.db × (e.kind ≡ internal)))
          (get to_lower reading tenant w.next_id v)
  get-Creates tenant input w s done v is_s =
      let here : find (is_customer tenant w.next_id) v.db.customers
          ≡ some (row_of to_lower tenant w.next_id input) =
        rw (is_s, done.customers) (find-new tenant input w w.db.customers done.is_new) in
      Post-map
        (λ c x (same, (r, found, seen)). (
          rw (same, is_s) done,
          subst (λ s. IsRead to_lower reading tenant (created tenant input w) s c) (sym same)
              (subst (λ y. IsRead to_lower reading tenant y v.db c)
                (some_same r (created tenant input w) (sym found ∙ here)) seen),
        ))
        (λ e x (same, why). inr (rw (same, is_s) done, kind e why here))
        (get-Post tenant w.next_id v)
    where
      some_same : (a b : CustomerRow) → some a ≡ some b → a ≡ b
      some_same a b h = cc

      kind :
          (e : Error)
          → (e.kind ≡ internal) ⊎ (find (is_customer tenant w.next_id) v.db.customers ≡ none)
          → find (is_customer tenant w.next_id) v.db.customers
            ≡ some (row_of to_lower tenant w.next_id input)
          → e.kind ≡ internal
      kind e (inl k) h = k
      kind e (inr gone) h = cc

  -- Create commits one customer together with every identifier of the request in its normal form
  -- and every tag once, and answers what it reads back of it, which is all that the tables hold where
  -- no read of the relations breaks off; no identifier of the tenant is then in two rows, if none
  -- was. An error has committed nothing, unless only the last read failed.
  pub create-Creates :
      (tenant : ℕ) (input : CreateInput) (w : World Store)
      → Post
          (λ c v.
            Creates tenant input w v.db
            × IsRead to_lower reading tenant (created tenant input w) v.db c)
          (λ e v. (v.db ≡ w.db) ⊎ (Creates tenant input w v.db × (e.kind ≡ internal)))
          (create to_lower reading tenant input w)
  unfolding create insert_customer
  create-Creates tenant input w = guard_then _ _ _ _ (inl refl) λ _.
      lift_then _ _ _ (λ e bad. inl refl)
        λ norm normal. fresh_then _ _ (
          begin_then _ _ _ (inl refl) (
            tx_insert_then _ _ _ _ _ _ (inl refl) (λ taken. inl refl)
              λ is_new. bind-Post _ _ _ (
                Post-map
                  (λ _ v i. bind-Post _ _ _ (
                    Post-map
                      (λ _ x t. commit_then _ _ _ (inl (t.db ∙ i.db)) (
                        let done : Creates tenant input w x.tx = record {
                          norm = norm;
                          normal = normal;
                          is_new = is_new;
                          customers = t.customers ∙ i.customers;
                          rows = i.rows;
                          identifiers = t.identifiers ∙ i.identifiers;
                          are = i.are;
                          of = i.of;
                          tags =
                              t.tags
                              ∙ ap (λ ts. ts ++ tag_rows tenant w.next_id (dedupe [] input.tags))
                                  i.tags;
                          unique = λ u. rw t.identifiers (i.unique u);
                        } in
                        get-Creates tenant input w x.tx done _ refl))
                      (λ e x same. inl (same ∙ i.db))
                      (insert_tags-Post tenant w.next_id (dedupe [] input.tags) v)))
                  (λ e v same. inl same) (insert_identifiers-Post tenant w.next_id norm _))))

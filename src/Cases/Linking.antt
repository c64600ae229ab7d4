-- ===== src/Cases/Linking.antt =====
-- LinkInteraction and AddNote of internal/cases/service.go.
use orvexa.Base.{
  ◌∷◌, ℕ, ◌≡◌, true, ◌⊎◌, any, ◌==◌, ◌&&◌, false, ◌++◌, Bool-cases, inl, [], inr, arith, refl,
  String, Bool, List, update_where, map,
}
use orvexa.Cases.Service.{link_interaction, insert_link, is_linkable, add_note}
use orvexa.Cases.Store.{Store, owns, is_case, Case, Note}
use orvexa.Database.{World, ◌>>=◌, attempt, guard}
use orvexa.Database.Rules.{
  Post, fails, returns, guard_then, read_then, fresh_then, exec_then, now_then, bind-Post,
  pure-Post,
}
use orvexa.Errors.{internal_error, not_found_error, Error}
use orvexa.Database.Outcomes.{try-Post, exec-Post}

-- The call returned: both sides are the tenant's, and one new link was committed.
pub record Links (tenant id interaction : ℕ) (s t : Store) : Type 0 where
  pub mine : owns tenant interaction s.interactions ≡ true
  pub there : any (is_case tenant id) s.cases ≡ true
  pub fresh_link : any (λ (c, i). c == id && i == interaction) s.links ≡ false
  pub added : t.links ≡ s.links ++ (id, interaction) ∷ []
  pub rest : (t.cases ≡ s.cases) × (t.notes ≡ s.notes) × (t.outbox ≡ s.outbox)

-- The call failed: nothing was committed, and the statement failed or there was nothing to link.
abbrev pub Unlinked : ℕ → ℕ → ℕ → World Store → Error → World Store → Type 0
Unlinked tenant id interaction w e v =
    (v.db ≡ w.db)
    × ((e ≡ internal_error "db.write_failed")
        ⊎ ((e ≡ not_found_error "case.link_target_not_found")
            × (is_linkable tenant id interaction w.db ≡ false)))

link_parts :
    (tenant id interaction : ℕ) (s : Store)
    → is_linkable tenant id interaction s ≡ true
    → (owns tenant interaction s.interactions ≡ true)
      × (any (is_case tenant id) s.cases ≡ true)
      × (any (λ (c, i). c == id && i == interaction) s.links ≡ false)
unfolding is_linkable
link_parts tenant id interaction s h = ground (arith, h)

-- LinkInteraction commits exactly one new link between an interaction and a case of the tenant, or
-- fails and commits nothing. A link that is there already is answered with the error that nothing
-- was found, and so is a side that is missing or another tenant's.
pub link_interaction-Post :
    (tenant id interaction : ℕ) (w : World Store)
    → Post
        (λ _ v. Links tenant id interaction w.db v.db)
        (λ e v. Unlinked tenant id interaction w e v)
        (link_interaction tenant id interaction w)
unfolding link_interaction insert_link ◌>>=◌ attempt guard
link_interaction-Post tenant id interaction w = elim (Bool-cases (w.fault w.statement)) [
  | inl down ↦ rw down (fails (refl, inl refl))
  | inr up ↦ elim (Bool-cases (is_linkable tenant id interaction w.db)) [
    | inl can ↦
        let (mine, there, new) = link_parts tenant id interaction w.db can in
        rw (up, can)
          (returns (record {
            mine = mine;
            there = there;
            fresh_link = new;
            added = refl;
            rest = (refl, refl, refl);
          }))
    | inr cannot ↦ rw (up, cannot) (fails (refl, inr (refl, refl)))
  ]
]

-- The note is on a case of the tenant, and was added to the tenant's notes.
pub record Notes (tenant id : ℕ) (author_type body : String) (s : Store) (n : Note) (t : Store)
    : Type 0 where
  pub there : any (is_case tenant id) s.cases ≡ true
  pub on : (n.case_id ≡ id) × (n.tenant_id ≡ tenant)
  pub says : (n.author_type ≡ author_type) × (n.body ≡ body)
  pub added : t.notes ≡ s.notes ++ n ∷ []
  pub kept :
      (t.links ≡ s.links)
      × (t.outbox ≡ s.outbox)
      × (map (λ c. c.status) t.cases ≡ map (λ c. c.status) s.cases)

same_statuses :
    (q : Case → Bool) (time : ℕ) (rows : List Case)
    → map (λ c. c.status) (update_where q (λ c. record c { updated_at = time }) rows)
      ≡ map (λ c. c.status) rows
same_statuses q time [] = refl
same_statuses q time (c ∷ rows) = elim (Bool-cases (q c)) [
  | inl hit ↦ rw (hit, same_statuses q time rows) refl
  | inr miss ↦ rw (miss, same_statuses q time rows) refl
]

-- AddNote adds the returned note to a case that is the tenant's, and changes no status, link or
-- event; an error has committed nothing.
pub add_note-Post :
    (tenant id : ℕ) (author_type author body : String) (is_internal : Bool) (w : World Store)
    → Post
        (λ n v. Notes tenant id author_type body w.db n v.db)
        (λ e v. v.db ≡ w.db)
        (add_note tenant id author_type author body is_internal w)
unfolding add_note
add_note-Post tenant id author_type author body is_internal w = guard_then _ _ _ _ refl λ _.
    guard_then _ _ _ _ refl λ _. read_then _ _ _ _ refl (
      guard_then _ _ _ _ refl λ mine. fresh_then _ _ (
        exec_then _ _ _ _ refl (
          now_then _ _ (
            bind-Post _ _ _ (
              try-Post _ _ (
                exec-Post _ _ _ (pure-Post _ _ (noted mine w.db.cases refl)) (
                  pure-Post _ _
                    (noted mine _ (same_statuses (is_case tenant id) w.now w.db.cases)))))))))
  where
    note : Note
    note = record {
      id = w.next_id;
      case_id = id;
      tenant_id = tenant;
      author_type = author_type;
      author_id = author;
      body = body;
      is_internal = is_internal;
    }

    noted :
        any (is_case tenant id) w.db.cases ≡ true
        → (cases : List Case) → map (λ c. c.status) cases ≡ map (λ c. c.status) w.db.cases
        → Notes tenant id author_type body w.db note
            (record (w.db) { notes = w.db.notes ++ note ∷ []; cases = cases })
    noted mine cases same = record {
      there = mine;
      on = (refl, refl);
      says = (refl, refl);
      added = refl;
      kept = (refl, refl, same);
    }

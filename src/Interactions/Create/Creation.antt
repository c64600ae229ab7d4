-- ===== src/Interactions/Create/Creation.antt =====
-- Service.Create: what a returned interaction and an error say of the committed store.
use orvexa.Interactions.Create.{create, finish_create, insert_row, new_row, touch, insert_into}
use orvexa.Interactions.Create.Conversations.{resolve_conversation-Post, Resolves, is_home}
use orvexa.Interactions.Service.Steps.{insert_outbox_then}
use orvexa.Base.{
  ℕ, String, ◌≡◌, true, inl, ◌++◌, inr, ◌∷◌, refl, [], any, false, List, arith, update_where, ◌⊎◌,
  ap, Bool, any-update_where, any_mono, sym, ◌∙◌, ◌+◌, ◌&&◌, subst,
}
use orvexa.Interactions.Input.{CreateInput, default_str}
use orvexa.Database.{World, ◌>>=◌, Db}
use orvexa.Interactions.Store.{
  Store, Rec, owns_customer, clashes, put_event, is_conversation, Conversation,
}
use orvexa.Database.Rules.{
  Post, pure-Post, bind-Post, counted, now_then, Post-map, tx_exec_then, commit_then, guard_then,
  read_then, fresh_then, begin_then, attempt_then,
}
use orvexa.Interactions.State.{pending}
use mathlib.Core.Option.{none}
use orvexa.Events.{Envelope}
use orvexa.Errors.{Error, internal_error}
use mathlib.Core.Path.{subst₂}
use orvexa.Events.Rules.{new_envelope_then}
use orvexa.Interactions.Create.Duplicates.{finish_again-Post, Replays}

-- A row was appended under its tenant, with its conversation, its customer and its event.
pub record Creates (tenant : ℕ) (input : CreateInput) (before : Store) (r : Rec) (after : Store)
    : Type 0 where
  pub pends : r.status ≡ pending
  pub unended : r.ended_at ≡ none
  pub owner : (r.tenant_id ≡ tenant) × (r.customer_id ≡ input.customer_id)
  pub owned : owns_customer tenant input.customer_id before ≡ true
  pub people : after.customers ≡ before.customers
  pub rows : after.interactions ≡ before.interactions ++ r ∷ []
  pub distinct : any (clashes r) before.interactions ≡ false
  pub home : any (is_home tenant input.customer_id r.conversation_id) after.conversations ≡ true
  pub homes :
      (t c i : ℕ)
      → any (is_home t c i) before.conversations ≡ true
      → any (is_home t c i) after.conversations ≡ true
  pub event :
      (past : List Envelope) × (e : Envelope) × (after.outbox ≡ past ++ e ∷ [])
      × (e.topic ≡ "interaction.created")
      × (e.subject ≡ r.id)
      × (e.tenant_id ≡ tenant)

-- The transaction's view after the last statements of a first delivery.
finished : ℕ → Rec → ℕ → Envelope → Store → Store
finished tenant r time e s = put_event e (record s {
  conversations =
      update_where (is_conversation tenant r.conversation_id) (touch time) s.conversations;
})

abbrev Finishes : ℕ → Rec → World Store → Rec → World Store → Type 0
Finishes tenant r w r' w' =
    (e : Envelope) × (r' ≡ r)
    × (w'.db ≡ finished tenant r w.now e w.tx)
    × (e.topic ≡ "interaction.created")
    × (e.subject ≡ r.id)
    × (e.tenant_id ≡ tenant)

finish_first-Post :
    (tenant : ℕ) (r : Rec) (w : World Store)
    → Post (Finishes tenant r w) (λ e w'. w'.db ≡ w.db) (finish_create tenant r true w)
unfolding finish_create finished
finish_first-Post tenant r w = now_then _ _ (
    tx_exec_then _ _ _ _ refl (
      new_envelope_then _ _ _ _ _ _ λ env said. insert_outbox_then _ _ _ refl refl λ e is_e.
        let d = said e is_e in
        commit_then _ _ _ refl (pure-Post _ _ (e, refl, refl, d.says, d.of, d.within))))

-- Touching a conversation does not change whose it is.
is_home-touch :
    (tenant touched time : ℕ) (cs : List Conversation) (t c i : ℕ)
    → any (is_home t c i) cs ≡ true
    → any (is_home t c i) (update_where (is_conversation tenant touched) (touch time) cs) ≡ true
unfolding touch
is_home-touch tenant touched time cs t c i h =
    any-update_where (is_home t c i) (is_conversation tenant touched) (touch time) (λ d. refl) cs
    ∙ h

-- A first delivery, from what its parts have established.
creates :
    (sha : String → String) (tenant : ℕ) (input : CreateInput) (before t : Store)
    (id c time now : ℕ) (e : Envelope)
    → owns_customer tenant input.customer_id before ≡ true
    → Resolves tenant input before t c
    → any (clashes (new_row sha tenant input id c time)) t.interactions ≡ false
    → e.topic ≡ "interaction.created"
    → e.subject ≡ id
    → e.tenant_id ≡ tenant
    → let r = new_row sha tenant input id c time in
      Creates tenant input before r
        (finished tenant r now e (record t { interactions = t.interactions ++ r ∷ [] }))
unfolding finished new_row
creates sha tenant input before t id c time now e owned res distinct topic subject within = record {
  pends = refl;
  unended = refl;
  owner = (refl, refl);
  owned = owned;
  people = res.people;
  rows = ap (λ rows. rows ++ new_row sha tenant input id c time ∷ []) res.rows;
  distinct = rw (← res.rows) distinct;
  home = is_home-touch tenant c now _ tenant input.customer_id c (
      any_mono (λ d. is_home tenant input.customer_id c d && d.is_open)
        (is_home tenant input.customer_id c) (λ d p. ground arith) t.conversations res.home);
  homes = λ t' c' i h. is_home-touch tenant c now _ t' c' i (ground (arith, res.grows));
  event = (t.outbox, e, refl, topic, subject, within);
}

module _ {μ υ} {B : Type 0} {Q : B → World Store → Type μ} {E : Error → World Store → Type υ} where
  insert_into_then :
      (r : Rec) (b : Bool) (f : Bool → Db Store B) (w : World Store)
      → Post Q E (f false w)
      → (b ≡ false
          → Post Q E (
              f true
                (record w { tx = record (w.tx) { interactions = w.tx.interactions ++ r ∷ [] } })))
      → Post Q E ((insert_into r b >>= f) w)
  unfolding insert_into ◌>>=◌
  insert_into_then r true f w k k' = k
  insert_into_then r false f w k k' = k' refl

  insert_row_then :
      (r : Rec) (f : Bool → Db Store B) (w : World Store)
      → E (internal_error "db.write_failed") (counted w)
      → Post Q E (f false (counted w))
      → (any (clashes r) w.tx.interactions ≡ false
          → Post Q E (
              f true (record w {
                statement = w.statement + 1;
                tx = record (w.tx) { interactions = w.tx.interactions ++ r ∷ [] };
              })))
      → Post Q E ((insert_row r >>= f) w)
  unfolding insert_row ◌>>=◌
  insert_row_then r f w h k k' =
      attempt_then _ (λ v. insert_into r (any (clashes r) v.tx.interactions) v) f w h
        (insert_into_then r (any (clashes r) w.tx.interactions) f (counted w) k k')

module _ (sha : String → String) (tenant : ℕ) (input : CreateInput) where
  abbrev pub Answers : Store → Rec → World Store → Type 0
  Answers s r w' =
      Creates tenant input s r w'.db
      ⊎ Replays tenant (default_str input.provider "internal") input.provider_ref s r w'.db

  insert-Post :
      (id time c : ℕ) (w : World Store)
      → owns_customer tenant input.customer_id w.db ≡ true
      → Resolves tenant input w.db w.tx c
      → let r = new_row sha tenant input id c time in
        Post (Answers w.db) (λ e w'. w'.db ≡ w.db) ((insert_row r >>= finish_create tenant r) w)
  unfolding new_row
  insert-Post id time c w owned res =
      insert_row_then _ _ w refl
        (Post-map (λ q w' h. inr h) (λ e w' h. h) (finish_again-Post tenant _ (counted w)))
        λ clear.
          Post-map (λ q w' h. inl (created w' q clear h)) (λ e w' h. h)
            (finish_first-Post tenant _ _)
    where
      created :
          (w' : World Store) (q : Rec)
          → any (clashes (new_row sha tenant input id c time)) w.tx.interactions ≡ false
          → Finishes tenant
              (new_row sha tenant input id c time)
              (record w {
                statement = w.statement + 1;
                tx = record (w.tx) {
                  interactions = w.tx.interactions ++ new_row sha tenant input id c time ∷ [];
                };
              })
              q
              w'
          → Creates tenant input w.db q w'.db
      created w' q clear (e, is_r, is_s, says, of, within) =
          subst₂ (Creates tenant input w.db) (sym is_r) (sym is_s)
            (creates sha tenant input w.db w.tx id c time w.now e owned res clear says of within)

  -- A returned interaction is one new pending row of the tenant with its open conversation, its
  -- customer and its event, or the row of an earlier delivery; an error has committed nothing.
  pub create-Post :
      (w : World Store) → Post (Answers w.db) (λ e w'. w'.db ≡ w.db) (create sha tenant input w)
  unfolding create
  create-Post w = guard_then _ _ _ _ refl λ _. guard_then _ _ _ _ refl λ _.
      guard_then _ _ _ _ refl λ _. guard_then _ _ _ _ refl λ _. read_then _ _ _ _ refl (
        guard_then _ _ _ _ refl λ owned. guard_then _ _ _ _ refl λ _. fresh_then _ _ (
          now_then _ _ (
            begin_then _ _ _ refl (
              bind-Post _ _ _ (
                Post-map (λ c w' h. inserted c w' owned h) (λ e w' h. h)
                  (resolve_conversation-Post tenant input _))))))
    where
      inserted :
          (c : ℕ) (w' : World Store)
          → owns_customer tenant input.customer_id w.db ≡ true
          → (w'.db ≡ w.db) × Resolves tenant input w.db w'.tx c
          → let r = new_row sha tenant input w.next_id c w.now in
            Post
              (Answers w.db)
              (λ e w''. w''.db ≡ w.db)
              ((insert_row r >>= finish_create tenant r) w')
      inserted c w' owned (same, res) =
          subst
            (λ s.
              Post (Answers s) (λ e w''. w''.db ≡ s)
                ((insert_row (new_row sha tenant input w.next_id c w.now)
                    >>= finish_create tenant (new_row sha tenant input w.next_id c w.now))
                  w'))
            same (insert-Post w.next_id w.now c w' (rw same owned) (rw same res))

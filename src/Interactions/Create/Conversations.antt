-- ===== src/Interactions/Create/Conversations.antt =====
-- The conversation that Create resolves: the tenant's, of the customer and open, in a transaction
-- that has touched nothing else.
use orvexa.Interactions.Create.{
  resolve_conversation, find_or_open, named_conversation, accept_conversation, continue_or_open,
  open_conversation, opened, is_continued,
}
use orvexa.Interactions.Service.Steps.{insert_outbox_then}
use orvexa.Base.{
  ℕ, Bool, List, any, ◌≡◌, find, ◌==◌, some, ◌&&◌, true, ◌⊎◌, ◌∷◌, arith, refl, inr, Bool-cases,
  Option, inl,
}
use orvexa.Interactions.Store.{latest, Conversation, Store, is_conversation}
use orvexa.Interactions.Input.{CreateInput}
use orvexa.Database.{World}
use orvexa.Database.Rules.{
  Post, fresh_then, now_then, tx_exec_then, pure-Post, tx_read_then, counted, raise-Post,
  guard_then,
}
use orvexa.Errors.{Error}
use mathlib.Core.List.{[]}
use orvexa.Events.{no_id}
use mathlib.Core.Option.{none}
use orvexa.Events.Rules.{new_envelope_then}

-- The conversation `id` of this tenant and customer.
abbrev pub is_home : ℕ → ℕ → ℕ → Conversation → Bool
is_home tenant customer id c = c.id == id && c.tenant_id == tenant && c.customer_id == customer

-- What resolving may do to the transaction's view `s`, giving `t` and the conversation `id`.
pub record Resolves (tenant : ℕ) (input : CreateInput) (s t : Store) (id : ℕ) : Type 0 where
  pub home : any (λ c. is_home tenant input.customer_id id c && c.is_open) t.conversations ≡ true
  pub grows :
      (t.conversations ≡ s.conversations)
      ⊎ ((c : Conversation) × (t.conversations ≡ c ∷ s.conversations))
  pub rows : t.interactions ≡ s.interactions
  pub people : t.customers ≡ s.customers

find-home :
    (tenant : ℕ) (input : CreateInput) (cs : List Conversation) (c : Conversation)
    → find (is_conversation tenant input.conversation_id) cs ≡ some c
    → c.is_open ≡ true
    → (c.customer_id == input.customer_id) ≡ true
    → any (λ d. is_home tenant input.customer_id c.id d && d.is_open) cs ≡ true
find-home tenant input [] c h o m = cc
find-home tenant input (d ∷ cs) c h o m = ground (arith, find-home tenant input cs c)

latest-home :
    (tenant : ℕ) (input : CreateInput) (cs : List Conversation) (c : Conversation)
    → latest (is_continued tenant input) cs ≡ some c
    → any (λ d. is_home tenant input.customer_id c.id d && d.is_open) cs ≡ true
unfolding latest
latest-home tenant input [] c h = cc
latest-home tenant input (d ∷ cs) c h = ground (arith, latest-home tenant input cs c)

module _ (tenant : ℕ) (input : CreateInput) where
  -- Resolving commits nothing.
  abbrev pub Resolved : World Store → ℕ → World Store → Type 0
  Resolved w id w' = (w'.db ≡ w.db) × Resolves tenant input w.tx w'.tx id

  abbrev pub Untouched : World Store → Error → World Store → Type 0
  Untouched w e w' = w'.db ≡ w.db

  open_conversation-Post :
      (w : World Store) → Post (Resolved w) (Untouched w) (open_conversation tenant input w)
  unfolding open_conversation opened
  open_conversation-Post w = fresh_then _ _ (
      now_then _ _ (
        tx_exec_then _ _ _ _ refl (
          tx_exec_then _ _ _ _ refl (
            new_envelope_then _ _ _ _ _ _ λ env said. insert_outbox_then _ _ _ refl refl λ e is_e.
              pure-Post _ _ (
                refl,
                record { home = ground arith; grows = inr (_, refl); rows = refl; people = refl },
              )))))

  continue_or_open-Post :
      (found : Option Conversation) (w : World Store)
      → latest (is_continued tenant input) w.tx.conversations ≡ found
      → Post (Resolved w) (Untouched w) (continue_or_open tenant input found w)
  unfolding continue_or_open
  continue_or_open-Post none w h = open_conversation-Post w
  continue_or_open-Post (some c) w h = pure-Post _ _ (
    refl,
    record { home = latest-home tenant input _ c h; grows = inl refl; rows = refl; people = refl },
  )

  find_or_open-Post :
      (w : World Store) → Post (Resolved w) (Untouched w) (find_or_open tenant input w)
  unfolding find_or_open
  find_or_open-Post w = tx_read_then _ _ _ _ refl (
      continue_or_open-Post (latest (is_continued tenant input) w.tx.conversations) (counted w)
        refl)

  accept_conversation-Post :
      (found : Option Conversation) (w : World Store)
      → find (is_conversation tenant input.conversation_id) w.tx.conversations ≡ found
      → Post (Resolved w) (Untouched w) (accept_conversation input found w)
  unfolding accept_conversation
  accept_conversation-Post none w h = raise-Post _ _ refl
  accept_conversation-Post (some c) w h = guard_then _ _ _ _ refl λ o. guard_then _ _ _ _ refl λ m.
      pure-Post _ _ (
        refl,
        record {
          home = find-home tenant input _ c h o m;
          grows = inl refl;
          rows = refl;
          people = refl;
        },
      )

  named_conversation-Post :
      (w : World Store) → Post (Resolved w) (Untouched w) (named_conversation tenant input w)
  unfolding named_conversation
  named_conversation-Post w = tx_read_then _ _ _ _ refl (
      accept_conversation-Post
        (find (is_conversation tenant input.conversation_id) w.tx.conversations) (counted w) refl)

  pub resolve_conversation-Post :
      (w : World Store) → Post (Resolved w) (Untouched w) (resolve_conversation tenant input w)
  unfolding resolve_conversation
  resolve_conversation-Post w = elim (Bool-cases (input.conversation_id == no_id)) [
    | inl absent ↦ rw absent (find_or_open-Post w)
    | inr named ↦ rw named (named_conversation-Post w)
  ]

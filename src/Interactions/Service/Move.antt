-- ===== src/Interactions/Service/Move.antt =====
-- Service.Transition: what is committed, what is returned, and what an error leaves behind.
use orvexa.Interactions.Service.{transition_to, move_row, transition_topic, status_name}
use orvexa.Base.{
  ℕ, String, update_where, List, ◌≡◌, find, ◌⊎◌, ◌++◌, some, inl, inr, refl, ◌∷◌, [], if◌then◌else◌,
  find-update_where,
}
use orvexa.Database.{World}
use orvexa.Interactions.Store.{Store, Rec, is_row}
use orvexa.Interactions.State.{Status, transition, is_terminal}
use orvexa.Events.{Envelope, Datum, ident, Describes, text}
use orvexa.Database.Rules.{
  Post, begin_then, tx_read_then, lift_then, now_then, tx_exec_then, commit_then,
}
use orvexa.Errors.{Error, internal_error, ok}
use orvexa.Interactions.Service.Steps.{or_not_found_then, insert_outbox_then, get-Post}
use orvexa.Events.Rules.{new_envelope_then}

-- The payload of the event.
abbrev pub moved_payload : ℕ → Status → String → Rec → List (String × Datum)
moved_payload id to reason cur =
    ("interaction_id", ident id)
    ∷ ("from", text (status_name cur.status))
    ∷ ("to", text (status_name to))
    ∷ ("end_reason", text (if is_terminal to then reason else ""))
    ∷ []

-- The store after an accepted transition of `cur` with the event `e`.
unfoldable pub moved : ℕ → ℕ → Status → String → ℕ → Envelope → Store → Store
moved tenant id to reason time e s = record s {
  interactions = update_where (is_row tenant id) (move_row to reason time) s.interactions;
  outbox = s.outbox ++ e ∷ [];
}

pub record Moves (tenant id : ℕ) (to : Status) (reason : String) (w : World Store) (cur : Rec)
    (e : Envelope) (s : Store) : Type 0 where
  pub was : find (is_row tenant id) w.db.interactions ≡ some cur
  pub legal : transition cur.status to ≡ ok tt
  pub event : Describes (transition_topic to) id tenant (moved_payload id to reason cur) e
  pub now_is : s ≡ moved tenant id to reason w.now e w.db

-- The moved row is still found under its tenant and id.
pub move_row-find :
    (tenant id : ℕ) (to : Status) (reason : String) (time : ℕ) (cur : Rec) (rows : List Rec)
    → find (is_row tenant id) rows ≡ some cur
    → find (is_row tenant id) (update_where (is_row tenant id) (move_row to reason time) rows)
      ≡ some (move_row to reason time cur)
unfolding move_row
move_row-find tenant id to reason time cur rows h =
    find-update_where (is_row tenant id) (move_row to reason time) (λ r p. p) rows cur h

module _ (w : World Store) (tenant id : ℕ) (to : Status) (reason : String) where
  -- The accepted call: the row as moved, returned and committed with its event.
  abbrev pub Accepts : Rec → World Store → Type 0
  Accepts r w' =
      (cur : Rec) × (e : Envelope) × Moves tenant id to reason w cur e w'.db
      × (r ≡ move_row to reason w.now cur)

  -- The failed call: nothing committed, or all of it and only the last read lost.
  abbrev pub Refuses : Error → World Store → Type 0
  Refuses x w' =
      (w'.db ≡ w.db)
      ⊎ ((cur : Rec) × (e : Envelope) × Moves tenant id to reason w cur e w'.db
          × (x ≡ internal_error "db.read_failed"))

-- Transition commits the moved row and its event together, for a transition that the lifecycle
-- allows, and returns the row as moved; an error has committed nothing, unless only the last read
-- failed. This holds whichever statements fail.
pub transition_to-Post :
    (w : World Store) (tenant id : ℕ) (to : Status) (reason : String)
    → Post
        (Accepts w tenant id to reason)
        (Refuses w tenant id to reason)
        (transition_to tenant id to reason w)
unfolding transition_to moved
transition_to-Post w tenant id to reason = begin_then _ _ w (inl refl) (
    tx_read_then _ _ _ _ (inl refl) (
      or_not_found_then (find (is_row tenant id) w.db.interactions) _ _ (inl refl) λ cur here.
        lift_then _ _ _ (λ e h. inl refl)
          λ _ legal. now_then _ _ (
            tx_exec_then _ _ _ _ (inl refl) (
              new_envelope_then _ _ _ _ _ _ λ env said.
                insert_outbox_then _ _ _ (inl refl) (inl refl) λ e is_e.
                  let done : Moves tenant id to reason w cur e
                      (moved tenant id to reason w.now e w.db) =
                    record { was = here; legal = legal; event = said e is_e; now_is = refl } in
                  let after = move_row-find tenant id to reason w.now cur w.db.interactions here in
                  commit_then _ _ _ (inl refl) (
                    get-Post tenant id _ (inr (cur, e, done, refl)) (λ gone. cc (after, gone))
                      λ r there. (cur, e, done, cc (after, there)))))))

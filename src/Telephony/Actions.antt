-- ===== src/Telephony/Actions.antt =====
-- What ApplyAction of internal/telephony/service.go commits and returns.
use orvexa.Base.{ℕ, Option, ◌≡◌, String, ◌⊎◌, some, find, true, inl, Bool-cases, inr, refl, ap, ◌∙◌}
use orvexa.Telephony.{
  apply_action, Command, raise_mapped, Failure, finish_hold, get_again, return_mapped, finish_move,
  act, finish_leg, Action, is_pending, hangup_action, unknown_action, answer_action,
  transfer_action, hold_action, resume_action, complete_action,
}
use orvexa.Database.{World, ◌>>=◌, outcome}
use orvexa.Interactions.Service.{transition_to}
use orvexa.Interactions.Store.{Store, Rec, is_row}
use orvexa.Errors.{Result, Error, ok, err}
use orvexa.Interactions.State.{Status, pending, completed, active, wrapup, failed, canceled}
use orvexa.Database.Rules.{
  bind-Post, Post, pure-Post, raise-Post, counted, guard_then, outcome_then, Post-map,
}
use mathlib.Core.Option.{none}
use orvexa.Interactions.Service.Steps.{get-Post}
use orvexa.Events.{Envelope}
use orvexa.Interactions.Service.Move.{Moves, transition_to-Post}

-- At most one transition of the interaction was committed: to active from pending, or to completed
-- where the lifecycle allows it.
abbrev pub Acts : ℕ → ℕ → World Store → World Store → Type 0
Acts tenant id w v =
    (v.db ≡ w.db)
    ⊎ ((to : Status) × (reason : String) × (cur : Rec) × (e : Envelope) × Moves tenant id to reason
          w cur e v.db
        × ((to ≡ completed) ⊎ ((to ≡ active) × (cur.status ≡ pending))))

pending_status : (s : Status) → is_pending s ≡ true → s ≡ pending
pending_status pending h = refl
pending_status active h = cc
pending_status wrapup h = cc
pending_status completed h = cc
pending_status failed h = cc
pending_status canceled h = cc

module _ (tenant id : ℕ) (w0 : World Store) where
  abbrev Does : {A : Type 0} → Result A × World Store → Type 0
  Does r = Post (λ _ v. Acts tenant id w0 v) (λ e v. Acts tenant id w0 v) r

  get_again-Acts : (w : World Store) → Acts tenant id w0 w → Does (get_again tenant id w)
  unfolding get_again
  get_again-Acts w a = bind-Post _ _ w (get-Post tenant id w a (λ _. a) λ r _. pure-Post _ _ a)

  raise_mapped-Acts :
      (f : Failure) (o : Option Error) (w : World Store)
      → Acts tenant id w0 w
      → Does (raise_mapped f o w)
  unfolding raise_mapped
  raise_mapped-Acts f none w a = raise-Post _ _ a
  raise_mapped-Acts f (some e) w a = raise-Post _ _ a

  return_mapped-Acts :
      (o : Option Error) (w : World Store) → Acts tenant id w0 w → Does (return_mapped o w)
  unfolding return_mapped
  return_mapped-Acts none w a = pure-Post _ _ a
  return_mapped-Acts (some e) w a = raise-Post _ _ a

  finish_leg-Acts :
      (o : Option Failure) (w : World Store) → Acts tenant id w0 w → Does (finish_leg tenant id o w)
  unfolding finish_leg
  finish_leg-Acts none w a = get_again-Acts w a
  finish_leg-Acts (some f) w a = return_mapped-Acts _ w a

  finish_hold-Acts :
      (o : Option Failure) (w : World Store)
      → Acts tenant id w0 w
      → Does (finish_hold tenant id o w)
  unfolding finish_hold
  finish_hold-Acts none w a = get_again-Acts w a
  finish_hold-Acts (some f) w a = raise_mapped-Acts f _ w a

  finish_move-Acts :
      (r : Result Rec) (w : World Store) → Acts tenant id w0 w → Does (finish_move tenant id r w)
  unfolding finish_move
  finish_move-Acts (ok r) w a = get_again-Acts w a
  finish_move-Acts (err e) w a = raise_mapped-Acts _ _ w a

  -- A transition in the world after the first read.
  move_then :
      (to : Status) (reason : String) (rec : Rec)
      → find (is_row tenant id) w0.db.interactions ≡ some rec
      → (to ≡ completed) ⊎ ((to ≡ active) × (rec.status ≡ pending))
      → Does ((outcome (transition_to tenant id to reason) >>= finish_move tenant id) (counted w0))
  move_then to reason rec here why = outcome_then _ _ (counted w0) (
      Post-map (λ r v (cur, e, m, _). finish_move-Acts _ v (inr (did cur e _ m)))
        (λ x v left.
          finish_move-Acts _ v
            (elim left [ inl same ↦ inl same | inr (cur, e, m, _) ↦ inr (did cur e _ m) ]))
        (transition_to-Post (counted w0) tenant id to reason))
    where
      is_rec : (cur : Rec) → find (is_row tenant id) w0.db.interactions ≡ some cur → cur ≡ rec
      is_rec cur was = cc (here, was)

      did :
          (cur : Rec) (e : Envelope) (s : Store)
          → Moves tenant id to reason (counted w0) cur e s
          → (to' : Status) × (reason' : String) × (cur' : Rec) × (e' : Envelope) × Moves tenant id
              to' reason' w0 cur' e' s
            × ((to' ≡ completed) ⊎ ((to' ≡ active) × (cur'.status ≡ pending)))
      did cur e s m = (
        to,
        reason,
        cur,
        e,
        record { was = m.was; legal = m.legal; event = m.event; now_is = m.now_is },
        elim why [
          | inl c ↦ inl c
          | inr (a, p) ↦ inr (a, ap (λ r. r.status) (is_rec cur m.was) ∙ p)
        ],
      )

  act-Acts :
      (provider : Command → Option Failure) (destination : String) (rec : Rec) (action : Action)
      → find (is_row tenant id) w0.db.interactions ≡ some rec
      → Does (act provider tenant id destination rec action (counted w0))
  unfolding act
  act-Acts provider destination rec answer_action here = elim (Bool-cases (is_pending rec.status)) [
    | inl yes_pending ↦
        rw yes_pending
          (move_then active "" rec here (inr (refl, pending_status rec.status yes_pending)))
    | inr other ↦ rw other (get_again-Acts (counted w0) (inl refl))
  ]
  act-Acts provider destination rec hangup_action here = finish_leg-Acts _ (counted w0) (inl refl)
  act-Acts provider destination rec transfer_action here =
      guard_then _ _ _ _ (inl refl) λ _. finish_leg-Acts _ (counted w0) (inl refl)
  act-Acts provider destination rec hold_action here = finish_hold-Acts _ (counted w0) (inl refl)
  act-Acts provider destination rec resume_action here = finish_hold-Acts _ (counted w0) (inl refl)
  act-Acts provider destination rec complete_action here =
      move_then completed "complete" rec here (inl refl)
  act-Acts provider destination rec (unknown_action a) here = raise-Post _ _ (inl refl)

-- Whatever the provider answers and whatever statement fails, ApplyAction commits at most one
-- transition of the interaction, to active from pending or to completed where the lifecycle allows
-- it, together with its event, and otherwise changes nothing.
pub apply_action-Post :
    (provider : Command → Option Failure) (tenant id : ℕ) (action : Action) (destination : String)
    (w : World Store)
    → Post
        (λ _ v. Acts tenant id w v)
        (λ e v. Acts tenant id w v)
        (apply_action provider tenant id action destination w)
unfolding apply_action
apply_action-Post provider tenant id action destination w = bind-Post _ _ w (
    get-Post tenant id w (inl refl) (λ _. inl refl)
      λ rec here. act-Acts tenant id w provider destination rec action here)

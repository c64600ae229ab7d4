-- ===== src/Telephony.antt =====
-- internal/telephony/service.go: PlaceCall and ApplyAction over internal/interactions. The provider
-- (VoiceProvider) is an interface, so its answers are arguments: `none` is success. A Go result
-- (nil, nil) is `ok none`. The options of a call, which only the provider reads, are left out.
-- `sha` is the hash of idempotency.Derive.
pub mod Actions
pub mod Placing
mod Examples
use orvexa.Interactions.State.{Status, pending, active, completed, failed, voice, outbound}
use orvexa.Base.{
  Option, String, ℕ, Bool, if◌then◌else◌, true, str_eq, ◌&&◌, some, false, ◌||◌, not, ◌==◌,
}
use orvexa.Errors.{Error, Result, ok, conflict_error, err, invalid_error, internal_error}
use orvexa.Database.{Db, raise, pure, ◌>>=◌, outcome, ◌>>◌, guard, try}
use orvexa.Interactions.Store.{Rec, Store}
use mathlib.Core.Option.{none}
use orvexa.Interactions.Service.{get, transition_to, assign}
use orvexa.Interactions.Input.{default_str, CreateInput}
use orvexa.Events.{no_id}
use orvexa.Interactions.Create.{create}

-- An error of the provider; `is_typed` says whether it is an *apperrors.Error.
pub record Failure : Type 0 where
  pub error : Error
  pub is_typed : Bool

pub data Command : Type 0 where
  hang_up hold resume : ℕ → Command
  transfer : ℕ → String → Command
  place : (interaction : ℕ) (from to : String) → Command

pub data Action : Type 0 where
  answer_action hangup_action transfer_action hold_action resume_action complete_action : Action
  unknown_action : String → Action

-- strings.HasSuffix
unfoldable pub ends_with : String → String → Bool
ends_with suffix String.[] = str_eq "" suffix
ends_with suffix (String.◌∷◌ c s) = str_eq (String.◌∷◌ c s) suffix || ends_with suffix s

-- mapProviderActionErr
unfoldable pub map_action_error : Failure → Option Error
unfolding ends_with
map_action_error f =
    if f.is_typed && ends_with ".unknown_leg" f.error.code
    then some (conflict_error "call.unknown_leg")
    else none

-- `return nil, mapProviderActionErr(err, …)`
unfoldable pub return_mapped : Option Error → Db Store (Option Rec)
return_mapped none = pure none
return_mapped (some e) = raise e

-- The check after the switch: the mapped error, or else the error itself.
unfoldable pub raise_mapped : Failure → Option Error → Db Store (Option Rec)
raise_mapped f none = raise f.error
raise_mapped f (some e) = raise e

unfoldable pub get_again : ℕ → ℕ → Db Store (Option Rec)
get_again tenant id = do r ← get tenant id; pure (some r)

-- hangup and transfer
unfoldable pub finish_leg : ℕ → ℕ → Option Failure → Db Store (Option Rec)
finish_leg tenant id none = get_again tenant id
finish_leg tenant id (some f) = return_mapped (map_action_error f)

-- hold and resume
unfoldable pub finish_hold : ℕ → ℕ → Option Failure → Db Store (Option Rec)
finish_hold tenant id none = get_again tenant id
finish_hold tenant id (some f) = raise_mapped f (map_action_error f)

-- answer and complete, whose errors are those of Transition
unfoldable pub finish_move : ℕ → ℕ → Result Rec → Db Store (Option Rec)
finish_move tenant id (ok r) = get_again tenant id
finish_move tenant id (err e) =
    let f : Failure = record { error = e; is_typed = true } in raise_mapped f (map_action_error f)

abbrev is_pending : Status → Bool
is_pending pending = true
is_pending _ = false

-- PlaceCallInput
pub record PlaceCallInput : Type 0 where
  pub customer_id : ℕ
  pub from : String
  pub to : String
  pub agent_id : ℕ
  pub queue_id : ℕ

unfoldable pub call_request : PlaceCallInput → CreateInput
unfolding default_str
call_request input = record {
  conversation_id = no_id;
  customer_id = input.customer_id;
  channel = voice;
  direction = outbound;
  source = default_str input.from "orvexa-voice";
  destination = input.to;
  provider = "voice";
  provider_ref = "";
  idempotency_key = "";
}

unfoldable pub assign_call : ℕ → PlaceCallInput → Rec → Db Store Rec
assign_call tenant input rec =
    if not (input.agent_id == no_id) || not (input.queue_id == no_id)
    then assign tenant rec.id input.agent_id input.queue_id
    else pure rec

-- The provider's answer to the leg; a refusal fails the interaction, whatever becomes of that.
unfoldable pub finish_place : ℕ → ℕ → Option Failure → Db Store Rec
finish_place tenant id none = get tenant id
finish_place tenant id (some f) = do
  moved ← try (transition_to tenant id failed "provider_place_failed")
  raise (internal_error "call.provider_failed")

module _ (provider : Command → Option Failure) where
  -- The switch of ApplyAction.
  unfoldable pub act : ℕ → ℕ → String → Rec → Action → Db Store (Option Rec)
  act tenant id destination rec answer_action =
      if is_pending rec.status
      then (do r ← outcome (transition_to tenant id active ""); finish_move tenant id r)
      else get_again tenant id
  act tenant id destination rec hangup_action = finish_leg tenant id (provider (hang_up id))
  act tenant id destination rec transfer_action = do
    guard (not (str_eq destination "")) (invalid_error "call.destination_required")
    finish_leg tenant id (provider (transfer id destination))
  act tenant id destination rec hold_action = finish_hold tenant id (provider (hold id))
  act tenant id destination rec resume_action = finish_hold tenant id (provider (resume id))
  act tenant id destination rec complete_action = do
    r ← outcome (transition_to tenant id completed "complete")
    finish_move tenant id r
  act tenant id destination rec (unknown_action a) = raise (invalid_error "call.unknown_action")

  -- ApplyAction
  unfoldable pub apply_action : ℕ → ℕ → Action → String → Db Store (Option Rec)
  apply_action tenant id action destination = do
    rec ← get tenant id
    act tenant id destination rec action

  -- PlaceCall
  unfoldable pub place_call : (String → String) → ℕ → PlaceCallInput → Db Store Rec
  unfolding default_str
  place_call sha tenant input = do
    guard (not (input.customer_id == no_id)) (invalid_error "call.customer_required")
    guard (not (str_eq input.to "")) (invalid_error "call.to_required")
    created ← create sha tenant (call_request input)
    rec ← assign_call tenant input created
    finish_place tenant rec.id
        (provider (place rec.id (default_str input.from "orvexa-voice") input.to))

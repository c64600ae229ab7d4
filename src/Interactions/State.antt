-- ===== src/Interactions/State.antt =====
-- internal/interactions/state.go: statuses, channels, directions and the lifecycle.
pub mod Lifecycle
use orvexa.Base.{String, Bool, true, false, List, [], ◌∷◌, any, if◌then◌else◌}
use orvexa.Errors.{Result, ok, err, conflict_error}

pub data Status : Type 0 where
  pending active wrapup completed failed canceled : Status

pub Status-discrete : Discrete Status
Status-discrete = hlevel

-- `from == to` on statuses.
abbrev pub same_status : Status → Status → Bool
same_status pending pending = true
same_status active active = true
same_status wrapup wrapup = true
same_status completed completed = true
same_status failed failed = true
same_status canceled canceled = true
same_status _ _ = false

-- What a client writes for the channel is any string; the last constructor is the `default`.
pub data Channel : Type 0 where
  voice whatsapp sms email chat ussd : Channel
  unknown_channel : String → Channel

pub data Direction : Type 0 where
  inbound outbound : Direction
  unknown_direction : String → Direction

-- The map `transitions`.
unfoldable pub transitions : Status → List Status
transitions pending = active ∷ canceled ∷ failed ∷ []
transitions active = wrapup ∷ completed ∷ failed ∷ []
transitions wrapup = completed ∷ failed ∷ []
transitions completed = []
transitions failed = []
transitions canceled = []

unfoldable pub can_transition : Status → Status → Bool
unfolding transitions
can_transition from to = any (λ s. same_status s to) (transitions from)

unfoldable pub next_states : Status → List Status
unfolding transitions
next_states from = transitions from

-- Transition; the details of its errors are left out.
unfoldable pub transition : Status → Status → Result (Unit {0})
unfolding can_transition
transition from to =
    if same_status from to
    then err (conflict_error "interaction.invalid_transition")
    else if can_transition from to
    then ok tt
    else err (conflict_error "interaction.invalid_transition")

abbrev is_nil {ℓ} : {A : Type ℓ} → List A → Bool
is_nil [] = true
is_nil (x ∷ xs) = false

-- Status.Terminal
unfoldable pub is_terminal : Status → Bool
unfolding transitions
is_terminal s = is_nil (transitions s)

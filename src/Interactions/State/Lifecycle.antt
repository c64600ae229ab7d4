-- ===== src/Interactions/State/Lifecycle.antt =====
-- What the lifecycle of internal/interactions/state.go guarantees of every run.
use orvexa.Base.{ℕ, ◌+◌, ◌≤◌, ◌<◌, ◌≡◌, refl, ◌↔◌, ◌≢◌, true, List, [], ◌∷◌, arith, length}
use orvexa.Errors.{ok}
use orvexa.Interactions.State.{
  Status, pending, active, wrapup, completed, failed, canceled, transition, is_terminal,
}

-- How many moves a status still allows at most.
abbrev pub moves_left : Status → ℕ
moves_left pending = 3
moves_left active = 2
moves_left wrapup = 1
moves_left completed = 0
moves_left failed = 0
moves_left canceled = 0

-- A run of accepted transitions, in order.
pub data Run : Status → List Status → Status → Type 0 where
  stop : {s : Status} → Run s [] s
  move :
      {s t u : Status} {path : List Status}
      → transition s t ≡ ok tt
      → Run t path u
      → Run s (t ∷ path) u

pub moves_left-transition : (s t : Status) → transition s t ≡ ok tt → moves_left t < moves_left s
unfolding transition
moves_left-transition pending t h = ground arith
moves_left-transition _ t h = ground arith

pub Run-length :
    {s u : Status} {path : List Status} → Run s path u → length path + moves_left u ≤ moves_left s
Run-length stop = omega arith
Run-length (move {s} {t} h r) = omega (arith, moves_left-transition s t h, Run-length r)

-- An interaction makes at most three accepted transitions in its life, whatever is requested.
pub Run-length-le : {s u : Status} {path : List Status} → Run s path u → length path ≤ 3
Run-length-le {s} r = ground (arith, Run-length r, moves_left_le s)
  where
    moves_left_le : (s : Status) → moves_left s ≤ 3
    moves_left_le s = ground arith

-- A status is terminal exactly when every requested transition from it is refused.
pub is_terminal_iff :
    (s : Status) → (is_terminal s ≡ true) ↔ ((t : Status) → transition s t ≢ ok tt)
unfolding is_terminal transition
is_terminal_iff pending = ((λ e. cc), λ h. absurd (h active refl))
is_terminal_iff active = ((λ e. cc), λ h. absurd (h failed refl))
is_terminal_iff wrapup = ((λ e. cc), λ h. absurd (h failed refl))
is_terminal_iff completed = ((λ e t p. ground arith), λ h. refl)
is_terminal_iff failed = ((λ e t p. ground arith), λ h. refl)
is_terminal_iff canceled = ((λ e t p. ground arith), λ h. refl)

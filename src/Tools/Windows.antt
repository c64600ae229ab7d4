-- ===== src/Tools/Windows.antt =====
-- The sliding windows of admit in internal/tools/gateway.go. A key is the agent and the tool (the
-- source joins them with ':', which no id holds).
use orvexa.Base.{
  ◌∷◌, List, ℕ, Bool, String, if◌then◌else◌, select, ltb, ◌==◌, ◌-◌, ◌&&◌, leb, length, str_eq,
  ◌++◌,
}
use mathlib.Core.List.{[]}

abbrev pub Key : Type 0
Key = ℕ × String

pub record Window : Type 0 where
  pub key : Key
  pub times : List ℕ

abbrev pub same_key : Key → Key → Bool
same_key (a, t) (b, u) = a == b && str_eq t u

-- g.windows[key], and its assignment
unfoldable pub window_of : Key → List Window → List ℕ
window_of k [] = []
window_of k (w ∷ ws) = if same_key w.key k then w.times else window_of k ws

unfoldable pub set_window : Key → List ℕ → List Window → List Window
set_window k times [] = record { key = k; times = times } ∷ []
set_window k times (w ∷ ws) =
    let rest = set_window k times ws in
    if same_key w.key k then record { key = k; times = times } ∷ ws else w ∷ rest

-- now.Sub(t) < time.Minute
abbrev pub is_recent : ℕ → ℕ → Bool
is_recent time t = ltb (time - t) 60

-- Whether the call is admitted, with the windows that are left.
pub data Admission : Type 0 where
  full : List Window → Admission
  room : List Window → Admission

-- The bound on memory: more than 10,000 windows are cut down to this one.
unfoldable pub trimmed : Key → List ℕ → List Window → List Window
trimmed k times ws = if ltb 10000 (length ws) then record { key = k; times = times } ∷ [] else ws

unfoldable pub admit : ℕ → Key → ℕ → List Window → Admission
unfolding set_window window_of trimmed
admit time k limit ws =
    let recent = select (is_recent time) (window_of k ws) in
    if leb limit (length recent)
    then full (set_window k recent ws)
    else room (trimmed k (recent ++ time ∷ []) (set_window k (recent ++ time ∷ []) ws))

-- ===== src/Comms/Core.antt =====
-- InteractionCore of internal/comms/provider_event.go: the two operations that the processor uses,
-- with what it relies on, and internal/interactions as its implementation.
use orvexa.Base.{Option, ℕ, String, find, some, ◌≡◌, ap, refl}
use orvexa.Interactions.Service.Move.{moved, Moves, move_row-find, transition_to-Post}
use orvexa.Database.{World}
use orvexa.Interactions.Store.{Rec, is_row, Store}
use orvexa.Errors.{Result, ok}
use orvexa.Interactions.Service.{move_row, transition_to, get}
use orvexa.Database.Rules.{Post, Post-world, Post-ok}
use mathlib.Core.Option.{none}
use orvexa.Events.{Envelope}
use orvexa.Interactions.Service.Steps.{get-Post}
use orvexa.Interactions.State.{Status}

-- The status of an interaction of a tenant.
pub record Core (W : Type 0) : Type 0 where
  pub get : ℕ → ℕ → W → Result Rec × W
  pub move : ℕ → ℕ → Status → String → W → Result Rec × W
  pub status_of : ℕ → ℕ → W → Option Status
  pub get-keeps :
      (tenant id : ℕ) (w : W) (t i : ℕ) → status_of t i (get tenant id w).1 ≡ status_of t i w
  pub get-ok :
      (tenant id : ℕ) (w : W) (r : Rec)
      → (get tenant id w).0 ≡ ok r
      → status_of tenant id w ≡ some r.status
  pub move-ok :
      (tenant id : ℕ) (to : Status) (reason : String) (w : W) (r : Rec)
      → (move tenant id to reason w).0 ≡ ok r
      → status_of tenant id (move tenant id to reason w).1 ≡ some to

abbrev pub status_in : Option Rec → Option Status
status_in none = none
status_in (some r) = some r.status

abbrev pub stored_status : ℕ → ℕ → World Store → Option Status
stored_status tenant id w = status_in (find (is_row tenant id) w.db.interactions)

pub got :
    (tenant id : ℕ) (w : World Store)
    → Post
        (λ r v. (v.db ≡ w.db) × (find (is_row tenant id) w.db.interactions ≡ some r))
        (λ e v. v.db ≡ w.db)
        (get tenant id w)
got tenant id w = get-Post tenant id w refl (λ e. refl) λ r here. (refl, here)

pub moved_status :
    (tenant id : ℕ) (to : Status) (reason : String) (w : World Store) (cur : Rec) (x : Envelope)
    (s : Store)
    → Moves tenant id to reason w cur x s
    → status_in (find (is_row tenant id) s.interactions) ≡ some to
unfolding moved move_row
moved_status tenant id to reason w cur x s m =
    rw m.now_is (ap status_in (move_row-find tenant id to reason w.now cur w.db.interactions m.was))

-- Get and Transition of internal/interactions are what the processor needs.
unfoldable pub interactions : Core (World Store)
interactions = record {
  get = get;
  move = transition_to;
  status_of = stored_status;
  get-keeps = λ tenant id w t i.
      ap (λ s. status_in (find (is_row t i) s.interactions))
        (Post-world (λ v. v.db ≡ w.db) (get tenant id w) (got tenant id w) (λ r v h. h.0)
          (λ e v h. h));
  get-ok = λ tenant id w r e. ap status_in (Post-ok r (got tenant id w) e).1;
  move-ok = λ tenant id to reason w r e.
      let (cur, x, m, is_r) = Post-ok r (transition_to-Post w tenant id to reason) e in
      moved_status tenant id to reason w cur x _ m;
}

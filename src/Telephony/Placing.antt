-- ===== src/Telephony/Placing.antt =====
-- PlaceCall of internal/telephony/service.go and the invariant of the interaction tables.
use orvexa.Telephony.{
  place_call, assign_call, finish_place, Command, PlaceCallInput, Failure, call_request,
}
use orvexa.Database.{World}
use orvexa.Interactions.Soundness.{perform, IsSound, perform-IsSound, creates, moves, assigns}
use orvexa.Base.{String, ℕ, Option, Bool-cases, not, some, ◌==◌, ◌||◌, inl, inr}
use orvexa.Interactions.Store.{Store, Rec}
use orvexa.Errors.{Result}
use orvexa.Interactions.Input.{CreateInput}
use orvexa.Database.Rules.{Post, guard_then, bind-Post, Post-map, raise-Post, Post-world, pure-Post}
use orvexa.Interactions.Create.{create}
use orvexa.Interactions.Service.Steps.{get-Post}
use orvexa.Events.{no_id}
use orvexa.Interactions.State.{failed}
use mathlib.Core.Option.{none}
use orvexa.Database.Outcomes.{world-Post, try-Post}

abbrev Keeps {ℓ κ} :
    {S : Type ℓ} → {A : Type κ} → (World S → Type 0) → Result A × World S → Type (ℓ ⊔ κ)
Keeps P r = Post (λ _ v. P v) (λ _ v. P v) r

abbrev Sound : World Store → Type 0
Sound w = IsSound w.db

create-Keeps :
    (sha : String → String) (tenant : ℕ) (input : CreateInput) (w : World Store)
    → Sound w
    → Keeps Sound (create sha tenant input w)
unfolding perform
create-Keeps sha tenant input w h =
    world-Post Sound _ (perform-IsSound sha (creates tenant input) w h)

assign_call-Keeps :
    (tenant : ℕ) (input : PlaceCallInput) (rec : Rec) (w : World Store)
    → Sound w
    → Keeps Sound (assign_call tenant input rec w)
unfolding assign_call perform
assign_call-Keeps tenant input rec w h =
    elim (Bool-cases (not (input.agent_id == no_id) || not (input.queue_id == no_id))) [
      | inl some_one ↦ rw some_one (
          world-Post Sound _
            (perform-IsSound (λ s. s) (assigns tenant rec.id input.agent_id input.queue_id) w h))
      | inr no_one ↦ rw no_one (pure-Post _ _ h)
    ]

finish_place-Keeps :
    (tenant id : ℕ) (o : Option Failure) (w : World Store)
    → Sound w
    → Keeps Sound (finish_place tenant id o w)
unfolding finish_place perform
finish_place-Keeps tenant id none w h = get-Post tenant id w h (λ _. h) λ r _. h
finish_place-Keeps tenant id (some f) w h = bind-Post _ _ w (
    try-Post _ w (
      Post-map (λ _ v k. raise-Post _ _ k) (λ e v k. raise-Post _ _ k)
        (world-Post Sound _
          (perform-IsSound (λ s. s) (moves tenant id failed "provider_place_failed") w h))))

-- Whatever the provider answers and whatever statement fails, PlaceCall keeps the interaction
-- tables sound.
pub place_call-IsSound :
    (provider : Command → Option Failure) (sha : String → String) (tenant : ℕ)
    (input : PlaceCallInput) (w : World Store)
    → IsSound w.db
    → IsSound (place_call provider sha tenant input w).1.db
unfolding place_call
place_call-IsSound provider sha tenant input w h =
    Post-world Sound (place_call provider sha tenant input w) kept (λ _ v k. k) (λ _ v k. k)
  where
    kept : Keeps Sound (place_call provider sha tenant input w)
    kept = guard_then _ _ _ _ h λ _. guard_then _ _ _ _ h λ _. bind-Post _ _ _ (
        Post-map
          (λ r v k. bind-Post _ _ _ (
            Post-map (λ q u j. finish_place-Keeps tenant q.id _ u j) (λ e u j. j)
              (assign_call-Keeps tenant input r v k)))
          (λ e v k. k) (create-Keeps sha tenant (call_request input) w h))

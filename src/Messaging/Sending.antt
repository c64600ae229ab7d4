-- ===== src/Messaging/Sending.antt =====
-- What Send of internal/messaging/service.go promises.
use orvexa.Interactions.Store.{Rec, Store, is_row}
use orvexa.Interactions.Service.{move_row}
use orvexa.Interactions.State.{active, failed}
use orvexa.Interactions.Soundness.{IsSound, perform, perform-IsSound, creates, moves, move-IsSound}
use orvexa.Messaging.{
  Message, send, SendInput, deliver, finish_send, give_up, message_of, validate_message,
  send_request,
}
use orvexa.Database.{World}
use orvexa.Base.{
  Option, ℕ, String, find, ◌≡◌, some, none, ap, refl, ◌∙◌, List, find_test, arith, inl, inr,
}
use orvexa.Errors.{Error, Result, ok, err}
use orvexa.Database.Rules.{Post, bind-Post, Post-map, raise-Post}
use orvexa.Interactions.Service.Move.{moved, move_row-find, transition_to-Post}
use orvexa.Interactions.Service.Steps.{get-Post}
use Prim.Native.String.{same}
use orvexa.Database.Outcomes.{try-Post, world-Post}

abbrev Sound : World Store → Type 0
Sound w = IsSound w.db

-- An active row of the tenant whose message is valid and was taken by the provider.
pub record Sent (provider : Message → Option Error) (tenant : ℕ) (input : SendInput) (r : Rec)
    (w : World Store) : Type 0 where
  pub id : ℕ
  pub stored : find (is_row tenant id) w.db.interactions ≡ some r
  pub is_sent : r.status ≡ active
  pub valid : validate_message (message_of tenant input id) ≡ ok tt
  pub taken : provider (message_of tenant input id) ≡ none
  pub sound : IsSound w.db

row_id :
    (tenant id : ℕ) (r : Rec) (rows : List Rec) → find (is_row tenant id) rows ≡ some r → r.id ≡ id
row_id tenant id r rows h = let hit = find_test (is_row tenant id) rows r h in ground (arith, hit)

module _ (provider : Message → Option Error) (tenant : ℕ) (input : SendInput) where
  abbrev Sends : Result Rec × World Store → Type 0
  Sends r = Post (Sent provider tenant input) (λ _ v. IsSound v.db) r

  give_up-Post :
      (id : ℕ) (reason : String) (e : Error) (w : World Store)
      → Sound w
      → Sends (give_up tenant id reason e w)
  unfolding give_up perform
  give_up-Post id reason e w h = bind-Post _ _ w (
      try-Post _ w (
        Post-map (λ _ v k. raise-Post _ _ k) (λ _ v k. raise-Post _ _ k)
          (world-Post Sound _ (perform-IsSound (λ s. s) (moves tenant id failed reason) w h))))

  finish_send-Post :
      (id : ℕ) (q : Rec) (answer : Option Error) (w : World Store)
      → find (is_row tenant id) w.db.interactions ≡ some q
      → q.status ≡ active
      → validate_message (message_of tenant input id) ≡ ok tt
      → provider (message_of tenant input id) ≡ answer
      → Sound w
      → Sends (finish_send tenant id answer w)
  unfolding finish_send
  finish_send-Post id q none w here sent valid taken h =
      get-Post tenant id w h (λ _. h)
        λ r there.
          let is_q : r ≡ q = cc (there, here) in
          record {
            id = id;
            stored = there;
            is_sent = ap (λ x. x.status) is_q ∙ sent;
            valid = valid;
            taken = taken;
            sound = h;
          }
  finish_send-Post id q (some e) w here sent valid taken h =
      give_up-Post id "provider_send_failed" _ w h

  deliver-Post :
      (id : ℕ) (checked : Result (Unit {0})) (w : World Store)
      → validate_message (message_of tenant input id) ≡ checked
      → Sound w
      → Sends (deliver provider tenant (message_of tenant input id) checked w)
  unfolding deliver message_of moved move_row
  deliver-Post id (err e) w valid h = give_up-Post id "validation_failed" e w h
  deliver-Post id (ok _) w valid h = bind-Post _ _ w (
      Post-map
        (λ r v (cur, e, m, is_r).
          let stored : find (is_row tenant id) v.db.interactions ≡ some r =
            rw (m.now_is, is_r)
              (move_row-find tenant id active "" w.now cur w.db.interactions m.was) in
          let same_id = row_id tenant id r _ stored in
          rw same_id (
            finish_send-Post id r (provider (message_of tenant input id)) v stored
              (ap (λ x. x.status) is_r) valid refl
              (rw m.now_is (move-IsSound tenant id active "" w.now e w.db h))))
        (λ x v left. elim left [
          | inl same ↦ rw same h
          | inr (cur, e, m, _) ↦ rw m.now_is (move-IsSound tenant id active "" w.now e w.db h)
        ])
        (transition_to-Post w tenant id active ""))

-- Whatever statement fails, Send keeps the interaction tables sound; and an interaction that it
-- returns is stored under the tenant, is active, and its message is valid and was taken by the
-- provider.
pub send-Post :
    (provider : Message → Option Error) (sha : String → String) (tenant : ℕ) (input : SendInput)
    (w : World Store)
    → IsSound w.db
    → Post (Sent provider tenant input) (λ _ v. IsSound v.db) (send provider sha tenant input w)
unfolding send perform
send-Post provider sha tenant input w h = bind-Post _ _ _ (
    Post-map (λ r v k. deliver-Post provider tenant input r.id _ v refl k) (λ e v k. k)
      (world-Post Sound _ (perform-IsSound sha (creates tenant (send_request input)) w h)))

-- ===== src/Interactions/Service/Success.antt =====
-- Transition of internal/interactions/service.go when no statement fails.
use orvexa.Interactions.Service.{
  transition_to, transition_topic, insert_outbox, or_not_found, get, move_row,
}
use orvexa.Database.{
  World, ◌>>=◌, pure, raise, lift, attempt, read, tx_read, wrap, begin, commit, tx_exec, now, calm,
}
use orvexa.Events.{is_registered, topics, new_envelope, insert_event, is_valid, no_id}
use orvexa.Base.{
  false, ◌≡◌, ℕ, String, true, ◌==◌, find, some, refl, update_where, length, ◌+◌, length-append,
  ◌∷◌, [],
}
use orvexa.Interactions.State.{
  Status, active, completed, pending, wrapup, failed, canceled, transition,
}
use orvexa.Interactions.Store.{Store, Rec, is_row}
use orvexa.Errors.{ok}
use orvexa.Interactions.Service.Move.{move_row-find}

topic_is_registered : (to : Status) → is_registered (transition_topic to) ≡ true
unfolding is_registered topics transition_topic
topic_is_registered active = refl
topic_is_registered completed = refl
topic_is_registered pending = refl
topic_is_registered wrapup = refl
topic_is_registered failed = refl
topic_is_registered canceled = refl

-- When no statement fails, a transition that the lifecycle allows on a row of the tenant returns
-- the row as moved, and the committed table and outbox hold the move and one event more.
pub transition_to-ok :
    (w : World Store) (tenant id : ℕ) (to : Status) (reason : String) (cur : Rec)
    → (tenant == no_id) ≡ false
    → find (is_row tenant id) w.db.interactions ≡ some cur
    → transition cur.status to ≡ ok tt
    → ((transition_to tenant id to reason (calm w)).0 ≡ ok (move_row to reason w.now cur))
      × ((transition_to tenant id to reason (calm w)).1.db.interactions
          ≡ update_where (is_row tenant id) (move_row to reason w.now) w.db.interactions)
      × (length (transition_to tenant id to reason (calm w)).1.db.outbox ≡ length w.db.outbox + 1)
unfolding transition_to ◌>>=◌ pure raise lift attempt read tx_read wrap begin commit tx_exec now
    new_envelope insert_outbox insert_event or_not_found get is_valid
transition_to-ok w tenant id to reason cur real here legal =
    rw
      (
        here,
        legal,
        topic_is_registered to,
        real,
        move_row-find tenant id to reason w.now cur w.db.interactions here,
      )
      (refl, refl, length-append _ (_ ∷ []))

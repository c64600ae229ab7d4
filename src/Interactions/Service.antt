-- ===== src/Interactions/Service.antt =====
-- internal/interactions/service.go: Get, Transition and Assign. Create is in Create.antt.
pub mod Steps
pub mod Move
pub mod Success
pub mod Assignment
use Prim.Native.Char.{code}
use orvexa.Base.{
  ℕ, suc, String, ◌==◌, str_eq, leb, Bool, true, false, not, ◌&&◌, ◌||◌, Option, none, some, find,
  if◌then◌else◌, List, any, update_where, ◌∷◌, [],
}
use orvexa.Errors.{internal_error, not_found_error, ok, conflict_error, invalid_error}
use orvexa.Database.{
  Db, pure, raise, read, ◌>>=◌, attempt, wrap, ◌>>◌, guard, begin, try, tx_read, commit, lift, now,
  tx_exec, fresh,
}
use orvexa.Interactions.State.{
  Status, active, Channel, voice, whatsapp, sms, email, chat, ussd, unknown_channel, Direction,
  unknown_direction, is_terminal, completed, pending, wrapup, failed, transition, canceled,
}
use orvexa.Interactions.Store.{
  Rec, Store, is_row, is_assignable, put_event, clashes, is_conversation, owns_customer, latest,
  Conversation,
}
use orvexa.Events.{new_envelope, no_id, insert_event, Envelope, Datum, ident, text}

-- SELECT … FROM interactions WHERE id = $1 AND tenant_id = $2, with ErrNoRows as 404.
unfoldable pub or_not_found : Option Rec → Db Store Rec
or_not_found none = raise (not_found_error "interaction.not_found")
or_not_found (some r) = pure r

unfoldable pub get : ℕ → ℕ → Db Store Rec
get tenant id = do
  row ← read (internal_error "db.read_failed") (λ s. find (is_row tenant id) s.interactions)
  or_not_found row

-- The UPDATE of Transition: coalesce keeps the old value where the new one is NULL.
abbrev coalesce {ℓ} : {A : Type ℓ} → Option A → Option A → Option A
coalesce none b = b
coalesce (some a) b = some a

abbrev is_active : Status → Bool
is_active active = true
is_active _ = false

unfoldable pub move_row : Status → String → ℕ → Rec → Rec
move_row to reason time r = record r {
  status = to;
  answered_at = coalesce (if is_active to then some time else none) r.answered_at;
  ended_at = if is_terminal to then some time else none;
  end_reason = if is_terminal to && not (str_eq reason "") then reason else r.end_reason;
}

abbrev is_completed : Status → Bool
is_completed completed = true
is_completed _ = false

unfoldable pub transition_topic : Status → String
transition_topic to = if is_completed to then "interaction.completed" else "interaction.updated"

-- The statuses as the payload spells them.
unfoldable pub status_name : Status → String
status_name pending = "pending"
status_name active = "active"
status_name wrapup = "wrapup"
status_name completed = "completed"
status_name failed = "failed"
status_name canceled = "canceled"

-- The outbox insert as this package wraps it.
unfoldable pub insert_outbox : Option Envelope → Db Store (Unit {0})
insert_outbox env = wrap (internal_error "outbox.insert_failed") (insert_event put_event env)

unfoldable pub transition_to : ℕ → ℕ → Status → String → Db Store Rec
transition_to tenant id to reason = do
  begin (internal_error "db.tx_failed")
  row ← tx_read (internal_error "db.read_failed") (λ s. find (is_row tenant id) s.interactions)
  cur ← or_not_found row
  lift (transition cur.status to)
  time ← now
  tx_exec (internal_error "db.write_failed") (λ s. record s {
    interactions = update_where (is_row tenant id) (move_row to reason time) s.interactions;
  })
  env ← new_envelope (transition_topic to) id tenant (
      ("interaction_id", ident id)
      ∷ ("from", text (status_name cur.status))
      ∷ ("to", text (status_name to))
      ∷ ("end_reason", text (if is_terminal to then reason else ""))
      ∷ [])
  insert_outbox env
  commit (internal_error "db.commit_failed")
  get tenant id

-- The UPDATE of Assign; its WHERE also asks for a pending or active row.
unfoldable pub assign_row : ℕ → ℕ → Rec → Rec
assign_row agent queue r = record r {
  assigned_agent_id = if agent == no_id then r.assigned_agent_id else agent;
  assigned_queue_id = if queue == no_id then r.assigned_queue_id else queue;
}

abbrev pub is_assignable_row : ℕ → ℕ → Rec → Bool
is_assignable_row tenant id r = is_row tenant id r && is_assignable r.status

-- emit: a best-effort event in a transaction of its own; every error ends it silently. A
-- failed insert aborts the transaction, so that the commit after it commits nothing.
unfoldable pub emit_tx : Envelope → Db Store (Unit {0})
emit_tx e = do
  begin (internal_error "db.tx_failed")
  insert_event put_event (some e)
  commit (internal_error "db.commit_failed")

unfoldable pub emit_envelope : Option Envelope → Db Store (Unit {0})
emit_envelope none = pure tt
emit_envelope (some e) = do try (emit_tx e); pure tt

unfoldable pub emit : String → ℕ → ℕ → List (String × Datum) → Db Store (Unit {0})
emit topic subject tenant payload = do
  env ← new_envelope topic subject tenant payload
  emit_envelope env

-- RowsAffected() == 0: a missing row is 404, any other 409.
unfoldable pub refuse_assign : ℕ → ℕ → Bool → Db Store (Unit {0})
refuse_assign tenant id true = pure tt
refuse_assign tenant id false = do
  get tenant id
  raise (conflict_error "interaction.not_assignable")

-- The UPDATE, with whether it affected a row.
unfoldable pub update_assignable : ℕ → ℕ → ℕ → ℕ → Db Store Bool
update_assignable tenant id agent queue = attempt (internal_error "db.write_failed") (λ w. (
  ok (any (is_assignable_row tenant id) w.db.interactions),
  record w {
    db = record (w.db) {
      interactions =
          update_where (is_assignable_row tenant id) (assign_row agent queue) w.db.interactions;
    };
  },
))

unfoldable pub assign : ℕ → ℕ → ℕ → ℕ → Db Store Rec
assign tenant id agent queue = do
  guard (not (agent == no_id && queue == no_id))
      (invalid_error "interaction.assign_target_required")
  affected ← update_assignable tenant id agent queue
  refuse_assign tenant id affected
  emit "interaction.updated" id tenant
      (("interaction_id", ident id) ∷ ("agent_id", ident agent) ∷ ("queue_id", ident queue) ∷ [])
  get tenant id

-- ===== src/Conversations.antt =====
-- Close, Assign and Get of internal/conversations/service.go over the table conversations
-- (migration 0003). The columns that these operations neither read nor write are left out. A NULL
-- agent or queue is 0.
pub mod Closing
pub mod Staying
mod Examples
use orvexa.Base.{
  ◌∷◌, ℕ, Option, ◌++◌, Bool, List, String, some, [], true, if◌then◌else◌, ◌==◌, ◌&&◌, false, find,
  not, any, update_where,
}
use orvexa.Events.{Envelope, new_envelope, ident, text, insert_event}
use orvexa.Database.{
  Db, ◌>>=◌, ◌>>◌, raise, attempt, guard, read, begin, tx_read, pure, now, tx_exec, commit,
}
use orvexa.Errors.{not_found_error, internal_error, conflict_error, ok, invalid_error}
use mathlib.Core.Option.{none}

pub data ConversationStatus : Type 0 where
  ongoing ended : ConversationStatus

pub record Conversation : Type 0 where
  pub id : ℕ
  pub tenant_id : ℕ
  pub customer_id : ℕ
  pub status : ConversationStatus
  pub assigned_agent_id : ℕ
  pub assigned_queue_id : ℕ
  pub updated_at : ℕ
  pub closed_at : Option ℕ

pub record Store : Type 0 where
  pub conversations : List Conversation
  pub outbox : List Envelope

abbrev pub put_event : Envelope → Store → Store
put_event e s = record s { outbox = s.outbox ++ e ∷ [] }

abbrev pub is_open : ConversationStatus → Bool
is_open ongoing = true
is_open ended = false

abbrev pub is_conversation : ℕ → ℕ → Conversation → Bool
is_conversation tenant id c = c.id == id && c.tenant_id == tenant

unfoldable pub or_not_found : Option Conversation → Db Store Conversation
or_not_found none = raise (not_found_error "conversation.not_found")
or_not_found (some c) = pure c

unfoldable pub get : ℕ → ℕ → Db Store Conversation
get tenant id = do
  row ←
      read (internal_error "db.read_failed") (λ s. find (is_conversation tenant id) s.conversations)
  or_not_found row

unfoldable pub end_row : ℕ → Conversation → Conversation
end_row time c = record c { status = ended; closed_at = some time; updated_at = time }

-- Close
unfoldable pub close : ℕ → ℕ → String → Db Store Conversation
close tenant id reason = do
  begin (internal_error "db.tx_failed")
  row ←
      tx_read (internal_error "db.read_failed")
        (λ s. find (is_conversation tenant id) s.conversations)
  cur ← or_not_found row
  guard (is_open cur.status) (conflict_error "conversation.already_closed")
  time ← now
  tx_exec (internal_error "db.write_failed") (λ s. record s {
    conversations = update_where (is_conversation tenant id) (end_row time) s.conversations;
  })
  env ←
      new_envelope "conversation.closed" id tenant
        (("conversation_id", ident id) ∷ ("reason", text reason) ∷ [])
  insert_event put_event env
  commit (internal_error "db.commit_failed")
  get tenant id

-- coalesce($3::uuid, assigned_agent_id) of nullUUID
abbrev pub coalesce : ℕ → ℕ → ℕ
coalesce new old = if new == 0 then old else new

unfoldable pub assign_row : ℕ → ℕ → ℕ → Conversation → Conversation
assign_row agent queue time c = record c {
  assigned_agent_id = coalesce agent c.assigned_agent_id;
  assigned_queue_id = coalesce queue c.assigned_queue_id;
  updated_at = time;
}

abbrev pub is_assignable : ℕ → ℕ → Conversation → Bool
is_assignable tenant id c = is_conversation tenant id c && is_open c.status

-- The UPDATE, and whether it affected a row.
unfoldable pub update_assignment : ℕ → ℕ → ℕ → ℕ → Db Store Bool
update_assignment tenant id agent queue = attempt (internal_error "db.write_failed") (λ w. (
  ok (any (is_assignable tenant id) w.db.conversations),
  record w {
    db = record (w.db) {
      conversations =
          update_where (is_assignable tenant id) (assign_row agent queue w.now) w.db.conversations;
    };
  },
))

unfoldable pub unassigned : ℕ → ℕ → Db Store Conversation
unassigned tenant id = do c ← get tenant id; raise (conflict_error "conversation.not_assignable")

-- Assign
unfoldable pub assign : ℕ → ℕ → ℕ → ℕ → Db Store Conversation
assign tenant id agent queue = do
  guard (not (agent == 0 && queue == 0)) (invalid_error "conversation.assign_target_required")
  affected ← update_assignment tenant id agent queue
  if affected then get tenant id else unassigned tenant id

-- ===== src/Interactions/Create.antt =====
-- internal/interactions/service.go: Create, with the conversation that it finds or opens, and the
-- answer to a duplicate delivery. `sha` is the hash of idempotency.Derive (crypto/sha256 is no
-- part of the repository). Ids are fresh and times are those of the call.
pub mod Conversations
pub mod Creation
pub mod Duplicates
use Prim.Native.String.{◌++◌ as append}
use orvexa.Interactions.Service.{get, insert_outbox, status_name}
use orvexa.Base.{
  Option, String, ℕ, if◌then◌else◌, Bool, suc, leb, true, ◌==◌, some, str_eq, ◌&&◌, none, not, ◌||◌,
  false, ◌+◌, any, find, ◌∷◌, update_where, ◌++◌, [],
}
use orvexa.Interactions.Store.{
  Rec, Conversation, Store, latest, owns_customer, is_conversation, clashes,
}
use orvexa.Interactions.State.{Channel, Direction, pending, unknown_channel, unknown_direction}
use orvexa.Database.{
  Db, ◌>>◌, raise, attempt, pure, ◌>>=◌, fresh, now, tx_read, guard, try, tx_exec, read, begin,
  commit, World,
}
use orvexa.Events.{no_id, new_envelope, ident, text}
use orvexa.Errors.{internal_error, conflict_error, not_found_error, invalid_error, ok, Result}
use orvexa.Interactions.Input.{
  CreateInput, same_channel, default_str, known_channel, effective_key, known_direction, valid_key,
}

-- The conversation that findOrOpenConversation looks for.
abbrev pub is_continued : ℕ → CreateInput → Conversation → Bool
is_continued tenant input c =
    c.tenant_id == tenant
    && c.customer_id == input.customer_id
    && same_channel c.channel input.channel
    && c.is_open

unfoldable pub opened : ℕ → CreateInput → ℕ → ℕ → Conversation
opened tenant input id time = record {
  id = id;
  tenant_id = tenant;
  customer_id = input.customer_id;
  channel = input.channel;
  is_open = true;
  unread_count = 0;
  last_interaction_at = none;
  updated_at = time;
}

unfoldable pub open_conversation : ℕ → CreateInput → Db Store ℕ
open_conversation tenant input = do
  id ← fresh
  time ← now
  tx_exec (internal_error "db.write_failed")
      (λ s. record s { conversations = opened tenant input id time ∷ s.conversations })
  tx_exec (internal_error "db.write_failed")
      (λ s. record s { participants = (id, input.customer_id) ∷ s.participants })
  env ←
      new_envelope "conversation.opened" id tenant
        (("conversation_id", ident id) ∷ ("customer_id", ident input.customer_id) ∷ [])
  insert_outbox env
  pure id

unfoldable pub continue_or_open : ℕ → CreateInput → Option Conversation → Db Store ℕ
continue_or_open tenant input (some c) = pure c.id
continue_or_open tenant input none = open_conversation tenant input

unfoldable pub find_or_open : ℕ → CreateInput → Db Store ℕ
find_or_open tenant input = do
  found ←
      tx_read (internal_error "db.read_failed")
        (λ s. latest (is_continued tenant input) s.conversations)
  continue_or_open tenant input found

-- A conversation that the caller named: it must be the tenant's, open, and the customer's.
unfoldable pub accept_conversation : CreateInput → Option Conversation → Db Store ℕ
accept_conversation input none = raise (not_found_error "conversation.not_found")
accept_conversation input (some c) = do
  guard c.is_open (conflict_error "conversation.closed")
  guard (c.customer_id == input.customer_id) (conflict_error "conversation.customer_mismatch")
  pure c.id

unfoldable pub named_conversation : ℕ → CreateInput → Db Store ℕ
named_conversation tenant input = do
  row ←
      tx_read (internal_error "db.read_failed")
        (λ s. find (is_conversation tenant input.conversation_id) s.conversations)
  accept_conversation input row

unfoldable pub resolve_conversation : ℕ → CreateInput → Db Store ℕ
resolve_conversation tenant input =
    if input.conversation_id == no_id
    then find_or_open tenant input
    else named_conversation tenant input

unfoldable pub new_row : (String → String) → ℕ → CreateInput → ℕ → ℕ → ℕ → Rec
new_row sha tenant input id conversation time = record {
  id = id;
  tenant_id = tenant;
  conversation_id = conversation;
  customer_id = input.customer_id;
  channel = input.channel;
  direction = input.direction;
  status = pending;
  source = input.source;
  destination = input.destination;
  assigned_agent_id = no_id;
  assigned_queue_id = no_id;
  started_at = time;
  answered_at = none;
  ended_at = none;
  end_reason = "";
  provider = default_str input.provider "internal";
  provider_ref = input.provider_ref;
  idempotency_key = effective_key sha input;
}

unfoldable pub insert_into : Rec → Bool → World Store → Result Bool × World Store
insert_into r true w = (ok false, w)
insert_into r false w =
    (ok true, record w { tx = record (w.tx) { interactions = w.tx.interactions ++ r ∷ [] } })

-- INSERT INTO interactions, with whether no unique index was violated.
unfoldable pub insert_row : Rec → Db Store Bool
insert_row r =
    attempt (internal_error "db.write_failed")
      (λ w. insert_into r (any (clashes r) w.tx.interactions) w)

abbrev pub is_delivery : ℕ → String → String → Rec → Bool
is_delivery tenant provider ref r =
    r.tenant_id == tenant && str_eq r.provider provider && str_eq r.provider_ref ref

-- findByProviderRef, whose errors all end in nil.
unfoldable pub get_delivery : ℕ → Option (Option Rec) → Db Store (Option Rec)
get_delivery tenant none = pure none
get_delivery tenant (some none) = pure none
get_delivery tenant (some (some r)) = try (get tenant r.id)

unfoldable pub find_by_provider_ref : ℕ → String → String → Db Store (Option Rec)
find_by_provider_ref tenant provider ref = if str_eq ref "" then pure none else do
  row ← try (
      read (internal_error "db.read_failed")
        (λ s. find (is_delivery tenant provider ref) s.interactions))
  get_delivery tenant row

unfoldable pub or_duplicate : Option Rec → Db Store Rec
or_duplicate none = raise (conflict_error "interaction.duplicate")
or_duplicate (some r) = pure r

unfoldable pub touch : ℕ → Conversation → Conversation
touch time c = record c {
  last_interaction_at = some time;
  updated_at = time;
  unread_count = c.unread_count + 1;
}

-- After the INSERT: a duplicate is answered by the row that is there, outside the transaction.
unfoldable pub finish_create : ℕ → Rec → Bool → Db Store Rec
finish_create tenant r false = do
  existing ← find_by_provider_ref tenant r.provider r.provider_ref
  or_duplicate existing
finish_create tenant r true = do
  time ← now
  tx_exec (internal_error "db.write_failed") (λ s. record s {
    conversations =
        update_where (is_conversation tenant r.conversation_id) (touch time) s.conversations;
  })
  env ← new_envelope "interaction.created" r.id tenant (
      ("interaction_id", ident r.id)
      ∷ ("conversation_id", ident r.conversation_id)
      ∷ ("customer_id", ident r.customer_id)
      ∷ ("status", text (status_name r.status))
      ∷ [])
  insert_outbox env
  commit (internal_error "db.commit_failed")
  pure r

unfoldable pub create : (String → String) → ℕ → CreateInput → Db Store Rec
create sha tenant input = do
  guard (not (input.customer_id == no_id)) (invalid_error "interaction.customer_required")
  guard (known_channel input.channel) (invalid_error "interaction.invalid_channel")
  guard (known_direction input.direction) (invalid_error "interaction.invalid_direction")
  guard (not (str_eq input.source "") && not (str_eq input.destination ""))
      (invalid_error "interaction.endpoints_required")
  owned ← read (internal_error "db.read_failed") (owns_customer tenant input.customer_id)
  guard owned (not_found_error "customer.not_found")
  guard (str_eq (effective_key sha input) "" || valid_key (effective_key sha input))
      (invalid_error "interaction.invalid_idempotency_key")
  id ← fresh
  time ← now
  begin (internal_error "db.tx_failed")
  conversation ← resolve_conversation tenant input
  inserted ← insert_row (new_row sha tenant input id conversation time)
  finish_create tenant (new_row sha tenant input id conversation time) inserted

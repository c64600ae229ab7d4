-- ===== src/Messaging.antt =====
-- internal/messaging: ValidateMessage (ports.go), effectiveSender and Send (service.go) over
-- internal/interactions. The provider (MessagingProvider) is an interface, so its answers are
-- arguments: `none` is success. Media is the list of its URLs. `sha` is the hash of
-- idempotency.Derive.
pub mod Sending
mod Examples
use orvexa.Interactions.Input.{CreateInput}
use orvexa.Interactions.State.{
  Channel, voice, whatsapp, sms, email, chat, ussd, unknown_channel, outbound, active, failed,
}
use orvexa.Interactions.Store.{Rec, Store}
use orvexa.Interactions.Service.{get, transition_to}
use orvexa.Interactions.Create.{create}
use orvexa.Database.{Db, raise, ◌>>=◌, ◌>>◌, try}
use orvexa.Base.{
  ◌∷◌, ℕ, Bool, Option, String, List, true, if◌then◌else◌, ◌==◌, false, some, is_blank, not, ◌&&◌,
  ltb, count_chars,
}
use orvexa.Errors.{Result, Error, err, internal_error, invalid_error, ok}
use orvexa.Events.{no_id}
use mathlib.Core.List.{[]}
use mathlib.Core.Option.{none}

-- The channels have the strings of internal/interactions/state.go; `string(channel)`.
unfoldable pub channel_name : Channel → String
channel_name voice = "voice"
channel_name whatsapp = "whatsapp"
channel_name sms = "sms"
channel_name email = "email"
channel_name chat = "chat"
channel_name ussd = "ussd"
channel_name (unknown_channel name) = name

pub record SendInput : Type 0 where
  pub customer_id : ℕ
  pub channel : Channel
  pub from : String
  pub to : String
  pub body : String
  pub media_urls : List String

pub record Message : Type 0 where
  pub interaction_id : ℕ
  pub tenant_id : ℕ
  pub channel : Channel
  pub from : String
  pub to : String
  pub body : String
  pub media_urls : List String

-- effectiveSender
unfoldable pub effective_sender : String → String
effective_sender from = if is_blank from then "orvexa-messaging" else from

abbrev pub is_messaging : Channel → Bool
is_messaging whatsapp = true
is_messaging sms = true
is_messaging email = true
is_messaging _ = false

abbrev is_empty : List String → Bool
is_empty [] = true
is_empty (url ∷ urls) = false

unfoldable pub validate_message : Message → Result (Unit {0})
validate_message msg =
    if msg.interaction_id == no_id
    then err (invalid_error "message.interaction_required")
    else if not (is_messaging msg.channel)
    then err (invalid_error "message.invalid_channel")
    else if is_blank msg.to
    then err (invalid_error "message.to_required")
    else if is_blank msg.body && is_empty msg.media_urls
    then err (invalid_error "message.body_required")
    else if ltb 4096 (count_chars msg.body)
    then err (invalid_error "message.body_too_long")
    else ok tt

unfoldable pub send_request : SendInput → CreateInput
unfolding effective_sender channel_name
send_request input = record {
  conversation_id = no_id;
  customer_id = input.customer_id;
  channel = input.channel;
  direction = outbound;
  source = effective_sender input.from;
  destination = input.to;
  provider = channel_name input.channel;
  provider_ref = "";
  idempotency_key = "";
}

-- The message that is validated, with the tenant that is set before it is sent.
unfoldable pub message_of : ℕ → SendInput → ℕ → Message
unfolding effective_sender
message_of tenant input id = record {
  interaction_id = id;
  tenant_id = tenant;
  channel = input.channel;
  from = effective_sender input.from;
  to = input.to;
  body = input.body;
  media_urls = input.media_urls;
}

-- A failed transition to failed is dropped, and the error is returned all the same.
unfoldable pub give_up : ℕ → ℕ → String → Error → Db Store Rec
give_up tenant id reason e = do moved ← try (transition_to tenant id failed reason); raise e

unfoldable pub finish_send : ℕ → ℕ → Option Error → Db Store Rec
finish_send tenant id none = get tenant id
finish_send tenant id (some cause) =
    give_up tenant id "provider_send_failed" (internal_error "message.provider_failed")

module _ (provider : Message → Option Error) where
  unfoldable pub deliver : ℕ → Message → Result (Unit {0}) → Db Store Rec
  deliver tenant msg (err e) = give_up tenant msg.interaction_id "validation_failed" e
  deliver tenant msg (ok _) = do
    rec ← transition_to tenant msg.interaction_id active ""
    finish_send tenant rec.id (provider msg)

  -- Send
  unfoldable pub send : (String → String) → ℕ → SendInput → Db Store Rec
  send sha tenant input = do
    rec ← create sha tenant (send_request input)
    let msg = message_of tenant input rec.id
    deliver tenant msg (validate_message msg)

-- ===== src/Messaging/Examples.antt =====
-- A tenant with a customer, and a message to that customer from no sender.
use orvexa.Interactions.Store.{Rec, Store, Conversation, owns_customer}
use orvexa.Interactions.State.{is_terminal, pending, inbound, sms, voice}
use orvexa.Interactions.Soundness.{IsSound}
use orvexa.Messaging.{Message, SendInput, send}
use orvexa.Messaging.Sending.{Sent, send-Post}
use orvexa.Base.{◌∷◌, none, Option, true, [], ◌==◌, refl}
use orvexa.Database.Rules.{Post}
use orvexa.Database.{World}
use orvexa.Errors.{Error}

abbrev row : Rec
row = record {
  id = 3;
  tenant_id = 1;
  conversation_id = 5;
  customer_id = 7;
  channel = voice;
  direction = inbound;
  status = pending;
  source = "+254700000001";
  destination = "+254700000002";
  assigned_agent_id = 0;
  assigned_queue_id = 0;
  started_at = 10;
  answered_at = none;
  ended_at = none;
  end_reason = "";
  provider = "voice";
  provider_ref = "";
  idempotency_key = "";
}

abbrev talk : Conversation
talk = record {
  id = 5;
  tenant_id = 1;
  customer_id = 7;
  channel = voice;
  is_open = true;
  unread_count = 0;
  last_interaction_at = none;
  updated_at = 10;
}

abbrev tables : Store
tables = record {
  customers = record { id = 7; tenant_id = 1 } ∷ [];
  conversations = talk ∷ [];
  participants = [];
  interactions = row ∷ [];
  outbox = [];
}

abbrev start : World Store
start = record {
  db = tables;
  tx = tables;
  fault = λ n. n == 9;
  statement = 0;
  next_id = 100;
  now = 20;
}

abbrev reminder : SendInput
reminder = record {
  customer_id = 7;
  channel = sms;
  from = " ";
  to = "+254700000009";
  body = "hello";
  media_urls = [];
}

abbrev carrier : Message → Option Error
carrier msg = none

send-Post_example :
    Post (Sent carrier 1 reminder) (λ _ v. IsSound v.db) (send carrier (λ s. s) 1 reminder start)
unfolding owns_customer is_terminal
send-Post_example =
    send-Post carrier (λ s. s) 1 reminder start
      record { rows = (record { housed = refl; owned = refl; timed = refl }, tt); apart = (tt, tt) }

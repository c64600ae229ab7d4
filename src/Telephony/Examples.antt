-- ===== src/Telephony/Examples.antt =====
-- A tenant with a customer and a pending call, and a carrier that is down.
use orvexa.Base.{◌∷◌, Option, ◌==◌, [], some, true, none}
use orvexa.Telephony.{PlaceCallInput, Command, Failure, apply_action, answer_action}
use orvexa.Interactions.Store.{Store, Conversation, Rec}
use orvexa.Database.Rules.{Post}
use orvexa.Database.{World}
use orvexa.Errors.{internal_error}
use orvexa.Interactions.State.{voice, inbound, pending}
use orvexa.Telephony.Actions.{Acts, apply_action-Post}

abbrev row : Rec
row = record {
  id = 3;
  tenant_id = 1;
  conversation_id = 5;
  customer_id = 7;
  channel = voice;
  direction = inbound;
  status = pending;
  source = "+254700000001";
  destination = "+254700000002";
  assigned_agent_id = 0;
  assigned_queue_id = 0;
  started_at = 10;
  answered_at = none;
  ended_at = none;
  end_reason = "";
  provider = "voice";
  provider_ref = "";
  idempotency_key = "";
}

abbrev talk : Conversation
talk = record {
  id = 5;
  tenant_id = 1;
  customer_id = 7;
  channel = voice;
  is_open = true;
  unread_count = 0;
  last_interaction_at = none;
  updated_at = 10;
}

abbrev tables : Store
tables = record {
  customers = record { id = 7; tenant_id = 1 } ∷ [];
  conversations = talk ∷ [];
  participants = [];
  interactions = row ∷ [];
  outbox = [];
}

abbrev start : World Store
start = record {
  db = tables;
  tx = tables;
  fault = λ n. n == 9;
  statement = 0;
  next_id = 100;
  now = 20;
}

abbrev carrier_down : Failure
carrier_down = record { error = internal_error "voice.down"; is_typed = true }

abbrev carrier : Command → Option Failure
carrier c = some carrier_down

abbrev request : PlaceCallInput
request = record { customer_id = 7; from = ""; to = "+254700000009"; agent_id = 4; queue_id = 0 }

apply_action-Post_example :
    Post
      (λ _ v. Acts 1 3 start v)
      (λ e v. Acts 1 3 start v)
      (apply_action carrier 1 3 answer_action "" start)
apply_action-Post_example = apply_action-Post carrier 1 3 answer_action "" start

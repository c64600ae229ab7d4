-- ===== src/Interactions/Examples.antt =====
-- A tenant with one customer, one conversation and one pending interaction, and calls on them.
use orvexa.Interactions.Store.{Rec, owns_customer, Store, Conversation}
use orvexa.Interactions.Input.{CreateInput}
use orvexa.Interactions.State.{is_terminal, sms, voice, active, inbound, pending}
use orvexa.Interactions.Soundness.{
  IsSound, perform_all, creates, moves, assigns, perform_all-IsSound,
}
use orvexa.Database.{World}
use orvexa.Base.{String, ◌==◌, ◌∷◌, ◌≡◌, [], true, none, refl}
use orvexa.Database.Rules.{Post}
use orvexa.Interactions.Service.Move.{Accepts, Refuses, transition_to-Post}
use orvexa.Interactions.Service.{transition_to}
use orvexa.Interactions.Create.Creation.{Answers, create-Post}
use orvexa.Interactions.Create.{create}

abbrev row : Rec
row = record {
  id = 3;
  tenant_id = 1;
  conversation_id = 5;
  customer_id = 7;
  channel = voice;
  direction = inbound;
  status = pending;
  source = "+254700000001";
  destination = "+254700000002";
  assigned_agent_id = 0;
  assigned_queue_id = 0;
  started_at = 10;
  answered_at = none;
  ended_at = none;
  end_reason = "";
  provider = "internal";
  provider_ref = "";
  idempotency_key = "";
}

abbrev talk : Conversation
talk = record {
  id = 5;
  tenant_id = 1;
  customer_id = 7;
  channel = voice;
  is_open = true;
  unread_count = 0;
  last_interaction_at = none;
  updated_at = 10;
}

abbrev tables : Store
tables = record {
  customers = record { id = 7; tenant_id = 1 } ∷ [];
  conversations = talk ∷ [];
  participants = [];
  interactions = row ∷ [];
  outbox = [];
}

abbrev start : World Store
start = record {
  db = tables;
  tx = tables;
  fault = λ n. n == 4;
  statement = 0;
  next_id = 100;
  now = 20;
}

abbrev request : CreateInput
request = record {
  conversation_id = 0;
  customer_id = 7;
  channel = sms;
  direction = inbound;
  source = "+254700000001";
  destination = "+254700000002";
  provider = "simulator";
  provider_ref = "m1";
  idempotency_key = "";
}

abbrev plain : String → String
plain s = s

tables-IsSound : IsSound tables
unfolding owns_customer is_terminal
tables-IsSound = record {
  rows = (record { housed = refl; owned = refl; timed = refl }, tt);
  apart = (tt, tt);
}

transition_to-Post_example :
    Post
      (Accepts start 1 3 active "")
      (Refuses start 1 3 active "")
      (transition_to 1 3 active "" start)
transition_to-Post_example = transition_to-Post start 1 3 active ""

create-Post_example :
    Post (Answers plain 1 request tables) (λ e w. w.db ≡ tables) (create plain 1 request start)
create-Post_example = create-Post plain 1 request start

perform_all-IsSound_example :
    IsSound
      (perform_all plain (creates 1 request ∷ moves 1 3 active "" ∷ assigns 1 3 9 0 ∷ []) start).db
perform_all-IsSound_example =
    perform_all-IsSound plain (creates 1 request ∷ moves 1 3 active "" ∷ assigns 1 3 9 0 ∷ []) start
      tables-IsSound

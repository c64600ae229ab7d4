-- ===== src/Comms/Examples.antt =====
-- A core of one interaction that never fails, and a ledger with a good and a malformed event.
use orvexa.Base.{◌∷◌, false, some, [], arith, none, ◌≡◌, refl, ◌==◌, ℕ}
use orvexa.Comms.Consumer.{Consumer, ticks}
use orvexa.Comms.Draining.{IsSound, ticks-IsSound}
use orvexa.Interactions.Store.{Rec, Store}
use orvexa.Comms.Processor.{
  ProviderEvent, process, target, process_id, Asks, uuid, apply_to, move_on, process-ok,
}
use orvexa.Comms.Core.{Core, interactions}
use orvexa.Database.{World}
use orvexa.Errors.{ok}
use orvexa.Interactions.State.{voice, active, outbound, pending, Status}

abbrev row : Rec
row = record {
  id = 3;
  tenant_id = 1;
  conversation_id = 5;
  customer_id = 7;
  channel = voice;
  direction = outbound;
  status = pending;
  source = "orvexa-voice";
  destination = "+254700000002";
  assigned_agent_id = 0;
  assigned_queue_id = 0;
  started_at = 10;
  answered_at = none;
  ended_at = none;
  end_reason = "";
  provider = "voice";
  provider_ref = "";
  idempotency_key = "";
}

abbrev memory : Core Rec
memory = record {
  get = λ tenant id w. (ok w, w);
  move = λ tenant id to reason w. (ok (record w { status = to }), record w { status = to });
  status_of = λ tenant id w. some w.status;
  get-keeps = λ tenant id w t i. refl;
  get-ok = λ tenant id w r e. cc;
  move-ok = λ tenant id to reason w r e. refl;
}

abbrev connected : ProviderEvent
connected = record { event = "call.connected"; interaction_id = uuid 3; tenant_id = 1; detail = "" }

connected-Asks : Asks connected 3 active
unfolding target
connected-Asks = record { names = refl; wants = refl }

process-ok_example :
    (id : ℕ) × (to : Status) × Asks connected id to
    × (memory.status_of 1 id (process memory connected row).1 ≡ some to)
unfolding process process_id apply_to move_on target
process-ok_example = process-ok memory connected row refl

abbrev empty_store : Store
empty_store = record {
  customers = [];
  conversations = [];
  participants = [];
  interactions = [];
  outbox = [];
}

abbrev empty_world : World Store
empty_world = record {
  db = empty_store;
  tx = empty_store;
  fault = λ n. false;
  statement = 0;
  next_id = 1;
  now = 0;
}

abbrev consumer : Consumer (World Store)
consumer = record {
  ledger =
      record { provider = "sim"; event_id = "e1"; payload = some connected; is_processed = false }
      ∷ record { provider = "sim"; event_id = "e2"; payload = none; is_processed = false }
      ∷ [];
  attempts = λ p e. 0;
  applied = [];
  fault = λ n. n == 2;
  statement = 0;
  world = empty_world;
}

consumer-IsSound : IsSound interactions 100 10 consumer
consumer-IsSound = record {
  bounded = λ p e. omega arith;
  earned = ((λ p. ground (arith, p)), ((λ p. ground (arith, p)), tt));
}

ticks-IsSound_example : IsSound interactions 100 10 (ticks interactions 100 10 3 consumer)
ticks-IsSound_example = ticks-IsSound interactions 100 10 3 consumer consumer-IsSound

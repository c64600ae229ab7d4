-- ===== src/Conversations/Examples.antt =====
-- A conversation that is closed, and then assigned in vain.
use orvexa.Base.{◌∷◌, [], none, false, ◌≡◌, ◌⊎◌}
use orvexa.Conversations.{Store, Conversation, close, assign, ongoing, end_row}
use orvexa.Database.Rules.{Post}
use orvexa.Events.{Envelope}
use orvexa.Conversations.Closing.{Keeps, Closes, close-Post}
use orvexa.Database.{World}
use orvexa.Conversations.Staying.{Runs-Keeps, assigns, stays}

abbrev talk : Conversation
talk = record {
  id = 3;
  tenant_id = 1;
  customer_id = 2;
  status = ongoing;
  assigned_agent_id = 0;
  assigned_queue_id = 5;
  updated_at = 90;
  closed_at = none;
}

abbrev rows : Store
rows = record { conversations = talk ∷ []; outbox = [] }

abbrev world : World Store
world = record { db = rows; tx = rows; fault = λ n. false; statement = 0; next_id = 7; now = 100 }

close-Post_example :
    Post
      (λ c v.
        (cur : Conversation) × (e : Envelope) × Closes 1 3 world cur e v.db × (c ≡ end_row 100 cur))
      (λ x v.
        (v.db ≡ world.db) ⊎ ((cur : Conversation) × (e : Envelope) × Closes 1 3 world cur e v.db))
      (close 1 3 "resolved" world)
close-Post_example = close-Post 1 3 "resolved" world

abbrev closed_world : World Store
closed_world = (close 1 3 "resolved" world).1

Runs-Keeps_example : Keeps closed_world.db (assign 1 3 9 0 closed_world).1.db
Runs-Keeps_example = Runs-Keeps closed_world (assign 1 3 9 0 closed_world).1 (assigns 1 3 9 0 stays)

-- ===== src/Routing/Examples.antt =====
-- Two agents of a tenant, one of them available, and an interaction to route.
use orvexa.Interactions.State.{pending, voice, inbound}
use orvexa.Interactions.Store.{Rec}
use orvexa.Base.{
  none, some, ◌∷◌, true, [], ℕ, Option, ◌≡◌, ◌≢◌, ◌==◌, List, ◌⊎◌, arith, refl, if◌then◌else◌,
  false, ◌*◌, ◌^◌, ◌≤◌,
}
use orvexa.Routing.Service.{
  Agent, Store, agent_views, route, by_id, insert_view, view_of, skills_of,
}
use orvexa.Routing.{
  Request, decide, candidates_of, assigned_agent, no_id, decision, score, coverage, speaks, matched,
  distinct, sort_texts, insert_text, rank, insert_ranked, pick, is_assignable, score_of,
}
use orvexa.Database.Rules.{Post}
use orvexa.Database.{World}
use orvexa.Routing.Best.{Assigns, Declines, decide-Choice}
use orvexa.Routing.Recording.{Routes, route-Post}
use orvexa.Events.{no_id}
use orvexa.Routing.Agents.{decide_urgent_twice, IsReady, route-IsReady}
use orvexa.Floats.{
  divide_float, float_of, add_float, multiply_float, round, nearest, gap, power_below, one,
}
use orvexa.Routing.Merits.{score_mono}

abbrev ann : Agent
ann = record { id = 4; tenant_id = 1; display_name = "Ann"; language = "en"; is_active = true }

abbrev ben : Agent
ben = record { id = 6; tenant_id = 1; display_name = "Ben"; language = "sw"; is_active = true }

abbrev row : Rec
row = record {
  id = 3;
  tenant_id = 1;
  conversation_id = 5;
  customer_id = 7;
  channel = voice;
  direction = inbound;
  status = pending;
  source = "+254700000001";
  destination = "+254700000002";
  assigned_agent_id = 0;
  assigned_queue_id = 0;
  started_at = 10;
  answered_at = none;
  ended_at = none;
  end_reason = "";
  provider = "internal";
  provider_ref = "";
  idempotency_key = "";
}

abbrev tables : Store
tables = record {
  agents = ben ∷ ann ∷ [];
  agent_skills = (4, "billing") ∷ (6, "billing") ∷ [];
  interactions = row ∷ [];
  presence = [];
  decisions = [];
  outbox = [];
}

abbrev start : World Store
start = record {
  db = tables;
  tx = tables;
  fault = λ n. n == 9;
  statement = 0;
  next_id = 100;
  now = 20;
}

abbrev at_desk : ℕ → Option (List ℕ)
at_desk tenant = some (6 ∷ [])

-- The read of the agents, which is the second statement, breaks off after the first of them.
abbrev short : ℕ → Option ℕ
short n = if n == 1 then some 1 else none

abbrev request : Request
request = record {
  interaction_id = 3;
  required_skills = "billing" ∷ [];
  language = "sw";
  priority = 9;
  queue_id = 0;
}

abbrev twice : Request
twice = record request { required_skills = "billing" ∷ "billing" ∷ [] }

route-Post_example :
    Post
      (λ d v. Routes short at_desk 1 request tables d v.db)
      (λ _ v. v.db ≡ tables)
      (route short at_desk 1 request start)
route-Post_example = route-Post short at_desk 1 request start

route-IsReady_example :
    Post
      (λ d _. d.outcome ≡ assigned_agent → IsReady at_desk 1 d.assigned_agent_id tables)
      (λ _ v. v.db ≡ tables)
      (route short at_desk 1 request start)
route-IsReady_example = route-IsReady short at_desk 1 request start

decide-Choice_example :
    let d = decide request (agent_views 1 tables) (6 ∷ []) in
    Assigns request (agent_views 1 tables) (6 ∷ []) d
    ⊎ Declines request (agent_views 1 tables) (6 ∷ []) d
decide-Choice_example = decide-Choice request (agent_views 1 tables) (6 ∷ [])

decide_urgent_twice_example :
    (decide twice (agent_views 1 tables) (6 ∷ [])).outcome ≢ assigned_agent
decide_urgent_twice_example =
    decide_urgent_twice twice (agent_views 1 tables) (6 ∷ []) (omega arith) λ d. cc (d.0)

-- Ben is the one who is assigned.
assigns_ben : (decide request (agent_views 1 tables) (6 ∷ [])).assigned_agent_id ≡ 6
unfolding decide candidates_of decision score score_of coverage speaks matched distinct sort_texts
    insert_text rank insert_ranked pick is_assignable agent_views by_id insert_view view_of
    skills_of add_float multiply_float float_of divide_float round nearest gap power_below one
assigns_ben = refl

-- Four of 28 skills with the language score less than 25 without it: the rounded sums are
-- 2.0857142857142854 and 2.085714285714286, although the exact ones are equal.
rounded_apart :
    (score_of (divide_float (float_of 4) (float_of 28)) true 3 ≡ 4696611039972088 * 2 ^ 1023)
    × (score_of (divide_float (float_of 25) (float_of 28)) false 3 ≡ 4696611039972089 * 2 ^ 1023)
unfolding score_of divide_float float_of add_float multiply_float round nearest gap power_below one
rounded_apart = (refl, refl)

score_mono_example :
    (score request (view_of tables.agent_skills ann) true).score
    ≤ (score (record request { priority = 10 }) (view_of tables.agent_skills ben) true).score
unfolding view_of skills_of speaks
score_mono_example =
    score_mono request 10 (view_of tables.agent_skills ann) (view_of tables.agent_skills ben) true
      true (omega arith) (λ e. refl) (omega arith)

-- ===== src/Agents/Examples.antt =====
-- An agent with two skills.
use orvexa.Base.{◌∷◌, [], false, ◌≡◌, refl}
use orvexa.Agents.{Store, AgentInput, create_agent, insert_skills, pos, agent_of, write_failed}
use orvexa.Database.Rules.{Post}
use orvexa.Agents.Creating.{CreatesAgent, create_agent-Post}
use orvexa.Database.{World, ◌>>=◌}
use orvexa.Database.Inserting.{tx_insert}
use orvexa.Errors.{err}

abbrev input : AgentInput
input = record {
  external_identity = "kc|wanjiru";
  display_name = "Wanjiru";
  email = "";
  language = "";
  skills =
      (record { skill = "billing"; level = pos 4 })
      ∷ (record { skill = "swahili"; level = pos 5 })
      ∷ [];
}

abbrev empty : Store
empty = record { agents = []; agent_skills = []; queues = []; queue_skills = [] }

abbrev world : World Store
world = record { db = empty; tx = empty; fault = λ n. false; statement = 0; next_id = 7; now = 100 }

create_agent-Post_example :
    Post
      (λ a v. CreatesAgent 1 input world a v.db)
      (λ e v. v.db ≡ world.db)
      (create_agent 1 input world)
create_agent-Post_example = create_agent-Post 1 input world

-- A skill that is listed twice is an internal error.
twice :
    (create_agent 1
      (record input {
        skills =
            (record { skill = "billing"; level = pos 4 })
            ∷ (record { skill = "billing"; level = pos 2 })
            ∷ [];
      })
      world).0
    ≡ err write_failed
unfolding create_agent insert_skills tx_insert agent_of ◌>>=◌
twice = refl

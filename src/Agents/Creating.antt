-- ===== src/Agents/Creating.antt =====
-- What Create of internal/agents/service.go and of internal/queues/service.go commits.
use orvexa.Base.{
  ◌∷◌, List, ℕ, str_eq, any, ◌≡◌, ◌++◌, false, All, ◌||◌, sym, true, append-nil, arith, any-append,
  ◌∙◌, append_assoc, refl, All-map,
}
use orvexa.Agents.{
  Store, Skill, Agent, AgentInput, create_agent, agent_of, insert_skills, has_skill, is_between,
  same_agent,
}
use mathlib.Core.List.{[]}
use orvexa.Database.{World}
use orvexa.Database.Rules.{
  Post, guard_then, pure-Post, fresh_then, begin_then, Post-map, bind-Post, commit_then,
}
use orvexa.Database.Inserting.{tx_insert_then}

-- Named skills with levels from 1 to 5, and no name twice.
abbrev pub IsSkilled : List Skill → Type 0
IsSkilled [] = Unit
IsSkilled (k ∷ ks) =
    (str_eq k.skill "" ≡ false)
    × (is_between 1 5 k.level ≡ true)
    × All (λ j. str_eq k.skill j.skill ≡ false) ks
    × IsSkilled ks

abbrev pub skill_rows : ℕ → List Skill → List (ℕ × Skill)
skill_rows id [] = []
skill_rows id (k ∷ ks) = (id, k) ∷ skill_rows id ks

record Skilled (id : ℕ) (ks : List Skill) (w v : World Store) : Type 0 where
  pub db : v.db ≡ w.db
  pub agents : v.tx.agents ≡ w.tx.agents
  pub queues : v.tx.queues ≡ w.tx.queues
  pub queue_skills : v.tx.queue_skills ≡ w.tx.queue_skills
  pub agent_skills : v.tx.agent_skills ≡ w.tx.agent_skills ++ skill_rows id ks
  pub skilled : IsSkilled ks
  pub free : All (λ j. any (has_skill id j.skill) w.tx.agent_skills ≡ false) ks

-- A skill that is free after a row was added was free before, and is not that of the row.
free_before :
    (id : ℕ) (k : Skill) (rows : List (ℕ × Skill)) (j : Skill)
    → any (has_skill id j.skill) (rows ++ (id, k) ∷ []) ≡ false
    → (any (has_skill id j.skill) rows ≡ false) × (str_eq k.skill j.skill ≡ false)
free_before id k rows j h = parted (sym (any-append (has_skill id j.skill) rows ((id, k) ∷ [])) ∙ h)
  where
    parted :
        (any (has_skill id j.skill) rows || any (has_skill id j.skill) ((id, k) ∷ [])) ≡ false
        → (any (has_skill id j.skill) rows ≡ false) × (str_eq k.skill j.skill ≡ false)
    parted e = ground arith

insert_skills-Post :
    (id : ℕ) (ks : List Skill) (w : World Store)
    → Post (λ _ v. Skilled id ks w v) (λ e v. v.db ≡ w.db) (insert_skills id ks w)
unfolding insert_skills
insert_skills-Post id [] w = pure-Post _ _ (record {
  db = refl;
  agents = refl;
  queues = refl;
  queue_skills = refl;
  agent_skills = sym (append-nil w.tx.agent_skills);
  skilled = tt;
  free = tt;
})
insert_skills-Post id (k ∷ ks) w = guard_then _ _ _ _ refl λ named. guard_then _ _ _ _ refl λ level.
    tx_insert_then _ _ _ _ _ _ refl (λ taken. refl)
      λ free.
        Post-map
          (λ _ v t. record {
            db = t.db;
            agents = t.agents;
            queues = t.queues;
            queue_skills = t.queue_skills;
            agent_skills =
                t.agent_skills ∙ append_assoc w.tx.agent_skills ((id, k) ∷ []) (skill_rows id ks);
            skilled = (
              ground (arith, named),
              level,
              All-map _ _ (λ j h. (free_before id k w.tx.agent_skills j h).1) ks t.free,
              t.skilled,
            );
            free =
                (free, All-map _ _ (λ j h. (free_before id k w.tx.agent_skills j h).0) ks t.free);
          })
          (λ e v same. same) (insert_skills-Post id ks _)

pub record CreatesAgent (tenant : ℕ) (input : AgentInput) (w : World Store) (a : Agent) (s : Store)
    : Type 0 where
  pub agent : a ≡ agent_of tenant w.next_id input
  pub skilled : IsSkilled input.skills
  pub is_new : any (same_agent a) w.db.agents ≡ false
  pub agents : s.agents ≡ w.db.agents ++ (record a { skills = [] }) ∷ []
  pub agent_skills : s.agent_skills ≡ w.db.agent_skills ++ skill_rows w.next_id input.skills
  pub queues : (s.queues ≡ w.db.queues) × (s.queue_skills ≡ w.db.queue_skills)

-- An agent is created only where each listed skill has a name and a level from 1 to 5 and none is
-- listed twice, and its identity is new in the tenant; it is committed with all of its skills. Any
-- error has committed nothing.
pub create_agent-Post :
    (tenant : ℕ) (input : AgentInput) (w : World Store)
    → Post
        (λ a v. CreatesAgent tenant input w a v.db)
        (λ e v. v.db ≡ w.db)
        (create_agent tenant input w)
unfolding create_agent
create_agent-Post tenant input w = guard_then _ _ _ _ refl λ _. fresh_then _ _ (
    begin_then _ _ _ refl (
      tx_insert_then _ _ _ _ _ _ refl (λ taken. refl)
        λ is_new. bind-Post _ _ _ (
          Post-map
            (λ _ v t. commit_then _ _ _ t.db (
              pure-Post _ _ (record {
                agent = refl;
                skilled = t.skilled;
                is_new = is_new;
                agents = t.agents;
                agent_skills = t.agent_skills;
                queues = (t.queues, t.queue_skills);
              })))
            (λ e v same. same) (insert_skills-Post w.next_id input.skills _))))

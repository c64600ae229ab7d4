-- ===== src/Agents.antt =====
-- Create of internal/agents/service.go and of internal/queues/service.go over their tables.
-- Levels, priorities and seconds are Go's int, with a sign. The business hours of a queue are JSON
-- that nothing reads, and are left out with the times.
pub mod Creating
pub mod Queues
mod Examples
use orvexa.Base.{
  ◌∷◌, ℕ, List, Bool, String, leb, ◌==◌, if◌then◌else◌, [], ◌||◌, any, str_eq, ◌&&◌, false, not,
  ◌++◌,
}
use orvexa.Errors.{Error, internal_error, invalid_error, conflict_error}
use orvexa.Database.{Db, ◌>>◌, pure, guard, ◌>>=◌, fresh, begin, commit}
use orvexa.Database.Inserting.{tx_insert}

pub data ℤ : Type 0 where
  pos negsuc : ℕ → ℤ

abbrev pub is_between : ℕ → ℕ → ℤ → Bool
is_between lo hi (pos n) = leb lo n && leb n hi
is_between lo hi (negsuc n) = false

abbrev pub or_default : ℕ → ℤ → ℤ
or_default d (pos n) = if n == 0 then pos d else pos n
or_default d (negsuc n) = negsuc n

pub record Skill : Type 0 where
  pub skill : String
  pub level : ℤ

pub record Agent : Type 0 where
  pub id : ℕ
  pub tenant_id : ℕ
  pub external_identity : String
  pub display_name : String
  pub email : String
  pub language : String
  pub skills : List Skill

pub record AgentInput : Type 0 where
  pub external_identity : String
  pub display_name : String
  pub email : String
  pub language : String
  pub skills : List Skill

pub record Queue : Type 0 where
  pub id : ℕ
  pub tenant_id : ℕ
  pub name : String
  pub description : String
  pub priority : ℤ
  pub sla_seconds : ℤ
  pub skills : List String

pub record QueueInput : Type 0 where
  pub name : String
  pub description : String
  pub priority : ℤ
  pub sla_seconds : ℤ
  pub skills : List String

-- The rows of an agent and of a queue carry no skills; these have tables of their own.
pub record Store : Type 0 where
  pub agents : List Agent
  pub agent_skills : List (ℕ × Skill)
  pub queues : List Queue
  pub queue_skills : List (ℕ × String)

-- The primary key, and UNIQUE (tenant_id, external_identity).
abbrev pub same_agent : Agent → Agent → Bool
same_agent a b =
    a.id == b.id || a.tenant_id == b.tenant_id && str_eq a.external_identity b.external_identity

-- The primary key, and UNIQUE (tenant_id, name).
abbrev pub same_queue : Queue → Queue → Bool
same_queue a b = a.id == b.id || a.tenant_id == b.tenant_id && str_eq a.name b.name

-- PRIMARY KEY (agent_id, skill)
abbrev pub has_skill : ℕ → String → ℕ × Skill → Bool
has_skill id s (i, k) = i == id && str_eq k.skill s

-- PRIMARY KEY (queue_id, skill)
abbrev pub needs_skill : ℕ → String → ℕ × String → Bool
needs_skill id s (i, k) = i == id && str_eq k s

abbrev pub write_failed : Error
write_failed = internal_error "db.write_failed"

-- The skills of an agent are inserted as they are listed.
unfoldable pub insert_skills : ℕ → List Skill → Db Store (Unit {0})
insert_skills id [] = pure tt
insert_skills id (k ∷ ks) = do
  guard (not (str_eq k.skill "")) (invalid_error "agent.invalid_skill")
  guard (is_between 1 5 k.level) (invalid_error "agent.invalid_skill_level")
  tx_insert write_failed write_failed (λ s. any (has_skill id k.skill) s.agent_skills)
      (λ s. record s { agent_skills = s.agent_skills ++ (id, k) ∷ [] })
  insert_skills id ks

unfoldable pub agent_of : ℕ → ℕ → AgentInput → Agent
agent_of tenant id input = record {
  id = id;
  tenant_id = tenant;
  external_identity = input.external_identity;
  display_name = input.display_name;
  email = input.email;
  language = if str_eq input.language "" then "en" else input.language;
  skills = input.skills;
}

-- Create of internal/agents/service.go
unfoldable pub create_agent : ℕ → AgentInput → Db Store Agent
unfolding agent_of
create_agent tenant input = do
  guard (not (str_eq input.external_identity "" || str_eq input.display_name ""))
      (invalid_error "agent.identity_required")
  id ← fresh
  let a = agent_of tenant id input
  begin (internal_error "db.tx_failed")
  tx_insert write_failed (conflict_error "agent.identity_exists") (λ s. any (same_agent a) s.agents)
      (λ s. record s { agents = s.agents ++ (record a { skills = [] }) ∷ [] })
  insert_skills id input.skills
  commit (internal_error "db.commit_failed")
  pure a

-- dedupe: the skills that were seen come first.
unfoldable pub dedupe : List String → List String → List String
dedupe seen [] = []
dedupe seen (s ∷ rest) =
    let others = dedupe seen rest in
    let more = s ∷ dedupe (s ∷ seen) rest in if any (str_eq s) seen then others else more

unfoldable pub insert_needs : ℕ → List String → Db Store (Unit {0})
insert_needs id [] = pure tt
insert_needs id (k ∷ ks) = do
  guard (not (str_eq k "")) (invalid_error "queue.invalid_skill")
  tx_insert write_failed write_failed (λ s. any (needs_skill id k) s.queue_skills)
      (λ s. record s { queue_skills = s.queue_skills ++ (id, k) ∷ [] })
  insert_needs id ks

unfoldable pub queue_of : ℕ → ℕ → QueueInput → Queue
unfolding dedupe
queue_of tenant id input = record {
  id = id;
  tenant_id = tenant;
  name = input.name;
  description = input.description;
  priority = or_default 5 input.priority;
  sla_seconds = or_default 60 input.sla_seconds;
  skills = dedupe [] input.skills;
}

-- Create of internal/queues/service.go
unfoldable pub create_queue : ℕ → QueueInput → Db Store Queue
unfolding queue_of
create_queue tenant input = do
  guard (not (str_eq input.name "")) (invalid_error "queue.name_required")
  guard (is_between 1 10 (or_default 5 input.priority)) (invalid_error "queue.invalid_priority")
  guard (is_between 5 3600 (or_default 60 input.sla_seconds)) (invalid_error "queue.invalid_sla")
  id ← fresh
  let q = queue_of tenant id input
  begin (internal_error "db.tx_failed")
  tx_insert write_failed (conflict_error "queue.name_exists") (λ s. any (same_queue q) s.queues)
      (λ s. record s { queues = s.queues ++ (record q { skills = [] }) ∷ [] })
  insert_needs id q.skills
  commit (internal_error "db.commit_failed")
  pure q

-- ===== src/Routing.antt =====
-- internal/routing/service.go, the Engine: Score and Decide. Scores are float64, with their rounding,
-- in the units of Floats. Agent ids are numbers in the order of their texts; a missing queue is `no_id`. Priorities are
-- those of Go's int from 0 up, since Route replaces a smaller one.
pub mod Ranking
pub mod Skills
pub mod Best
pub mod Merits
pub mod Service
pub mod Recording
pub mod Agents
mod Examples
use Prim.Native.String.{compare as compare_text}
use Prim.Native.Nat.{Ordering}
use orvexa.Base.{
  ◌∷◌, ℕ, String, Bool, List, [], Option, some, none, true, false, not, ◌&&◌, ◌||◌, ◌==◌, ◌+◌, ◌*◌,
  ltb, leb, str_eq, any, if◌then◌else◌, length, select, map,
}
use orvexa.Events.{no_id}
use orvexa.Floats.{float_of, add_float, multiply_float, divide_float}

pub record Request : Type 0 where
  pub interaction_id : ℕ
  pub required_skills : List String
  pub language : String
  pub priority : ℕ
  pub queue_id : ℕ

pub record AgentView : Type 0 where
  pub id : ℕ
  pub display_name : String
  pub language : String
  pub skills : List String
  pub queue_id : ℕ

pub record Candidate : Type 0 where
  pub agent_id : ℕ
  pub display_name : String
  pub score : ℕ
  pub matched_skills : List String
  pub language : Bool
  pub available : Bool

pub data Outcome : Type 0 where
  assigned_agent queued no_agent_available : Outcome

pub record Decision : Type 0 where
  pub interaction_id : ℕ
  pub outcome : Outcome
  pub candidates : List Candidate
  pub assigned_agent_id : ℕ
  pub assigned_queue_id : ℕ

abbrev pub has : String → List String → Bool
has s = any (str_eq s)

-- The keys of a map that is filled from a list.
unfoldable pub distinct : List String → List String
distinct [] = []
distinct (s ∷ rest) = let others = distinct rest in if has s others then others else s ∷ others

-- sort.Strings
abbrev before_text : String → String → Bool
before_text s t = elim (compare_text s t) [ Ordering.gt ↦ false | _ ↦ true ]

unfoldable pub insert_text : String → List String → List String
insert_text s [] = s ∷ []
insert_text s (t ∷ rest) =
    let later = t ∷ insert_text s rest in if before_text s t then s ∷ t ∷ rest else later

unfoldable pub sort_texts : List String → List String
sort_texts [] = []
sort_texts (s ∷ rest) = insert_text s (sort_texts rest)

-- The keys of `matched`: the required skills that the agent has, each once.
unfoldable pub matched : List String → List String → List String
matched required skills = distinct (select (λ need. has need skills) required)

unfoldable pub speaks : Request → AgentView → Bool
speaks req a = str_eq req.language "" || str_eq a.language "" || str_eq req.language a.language

unfoldable pub b2f : Bool → ℕ
b2f true = float_of 1
b2f false = float_of 0

-- The part of the required skills that the agent has.
unfoldable pub coverage : Request → AgentView → ℕ
unfolding matched
coverage req a =
    if ltb 0 (length req.required_skills)
    then divide_float (float_of (length (matched req.required_skills a.skills)))
        (float_of (length req.required_skills))
    else float_of 1

-- The constants 1.5 and 2.0, and the sum of Score.
unfoldable pub one_and_half : ℕ
one_and_half = divide_float (float_of 3) (float_of 2)

unfoldable pub threshold : ℕ
threshold = float_of 2

unfoldable pub score_of : ℕ → Bool → ℕ → ℕ
unfolding one_and_half b2f
score_of covered lang priority =
    add_float
      (add_float (multiply_float (float_of 2) covered) (multiply_float one_and_half (b2f lang)))
      (divide_float (float_of priority) (float_of 10))

-- Engine.Score
unfoldable pub score : Request → AgentView → Bool → Candidate
unfolding score_of coverage speaks matched sort_texts
score req a available = record {
  agent_id = a.id;
  display_name = a.display_name;
  score = score_of (coverage req a) (speaks req a) req.priority;
  matched_skills = sort_texts (matched req.required_skills a.skills);
  language = speaks req a;
  available = available;
}

-- The agents that the queue of the request does not exclude.
abbrev pub is_considered : Request → AgentView → Bool
is_considered req a = req.queue_id == no_id || a.queue_id == no_id || a.queue_id == req.queue_id

abbrev pub is_available : List ℕ → ℕ → Bool
is_available available id = any (λ a. a == id) available

unfoldable pub candidates_of : Request → List ℕ → List AgentView → List Candidate
candidates_of req available agents =
    map (λ a. score req a (is_available available a.id)) (select (is_considered req) agents)

-- The comparison of sort.SliceStable.
abbrev pub ranks_before : Candidate → Candidate → Bool
ranks_before c d = if c.score == d.score then ltb c.agent_id d.agent_id else ltb d.score c.score

-- An entry goes before the first that it does not come after, so equal entries keep their order.
unfoldable pub insert_ranked : Candidate → List Candidate → List Candidate
insert_ranked c [] = c ∷ []
insert_ranked c (d ∷ rest) =
    let later = d ∷ insert_ranked c rest in if ranks_before d c then later else c ∷ d ∷ rest

unfoldable pub rank : List Candidate → List Candidate
rank [] = []
rank (c ∷ rest) = insert_ranked c (rank rest)

-- The tests of the loop that picks: none of its `continue`s.
unfoldable pub is_assignable : Request → Candidate → Bool
unfolding threshold
is_assignable req c =
    if not c.available
    then false
    else if leb 8 req.priority
        && ltb 0 (length req.required_skills)
        && ltb (length c.matched_skills) (length req.required_skills)
    then false
    else not (ltb c.score threshold)

unfoldable pub pick : Request → List Candidate → Option Candidate
pick req [] = none
pick req (c ∷ rest) = let next = pick req rest in if is_assignable req c then some c else next

abbrev pub is_empty {ℓ} : {A : Type ℓ} → List A → Bool
is_empty [] = true
is_empty (x ∷ xs) = false

unfoldable pub decision : Request → List ℕ → List Candidate → Option Candidate → Decision
decision req available candidates (some c) = record {
  interaction_id = req.interaction_id;
  outcome = assigned_agent;
  candidates = candidates;
  assigned_agent_id = c.agent_id;
  assigned_queue_id = no_id;
}
decision req available candidates none = record {
  interaction_id = req.interaction_id;
  outcome =
      if not (is_empty available) || not (is_empty candidates) then queued else no_agent_available;
  candidates = candidates;
  assigned_agent_id = no_id;
  assigned_queue_id = no_id;
}

-- Engine.Decide; its id, time and latency are left out.
unfoldable pub decide : Request → List AgentView → List ℕ → Decision
unfolding decision
decide req agents available =
    let candidates = rank (candidates_of req available agents) in
    decision req available candidates (pick req candidates)

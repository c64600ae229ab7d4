-- ===== src/Routing/Best.antt =====
-- What Decide promises: the best suitable agent, or none where there is none.
-- What the rules ask of an agent: it is available, an urgent request lists no skill that the agent
-- lacks and none twice, and the score is at least 2.0.
use orvexa.Routing.{
  Request, is_assignable, score, List, Candidate, AgentView, is_considered, is_available, Decision,
  has, assigned_agent, no_id, ranks_before, matched, coverage, score_of, threshold, speaks, pick,
  candidates_of, decide, decision, rank, queued, no_agent_available, is_empty, threshold, score_of,
}
use orvexa.Base.{
  List, ℕ, ◌≡◌, true, ◌≤◌, All, ◌↔◌, length, ◌≢◌, false, ◌∷◌, Option, Bool, ◌⊎◌, arith, some, map,
  inr, select, Bool-cases, if◌then◌else◌, inl, All-map, refl, not, ◌||◌, ap, In,
}
use orvexa.Routing.Ranking.{IsRanked, rank-IsRanked, All-rank, In-rank}
use orvexa.Events.{no_id}
use orvexa.Routing.Skills.{matched_iff, IsDistinct, length-sort_texts}
use native.Mathlib.Decide.{dec_le}
use mathlib.Core.Option.{none}
use mathlib.Core.List.{[]}

pub record IsSuitable (req : Request) (available : List ℕ) (a : AgentView) : Type 0 where
  pub considered : is_considered req a ≡ true
  pub free : is_available available a.id ≡ true
  pub covers :
      8 ≤ req.priority
      → All (λ s. has s a.skills ≡ true) req.required_skills × IsDistinct req.required_skills
  pub worth : threshold ≤ score_of (coverage req a) (speaks req a) req.priority

abbrev pub scored : Request → List ℕ → AgentView → Candidate
scored req available a = score req a (is_available available a.id)

-- The assigned agent is suitable, and no suitable agent ranks before it.
pub record Assigns (req : Request) (agents : List AgentView) (available : List ℕ) (d : Decision)
    : Type 0 where
  pub agent : AgentView
  pub among : In agent agents
  pub suits : IsSuitable req available agent
  pub named : d.assigned_agent_id ≡ agent.id
  pub is_assigned : d.outcome ≡ assigned_agent
  pub best :
      All
        (λ a.
          IsSuitable req available a
          → ranks_before (scored req available a) (scored req available agent) ≡ false)
        agents

-- No agent is suitable, and none is named.
pub record Declines (req : Request) (agents : List AgentView) (available : List ℕ) (d : Decision)
    : Type 0 where
  pub none_suits : All (λ a. ¬ (IsSuitable req available a)) agents
  pub unnamed : d.assigned_agent_id ≡ no_id
  pub unassigned : d.outcome ≢ assigned_agent

is_assignable_parts :
    (req : Request) (c : Candidate)
    → (is_assignable req c ≡ true) ↔ (
        (c.available ≡ true)
        × (8 ≤ req.priority → length req.required_skills ≤ length c.matched_skills)
        × (threshold ≤ c.score))
unfolding is_assignable
is_assignable_parts req c =
    (λ h. (ground arith, λ u. ground arith, ground arith), λ h. back h.0 h.1 h.2)
  where
    back :
        c.available ≡ true
        → (8 ≤ req.priority → length req.required_skills ≤ length c.matched_skills)
        → threshold ≤ c.score
        → is_assignable req c ≡ true
    back free covers worth = elim (dec_le 8 req.priority) [
      | yes u ↦ ground (arith, covers u)
      | no n ↦ ground arith
    ]

-- The loop's tests are the rules.
IsSuitable-iff :
    (req : Request) (available : List ℕ) (a : AgentView)
    → is_considered req a ≡ true
    → (is_assignable req (scored req available a) ≡ true) ↔ IsSuitable req available a
unfolding score
IsSuitable-iff req available a seen = (into, back)
  where
    into : is_assignable req (scored req available a) ≡ true → IsSuitable req available a
    into h =
        let (free, covers, worth) = (is_assignable_parts req (scored req available a)).0 h in
        record {
          considered = seen;
          free = free;
          covers = λ u.
              (matched_iff req.required_skills a.skills).0
                (rw (length-sort_texts (matched req.required_skills a.skills)) at (covers u));
          worth = worth;
        }

    back : IsSuitable req available a → is_assignable req (scored req available a) ≡ true
    back s = (is_assignable_parts req (scored req available a)).1 (
      s.free,
      λ u.
          rw (length-sort_texts (matched req.required_skills a.skills))
            ((matched_iff req.required_skills a.skills).1 (s.covers u)),
      s.worth,
    )

-- What `pick` finds in a ranking.
abbrev Picks : Request → List Candidate → Option Candidate → Type 0
Picks req cs none = All (λ c. is_assignable req c ≡ false) cs
Picks req cs (some c) =
    In c cs
    × (is_assignable req c ≡ true)
    × All (λ d. is_assignable req d ≡ true → ranks_before d c ≡ false) cs

pick-Picks : (req : Request) (cs : List Candidate) → IsRanked cs → Picks req cs (pick req cs)
unfolding pick
pick-Picks req [] h = tt
pick-Picks req (c ∷ cs) h = elim (Bool-cases (is_assignable req c)) [
  | inl good ↦ rw good (inl refl, good, (λ _. ground arith, All-map _ _ (λ d k _. k) cs h.0))
  | inr bad ↦ rw bad (later (pick req cs) bad (pick-Picks req cs h.1))
]
  where
    later :
        (o : Option Candidate) → is_assignable req c ≡ false → Picks req cs o → Picks req (c ∷ cs) o
    later none bad p = (bad, p)
    later (some d) bad p = (inr p.0, p.1, (λ k. cc (k, bad), p.2))

-- The candidates are the scored agents that the queue does not exclude.
module _ {A B : Type 0} (p : A → Bool) (f : A → B) where
  pub In-map-select :
      (b : B) (xs : List A)
      → In b (map f (select p xs))
      → (a : A) × In a xs × (p a ≡ true) × (b ≡ f a)
  In-map-select b [] h = absurd h
  In-map-select b (x ∷ xs) h = elim (Bool-cases (p x)) [
    | inl yes_it ↦ elim (rw yes_it at h) [
      | inl e ↦ (x, inl refl, yes_it, e)
      | inr m ↦ let (a, i, q, e) = In-map-select b xs m in (a, inr i, q, e)
    ]
    | inr no_it ↦ let (a, i, q, e) = In-map-select b xs (rw no_it at h) in (a, inr i, q, e)
  ]

  All-map-select {κ} :
      (P : B → Type κ) (xs : List A)
      → All P (map f (select p xs))
      → All (λ a. p a ≡ true → P (f a)) xs
  All-map-select P [] h = tt
  All-map-select P (x ∷ xs) h = elim (Bool-cases (p x)) [
    | inl yes_it ↦ let (k, ks) = rw yes_it at h in (λ _. k, All-map-select P xs ks)
    | inr no_it ↦ (λ q. cc (q, no_it), All-map-select P xs (rw no_it at h))
  ]

abbrev Choice : Request → List AgentView → List ℕ → Decision → Type 0
Choice req agents available d = Assigns req agents available d ⊎ Declines req agents available d

choice :
    (req : Request) (agents : List AgentView) (available : List ℕ) (o : Option Candidate)
    → Picks req (rank (candidates_of req available agents)) o
    → Choice req agents available
        (decision req available (rank (candidates_of req available agents)) o)
unfolding candidates_of decision score
choice req agents available none p = inr record {
  none_suits =
      All-map _ _ (λ a k s. cc (k s.considered, (IsSuitable-iff req available a s.considered).1 s))
        agents
        (All-map-select (is_considered req) (scored req available) _ agents (All-rank _ _ p));
  unnamed = refl;
  unassigned = λ e.
      no_outcome
        (not (is_empty available) || not (is_empty (rank (candidates_of req available agents)))) e;
}
  where
    no_outcome : (b : Bool) → (if b then queued else no_agent_available) ≢ assigned_agent
    no_outcome true = cc
    no_outcome false = cc
choice req agents available (some c) p =
    let (agent, among, seen, is_c) =
      In-map-select (is_considered req) (scored req available) c agents (In-rank c _ p.0) in
    inl record {
      agent = agent;
      among = among;
      suits = (IsSuitable-iff req available agent seen).0 (rw is_c at p.1);
      named = ap (λ x. x.agent_id) is_c;
      is_assigned = refl;
      best =
          All-map _ _
            (λ a k s.
              rw is_c at (k s.considered ((IsSuitable-iff req available a s.considered).1 s)))
            agents
            (All-map-select (is_considered req) (scored req available) _ agents (All-rank _ _ p.2));
    }

-- Decide assigns a suitable agent that no other suitable agent ranks before, and assigns none
-- exactly when none is suitable.
pub decide-Choice :
    (req : Request) (agents : List AgentView) (available : List ℕ)
    → Assigns req agents available (decide req agents available)
      ⊎ Declines req agents available (decide req agents available)
unfolding decide
decide-Choice req agents available =
    choice req agents available _
      (pick-Picks req _ (rank-IsRanked (candidates_of req available agents)))

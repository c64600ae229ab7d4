-- ===== src/Routing/Agents.antt =====
-- Whom Route can assign, and what it makes of a queue.
use orvexa.Base.{
  ◌∷◌, ℕ, Option, List, ◌≤◌, ◌≡◌, ◌==◌, ◌⊎◌, inl, true, ◌&&◌, Bool-cases, inr, some, arith, ◌≢◌,
  leb, ◌∙◌, ap, sym, In, take, suc,
}
use orvexa.Routing.{decide, Request, AgentView, Decision, no_id, assigned_agent, is_available}
use orvexa.Routing.Service.{by_id, insert_view, agent_views, Agent, view_of, Store, route}
use orvexa.Database.{World}
use orvexa.Database.Rules.{Post, Post-map}
use orvexa.Routing.Skills.{IsDistinct}
use orvexa.Events.{no_id}
use orvexa.Routing.Recording.{Routes, route-Post}
use mathlib.Core.List.{[]}
use orvexa.Routing.Best.{decide-Choice, In-map-select}
use orvexa.Database.Querying.{cut}
use mathlib.Core.Option.{none}
use Prim.Native.Nat.{zero}

In-insert_view :
    (a v : AgentView) (rest : List AgentView) → In a (insert_view v rest) → (a ≡ v) ⊎ In a rest
unfolding insert_view
In-insert_view a v [] h = h
In-insert_view a v (u ∷ rest) h = elim (Bool-cases (leb v.id u.id)) [
  | inl first ↦ rw first at h
  | inr later ↦ elim (rw later at h) [
    | inl e ↦ inr (inl e)
    | inr m ↦ elim (In-insert_view a v rest m) [ inl e ↦ inl e | inr k ↦ inr (inr k) ]
  ]
]

In-by_id : (a : AgentView) (views : List AgentView) → In a (by_id views) → In a views
unfolding by_id
In-by_id a [] h = h
In-by_id a (v ∷ rest) h = elim (In-insert_view a v (by_id rest) h) [
  | inl e ↦ inl e
  | inr m ↦ inr (In-by_id a rest m)
]

-- The agent `id` is an active agent of the tenant and was answered to be available.
pub record IsReady (presence : ℕ → Option (List ℕ)) (tenant id : ℕ) (s : Store) : Type 0 where
  pub agent : Agent
  pub stored : In agent s.agents
  pub named : agent.id ≡ id
  pub mine : agent.tenant_id ≡ tenant
  pub active : agent.is_active ≡ true
  pub ids : List ℕ
  pub answered : presence tenant ≡ some ids
  pub free : is_available ids id ≡ true

of_tenant :
    (tenant : ℕ) (a : Agent)
    → (a.tenant_id == tenant && a.is_active) ≡ true
    → (a.tenant_id ≡ tenant) × (a.is_active ≡ true)
of_tenant tenant a h = ground arith

In-take : (a : AgentView) (n : ℕ) (views : List AgentView) → In a (take n views) → In a views
In-take a zero views h = absurd h
In-take a (suc n) [] h = h
In-take a (suc n) (v ∷ views) (inl e) = inl e
In-take a (suc n) (v ∷ views) (inr m) = inr (In-take a n views m)

In-cut : (a : AgentView) (o : Option ℕ) (views : List AgentView) → In a (cut o views) → In a views
In-cut a none views h = h
In-cut a (some n) views h = In-take a n views h

Routes-IsReady :
    (broken : ℕ → Option ℕ) (presence : ℕ → Option (List ℕ)) (tenant : ℕ) (req : Request)
    (s : Store) (d : Decision) (t : Store)
    → Routes broken presence tenant req s d t
    → d.outcome ≡ assigned_agent
    → IsReady presence tenant d.assigned_agent_id s
unfolding agent_views view_of
Routes-IsReady broken presence tenant req s d t r sent = elim r.decided [
  | inl c ↦
      let (a, i, own, e) =
        In-map-select (λ b. b.tenant_id == tenant && b.is_active) (view_of s.agent_skills) c.agent
          s.agents (In-by_id c.agent _ (In-cut c.agent (broken r.read) _ c.among)) in
      let id_is : d.assigned_agent_id ≡ a.id = c.named ∙ ap (λ v. v.id) e in
      record {
        agent = a;
        stored = i;
        named = sym id_is;
        mine = (of_tenant tenant a own).0;
        active = (of_tenant tenant a own).1;
        ids = r.ids;
        answered = r.answered;
        free = rw c.named c.suits.free;
      }
  | inr c ↦ absurd (c.unassigned sent)
]

-- An agent that Route assigns is an active agent of the caller's tenant, and the presence reader
-- named it available, whatever statement fails.
pub route-IsReady :
    (broken : ℕ → Option ℕ) (presence : ℕ → Option (List ℕ)) (tenant : ℕ) (req : Request)
    (w : World Store)
    → Post
        (λ d _. d.outcome ≡ assigned_agent → IsReady presence tenant d.assigned_agent_id w.db)
        (λ _ v. v.db ≡ w.db)
        (route broken presence tenant req w)
route-IsReady broken presence tenant req w =
    Post-map (λ d v r sent. Routes-IsReady broken presence tenant req w.db d v.db r sent)
      (λ _ v same. same) (route-Post broken presence tenant req w)

-- An urgent request that lists a skill twice is never assigned, whoever is available.
pub decide_urgent_twice :
    (req : Request) (agents : List AgentView) (available : List ℕ)
    → 8 ≤ req.priority
    → ¬ (IsDistinct req.required_skills)
    → (decide req agents available).outcome ≢ assigned_agent
decide_urgent_twice req agents available urgent twice = elim (decide-Choice req agents available) [
  | inl c ↦ λ _. twice (c.suits.covers urgent).1
  | inr c ↦ c.unassigned
]

-- ===== src/Routing/Service.antt =====
-- internal/routing/service.go, the Service: Route, SetPresence and GetPresence, with their tables.
-- The answer of the PresenceReader, an interface, is an argument of Route.
use orvexa.Interactions.Store.{Rec, is_row, is_assignable}
use orvexa.Routing.{
  Request, AgentView, Decision, Outcome, assigned_agent, queued, no_agent_available, decide,
  sort_texts, distinct,
}
use orvexa.Events.{Envelope, new_envelope, insert_event, ident, no_id}
use orvexa.Base.{
  ◌∷◌, String, ℕ, List, ◌++◌, Option, Bool, if◌then◌else◌, [], leb, map, ltb, false, ◌==◌, ◌&&◌,
  select, true, ◌||◌, update_where, some, not, find, any,
}
use mathlib.Core.List.{[]}
use orvexa.Database.{
  Db, World, raise, ◌>>◌, ◌>>=◌, tx_exec, begin, guard, read, commit, pure, attempt, fresh,
}
use orvexa.Errors.{Result, internal_error, ok, not_found_error, invalid_error}
use mathlib.Core.Option.{none}
use orvexa.Database.Querying.{query_rows}

pub data Presence : Type 0 where
  available busy wrapup offline : Presence
  unknown_presence : String → Presence

pub record Agent : Type 0 where
  pub id : ℕ
  pub tenant_id : ℕ
  pub display_name : String
  pub language : String
  pub is_active : Bool

pub record PresenceRow : Type 0 where
  pub agent_id : ℕ
  pub tenant_id : ℕ
  pub status : Presence
  pub current_interaction_id : ℕ

pub record DecisionRow : Type 0 where
  pub id : ℕ
  pub tenant_id : ℕ
  pub decision : Decision

pub record Store : Type 0 where
  pub agents : List Agent
  pub agent_skills : List (ℕ × String)
  pub interactions : List Rec
  pub presence : List PresenceRow
  pub decisions : List DecisionRow
  pub outbox : List Envelope

abbrev pub put_event : Envelope → Store → Store
put_event e s = record s { outbox = s.outbox ++ e ∷ [] }

-- ORDER BY a.id
unfoldable pub insert_view : AgentView → List AgentView → List AgentView
insert_view v [] = v ∷ []
insert_view v (u ∷ rest) =
    let later = u ∷ insert_view v rest in if leb v.id u.id then v ∷ u ∷ rest else later

unfoldable pub by_id : List AgentView → List AgentView
by_id [] = []
by_id (v ∷ rest) = insert_view v (by_id rest)

-- array_agg(DISTINCT sk.skill)
unfoldable pub skills_of : ℕ → List (ℕ × String) → List String
skills_of id rows = sort_texts (distinct (map (λ (a, s). s) (select (λ (a, s). a == id) rows)))

-- The row as it is scanned; QueueID is no column of it.
unfoldable pub view_of : List (ℕ × String) → Agent → AgentView
view_of rows a = record {
  id = a.id;
  display_name = a.display_name;
  language = a.language;
  skills = skills_of a.id rows;
  queue_id = no_id;
}

-- agentViews
unfoldable pub agent_views : ℕ → Store → List AgentView
agent_views tenant s =
    by_id
      (map (view_of s.agent_skills) (select (λ a. a.tenant_id == tenant && a.is_active) s.agents))

unfoldable pub normalize : Request → Request
normalize req = record req {
  priority = if ltb req.priority 1 || ltb 10 req.priority then 5 else req.priority;
}

-- status IN ('pending','active')
abbrev pub is_routable : ℕ → ℕ → Rec → Bool
is_routable tenant id r = is_row tenant id r && is_assignable r.status

-- INSERT … ON CONFLICT (agent_id) DO UPDATE
unfoldable pub upsert_busy : ℕ → ℕ → ℕ → List PresenceRow → List PresenceRow
upsert_busy tenant agent interaction [] =
    record {
      agent_id = agent;
      tenant_id = tenant;
      status = busy;
      current_interaction_id = interaction;
    }
    ∷ []
upsert_busy tenant agent interaction (p ∷ rest) =
    if p.agent_id == agent
    then record p { status = busy; current_interaction_id = interaction } ∷ rest
    else p ∷ upsert_busy tenant agent interaction rest

-- The two statements that an assignment adds.
unfoldable pub apply_assignment : ℕ → Decision → Outcome → Db Store (Unit {0})
apply_assignment tenant d assigned_agent = do
  tx_exec (internal_error "db.write_failed") (λ s. record s {
    interactions =
        update_where (is_routable tenant d.interaction_id)
          (λ r. record r { assigned_agent_id = d.assigned_agent_id }) s.interactions;
  })
  tx_exec (internal_error "db.write_failed") (λ s. record s {
    presence = upsert_busy tenant d.assigned_agent_id d.interaction_id s.presence;
  })
apply_assignment tenant d queued = pure tt
apply_assignment tenant d no_agent_available = pure tt

unfoldable pub insert_outbox : Option Envelope → Db Store (Unit {0})
insert_outbox none = raise (internal_error "event.envelope_failed")
insert_outbox (some e) = insert_event put_event (some e)

-- What Route does with the decision, in one transaction.
unfoldable pub record_decision : ℕ → ℕ → Decision → Db Store Decision
record_decision tenant id d = do
  begin (internal_error "db.tx_failed")
  tx_exec (internal_error "db.write_failed") (λ s. record s {
    decisions = s.decisions ++ record { id = id; tenant_id = tenant; decision = d } ∷ [];
  })
  apply_assignment tenant d d.outcome
  env ← new_envelope "routing.decision.recorded" id tenant (
      ("decision_id", ident id)
      ∷ ("interaction_id", ident d.interaction_id)
      ∷ ("assigned_agent_id", ident d.assigned_agent_id)
      ∷ [])
  insert_outbox env
  commit (internal_error "db.commit_failed")
  pure d

-- An error of the reader, whatever it is, is `routing.presence_failed`.
unfoldable pub ask_presence : Option (List ℕ) → Db Store (List ℕ)
ask_presence none = raise (internal_error "routing.presence_failed")
ask_presence (some ids) = pure ids

-- Route. The iteration over the agents may break off, as `broken` tells of its statement.
unfoldable pub route : (ℕ → Option ℕ) → (ℕ → Option (List ℕ)) → ℕ → Request → Db Store Decision
route broken presence tenant req = do
  guard (not (req.interaction_id == no_id)) (invalid_error "routing.interaction_required")
  owned ←
      read (internal_error "db.read_failed")
        (λ s. any (is_row tenant req.interaction_id) s.interactions)
  guard owned (not_found_error "interaction.not_found")
  agents ← query_rows broken (λ n. agent_views tenant)
  ids ← ask_presence (presence tenant)
  id ← fresh
  record_decision tenant id (decide (normalize req) agents ids)

abbrev pub known_presence : Presence → Bool
known_presence (unknown_presence _) = false
known_presence _ = true

unfoldable pub upsert_presence : ℕ → ℕ → Presence → List PresenceRow → List PresenceRow
upsert_presence tenant agent status [] =
    record { agent_id = agent; tenant_id = tenant; status = status; current_interaction_id = no_id }
    ∷ []
upsert_presence tenant agent status (p ∷ rest) =
    if p.agent_id == agent
    then record p { status = status } ∷ rest
    else p ∷ upsert_presence tenant agent status rest

abbrev pub is_agent : ℕ → ℕ → Agent → Bool
is_agent tenant id a = a.id == id && a.tenant_id == tenant

unfoldable pub write_presence : ℕ → ℕ → Presence → Bool → World Store → Result Bool × World Store
write_presence tenant agent status true w = (
  ok true,
  record w { db = record (w.db) { presence = upsert_presence tenant agent status w.db.presence } },
)
write_presence tenant agent status false w = (ok false, w)

-- SetPresence
unfoldable pub set_presence : ℕ → ℕ → Presence → Db Store (Unit {0})
set_presence tenant agent status = do
  guard (known_presence status) (invalid_error "routing.invalid_presence")
  written ←
      attempt (internal_error "db.write_failed")
        (λ w. write_presence tenant agent status (any (is_agent tenant agent) w.db.agents) w)
  guard written (not_found_error "agent.not_found")

unfoldable pub or_no_presence : Option PresenceRow → Db Store PresenceRow
or_no_presence none = raise (not_found_error "agent.presence_not_found")
or_no_presence (some p) = pure p

-- GetPresence
unfoldable pub get_presence : ℕ → ℕ → Db Store PresenceRow
get_presence tenant agent = do
  row ←
      read (internal_error "db.read_failed")
        (λ s. find (λ p. p.agent_id == agent && p.tenant_id == tenant) s.presence)
  or_no_presence row

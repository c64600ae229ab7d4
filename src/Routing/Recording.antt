-- ===== src/Routing/Recording.antt =====
-- What Route commits.
use orvexa.Base.{◌∷◌, ℕ, Option, List, ◌++◌, ◌≡◌, update_where, any, true, some, ◌⊎◌, [], refl, ◌+◌}
use orvexa.Routing.{Decision, Outcome, Request, assigned_agent, queued, no_agent_available, decide}
use orvexa.Routing.Service.{
  Store, apply_assignment, is_routable, upsert_busy, normalize, agent_views, DecisionRow,
  insert_outbox, record_decision, route, ask_presence, put_event,
}
use orvexa.Database.{World, ◌>>=◌, Db}
use orvexa.Interactions.Store.{is_row}
use orvexa.Database.Rules.{
  Post, tx_exec_then, pure-Post, begin_then, bind-Post, Post-map, fails, counted, guard_then,
  commit_then, read_then, fresh_then,
}
use orvexa.Routing.Best.{Assigns, Declines, decide-Choice}
use orvexa.Events.{Envelope}
use orvexa.Errors.{Error, internal_error}
use orvexa.Events.Rules.{new_envelope_then, insert_some_then}
use mathlib.Core.Option.{none}
use orvexa.Database.Outcomes.{tx_exec-Post}
use orvexa.Database.Querying.{query_rows_then, cut}

-- Rows beside the decision: an assignment writes the agent into the interaction, where it is still
-- pending or active, and makes the agent busy with it; other outcomes write nothing.
abbrev pub Applied : ℕ → Decision → Outcome → Store → Store → Type 0
Applied tenant d assigned_agent s t =
    (t.interactions
      ≡ update_where (is_routable tenant d.interaction_id)
          (λ r. record r { assigned_agent_id = d.assigned_agent_id }) s.interactions)
    × (t.presence ≡ upsert_busy tenant d.assigned_agent_id d.interaction_id s.presence)
Applied tenant d queued s t = (t.interactions ≡ s.interactions) × (t.presence ≡ s.presence)
Applied tenant d no_agent_available s t =
    (t.interactions ≡ s.interactions) × (t.presence ≡ s.presence)

-- The decision is one of the rules over the agents that statement `read` answered, and it was
-- committed with its row, its event and what it changes.
pub record Routes (broken : ℕ → Option ℕ) (presence : ℕ → Option (List ℕ)) (tenant : ℕ)
    (req : Request) (s : Store) (d : Decision) (t : Store) : Type 0 where
  pub owned : any (is_row tenant req.interaction_id) s.interactions ≡ true
  pub ids : List ℕ
  pub answered : presence tenant ≡ some ids
  pub read : ℕ
  pub decided :
      Assigns (normalize req) (cut (broken read) (agent_views tenant s)) ids d
      ⊎ Declines (normalize req) (cut (broken read) (agent_views tenant s)) ids d
  pub row : DecisionRow
  pub row_is : (row.tenant_id ≡ tenant) × (row.decision ≡ d)
  pub added : t.decisions ≡ s.decisions ++ row ∷ []
  pub applied : Applied tenant d d.outcome s t
  pub event :
      (e : Envelope) × (t.outbox ≡ s.outbox ++ e ∷ [])
      × (e.topic ≡ "routing.decision.recorded")
      × (e.subject ≡ row.id)
      × (e.tenant_id ≡ tenant)
  pub agents : t.agents ≡ s.agents

module _ (tenant : ℕ) (d : Decision) (s : Store) where
  -- The transaction's view after the statements of the outcome.
  abbrev Holds : Outcome → Store → Type 0
  Holds o t =
      Applied tenant d o s t
      × (t.decisions ≡ s.decisions)
      × (t.outbox ≡ s.outbox)
      × (t.agents ≡ s.agents)

  apply_assignment-Post :
      (db : Store) (o : Outcome) (w : World Store)
      → w.db ≡ db
      → w.tx ≡ s
      → Post (λ _ v. (v.db ≡ db) × Holds o v.tx) (λ _ v. v.db ≡ db) (apply_assignment tenant d o w)
  unfolding apply_assignment
  apply_assignment-Post db assigned_agent w h is_s = tx_exec_then _ _ _ _ h (
      tx_exec-Post _ _ _ h
        (h, ((rw is_s refl, rw is_s refl), rw is_s refl, rw is_s refl, rw is_s refl)))
  apply_assignment-Post db queued w h is_s =
      pure-Post _ _ (h, ((rw is_s refl, rw is_s refl), rw is_s refl, rw is_s refl, rw is_s refl))
  apply_assignment-Post db no_agent_available w h is_s =
      pure-Post _ _ (h, ((rw is_s refl, rw is_s refl), rw is_s refl, rw is_s refl, rw is_s refl))

insert_outbox_then :
    {B : Type 0} {Q : B → World Store → Type 0} {E : Error → World Store → Type 0}
    (env : Option Envelope) (f : Unit {0} → Db Store B) (w : World Store)
    → E (internal_error "event.envelope_failed") w
    → E (internal_error "outbox.insert_failed") (counted w)
    → ((e : Envelope)
        → env ≡ some e
        → Post Q E (f tt (record w { statement = w.statement + 1; tx = put_event e w.tx })))
    → Post Q E ((insert_outbox env >>= f) w)
unfolding insert_outbox ◌>>=◌
insert_outbox_then none f w h h' k = fails h
insert_outbox_then (some e) f w h h' k = insert_some_then put_event e f w h' (k e refl)

-- What the transaction of Route commits.
record Records (tenant id : ℕ) (d : Decision) (s t : Store) : Type 0 where
  row : DecisionRow
  row_is : (row.tenant_id ≡ tenant) × (row.decision ≡ d)
  added : t.decisions ≡ s.decisions ++ row ∷ []
  applied : Applied tenant d d.outcome s t
  event :
      (e : Envelope) × (t.outbox ≡ s.outbox ++ e ∷ [])
      × (e.topic ≡ "routing.decision.recorded")
      × (e.subject ≡ row.id)
      × (e.tenant_id ≡ tenant)
  agents : t.agents ≡ s.agents

Applied-frame :
    (tenant : ℕ) (d : Decision) (o : Outcome) (s s' t t' : Store)
    → s'.interactions ≡ s.interactions
    → s'.presence ≡ s.presence
    → t'.interactions ≡ t.interactions
    → t'.presence ≡ t.presence
    → Applied tenant d o s t
    → Applied tenant d o s' t'
Applied-frame tenant d assigned_agent s s' t t' i p i' p' a = (rw (i, i') a.0, rw (p, p') a.1)
Applied-frame tenant d queued s s' t t' i p i' p' a = (rw (i, i') a.0, rw (p, p') a.1)
Applied-frame tenant d no_agent_available s s' t t' i p i' p' a = (rw (i, i') a.0, rw (p, p') a.1)

record_decision-Post :
    (tenant id : ℕ) (d : Decision) (w : World Store)
    → Post
        (λ r v. (r ≡ d) × Records tenant id d w.db v.db)
        (λ _ v. v.db ≡ w.db)
        (record_decision tenant id d w)
unfolding record_decision
record_decision-Post tenant id d w = begin_then _ _ _ refl (
    tx_exec_then _ _ _ _ refl (
      bind-Post _ _ _ (
        Post-map
          (λ _ v (same, (applied, rows, events, agents)). new_envelope_then _ _ _ _ _ _ λ env said.
            insert_outbox_then _ _ _ same same λ e is_e.
              let says = said e is_e in
              commit_then _ _ _ same (
                pure-Post _ _ (
                  refl,
                  record {
                    row = record { id = id; tenant_id = tenant; decision = d };
                    row_is = (refl, refl);
                    added = rows;
                    applied =
                        Applied-frame tenant d d.outcome _ w.db _ _ refl refl refl refl applied;
                    event = (e, rw events refl, says.says, says.of, says.within);
                    agents = agents;
                  },
                )))
          (λ _ v same. same) (apply_assignment-Post tenant d _ w.db d.outcome _ refl refl))))

ask_then :
    {Q : Decision → World Store → Type 0} {E : Error → World Store → Type 0} (o : Option (List ℕ))
    (f : List ℕ → Db Store Decision) (v : World Store)
    → E (internal_error "routing.presence_failed") v
    → ((ids : List ℕ) → o ≡ some ids → Post Q E (f ids v))
    → Post Q E ((ask_presence o >>= f) v)
unfolding ask_presence ◌>>=◌
ask_then none f v h k = fails h
ask_then (some ids) f v h k = k ids refl

-- Route returns the decision that the rules make over the tenant's agents, or over the first of them
-- where the read of the agents broke off, for an interaction of the tenant, and has committed its
-- record, its event and its assignment together; an error has committed nothing, whatever statement
-- fails.
pub route-Post :
    (broken : ℕ → Option ℕ) (presence : ℕ → Option (List ℕ)) (tenant : ℕ) (req : Request)
    (w : World Store)
    → Post
        (λ d v. Routes broken presence tenant req w.db d v.db)
        (λ _ v. v.db ≡ w.db)
        (route broken presence tenant req w)
unfolding route
route-Post broken presence tenant req w = guard_then _ _ _ _ refl λ _. read_then _ _ _ _ refl (
    guard_then _ _ _ _ refl λ owned. query_rows_then _ _ _ _ refl refl (
      ask_then _ _ _ refl λ ids answered. fresh_then _ _ (
        Post-map
          (λ d v (is_d, r). rw is_d (record {
            owned = owned;
            ids = ids;
            answered = answered;
            read = w.statement + 1;
            decided = decide-Choice (normalize req) _ ids;
            row = r.row;
            row_is = r.row_is;
            added = r.added;
            applied = r.applied;
            event = r.event;
            agents = r.agents;
          }))
          (λ _ v same. same) (record_decision-Post tenant _ (decide (normalize req) _ ids) _))))

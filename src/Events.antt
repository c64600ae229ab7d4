-- ===== src/Events.antt =====
-- pkg/events (envelope.go, topics.go) and internal/platform/outbox/writer.go: the envelope, the
-- topic registry, and the one way to write an event inside a transaction.
-- An id is a number, and 0 is the empty string. Payloads hold ids and texts, which always marshal.
pub mod Rules
use orvexa.Base.{
  ℕ, ◌+◌, String, Bool, false, not, List, [], ◌∷◌, Option, none, some, any, str_eq, ◌==◌,
  if◌then◌else◌, ◌≡◌, true,
}
use orvexa.Errors.{ok, internal_error, invalid_error}
use orvexa.Database.{Db, attempt, raise}

abbrev pub no_id : ℕ
no_id = 0

pub data Datum : Type 0 where
  ident : ℕ → Datum
  text : String → Datum
  moment : ℕ → Datum

pub record Envelope : Type 0 where
  pub id : ℕ
  pub topic : String
  pub subject : ℕ
  pub tenant_id : ℕ
  pub time : ℕ
  pub payload : List (String × Datum)

-- The registry that `init` fills.
unfoldable pub topics : List String
topics =
    "conversation.opened" ∷ "conversation.closed" ∷ "interaction.created" ∷ "interaction.updated"
    ∷ "interaction.assigned" ∷ "interaction.completed" ∷ "call.requested" ∷ "call.ringing"
    ∷ "call.connected" ∷ "call.completed" ∷ "call.failed" ∷ "message.sent" ∷ "message.delivered"
    ∷ "message.read" ∷ "message.received" ∷ "customer.created" ∷ "customer.updated" ∷ "case.opened"
    ∷ "case.updated" ∷ "case.closed" ∷ "routing.decision.recorded" ∷ "agent.state.changed"
    ∷ "queue.updated" ∷ "ai.invocation.completed" ∷ "ai.suggestion.issued" ∷ "workflow.started"
    ∷ "workflow.step.completed" ∷ "workflow.completed" ∷ "workflow.failed"
    ∷ "tool.execution.audited" ∷ "usage.recorded" ∷ "audit.recorded" ∷ "webhook.received" ∷ []

unfoldable pub is_registered : String → Bool
unfolding topics
is_registered t = any (str_eq t) topics

-- Envelope.Validate: the id is a fresh uuid and the time and data are set by `new`.
unfoldable pub is_valid : Envelope → Bool
unfolding is_registered
is_valid e = if is_registered e.topic then not (e.tenant_id == no_id) else false

-- The event `e` says `topic` of `subject` in `tenant`, with this payload.
pub record Describes (topic : String) (subject tenant : ℕ) (payload : List (String × Datum))
    (e : Envelope) : Type 0 where
  pub says : e.topic ≡ topic
  pub of : e.subject ≡ subject
  pub within : e.tenant_id ≡ tenant
  pub holds : e.payload ≡ payload
  pub admitted : is_valid e ≡ true

-- events.New: `none` stands for the nil envelope that callers get with an error.
unfoldable pub new_envelope {ℓ} :
    {S : Type ℓ} → String → ℕ → ℕ → List (String × Datum) → Db S (Option Envelope)
new_envelope topic subject tenant payload w =
    let e : Envelope = record {
      id = w.next_id;
      topic = topic;
      subject = subject;
      tenant_id = tenant;
      time = w.now;
      payload = payload;
    } in
    (ok (if is_valid e then some e else none), record w { next_id = w.next_id + 1 })

-- Writer.Insert into the transaction's outbox table, which `put` finds in the store.
unfoldable pub insert_event {ℓ} :
    {S : Type ℓ} → (Envelope → S → S) → Option Envelope → Db S (Unit {0})
unfolding attempt raise
insert_event put none = raise (invalid_error "event.invalid_envelope")
insert_event put (some e) =
    attempt (internal_error "outbox.insert_failed") (λ w. (ok tt, record w { tx = put e w.tx }))

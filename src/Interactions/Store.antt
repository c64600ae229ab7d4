-- ===== src/Interactions/Store.antt =====
-- The tables that internal/interactions reads and writes (migrations 0003 and 0006), with the
-- constraints that the service relies on. A NULL text is "", a NULL id is `no_id`. JSON
-- attributes, and `updated_at` of interactions, which nothing reads back, are left out.
use orvexa.Base.{
  ℕ, String, ◌==◌, str_eq, Bool, true, false, not, ◌&&◌, ◌||◌, List, [], ◌∷◌, ◌++◌, Option, any,
  some, none, if◌then◌else◌, leb,
}
use orvexa.Events.{Envelope}
use orvexa.Interactions.State.{Status, Channel, Direction, pending, active}

pub record Customer : Type 0 where
  pub id : ℕ
  pub tenant_id : ℕ

pub record Conversation : Type 0 where
  pub id : ℕ
  pub tenant_id : ℕ
  pub customer_id : ℕ
  pub channel : Channel
  pub is_open : Bool
  pub unread_count : ℕ
  pub last_interaction_at : Option ℕ
  pub updated_at : ℕ

pub record Rec : Type 0 where
  pub id : ℕ
  pub tenant_id : ℕ
  pub conversation_id : ℕ
  pub customer_id : ℕ
  pub channel : Channel
  pub direction : Direction
  pub status : Status
  pub source : String
  pub destination : String
  pub assigned_agent_id : ℕ
  pub assigned_queue_id : ℕ
  pub started_at : ℕ
  pub answered_at : Option ℕ
  pub ended_at : Option ℕ
  pub end_reason : String
  pub provider : String
  pub provider_ref : String
  pub idempotency_key : String

pub record Store : Type 0 where
  pub customers : List Customer
  pub conversations : List Conversation
  pub participants : List (ℕ × ℕ)
  pub interactions : List Rec
  pub outbox : List Envelope

abbrev pub put_event : Envelope → Store → Store
put_event e s = record s { outbox = s.outbox ++ e ∷ [] }

-- `status IN ('pending','active')`
abbrev pub is_assignable : Status → Bool
is_assignable pending = true
is_assignable active = true
is_assignable _ = false

-- WHERE id = $1 AND tenant_id = $2
abbrev pub is_row : ℕ → ℕ → Rec → Bool
is_row tenant id r = r.id == id && r.tenant_id == tenant

abbrev pub is_conversation : ℕ → ℕ → Conversation → Bool
is_conversation tenant id c = c.id == id && c.tenant_id == tenant

unfoldable pub owns_customer : ℕ → ℕ → Store → Bool
owns_customer tenant id s = any (λ c. c.id == id && c.tenant_id == tenant) s.customers

-- UNIQUE (tenant_id, provider, provider_ref) and the partial unique index on idempotency_key;
-- NULLs are distinct. The id is the primary key.
unfoldable pub clashes : Rec → Rec → Bool
clashes r q =
    r.id == q.id
    || r.tenant_id == q.tenant_id
      && (str_eq r.provider q.provider
            && str_eq r.provider_ref q.provider_ref
            && not (str_eq r.provider_ref "")
          || str_eq r.idempotency_key q.idempotency_key && not (str_eq r.idempotency_key ""))

abbrev newer : Conversation → Option Conversation → Option Conversation
newer c none = some c
newer c (some d) = if leb d.updated_at c.updated_at then some c else some d

-- … ORDER BY updated_at DESC LIMIT 1
unfoldable pub latest : (Conversation → Bool) → List Conversation → Option Conversation
latest p [] = none
latest p (c ∷ cs) = let rest = latest p cs in if p c then newer c rest else rest

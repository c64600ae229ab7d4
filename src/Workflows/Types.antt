-- ===== src/Workflows/Types.antt =====
-- internal/workflows/engine.go: instances, steps, and the tables that the engine touches
-- (migration 0010). A number of times is in seconds. The payload has the fields of both types of
-- workflow; `state_json`, which nothing writes, is left out.
use orvexa.Base.{Bool, ℕ, List, ◌++◌, String, ◌==◌, Option, ◌&&◌, ◌∷◌, true, false, [], some, leb}
use orvexa.Events.{Envelope}
use mathlib.Core.Option.{none}

-- The values of the CHECK constraints and the step names.
pub data WorkflowType : Type 0 where
  callback collections : WorkflowType

pub data Status : Type 0 where
  running waiting_timer completed failed canceled : Status

pub data Step : Type 0 where
  scheduled waited contacted escalated closed task_created : Step

pub data MessageChannel : Type 0 where
  by_sms by_whatsapp : MessageChannel

pub record Payload : Type 0 where
  pub customer_id : ℕ
  pub phone : String
  pub notes : String
  pub invoice_ref : String
  pub amount_due : ℕ

pub record Instance : Type 0 where
  pub id : ℕ
  pub tenant_id : ℕ
  pub kind : WorkflowType
  pub status : Status
  pub payload : Payload
  pub current_step : Step
  pub next_run_at : Option ℕ
  pub attempts : ℕ
  pub error : String
  pub updated_at : ℕ

-- A row of workflow_steps; the detail is left out.
pub record StepRow : Type 0 where
  pub instance_id : ℕ
  pub step : Step

-- The texts that the engine formats.
pub data Body : Type 0 where
  callback_reminder : (notes : String) → Body
  invoice_overdue : (invoice : String) (amount : ℕ) → Body
  invoice_reminder : (invoice : String) → Body

-- What Services.QueueMessage was asked to send.
pub record Message : Type 0 where
  pub tenant_id : ℕ
  pub customer_id : ℕ
  pub channel : MessageChannel
  pub to : String
  pub body : Body

pub record Store : Type 0 where
  pub customers : List (ℕ × ℕ)
  pub instances : List Instance
  pub steps : List StepRow
  pub messages : List Message
  pub outbox : List Envelope

abbrev pub put_event : Envelope → Store → Store
put_event e s = record s { outbox = s.outbox ++ e ∷ [] }

abbrev pub put_message : Message → Store → Store
put_message m s = record s { messages = s.messages ++ m ∷ [] }

abbrev pub is_instance : ℕ → ℕ → Instance → Bool
is_instance tenant id i = i.id == id && i.tenant_id == tenant

-- `status IN ('running','waiting_timer')`
abbrev pub is_live : Status → Bool
is_live running = true
is_live waiting_timer = true
is_live _ = false

abbrev has_passed : ℕ → Option ℕ → Bool
has_passed now none = false
has_passed now (some t) = leb t now

-- The rows that Tick claims: NULL is never due.
abbrev pub is_due : ℕ → Instance → Bool
is_due now i = is_live i.status && has_passed now i.next_run_at

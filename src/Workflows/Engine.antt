-- ===== src/Workflows/Engine.antt =====
-- internal/workflows/engine.go: start, Tick, advance and its two ends, Cancel and Get.
use orvexa.Workflows.Types.{
  callback, collections, WorkflowType, Instance, Payload, Step, Store, MessageChannel,
  waiting_timer, Body, by_sms, Message, callback_reminder, is_instance, contacted, put_message,
  invoice_overdue, completed, put_event, waited, closed, by_whatsapp, invoice_reminder, escalated,
  task_created, scheduled, WorkflowType,
}
use orvexa.Base.{
  ℕ, String, Option, Bool, List, some, any, ◌++◌, update_where, ◌==◌, ◌∷◌, ◌&&◌, [], ◌+◌,
}
use orvexa.Database.{
  Db, World, tx_exec, ◌>>=◌, ◌>>◌, attempt, raise, fresh, begin, read, now, wrap, commit, guard,
  pure,
}
use orvexa.Errors.{Result, err, internal_error, conflict_error, ok, not_found_error}
use orvexa.Events.{Envelope, Datum, new_envelope, ident, insert_event, moment}
use mathlib.Core.Option.{none}
use mathlib.Core.Bool.{true, false}

-- recordStep
unfoldable pub record_step : ℕ → Step → Db Store (Unit {0})
record_step id step =
    tx_exec (internal_error "db.write_failed")
      (λ s. record s { steps = s.steps ++ record { instance_id = id; step = step } ∷ [] })

unfoldable pub insert_envelope : Option Envelope → Db Store (Unit {0})
insert_envelope none = raise (internal_error "event.envelope_failed")
insert_envelope (some e) =
    wrap (internal_error "outbox.insert_failed") (insert_event put_event (some e))

-- emit
unfoldable pub emit : String → ℕ → ℕ → List (String × Datum) → Db Store (Unit {0})
emit topic id tenant payload = do env ← new_envelope topic id tenant payload; insert_envelope env

-- customerOwned
unfoldable pub customer_owned : ℕ → ℕ → Db Store (Unit {0})
customer_owned tenant customer = do
  owned ←
      read (internal_error "db.read_failed")
        (λ s. any (λ (c, t). c == customer && t == tenant) s.customers)
  guard owned (not_found_error "customer.not_found")

unfoldable pub insert_into : Instance → Bool → World Store → Result (Unit {0}) × World Store
insert_into i true w = (err (conflict_error "workflow.conflict"), w)
insert_into i false w =
    (ok tt, record w { tx = record (w.tx) { instances = w.tx.instances ++ i ∷ [] } })

-- insertInstance; the id is the only unique column.
unfoldable pub insert_instance : Instance → Db Store (Unit {0})
unfolding insert_into
insert_instance i =
    attempt (internal_error "db.write_failed")
      (λ w. insert_into i (any (λ j. j.id == i.id) w.tx.instances) w)

abbrev pub started : ℕ → ℕ → WorkflowType → Payload → ℕ → Step → ℕ → Instance
started id tenant kind payload next step time = record {
  id = id;
  tenant_id = tenant;
  kind = kind;
  status = waiting_timer;
  payload = payload;
  current_step = step;
  next_run_at = some next;
  attempts = 0;
  error = "";
  updated_at = time;
}

unfoldable pub start : ℕ → WorkflowType → Payload → ℕ → Step → Db Store Instance
start tenant kind payload next step = do
  id ← fresh
  time ← now
  begin (internal_error "db.tx_failed")
  insert_instance (started id tenant kind payload next step time)
  record_step id step
  emit "workflow.started" id tenant (("workflow_id", ident id) ∷ ("next_run_at", moment next) ∷ [])
  commit (internal_error "db.commit_failed")
  pure (started id tenant kind payload next step time)

-- Services.QueueMessage: the messaging service has its own transaction, whose effect the open one
-- sees and does not undo.
unfoldable pub queue_message : ℕ → Payload → MessageChannel → Body → Db Store (Unit {0})
queue_message tenant payload channel body =
    let m : Message = record {
      tenant_id = tenant;
      customer_id = payload.customer_id;
      channel = channel;
      to = payload.phone;
      body = body;
    } in
    attempt (internal_error "message.failed")
      (λ w. (ok tt, record w { db = put_message m w.db; tx = put_message m w.tx }))

-- waitFor
unfoldable pub wait_for : ℕ → ℕ → ℕ → Step → Step → Db Store (Unit {0})
wait_for id tenant delay next done = do
  time ← now
  tx_exec (internal_error "db.write_failed") (λ s. record s {
    instances =
        update_where (is_instance tenant id)
          (λ i. record i {
            status = waiting_timer;
            current_step = next;
            next_run_at = some (time + delay);
            updated_at = time;
          })
          s.instances;
  })
  record_step id done
  emit "workflow.step.completed" id tenant
      (("workflow_id", ident id) ∷ ("run_at", moment (time + delay)) ∷ [])

unfoldable pub complete : ℕ → ℕ → Db Store (Unit {0})
complete id tenant = do
  time ← now
  tx_exec (internal_error "db.write_failed") (λ s. record s {
    instances =
        update_where (is_instance tenant id)
          (λ i. record i {
            status = completed;
            current_step = closed;
            next_run_at = none;
            updated_at = time;
          })
          s.instances;
  })
  record_step id closed
  emit "workflow.completed" id tenant (("workflow_id", ident id) ∷ [])

-- The switch of advance.
unfoldable pub run_step : Instance → WorkflowType → Step → Db Store (Unit {0})
run_step i callback scheduled = do
  queue_message i.tenant_id i.payload by_sms (callback_reminder i.payload.notes)
  record_step i.id contacted
  complete i.id i.tenant_id
run_step i collections contacted = do
  queue_message i.tenant_id i.payload by_sms
      (invoice_overdue i.payload.invoice_ref i.payload.amount_due)
  wait_for i.id i.tenant_id 172800 waited contacted
run_step i collections waited = do
  queue_message i.tenant_id i.payload by_whatsapp (invoice_reminder i.payload.invoice_ref)
  wait_for i.id i.tenant_id 259200 escalated waited
run_step i collections escalated = do record_step i.id task_created; complete i.id i.tenant_id
run_step i _ _ = complete i.id i.tenant_id

-- advance: whatever the switch returns is returned, and the deferred Rollback runs.
unfoldable pub advance : Instance → Db Store (Unit {0})
advance i = do begin (internal_error "db.tx_failed"); run_step i i.kind i.current_step

-- ===== src/Workflows/Advance.antt =====
-- What advance and Tick of internal/workflows/engine.go leave behind.
use orvexa.Workflows.Engine.{
  emit, complete, advance, wait_for, run_step, queue_message, insert_envelope, record_step,
}
use orvexa.Database.{Db, World, ◌>>=◌}
use orvexa.Events.{Envelope, Datum}
use orvexa.Workflows.Types.{
  callback, collections, WorkflowType, Store, Instance, Payload, Step, Message, MessageChannel,
  put_event, Body, put_message, scheduled, contacted, waited, escalated, closed, task_created,
  WorkflowType, callback, collections,
}
use orvexa.Base.{Option, ◌≡◌, ℕ, String, List, ◌⊎◌, inl, some, inr, refl}
use orvexa.Database.Stays.{Stays, raise-Stays, bind-Stays, tx_exec-Stays, wrap-Stays, now-Stays}
use orvexa.Database.Rules.{Post, begin_then, Post-map, attempt_ok_then}
use mathlib.Core.Option.{none}
use orvexa.Events.Rules.{new_envelope-Stays, insert_some-Stays}

insert_envelope-Stays : (env : Option Envelope) → Stays (insert_envelope env)
unfolding insert_envelope
insert_envelope-Stays none = raise-Stays _
insert_envelope-Stays (some e) = wrap-Stays _ _ (insert_some-Stays put_event e)

emit-Stays :
    (topic : String) (id tenant : ℕ) (payload : List (String × Datum))
    → Stays (emit topic id tenant payload)
unfolding emit
emit-Stays topic id tenant payload =
    bind-Stays _ _ (new_envelope-Stays _ _ _ _) insert_envelope-Stays

complete-Stays : (id tenant : ℕ) → Stays (complete id tenant)
unfolding complete record_step
complete-Stays id tenant = bind-Stays _ _ now-Stays λ time.
    bind-Stays _ _ (tx_exec-Stays _ _)
      λ _. bind-Stays _ _ (tx_exec-Stays _ _) λ _. emit-Stays _ _ _ _

wait_for-Stays :
    (id tenant delay : ℕ) (next done : Step) → Stays (wait_for id tenant delay next done)
unfolding wait_for record_step
wait_for-Stays id tenant delay next done = bind-Stays _ _ now-Stays λ time.
    bind-Stays _ _ (tx_exec-Stays _ _)
      λ _. bind-Stays _ _ (tx_exec-Stays _ _) λ _. emit-Stays _ _ _ _

-- The committed store with at most one message more.
abbrev pub Sends : Store → Store → Type 0
Sends s t = (t ≡ s) ⊎ ((m : Message) × (t ≡ put_message m s))

module _ {A : Type 0} where
  Stays-Sends :
      (m : Db Store A) (w : World Store)
      → Stays m
      → Post (λ _ v. Sends w.db v.db) (λ _ v. Sends w.db v.db) (m w)
  Stays-Sends m w h = Post-map (λ _ v e. inl e) (λ _ v e. inl e) (h w)

  send_then :
      (tenant : ℕ) (payload : Payload) (channel : MessageChannel) (body : Body)
      (rest : Unit {0} → Db Store A) (w : World Store)
      → Stays (rest tt)
      → Post
          (λ _ v. Sends w.db v.db)
          (λ _ v. Sends w.db v.db)
          ((queue_message tenant payload channel body >>= rest) w)
  unfolding queue_message
  send_then tenant payload channel body rest w h =
      attempt_ok_then _ (λ v. tt) _ rest w (inl refl)
        (Post-map (λ _ v e. inr (_, e)) (λ _ v e. inr (_, e)) (h _))

run_step-Post :
    (i : Instance) (kind : WorkflowType) (step : Step) (w : World Store)
    → Post (λ _ v. Sends w.db v.db) (λ _ v. Sends w.db v.db) (run_step i kind step w)
unfolding run_step record_step
run_step-Post i callback scheduled w =
    send_then _ _ _ _ _ w (bind-Stays _ _ (tx_exec-Stays _ _) λ _. complete-Stays _ _)
run_step-Post i collections contacted w = send_then _ _ _ _ _ w (wait_for-Stays _ _ _ _ _)
run_step-Post i collections waited w = send_then _ _ _ _ _ w (wait_for-Stays _ _ _ _ _)
run_step-Post i collections escalated w =
    Stays-Sends _ w (bind-Stays _ _ (tx_exec-Stays _ _) λ _. complete-Stays _ _)
run_step-Post i callback waited w = Stays-Sends _ w (complete-Stays _ _)
run_step-Post i callback contacted w = Stays-Sends _ w (complete-Stays _ _)
run_step-Post i callback escalated w = Stays-Sends _ w (complete-Stays _ _)
run_step-Post i callback closed w = Stays-Sends _ w (complete-Stays _ _)
run_step-Post i callback task_created w = Stays-Sends _ w (complete-Stays _ _)
run_step-Post i collections scheduled w = Stays-Sends _ w (complete-Stays _ _)
run_step-Post i collections closed w = Stays-Sends _ w (complete-Stays _ _)
run_step-Post i collections task_created w = Stays-Sends _ w (complete-Stays _ _)

-- Whatever advance returns and whatever statement fails, the committed store is the one before it,
-- with at most one message more: no step, status, timer or event of the workflow is committed.
pub advance-Post :
    (i : Instance) (w : World Store)
    → Post (λ _ v. Sends w.db v.db) (λ _ v. Sends w.db v.db) (advance i w)
unfolding advance
advance-Post i w = begin_then _ _ w (inl refl) (run_step-Post i _ _ _)

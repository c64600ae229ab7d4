-- ===== src/Workflows/Starting.antt =====
-- StartCallback and StartCollections of internal/workflows/engine.go: what is committed.
use orvexa.Database.{World, ◌>>=◌, Db, continue, wrap, attempt, replaced}
use orvexa.Workflows.Engine.{
  start, record_step, emit, insert_instance, insert_into, insert_envelope, customer_owned, started,
}
use orvexa.Base.{
  ℕ, ◌≡◌, Bool, some, false, any, ◌++◌, ◌==◌, ◌+◌, ◌∷◌, [], refl, String, Bool-cases, inl, List,
  inr, ◌&&◌, ap, ◌<◌, ◌≤◌, arith, Option,
}
use orvexa.Workflows.Types.{
  WorkflowType, Store, Payload, Step, Instance, waiting_timer, put_event, collections, callback,
  contacted, scheduled,
}
use orvexa.Errors.{Error, conflict_error}
use orvexa.Database.Rules.{
  Post, counted, fresh_then, now_then, begin_then, tx_exec_then, bind-Post, fails, guard_then,
  Post-map, commit_then, read_then, pure-Post, raise-Post, returns,
}
use orvexa.Events.{Envelope, Datum, Describes, insert_event, ident, moment}
use mathlib.Core.Bool.{true}
use orvexa.Workflows.Tick.{start_collections, start_callback}
use orvexa.Events.Rules.{new_envelope_then}
use mathlib.Core.Option.{none}
use orvexa.Database.Outcomes.{guard-Post}

-- The committed store after the instance `i` was started, with its first step and its event.
pub record Starts (tenant : ℕ) (kind : WorkflowType) (payload : Payload) (next : ℕ) (step : Step)
    (before : Store) (i : Instance) (after : Store) : Type 0 where
  pub waits : i.status ≡ waiting_timer
  pub timer : i.next_run_at ≡ some next
  pub at_step : (i.kind ≡ kind) × (i.current_step ≡ step)
  pub owner : (i.tenant_id ≡ tenant) × (i.payload ≡ payload)
  pub unused : any (λ j. j.id == i.id) before.instances ≡ false
  pub rows : after.instances ≡ before.instances ++ i ∷ []
  pub steps : after.steps ≡ before.steps ++ record { instance_id = i.id; step = step } ∷ []
  pub sent : after.messages ≡ before.messages
  pub event :
      (e : Envelope) × (after.outbox ≡ before.outbox ++ e ∷ [])
      × (e.topic ≡ "workflow.started")
      × (e.subject ≡ i.id)
      × (e.tenant_id ≡ tenant)

module _ {μ υ} {B : Type 0} {Q : B → World Store → Type μ} {E : Error → World Store → Type υ} where
  inserted_then :
      (i : Instance) (b : Bool) (f : Unit {0} → Db Store B) (w : World Store)
      → E (conflict_error "workflow.conflict") w
      → (b ≡ false
          → Post Q E
              (f tt (record w { tx = record (w.tx) { instances = w.tx.instances ++ i ∷ [] } })))
      → Post Q E (continue (insert_into i b w).0 f (insert_into i b w).1)
  unfolding insert_into
  inserted_then i true f w h k = fails h
  inserted_then i false f w h k = k refl

  insert_instance_then :
      (i : Instance) (f : Unit {0} → Db Store B) (w : World Store)
      → ((e : Error) → E e (counted w))
      → (any (λ j. j.id == i.id) w.tx.instances ≡ false
          → Post Q E (
              f tt (record w {
                statement = w.statement + 1;
                tx = record (w.tx) { instances = w.tx.instances ++ i ∷ [] };
              })))
      → Post Q E ((insert_instance i >>= f) w)
  unfolding insert_instance ◌>>=◌
  insert_instance_then i f w h k = elim (Bool-cases (w.fault w.statement)) [
    | inl down ↦ rw down (fails (h _))
    | inr up ↦ rw up (inserted_then i _ f (counted w) (h _) k)
  ]

-- The open transaction holds the event, and nothing is committed.
abbrev Emits : String → ℕ → ℕ → List (String × Datum) → World Store → World Store → Type 0
Emits topic id tenant payload w v =
    (v.db ≡ w.db)
    × ((e : Envelope) × (v.tx ≡ put_event e w.tx) × Describes topic id tenant payload e)

insert_envelope-Post :
    (topic : String) (id tenant : ℕ) (payload : List (String × Datum)) (env : Option Envelope)
    (w : World Store)
    → ((e : Envelope) → env ≡ some e → Describes topic id tenant payload e)
    → Post (λ _ v. Emits topic id tenant payload w v) (λ _ v. v.db ≡ w.db) (insert_envelope env w)
unfolding insert_envelope wrap insert_event attempt replaced
insert_envelope-Post topic id tenant payload none w h = raise-Post _ w refl
insert_envelope-Post topic id tenant payload (some e) w h =
    elim (Bool-cases (w.fault w.statement)) [
      | inl down ↦ rw down (fails refl)
      | inr up ↦ rw up (returns (refl, (e, refl, h e refl)))
    ]

emit-Post :
    (topic : String) (id tenant : ℕ) (payload : List (String × Datum)) (w : World Store)
    → Post
        (λ _ v. Emits topic id tenant payload w v)
        (λ _ v. v.db ≡ w.db)
        (emit topic id tenant payload w)
unfolding emit
emit-Post topic id tenant payload w =
    new_envelope_then _ _ _ _ _ w
      λ env said. insert_envelope-Post topic id tenant payload env _ said

start-Post :
    (tenant : ℕ) (kind : WorkflowType) (payload : Payload) (next : ℕ) (step : Step)
    (w : World Store)
    → Post
        (λ i v. Starts tenant kind payload next step w.db i v.db)
        (λ e v. v.db ≡ w.db)
        (start tenant kind payload next step w)
unfolding start record_step
start-Post tenant kind payload next step w = fresh_then _ _ (
    now_then _ _ (
      begin_then _ _ _ refl (
        insert_instance_then _ _ _ (λ e. refl)
          λ unused. tx_exec_then _ _ _ _ refl (
            bind-Post _ _ _ (
              Post-map
                (λ _ v (kept, (e, put, said)).
                  commit_then _ _ v kept (pure-Post _ _ (begun _ v unused e put said)))
                (λ x v kept. kept) (emit-Post _ _ _ _ _))))))
  where
    begun :
        (id : ℕ) (v : World Store)
        → any (λ j. j.id == id) w.db.instances ≡ false
        → (e : Envelope)
        → v.tx
          ≡ put_event e (record (w.db) {
            instances = w.db.instances ++ started id tenant kind payload next step w.now ∷ [];
            steps = w.db.steps ++ record { instance_id = id; step = step } ∷ [];
          })
        → Describes "workflow.started" id tenant
            (("workflow_id", ident id) ∷ ("next_run_at", moment next) ∷ [])
            e
        → Starts tenant kind payload next step w.db
            (started id tenant kind payload next step w.now)
            v.tx
    begun id v unused e put said = record {
      waits = refl;
      timer = refl;
      at_step = (refl, refl);
      owner = (refl, refl);
      unused = unused;
      rows = ap (λ s. s.instances) put;
      steps = ap (λ s. s.steps) put;
      sent = ap (λ s. s.messages) put;
      event = (e, ap (λ s. s.outbox) put, said.says, said.of, said.within);
    }

-- What a started callback is.
abbrev pub Calls : ℕ → ℕ → World Store → Instance → World Store → Type 0
Calls tenant customer w i v =
    (payload : Payload) × (at : ℕ) × Starts tenant callback payload at scheduled w.db i v.db
    × (payload.customer_id ≡ customer)
    × (any (λ (c, t). c == customer && t == tenant) w.db.customers ≡ true)
    × (w.now ≤ at)

-- What a started collections ladder is.
abbrev pub Collects : ℕ → ℕ → ℕ → World Store → Instance → World Store → Type 0
Collects tenant customer amount w i v =
    (payload : Payload) × Starts tenant collections payload w.now contacted w.db i v.db
    × (payload.customer_id ≡ customer)
    × (payload.amount_due ≡ amount)
    × (any (λ (c, t). c == customer && t == tenant) w.db.customers ≡ true)
    × (0 < amount)

-- StartCallback starts, for a customer of the tenant, an instance at the first step of the
-- callback whose timer is not before now, together with its step row and its event; an error has
-- committed nothing. This holds whichever statements fail.
pub start_callback-Post :
    (tenant customer : ℕ) (phone notes : String) (schedule_at : ℕ) (w : World Store)
    → Post
        (Calls tenant customer w)
        (λ e v. v.db ≡ w.db)
        (start_callback tenant customer phone notes schedule_at w)
unfolding start_callback customer_owned
start_callback-Post tenant customer phone notes schedule_at w = guard_then _ _ _ _ refl λ _.
    guard_then _ _ _ _ refl λ _. bind-Post _ _ _ (
      read_then _ _ _ _ refl (
        guard-Post _ _ _ refl λ owned. now_then _ _ (
          guard_then _ _ _ _ refl λ later.
            Post-map (λ i v h. (_, _, h, refl, owned, ground arith)) (λ e v h. h)
              (start-Post _ _ _ _ _ _))))

-- StartCollections starts, for a customer of the tenant and a positive amount, an instance that is
-- due at once at the first contact, together with its step row and its event; an error has
-- committed nothing. This holds whichever statements fail.
pub start_collections-Post :
    (tenant customer : ℕ) (invoice : String) (amount : ℕ) (phone : String) (w : World Store)
    → Post
        (Collects tenant customer amount w)
        (λ e v. v.db ≡ w.db)
        (start_collections tenant customer invoice amount phone w)
unfolding start_collections customer_owned
start_collections-Post tenant customer invoice amount phone w = guard_then _ _ _ _ refl λ _.
    guard_then _ _ _ _ refl λ positive. guard_then _ _ _ _ refl λ _. bind-Post _ _ _ (
      read_then _ _ _ _ refl (
        guard-Post _ _ _ refl λ owned. now_then _ _ (
          Post-map (λ i v h. (_, h, refl, refl, owned, ground arith)) (λ e v h. h)
            (start-Post _ _ _ _ _ _))))

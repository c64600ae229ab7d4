-- ===== src/Comms/Processor.antt =====
-- Processor.Process of internal/comms/provider_event.go.
use orvexa.Base.{
  ◌∷◌, String, ℕ, List, Option, ◌≡◌, Bool, true, if◌then◌else◌, some, any, arith, [], ◌==◌, str_eq,
  Bool-cases, inl, ◌∙◌, ap, none, inr, refl,
}
use orvexa.Comms.Core.{Core}
use orvexa.Errors.{Result, err, ok, invalid_error}
use orvexa.Interactions.State.{
  same_status, active, wrapup, Status, pending, completed, failed, canceled,
}
use orvexa.Interactions.Store.{Rec}
use mathlib.Core.Bool.{false}

-- The id as the provider sent it: empty, no uuid, or an id of the platform.
pub data RawId : Type 0 where
  blank_id : RawId
  no_uuid : String → RawId
  uuid : ℕ → RawId

pub record ProviderEvent : Type 0 where
  pub event : String
  pub interaction_id : RawId
  pub tenant_id : ℕ
  pub detail : String

abbrev is_one_of : String → List String → Bool
is_one_of s names = any (str_eq s) names

-- The switch on the event.
unfoldable pub target : String → Option Status
target e =
    if is_one_of e ("call.ringing" ∷ "call.connected" ∷ "message.sent" ∷ "message.delivered" ∷ [])
    then some active
    else if is_one_of e ("call.ended" ∷ "call.wrapup" ∷ "message.wrapup" ∷ [])
    then some wrapup
    else if is_one_of e ("message.read" ∷ [])
    then some completed
    else if is_one_of e ("call.failed" ∷ "message.failed" ∷ [])
    then some failed
    else none

module _ {W : Type 0} (core : Core W) where
  abbrev drop_row : Result Rec × W → Result (Unit {0}) × W
  drop_row (ok r, w) = (ok tt, w)
  drop_row (err e, w) = (err e, w)

  unfoldable pub move_on : ℕ → ℕ → Status → String → Result Rec × W → Result (Unit {0}) × W
  move_on tenant id to detail (err e, w) = (err e, w)
  move_on tenant id to detail (ok cur, w) =
      if same_status cur.status to then (ok tt, w) else drop_row (core.move tenant id to detail w)

  unfoldable pub apply_to : ℕ → ProviderEvent → Option Status → W → Result (Unit {0}) × W
  unfolding move_on
  apply_to id ev none w = (err (invalid_error "comms.unknown_event"), w)
  apply_to id ev (some to) w = move_on ev.tenant_id id to ev.detail (core.get ev.tenant_id id w)

  unfoldable pub process_id : RawId → ProviderEvent → W → Result (Unit {0}) × W
  unfolding apply_to
  process_id blank_id ev w = (err (invalid_error "comms.malformed_event"), w)
  process_id (no_uuid s) ev w = (err (invalid_error "comms.malformed_event"), w)
  process_id (uuid id) ev w = apply_to id ev (target ev.event) w

  -- Process
  unfoldable pub process : ProviderEvent → W → Result (Unit {0}) × W
  unfolding process_id
  process ev w =
      if ev.tenant_id == 0
      then (err (invalid_error "comms.malformed_event"), w)
      else process_id ev.interaction_id ev w

-- The event names an interaction and asks for the status.
pub record Asks (ev : ProviderEvent) (id : ℕ) (to : Status) : Type 0 where
  pub names : ev.interaction_id ≡ uuid id
  pub wants : target ev.event ≡ some to

same_status-eq : (s t : Status) → same_status s t ≡ true → s ≡ t
same_status-eq pending t h = ground (arith, h)
same_status-eq active t h = ground (arith, h)
same_status-eq wrapup t h = ground (arith, h)
same_status-eq completed t h = ground (arith, h)
same_status-eq failed t h = ground (arith, h)
same_status-eq canceled t h = ground (arith, h)

same_status_refl : (s : Status) → same_status s s ≡ true
same_status_refl pending = refl
same_status_refl active = refl
same_status_refl wrapup = refl
same_status_refl completed = refl
same_status_refl failed = refl
same_status_refl canceled = refl

module _ {W : Type 0} (core : Core W) where
  drop_ok : (r : Result Rec × W) → (drop_row core r).0 ≡ ok tt → (q : Rec) × (r.0 ≡ ok q)
  drop_ok (ok q, w) h = (q, refl)
  drop_ok (err e, w) h = cc

  drop_world : (r : Result Rec × W) → (drop_row core r).1 ≡ r.1
  drop_world (ok q, w) = refl
  drop_world (err e, w) = refl

  moved-on :
      (tenant id : ℕ) (to : Status) (detail : String) (r : Result Rec × W)
      → ((cur : Rec) → r.0 ≡ ok cur → core.status_of tenant id r.1 ≡ some cur.status)
      → (move_on core tenant id to detail r).0 ≡ ok tt
      → core.status_of tenant id (move_on core tenant id to detail r).1 ≡ some to
  unfolding move_on
  moved-on tenant id to detail (err e, w) h done = cc
  moved-on tenant id to detail (ok cur, w) h done = go (same_status cur.status to) refl done
    where
      moved : Result Rec × W
      moved = core.move tenant id to detail w

      go :
          (b : Bool)
          → same_status cur.status to ≡ b
          → (if b then (ok tt, w) else drop_row core moved).0 ≡ ok tt
          → core.status_of tenant id (if b then (ok tt, w) else drop_row core moved).1 ≡ some to
      go true e done = h cur refl ∙ ap some (same_status-eq cur.status to e)
      go false e done =
          rw (drop_world moved)
            (core.move-ok tenant id to detail w (drop_ok moved done).0 (drop_ok moved done).1)

  -- When the interaction has the status already, nothing is moved.
  stayed :
      (tenant id : ℕ) (to : Status) (detail : String) (r : Result Rec × W)
      → ((cur : Rec) → r.0 ≡ ok cur → core.status_of tenant id r.1 ≡ some cur.status)
      → core.status_of tenant id r.1 ≡ some to
      → (move_on core tenant id to detail r).1 ≡ r.1
  unfolding move_on
  stayed tenant id to detail (err e, w) h there = refl
  stayed tenant id to detail (ok cur, w) h there =
      let same : cur.status ≡ to = cc (h cur refl, there) in rw (same, same_status_refl to) refl

  read-status :
      (tenant id : ℕ) (w : W) (cur : Rec)
      → (core.get tenant id w).0 ≡ ok cur
      → core.status_of tenant id (core.get tenant id w).1 ≡ some cur.status
  read-status tenant id w cur e =
      core.get-keeps tenant id w tenant id ∙ core.get-ok tenant id w cur e

  Reaches : ProviderEvent → W → Type 0
  Reaches ev w =
      (id : ℕ) × (to : Status) × Asks ev id to × (core.status_of ev.tenant_id id w ≡ some to)

  apply_to-ok :
      (ev : ProviderEvent) (w : W) (id : ℕ) (o : Option Status)
      → ev.interaction_id ≡ uuid id
      → target ev.event ≡ o
      → (apply_to core id ev o w).0 ≡ ok tt
      → Reaches ev (apply_to core id ev o w).1
  unfolding apply_to Reaches
  apply_to-ok ev w id none n o done = cc
  apply_to-ok ev w id (some to) n o done = (
    id,
    to,
    record { names = n; wants = o },
    moved-on ev.tenant_id id to ev.detail (core.get ev.tenant_id id w)
        (λ cur e. read-status ev.tenant_id id w cur e) done,
  )

  process_id-ok :
      (ev : ProviderEvent) (w : W) (raw : RawId)
      → ev.interaction_id ≡ raw
      → (process_id core raw ev w).0 ≡ ok tt
      → Reaches ev (process_id core raw ev w).1
  unfolding process_id
  process_id-ok ev w blank_id e done = cc
  process_id-ok ev w (no_uuid s) e done = cc
  process_id-ok ev w (uuid id) e done = apply_to-ok ev w id _ e refl done

  -- An event that is processed without an error leaves its interaction in the status that the
  -- event asks for.
  pub process-ok :
      (ev : ProviderEvent) (w : W)
      → (process core ev w).0 ≡ ok tt
      → (id : ℕ) × (to : Status) × Asks ev id to
        × (core.status_of ev.tenant_id id (process core ev w).1 ≡ some to)
  unfolding process Reaches
  process-ok ev w done = go (ev.tenant_id == 0) done
    where
      go :
          (b : Bool)
          → (if b
              then (err (invalid_error "comms.malformed_event"), w)
              else process_id core ev.interaction_id ev w).0
            ≡ ok tt
          → Reaches ev
              (if b
                then (err (invalid_error "comms.malformed_event"), w)
                else process_id core ev.interaction_id ev w).1
      go true done = cc
      go false done = process_id-ok ev w ev.interaction_id refl done

  -- A redelivered event, whose interaction has the status already, changes no status.
  pub process-again :
      (ev : ProviderEvent) (w : W) (id : ℕ) (to : Status) (t i : ℕ)
      → Asks ev id to
      → core.status_of ev.tenant_id id w ≡ some to
      → core.status_of t i (process core ev w).1 ≡ core.status_of t i w
  unfolding process process_id apply_to
  process-again ev w id to t i a there = elim (Bool-cases (ev.tenant_id == 0)) [
    | inl none_given ↦ rw none_given refl
    | inr given ↦
        rw (given, a.names, a.wants)
          (ap (core.status_of t i) (
              stayed ev.tenant_id id to ev.detail (core.get ev.tenant_id id w)
                (λ cur e. read-status ev.tenant_id id w cur e)
                (core.get-keeps ev.tenant_id id w ev.tenant_id id ∙ there))
            ∙ core.get-keeps ev.tenant_id id w t i)
  ]

-- ===== src/Comms/Consumer.antt =====
-- internal/comms/consumer.go: the drain of the ledger of provider events. `fault n` says whether
-- the ledger's statement n fails; the interactions fail by themselves. The ledger is listed in the
-- order of (received_at, id). `payload` is the decoded event, `none` where the JSON is malformed.
-- `applied` holds the ids of the events that were processed without an error.
use orvexa.Base.{
  ◌∷◌, String, List, Option, ℕ, if◌then◌else◌, str_eq, map, ◌+◌, Bool, suc, ◌&&◌, leb, true, some,
  take, select, not,
}
use orvexa.Comms.Core.{Core}
use orvexa.Comms.Processor.{ProviderEvent, process}
use orvexa.Errors.{Result, err, ok, invalid_error, internal_error}
use Prim.Native.Nat.{zero}
use mathlib.Core.List.{[]}
use mathlib.Core.Option.{none}

pub record LedgerRow : Type 0 where
  pub provider : String
  pub event_id : String
  pub payload : Option ProviderEvent
  pub is_processed : Bool

pub record Consumer (W : Type 0) : Type 0 where
  pub ledger : List LedgerRow
  pub attempts : String → String → ℕ
  pub applied : List String
  pub fault : ℕ → Bool
  pub statement : ℕ
  pub world : W

-- c.attempts[key]++
unfoldable pub count_failure : String → String → (String → String → ℕ) → String → String → ℕ
count_failure provider event_id attempts p e =
    if str_eq p provider && str_eq e event_id then attempts p e + 1 else attempts p e

-- The UPDATE of MarkProcessed (internal/webhooks/gateway.go).
unfoldable pub mark : String → LedgerRow → LedgerRow
mark event_id r = if str_eq r.event_id event_id then record r { is_processed = true } else r

module _ {W : Type 0} (core : Core W) (batch_size max_attempts : ℕ) where
  abbrev pub next_statement : Consumer W → Consumer W
  next_statement c = record c { statement = c.statement + 1 }

  -- skipped
  unfoldable pub is_skipped : LedgerRow → Consumer W → Bool
  is_skipped r c = leb max_attempts (c.attempts r.provider r.event_id)

  -- apply
  unfoldable pub apply : LedgerRow → W → Result (Unit {0}) × W
  apply r w = decoded r.payload w
    where
      decoded : Option ProviderEvent → W → Result (Unit {0}) × W
      decoded none w = (err (invalid_error "comms.malformed_event"), w)
      decoded (some ev) w = process core ev w

  unfoldable pub mark_processed : LedgerRow → Consumer W → Consumer W
  mark_processed r c =
      if c.fault c.statement
      then next_statement c
      else record (next_statement c) { ledger = map (mark r.event_id) c.ledger }

  -- The loop body, after apply: 1 for a row that was applied.
  unfoldable pub settle : LedgerRow → Result (Unit {0}) × W → Consumer W → ℕ × Consumer W
  settle r (err e, w) c =
      (0, record c { world = w; attempts = count_failure r.provider r.event_id c.attempts })
  settle r (ok a, w) c =
      (1, mark_processed r (record c { world = w; applied = r.event_id ∷ c.applied }))

  unfoldable pub drain_row : LedgerRow → Consumer W → ℕ × Consumer W
  unfolding settle
  drain_row r c = if is_skipped r c then (0, c) else settle r (apply r c.world) c

  unfoldable pub drain_rows : List LedgerRow → ℕ → Consumer W → (Result (Unit {0}) × ℕ) × Consumer W
  drain_rows [] n c =
      if c.fault c.statement
      then ((err (internal_error "provider_events.read_failed"), n), next_statement c)
      else ((ok tt, n), next_statement c)
  drain_rows (r ∷ rs) n c =
      let (m, d) = drain_row r (next_statement c) in
      let rest = drain_rows rs (n + m) d in
      if c.fault c.statement
      then ((err (internal_error "db.scan_failed"), n), next_statement c)
      else rest

  -- Tick, with how many rows it applied.
  unfoldable pub tick : Consumer W → (Result (Unit {0}) × ℕ) × Consumer W
  tick c =
      if c.fault c.statement
      then ((err (internal_error "provider_events.read_failed"), 0), next_statement c)
      else drain_rows (take batch_size (select (λ r. not r.is_processed) c.ledger)) 0
          (next_statement c)

  unfoldable pub ticks : ℕ → Consumer W → Consumer W
  ticks zero c = c
  ticks (suc n) c = ticks n (tick c).1

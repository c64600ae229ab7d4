-- ===== src/Outbox.antt =====
-- internal/platform/outbox/dispatcher.go: the dispatcher's rows and its Tick, with the publisher of
-- cmd/worker/main.go. A time is a number of seconds. Tokens are fresh numbers and 0 is the empty
-- token. `returned n` is the order in which the UPDATE of the claim with token n returns its rows,
-- which is the database's choice. `reach n` is how many rows got out when the publication that is
-- statement n failed (the publisher sends one row after the other). `size` and `limit` are batchSize
-- and maxAttempts.
pub mod Delivery
pub mod Ticks
pub mod Abandoned
pub mod Draining
mod Examples
use orvexa.Base.{
  List, ℕ, ◌++◌, if◌then◌else◌, Option, take, ◌+◌, ◌∷◌, Bool, select, leb, any, false, true, ◌==◌,
  map, some, ltb, update_where,
}
use orvexa.Database.{
  World, Db, ◌>>◌, ◌>>=◌, attempt, exec, pure, try, now, begin, outcome, raise, fresh, commit,
}
use orvexa.Errors.{Result, ok, err, internal_error}
use mathlib.Core.List.{[]}
use mathlib.Core.Option.{none}

pub data RowStatus : Type 0 where
  pending publishing published failed : RowStatus

pub record Row : Type 0 where
  pub id : ℕ
  pub occurred_at : ℕ
  -- The payload unmarshals.
  pub is_json : Bool
  pub status : RowStatus
  pub attempts : ℕ
  pub lease_token : ℕ
  pub lease_expires_at : Option ℕ

-- The table, and the ids of the events that the bus has received, oldest first.
pub record Store : Type 0 where
  pub rows : List Row
  pub received : List ℕ

abbrev pub is_expired : ℕ → Option ℕ → Bool
is_expired time none = false
is_expired time (some t) = ltb t time

-- The WHERE of claim; a NULL lease is never expired.
unfoldable pub is_claimable : ℕ → Row → Bool
is_claimable time r = claimable r.status r.lease_expires_at
  where
    claimable : RowStatus → Option ℕ → Bool
    claimable pending lease = true
    claimable publishing lease = is_expired time lease
    claimable _ lease = false

-- ORDER BY occurred_at
unfoldable pub insert_in_order : Row → List Row → List Row
insert_in_order r [] = r ∷ []
insert_in_order r (q ∷ qs) =
    let rest = insert_in_order r qs in
    if leb r.occurred_at q.occurred_at then r ∷ q ∷ qs else q ∷ rest

unfoldable pub by_occurrence : List Row → List Row
unfolding insert_in_order
by_occurrence [] = []
by_occurrence (r ∷ rs) = insert_in_order r (by_occurrence rs)

abbrev pub is_among : List Row → Row → Bool
is_among batch r = any (λ q. q.id == r.id) batch

unfoldable pub lease : ℕ → Row → Row
lease token r = record r { status = publishing; lease_token = token; attempts = r.attempts + 1 }

abbrev pub due_rows : ℕ → ℕ → List Row → List Row
due_rows size time rows = take size (by_occurrence (select (is_claimable time) rows))

-- The rows that the UPDATE changed, as the table holds them now.
unfoldable pub leased_batch : ℕ → List Row → List Row → List Row
leased_batch token due rows = map (lease token) (select (is_among due) rows)

-- The UPDATE … RETURNING of claim. The ORDER BY of its subquery chooses the rows, and not their
-- order in the answer.
unfoldable pub lease_rows : (ℕ → List Row → List Row) → ℕ → ℕ → Db Store (List Row)
lease_rows returned size token = attempt (internal_error "outbox.claim_failed") (λ w.
    let due = due_rows size w.now w.tx.rows in
    (
      ok (returned token (leased_batch token due w.tx.rows)),
      record w {
        tx = record (w.tx) { rows = update_where (is_among due) (lease token) w.tx.rows };
      },
    ))

-- An iteration over the returned rows that breaks off has aborted the transaction, so that the commit
-- is what fails.
unfoldable pub claim : (ℕ → List Row → List Row) → ℕ → Db Store (ℕ × List Row)
claim returned size = do
  begin (internal_error "db.tx_failed")
  token ← fresh
  batch ← lease_rows returned size token
  scanned ← attempt (internal_error "db.scan_failed") (pure batch)
  commit (internal_error "db.commit_failed")
  pure (token, scanned)

abbrev pub is_leased : ℕ → Row → Bool
is_leased token r = r.lease_token == token

unfoldable pub ack_row : Row → Row
ack_row r = record r { status = published; lease_token = 0 }

unfoldable pub ack : ℕ → Db Store (Unit {0})
ack token =
    exec (internal_error "outbox.ack_failed")
      (λ s. record s { rows = update_where (is_leased token) ack_row s.rows })

unfoldable pub release_row : ℕ → ℕ → Row → Row
release_row limit time r = record r {
  status = if leb limit r.attempts then failed else pending;
  lease_token = 0;
  lease_expires_at = some (time + 30);
}

-- releaseForRetry
unfoldable pub release : ℕ → ℕ → Db Store (Unit {0})
release limit token = do
  time ← now
  exec (internal_error "outbox.retry_failed")
      (λ s. record s { rows = update_where (is_leased token) (release_row limit time) s.rows })

abbrev pub receive : List Row → Store → Store
receive batch s = record s { received = s.received ++ map (λ r. r.id) batch }

-- The calls of the bus: all of them, or an error after some.
unfoldable pub send_rows : (ℕ → ℕ) → List Row → Db Store (Unit {0})
send_rows reach [] w = (ok tt, w)
send_rows reach (r ∷ rs) w =
    let w' = record w { statement = w.statement + 1 } in
    if w.fault w.statement
    then (
      err (internal_error "bus.publish_failed"),
      record w' { db = receive (take (reach w.statement) (r ∷ rs)) w.db },
    )
    else (ok tt, record w' { db = receive (r ∷ rs) w.db })

-- The worker's publish function: a row whose payload does not unmarshal is logged and skipped.
unfoldable pub publish : (ℕ → ℕ) → List Row → Db Store (Unit {0})
publish reach batch = send_rows reach (select (λ r. r.is_json) batch)

unfoldable pub settle : ℕ → ℕ → Result (Unit {0}) → Db Store (Unit {0})
settle limit token (ok a) = ack token
settle limit token (err e) = do try (release limit token); raise e

unfoldable pub dispatch : (ℕ → ℕ) → ℕ → ℕ × List Row → Db Store (Unit {0})
dispatch reach limit (token, []) = pure tt
dispatch reach limit (token, r ∷ rs) = do
  sent ← outcome (publish reach (r ∷ rs))
  settle limit token sent

unfoldable pub tick : (ℕ → List Row → List Row) → (ℕ → ℕ) → ℕ → ℕ → Db Store (Unit {0})
tick returned reach size limit = do batch ← claim returned size; dispatch reach limit batch

-- Ticks at the given times, whatever they return.
unfoldable pub run :
    (ℕ → List Row → List Row) → (ℕ → ℕ) → ℕ → ℕ → List ℕ → World Store → World Store
run returned reach size limit [] w = w
run returned reach size limit (time ∷ times) w =
    run returned reach size limit times (tick returned reach size limit (record w { now = time })).1

-- ===== src/Workflows/Tick.antt =====
-- internal/workflows/engine.go: Tick, markFailed, Cancel, Get, StartCallback, StartCollections.
use orvexa.Workflows.Types.{
  Instance, canceled, Store, is_instance, is_live, failed, is_due, callback, collections, contacted,
  scheduled,
}
use orvexa.Base.{
  List, Option, ℕ, Bool, ◌∷◌, ◌+◌, String, any, none, false, some, ◌==◌, ◌&&◌, if◌then◌else◌, true,
  take, update_where, find, leb, not, select, str_eq, ltb, map,
}
use orvexa.Errors.{Result, ok, conflict_error, not_found_error, internal_error, err, invalid_error}
use orvexa.Database.{Db, raise, attempt, ◌>>=◌, ◌>>◌, pure, outcome, now, read, guard, try, exec}
use mathlib.Core.List.{[]}
use orvexa.Workflows.Engine.{advance, customer_owned, start}

-- ORDER BY next_run_at, on rows that have one
insert_by_time : Instance → List Instance → List Instance
insert_by_time i [] = i ∷ []
insert_by_time i (j ∷ js) =
    let rest = insert_by_time i js in
    if runs_before i.next_run_at j.next_run_at then i ∷ j ∷ js else j ∷ rest
  where
    runs_before : Option ℕ → Option ℕ → Bool
    runs_before none q = false
    runs_before (some t) none = true
    runs_before (some t) (some u) = leb t u

unfoldable pub by_time : List Instance → List Instance
unfolding insert_by_time
by_time [] = []
by_time (i ∷ is) = insert_by_time i (by_time is)

abbrev pub touch : ℕ → Instance → Instance
touch time i = record i { attempts = i.attempts + 1; updated_at = time }

abbrev pub is_among : List Instance → Instance → Bool
is_among due i = any (λ j. j.id == i.id) due

-- The UPDATE … RETURNING of Tick, committed by itself, and then the scan of its rows.
unfoldable pub claim : ℕ → Db Store (List Instance)
claim limit = attempt (internal_error "db.claim_failed") (λ w.
    let due = take limit (by_time (select (is_due w.now) w.db.instances)) in
    (
      ok (map (touch w.now) due),
      record w {
        db = record (w.db) { instances = update_where (is_among due) (touch w.now) w.db.instances };
      },
    ))

-- markFailed, whose error is dropped
unfoldable pub mark_failed : ℕ → String → Db Store (Option (Unit {0}))
mark_failed id message = do
  time ← now
  try (
      exec (internal_error "db.write_failed") (λ s. record s {
        instances =
            update_where (λ i. i.id == id)
              (λ i. record i { status = failed; error = message; updated_at = time }) s.instances;
      }))

-- The end of the loop body: 1 for an instance that counts as advanced.
unfoldable pub settle : ℕ → Result (Unit {0}) → Db Store ℕ
settle id (ok a) = pure 1
settle id (err e) = do mark_failed id e.code; pure 0

unfoldable pub advance_all : List Instance → Db Store ℕ
advance_all [] = pure 0
advance_all (i ∷ is) = do
  r ← outcome (advance i)
  n ← settle i.id r
  m ← advance_all is
  pure (n + m)

-- Tick; a limit that is not positive is 50.
unfoldable pub tick : ℕ → Db Store ℕ
tick limit = do
  batch ← claim (if limit == 0 then 50 else limit)
  scanned ← attempt (internal_error "db.scan_failed") (pure batch)
  advance_all scanned

unfoldable pub or_not_found : Option Instance → Db Store Instance
or_not_found none = raise (not_found_error "workflow.not_found")
or_not_found (some i) = pure i

unfoldable pub get : ℕ → ℕ → Db Store Instance
get tenant id = do
  row ← read (internal_error "db.read_failed") (λ s. find (is_instance tenant id) s.instances)
  or_not_found row

abbrev pub is_live_instance : ℕ → ℕ → Instance → Bool
is_live_instance tenant id i = is_instance tenant id i && is_live i.status

abbrev pub cancel_row : ℕ → Instance → Instance
cancel_row time i = record i { status = canceled; next_run_at = none; updated_at = time }

unfoldable pub refuse_cancel : ℕ → ℕ → Bool → Db Store (Unit {0})
refuse_cancel tenant id true = pure tt
refuse_cancel tenant id false = do get tenant id; raise (conflict_error "workflow.not_cancelable")

unfoldable pub cancel : ℕ → ℕ → Db Store Instance
cancel tenant id = do
  affected ← attempt (internal_error "db.write_failed") (λ w. (
    ok (any (is_live_instance tenant id) w.db.instances),
    record w {
      db = record (w.db) {
        instances = update_where (is_live_instance tenant id) (cancel_row w.now) w.db.instances;
      };
    },
  ))
  refuse_cancel tenant id affected
  get tenant id

-- StartCallback; 0 is the zero time, for which the callback is due in half an hour.
unfoldable pub start_callback : ℕ → ℕ → String → String → ℕ → Db Store Instance
start_callback tenant customer phone notes schedule_at = do
  guard (not (customer == 0)) (invalid_error "workflow.customer_required")
  guard (not (str_eq phone "")) (invalid_error "workflow.phone_required")
  customer_owned tenant customer
  time ← now
  let at = if schedule_at == 0 then time + 1800 else schedule_at
  guard (leb time at) (invalid_error "workflow.schedule_past")
  start tenant callback
      (record {
        customer_id = customer;
        phone = phone;
        notes = notes;
        invoice_ref = "";
        amount_due = 0;
      })
      at scheduled

-- StartCollections; an amount below 0 is refused as 0 is.
unfoldable pub start_collections : ℕ → ℕ → String → ℕ → String → Db Store Instance
start_collections tenant customer invoice amount phone = do
  guard (not (customer == 0) && not (str_eq invoice "")) (invalid_error "workflow.fields_required")
  guard (ltb 0 amount) (invalid_error "workflow.amount_invalid")
  guard (not (str_eq phone "")) (invalid_error "workflow.phone_required")
  customer_owned tenant customer
  time ← now
  start tenant collections
      (record {
        customer_id = customer;
        phone = phone;
        notes = "";
        invoice_ref = invoice;
        amount_due = amount;
      })
      time contacted

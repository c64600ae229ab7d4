-- ===== src/Outbox/Examples.antt =====
-- A table with one pending row, one that was published although its payload does not unmarshal, and
-- one that a stopped worker claimed.
use orvexa.Base.{◌∷◌, arith, [], ◌==◌, none, refl, true, false, ◌≡◌}
use orvexa.Database.{World, calm}
use orvexa.Outbox.{Row, Store, published, publishing, pending, run, tick, due_rows}
use orvexa.Outbox.Delivery.{IsSound, IsSoundRow}
use orvexa.Outbox.Abandoned.{Remains, run-Remains}
use orvexa.Outbox.Ticks.{run-IsSound}
use mathlib.Core.List.Permᴰ
use orvexa.Errors.{ok}
use orvexa.Outbox.Draining.{Drains, tick-Drains}

abbrev waiting : Row
waiting = record {
  id = 1;
  occurred_at = 5;
  is_json = true;
  status = pending;
  attempts = 0;
  lease_token = 0;
  lease_expires_at = none;
}

abbrev sent : Row
sent = record {
  id = 2;
  occurred_at = 4;
  is_json = false;
  status = published;
  attempts = 1;
  lease_token = 0;
  lease_expires_at = none;
}

abbrev stopped : Row
stopped = record {
  id = 3;
  occurred_at = 3;
  is_json = true;
  status = publishing;
  attempts = 1;
  lease_token = 7;
  lease_expires_at = none;
}

abbrev table : Store
table = record { rows = waiting ∷ sent ∷ stopped ∷ []; received = [] }

abbrev start : World Store
start = record {
  db = table;
  tx = table;
  fault = λ n. n == 3;
  statement = 0;
  next_id = 8;
  now = 100;
}

start-IsSound : IsSound 10 start
start-IsSound = (one, (two, (three, tt)))
  where
    one : IsSoundRow 10 8 [] waiting
    one = record { delivered = λ e. ground arith; bounded = λ e. omega arith; leased = omega arith }

    two : IsSoundRow 10 8 [] sent
    two = record { delivered = λ e j. cc; bounded = λ e. ground arith; leased = omega arith }

    three : IsSoundRow 10 8 [] stopped
    three = record {
      delivered = λ e. ground arith;
      bounded = λ e. ground arith;
      leased = omega arith;
    }

run-IsSound_example : IsSound 10 (run (λ n rows. rows) (λ n. 0) 100 10 (101 ∷ 102 ∷ []) start)
run-IsSound_example =
    run-IsSound 10 (λ n rows. rows) (λ n rows. Permᴰ.refl rows) (λ n. 0) 100 (101 ∷ 102 ∷ []) start
      start-IsSound

run-Remains_example :
    Remains stopped (run (λ n rows. rows) (λ n. 0) 100 10 (101 ∷ 1000000 ∷ []) start).db.rows
run-Remains_example =
    run-Remains (λ n rows. rows) (λ n. 0) 100 10 (101 ∷ 1000000 ∷ []) start stopped
      (record { held = refl; unset = refl; drawn = omega arith })
      ((λ e. ground arith), ((λ e. ground arith), ((λ e. refl), tt)))

tick-Drains_example :
    let r = tick (λ n rows. rows) (λ n. 0) 100 10 (calm start) in
    (r.0 ≡ ok tt) × Drains 8 (due_rows 100 100 table.rows) table r.1.db
tick-Drains_example =
    tick-Drains (λ n rows. rows) (λ n. 0) 100 10 start (λ n rows. Permᴰ.refl rows)
      (omega arith, (omega arith, (omega arith, tt)))

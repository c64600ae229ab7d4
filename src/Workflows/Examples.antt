-- ===== src/Workflows/Examples.antt =====
-- A tenant with one customer, and the callback that was started for it.
use orvexa.Base.{◌∷◌, [], ◌==◌}
use orvexa.Database.{World}
use orvexa.Workflows.Progress.{Stalls, run_ticks, run_ticks-Stalls}
use orvexa.Workflows.Types.{Payload, Instance, callback, scheduled, Store}
use orvexa.Database.Rules.{Post}
use orvexa.Workflows.Engine.{started, advance}
use orvexa.Workflows.Advance.{Sends, advance-Post}

abbrev details : Payload
details = record {
  customer_id = 7;
  phone = "+254700000001";
  notes = "renewal";
  invoice_ref = "";
  amount_due = 0;
}

abbrev due : Instance
due = started 50 1 callback details 10 scheduled 5

abbrev tables : Store
tables = record {
  customers = (7, 1) ∷ [];
  instances = due ∷ [];
  steps = [];
  messages = [];
  outbox = [];
}

abbrev start_world : World Store
start_world = record {
  db = tables;
  tx = tables;
  fault = λ n. n == 5;
  statement = 0;
  next_id = 100;
  now = 20;
}

advance-Post_example :
    Post (λ _ v. Sends tables v.db) (λ _ v. Sends tables v.db) (advance due start_world)
advance-Post_example = advance-Post due start_world

run_ticks-Stalls_example :
    Stalls tables (run_ticks ((20, 50) ∷ (21, 50) ∷ (22, 0) ∷ []) start_world).db
run_ticks-Stalls_example = run_ticks-Stalls ((20, 50) ∷ (21, 50) ∷ (22, 0) ∷ []) start_world

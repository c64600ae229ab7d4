-- ===== src/Cases/Examples.antt =====
-- A tenant with a customer, an interaction, and a resolved case that is linked to it.
use orvexa.Base.{◌∷◌, ℕ, [], arith, false, refl, some, none, ◌≡◌}
use orvexa.Cases.Store.{Case, Store, resolved, closed, can_transition, transitions}
use orvexa.Cases.Service.{
  CreateInput, transition_case, or_not_found, get, open_new, check_transition, move_row,
}
use orvexa.Cases.Opening.{IsNumbered, Opened, Unopened, open_new-Post}
use orvexa.Database.{World, ◌>>=◌, attempt, begin, tx_read, lift, pure, now, tx_exec, commit, read}
use orvexa.Database.Rules.{Post}
use orvexa.Cases.Moving.{Accepts, Refuses, transition_case-Post, closed-unresolved}
use orvexa.Events.{new_envelope, insert_event, is_valid, is_registered, topics}

abbrev row : Case
row = record {
  id = 2;
  tenant_id = 1;
  customer_id = 7;
  year = 2026;
  number = 1;
  subject = "refund";
  description = "";
  status = resolved;
  priority = "normal";
  resolved_at = some 15;
  closed_at = none;
  updated_at = 15;
}

abbrev tables : Store
tables = record {
  customers = (7, 1) ∷ [];
  interactions = (3, 1) ∷ (4, 1) ∷ [];
  cases = row ∷ [];
  notes = [];
  links = (2, 3) ∷ [];
  outbox = [];
}

abbrev start : World Store
start = record {
  db = tables;
  tx = tables;
  fault = λ n. false;
  statement = 0;
  next_id = 100;
  now = 20;
}

abbrev request : CreateInput
request = record { customer_id = 7; subject = "invoice"; description = ""; priority = "" }

abbrev this_year : ℕ → ℕ
this_year time = 2026

start-IsNumbered : IsNumbered start
start-IsNumbered = record { numbered = (refl, tt); ids = (omega arith, tt) }

open_new-Post_example :
    Post
      (λ c u. Opened 1 request start u)
      (λ e u. Unopened 1 request start e u)
      (open_new this_year 1 request start)
open_new-Post_example = open_new-Post this_year 1 request start start-IsNumbered

transition_case-Post_example :
    Post
      (Accepts start 1 2 closed)
      (Refuses start 1 2 closed)
      (transition_case 1 2 closed "done" start)
transition_case-Post_example = transition_case-Post start 1 2 closed "done"

closed-unresolved_example :
    ((move_row closed start.now row).status ≡ closed)
    × ((move_row closed start.now row).closed_at ≡ some start.now)
    × ((move_row closed start.now row).resolved_at ≡ none)
unfolding transition_case or_not_found get check_transition can_transition transitions move_row
    ◌>>=◌ attempt begin tx_read lift pure now tx_exec new_envelope insert_event commit read is_valid
    is_registered topics
closed-unresolved_example = closed-unresolved start 1 2 "done" (move_row closed start.now row) refl

-- ===== src/Cases/Service.antt =====
-- Open, Transition, AddNote, LinkInteraction and Get of internal/cases/service.go. `year_of` gives
-- the year of a time.
use orvexa.Base.{
  ◌∷◌, String, ℕ, Option, if◌then◌else◌, Bool, true, not, str_eq, some, none, false, ◌||◌, ◌&&◌,
  any, ◌==◌, find, leb, ◌++◌, length, byte_length, [], select, update_where, ◌+◌,
}
use orvexa.Cases.Store.{
  Status, Case, Store, open_case, Note, owns, same_status, resolved, closed, canceled,
  can_transition, clashes, is_case, is_of_year, put_event,
}
use orvexa.Database.{
  Db, attempt, ◌>>=◌, World, ◌>>◌, raise, begin, guard, read, tx_exec, tx_read, pure, fresh, now,
  lift, exec, try, commit,
}
use orvexa.Errors.{Result, not_found_error, internal_error, err, conflict_error, ok, invalid_error}
use orvexa.Events.{new_envelope, ident, text, insert_event}

pub record CreateInput : Type 0 where
  pub customer_id : ℕ
  pub subject : String
  pub description : String
  pub priority : String

abbrev is_priority : String → Bool
is_priority p = str_eq p "low" || str_eq p "normal" || str_eq p "high" || str_eq p "urgent"

abbrev default_priority : String → String
default_priority p = if str_eq p "" then "normal" else p

abbrev is_short : ℕ → String → Bool
is_short limit s = not (str_eq s "") && leb (byte_length s) limit

unfoldable pub or_not_found : Option Case → Db Store Case
or_not_found none = raise (not_found_error "case.not_found")
or_not_found (some c) = pure c

unfoldable pub get : ℕ → ℕ → Db Store Case
get tenant id = do
  row ← read (internal_error "db.read_failed") (λ s. find (is_case tenant id) s.cases)
  or_not_found row

unfoldable pub insert_into : Case → Bool → World Store → Result (Unit {0}) × World Store
insert_into c true w = (err (conflict_error "case.ref_conflict"), w)
insert_into c false w = (ok tt, record w { tx = record (w.tx) { cases = w.tx.cases ++ c ∷ [] } })

unfoldable pub insert_case : Case → Db Store (Unit {0})
unfolding insert_into
insert_case c =
    attempt (internal_error "db.write_failed") (λ w. insert_into c (any (clashes c) w.tx.cases) w)

abbrev pub opened : ℕ → ℕ → CreateInput → ℕ → ℕ → ℕ → Case
opened id tenant input year number time = record {
  id = id;
  tenant_id = tenant;
  customer_id = input.customer_id;
  year = year;
  number = number;
  subject = input.subject;
  description = input.description;
  status = open_case;
  priority = default_priority input.priority;
  resolved_at = none;
  closed_at = none;
  updated_at = time;
}

unfoldable pub open_in_tx : (ℕ → ℕ) → ℕ → CreateInput → ℕ → ℕ → Db Store Case
open_in_tx year_of tenant input id time = do
  tx_exec (internal_error "db.lock_failed") (λ s. s)
  count ←
      tx_read (internal_error "db.read_failed")
        (λ s. length (select (is_of_year tenant (year_of time)) s.cases))
  insert_case (opened id tenant input (year_of time) (count + 1) time)
  env ←
      new_envelope "case.opened" id tenant
        (("case_id", ident id) ∷ ("customer_id", ident input.customer_id) ∷ [])
  insert_event put_event env
  commit (internal_error "db.commit_failed")
  get tenant id

-- Open
unfoldable pub open_new : (ℕ → ℕ) → ℕ → CreateInput → Db Store Case
open_new year_of tenant input = do
  guard (not (input.customer_id == 0)) (invalid_error "case.customer_required")
  guard (is_short 512 input.subject) (invalid_error "case.subject_invalid")
  guard (is_priority (default_priority input.priority)) (invalid_error "case.priority_invalid")
  owned ← read (internal_error "db.read_failed") (λ s. owns tenant input.customer_id s.customers)
  guard owned (not_found_error "customer.not_found")
  begin (internal_error "db.tx_failed")
  id ← fresh
  time ← now
  open_in_tx year_of tenant input id time

abbrev is_resolved : Status → Bool
is_resolved resolved = true
is_resolved _ = false

abbrev is_closed : Status → Bool
is_closed closed = true
is_closed _ = false

abbrev pub ends : Status → Bool
ends closed = true
ends canceled = true
ends _ = false

unfoldable pub check_transition : Status → Status → Result (Unit {0})
check_transition from to =
    if same_status from to
    then err (conflict_error "case.invalid_transition")
    else if can_transition from to
    then ok tt
    else err (conflict_error "case.invalid_transition")

-- The UPDATE of Transition, which writes both times anew.
unfoldable pub move_row : Status → ℕ → Case → Case
move_row to time c = record c {
  status = to;
  resolved_at = if is_resolved to then some time else none;
  closed_at = if is_closed to then some time else none;
  updated_at = time;
}

unfoldable pub transition_case : ℕ → ℕ → Status → String → Db Store Case
transition_case tenant id to reason = do
  begin (internal_error "db.tx_failed")
  row ← tx_read (internal_error "db.read_failed") (λ s. find (is_case tenant id) s.cases)
  cur ← or_not_found row
  lift (check_transition cur.status to)
  time ← now
  tx_exec (internal_error "db.write_failed")
      (λ s. record s { cases = update_where (is_case tenant id) (move_row to time) s.cases })
  env ←
      new_envelope (if ends to then "case.closed" else "case.updated") id tenant
        (("case_id", ident id) ∷ ("reason", text reason) ∷ [])
  insert_event put_event env
  commit (internal_error "db.commit_failed")
  get tenant id

abbrev is_author : String → Bool
is_author a = str_eq a "agent" || str_eq a "ai_agent" || str_eq a "system"

unfoldable pub add_note : ℕ → ℕ → String → String → String → Bool → Db Store Note
add_note tenant id author_type author body is_internal = do
  guard (is_author author_type) (invalid_error "case.author_type_invalid")
  guard (is_short 8000 body) (invalid_error "case.body_invalid")
  owned ← read (internal_error "db.read_failed") (λ s. any (is_case tenant id) s.cases)
  guard owned (not_found_error "case.not_found")
  note ← fresh
  let n : Note = record {
    id = note;
    case_id = id;
    tenant_id = tenant;
    author_type = author_type;
    author_id = author;
    body = body;
    is_internal = is_internal;
  }
  exec (internal_error "db.write_failed") (λ s. record s { notes = s.notes ++ n ∷ [] })
  time ← now
  try (
      exec (internal_error "db.write_failed") (λ s. record s {
        cases = update_where (is_case tenant id) (λ c. record c { updated_at = time }) s.cases;
      }))
  pure n

-- Whether the INSERT … SELECT finds a row to insert that is no conflict.
unfoldable pub is_linkable : ℕ → ℕ → ℕ → Store → Bool
is_linkable tenant id interaction s =
    owns tenant interaction s.interactions
    && any (is_case tenant id) s.cases
    && not (any (λ (c, i). c == id && i == interaction) s.links)

unfoldable pub insert_link : ℕ → ℕ → ℕ → Db Store Bool
insert_link tenant id interaction = attempt (internal_error "db.write_failed") (λ w. (
  ok (is_linkable tenant id interaction w.db),
  record w {
    db = record (w.db) {
      links =
          if is_linkable tenant id interaction w.db
          then w.db.links ++ (id, interaction) ∷ []
          else w.db.links;
    };
  },
))

unfoldable pub link_interaction : ℕ → ℕ → ℕ → Db Store (Unit {0})
link_interaction tenant id interaction = do
  affected ← insert_link tenant id interaction
  guard affected (not_found_error "case.link_target_not_found")

-- ===== src/Cases/Moving.antt =====
-- Transition of internal/cases/service.go: the lifecycle and what is committed.
use orvexa.Base.{
  ◌∷◌, ℕ, String, List, update_where, ◌≡◌, find, ◌⊎◌, inl, some, ◌++◌, Option, none, [],
  find-update_where, if◌then◌else◌, refl, inr,
}
use orvexa.Cases.Store.{Case, Store, Status, closed, is_case, put_event}
use orvexa.Database.{World, ◌>>=◌, Db}
use orvexa.Cases.Service.{transition_case, move_row, or_not_found, get, check_transition, ends}
use orvexa.Errors.{Error, ok, internal_error, not_found_error}
use orvexa.Events.{Envelope}
use orvexa.Database.Rules.{
  Post, begin_then, counted, tx_read_then, Post-ok, lift_then, raise-Post, now_then, fails,
  pure-Post, tx_exec_then, read_then, commit_then,
}
use orvexa.Events.Rules.{new_envelope_then, insert_event_then}

-- The store after an accepted transition with the event `e`.
unfoldable pub moved : ℕ → ℕ → Status → ℕ → Envelope → Store → Store
moved tenant id to time e s = record s {
  cases = update_where (is_case tenant id) (move_row to time) s.cases;
  outbox = s.outbox ++ e ∷ [];
}

pub record Moves (tenant id : ℕ) (to : Status) (w : World Store) (cur : Case) (e : Envelope)
    (s : Store) : Type 0 where
  pub was : find (is_case tenant id) w.db.cases ≡ some cur
  pub legal : check_transition cur.status to ≡ ok tt
  pub topic : e.topic ≡ (if ends to then "case.closed" else "case.updated")
  pub about : (e.subject ≡ id) × (e.tenant_id ≡ tenant)
  pub now_is : s ≡ moved tenant id to w.now e w.db

module _ (w : World Store) (tenant id : ℕ) (to : Status) where
  abbrev pub Accepts : Case → World Store → Type 0
  Accepts c v =
      (cur : Case) × (e : Envelope) × Moves tenant id to w cur e v.db × (c ≡ move_row to w.now cur)

  abbrev pub Refuses : Error → World Store → Type 0
  Refuses x v =
      (v.db ≡ w.db)
      ⊎ ((cur : Case) × (e : Envelope) × Moves tenant id to w cur e v.db
          × (x ≡ internal_error "db.read_failed"))

module _ {μ υ} {Q : Case → World Store → Type μ} {E : Error → World Store → Type υ} where
  pub or_not_found_then :
      (row : Option Case) (f : Case → Db Store Case) (w : World Store)
      → E (not_found_error "case.not_found") w
      → ((c : Case) → row ≡ some c → Post Q E (f c w))
      → Post Q E ((or_not_found row >>= f) w)
  unfolding or_not_found ◌>>=◌
  or_not_found_then none f w h k = fails h
  or_not_found_then (some c) f w h k = k c refl

  pub get-Post :
      (tenant id : ℕ) (w : World Store)
      → E (internal_error "db.read_failed") (counted w)
      → (find (is_case tenant id) w.db.cases ≡ none
          → E (not_found_error "case.not_found") (counted w))
      → ((c : Case) → find (is_case tenant id) w.db.cases ≡ some c → Q c (counted w))
      → Post Q E (get tenant id w)
  unfolding get or_not_found
  get-Post tenant id w h gone k =
      read_then _ _ _ _ h (found (find (is_case tenant id) w.db.cases) gone k)
    where
      found :
          (row : Option Case)
          → (row ≡ none → E (not_found_error "case.not_found") (counted w))
          → ((c : Case) → row ≡ some c → Q c (counted w))
          → Post Q E (or_not_found row (counted w))
      found none gone k = raise-Post _ _ (gone refl)
      found (some c) gone k = pure-Post _ _ (k c refl)

move_row-find :
    (tenant id : ℕ) (to : Status) (time : ℕ) (cur : Case) (rows : List Case)
    → find (is_case tenant id) rows ≡ some cur
    → find (is_case tenant id) (update_where (is_case tenant id) (move_row to time) rows)
      ≡ some (move_row to time cur)
unfolding move_row
move_row-find tenant id to time cur rows h =
    find-update_where (is_case tenant id) (move_row to time) (λ r p. p) rows cur h

-- Transition commits the moved case and its event together, for a move that the lifecycle allows,
-- and returns the case as moved; an error has committed nothing, unless only the last read failed.
pub transition_case-Post :
    (w : World Store) (tenant id : ℕ) (to : Status) (reason : String)
    → Post (Accepts w tenant id to) (Refuses w tenant id to) (transition_case tenant id to reason w)
unfolding transition_case moved
transition_case-Post w tenant id to reason = begin_then _ _ w (inl refl) (
    tx_read_then _ _ _ _ (inl refl) (
      or_not_found_then (find (is_case tenant id) w.db.cases) _ _ (inl refl) λ cur here.
        lift_then _ _ _ (λ e h. inl refl)
          λ _ legal. now_then _ _ (
            tx_exec_then _ _ _ _ (inl refl) (
              new_envelope_then _ _ _ _ _ _ λ env said.
                insert_event_then put_event env _ _ (inl refl) (inl refl) λ e is_e.
                  let done : Moves tenant id to w cur e (moved tenant id to w.now e w.db) = record {
                    was = here;
                    legal = legal;
                    topic = (said e is_e).says;
                    about = ((said e is_e).of, (said e is_e).within);
                    now_is = refl;
                  } in
                  let after = move_row-find tenant id to w.now cur w.db.cases here in
                  commit_then _ _ _ (inl refl) (
                    get-Post tenant id _ (inr (cur, e, done, refl)) (λ gone. cc (after, gone))
                      λ r there. (cur, e, done, cc (after, there)))))))

-- A case that Transition moved to closed has no time of resolution, whatever it had before: the
-- resolution of a case is forgotten when it is closed.
pub closed-unresolved :
    (w : World Store) (tenant id : ℕ) (reason : String) (c : Case)
    → (transition_case tenant id closed reason w).0 ≡ ok c
    → (c.status ≡ closed) × (c.closed_at ≡ some w.now) × (c.resolved_at ≡ none)
unfolding move_row
closed-unresolved w tenant id reason c e =
    let (cur, x, m, is_c) = Post-ok c (transition_case-Post w tenant id closed reason) e in
    rw is_c (refl, refl, refl)

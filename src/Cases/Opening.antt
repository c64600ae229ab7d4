-- ===== src/Cases/Opening.antt =====
-- Open of internal/cases/service.go: what is committed, and that references never collide.
use orvexa.Base.{
  ◌∷◌, ℕ, [], ◌≢◌, ◌≡◌, All, true, ◌⊎◌, ◌<◌, any, ◌+◌, false, ◌++◌, ◌≤◌, ap, arith, Bool-cases,
  All-append, inl, All-map, refl, inr,
}
use orvexa.Database.{World, ◌>>=◌, Db}
use orvexa.Cases.Store.{Store, Case, owns, open_case, put_event, clashes}
use orvexa.Cases.Service.{CreateInput, insert_case, insert_into, opened, open_in_tx, open_new}
use orvexa.Cases.Numbering.{NumberedAfter, year_count, unclashed, NumberedAfter-append}
use orvexa.Errors.{Error, conflict, internal_error, internal, invalid}
use orvexa.Events.{Envelope}
use orvexa.Database.Rules.{
  counted, Post, fails, tx_exec_then, tx_read_then, commit_then, guard_then, read_then, begin_then,
  fresh_then, now_then,
}
use orvexa.Events.Rules.{new_envelope_then, insert_event_then}
use orvexa.Cases.Moving.{get-Post}

pub record IsNumbered (w : World Store) : Type 0 where
  pub numbered : NumberedAfter [] w.db.cases
  pub ids : All (λ c. c.id < w.next_id) w.db.cases

pub record Opens (tenant : ℕ) (input : CreateInput) (w : World Store) (c : Case) (s : Store)
    : Type 0 where
  pub is_open : c.status ≡ open_case
  pub owner : (c.tenant_id ≡ tenant) × (c.customer_id ≡ input.customer_id)
  pub owned : owns tenant input.customer_id w.db.customers ≡ true
  pub number : c.number ≡ year_count tenant c.year w.db.cases + 1
  pub rows : s.cases ≡ w.db.cases ++ c ∷ []
  pub event :
      (e : Envelope) × (s.outbox ≡ w.db.outbox ++ e ∷ [])
      × (e.topic ≡ "case.opened")
      × (e.subject ≡ c.id)

-- The case was opened, and the database holds it.
abbrev pub Opened : ℕ → CreateInput → World Store → World Store → Type 0
Opened tenant input w v = (c : Case) × Opens tenant input w c v.db × IsNumbered v

-- The call failed, and never for a reference that was taken.
abbrev pub Unopened : ℕ → CreateInput → World Store → Error → World Store → Type 0
Unopened tenant input w e v = (e.kind ≢ conflict) × ((v.db ≡ w.db) ⊎ Opened tenant input w v)

module _ {μ υ} {B : Type 0} {Q : B → World Store → Type μ} {E : Error → World Store → Type υ} where
  insert_case_then :
      (c : Case) (f : Unit {0} → Db Store B) (w : World Store)
      → any (clashes c) w.tx.cases ≡ false
      → E (internal_error "db.write_failed") (counted w)
      → Post Q E (
          f tt (record w {
            statement = w.statement + 1;
            tx = record (w.tx) { cases = w.tx.cases ++ c ∷ [] };
          }))
      → Post Q E ((insert_case c >>= f) w)
  unfolding insert_case insert_into ◌>>=◌
  insert_case_then c f w free h k = elim (Bool-cases (w.fault w.statement)) [
    | inl down ↦ rw down (fails h)
    | inr up ↦ rw (up, free) k
  ]

module _ (year_of : ℕ → ℕ) (tenant : ℕ) (input : CreateInput) (w : World Store) (n : IsNumbered w)
    (owned : owns tenant input.customer_id w.db.customers ≡ true) where
  row : Case
  row =
      opened w.next_id tenant input (year_of w.now)
        (year_count tenant (year_of w.now) w.db.cases + 1) w.now

  row_is_free : any (clashes row) w.db.cases ≡ false
  unfolding row
  row_is_free = unclashed [] w.db.cases row n.numbered n.ids (omega arith)

  after :
      (v : World Store) (e : Envelope)
      → v.db ≡ put_event e (record (w.db) { cases = w.db.cases ++ row ∷ [] })
      → w.next_id + 1 ≤ v.next_id
      → e.topic ≡ "case.opened"
      → e.subject ≡ row.id
      → Opened tenant input w v
  unfolding row
  after v e same le topic about = (
    row,
    record {
      is_open = refl;
      owner = (refl, refl);
      owned = owned;
      number = refl;
      rows = ap (λ s. s.cases) same;
      event = (e, ap (λ s. s.outbox) same, topic, about);
    },
    record {
      numbered = rw same (NumberedAfter-append [] w.db.cases row n.numbered refl);
      ids = rw same (
          All-append _ w.db.cases (row ∷ [])
            (All-map _ _ (λ c lt. omega (arith, lt, le)) w.db.cases n.ids) (omega (arith, le), tt));
    },
  )

  no_kind : internal ≢ conflict
  no_kind p = cc

  other_kind : invalid ≢ conflict
  other_kind p = cc

  opened-Post :
      (m : ℕ)
      → Post
          (λ c u. Opened tenant input w u)
          (λ e u. Unopened tenant input w e u)
          (open_in_tx year_of tenant input w.next_id w.now
            (record w { statement = m; tx = w.db; next_id = w.next_id + 1 }))
  unfolding open_in_tx row
  opened-Post m =
      tx_exec_then _ _ _ _ (no_kind, inl refl)
        (tx_read_then _ _ _ _ (no_kind, inl refl)
          (insert_case_then row _ _ row_is_free (no_kind, inl refl)
            (new_envelope_then _ _ _ _ _ _ λ env said.
              insert_event_then put_event env _ _ (other_kind, inl refl) (no_kind, inl refl)
                λ e is_e.
                  commit_then _ _ _ (no_kind, inl refl)
                    (let put : (u : World Store)
                          → u.db ≡ put_event e (record (w.db) { cases = w.db.cases ++ row ∷ [] })
                          → w.next_id + 1 ≤ u.next_id
                          → Opened tenant input w u =
                        λ u same le. after u e same le (said e is_e).says (said e is_e).of in
                      get-Post tenant w.next_id _ (no_kind, inr (put _ refl (omega arith)))
                        (λ gone. ((λ p. cc), inr (put _ refl (omega arith))))
                        λ c here. put _ refl (omega arith)))))

-- Open commits, for a customer of the tenant, one open case together with its event, numbered by
-- the cases of the tenant and the year before it; or it fails. It never fails for a reference that
-- was taken, and the numbering holds after it. An error has committed nothing, unless only the
-- last read failed.
pub open_new-Post :
    (year_of : ℕ → ℕ) (tenant : ℕ) (input : CreateInput) (w : World Store)
    → IsNumbered w
    → Post
        (λ c u. Opened tenant input w u)
        (λ e u. Unopened tenant input w e u)
        (open_new year_of tenant input w)
unfolding open_new
open_new-Post year_of tenant input w n =
    guard_then _ _ _ _ ((λ p. cc), inl refl)
      λ _.
        guard_then _ _ _ _ ((λ p. cc), inl refl)
          λ _.
            guard_then _ _ _ _ ((λ p. cc), inl refl)
              λ _.
                read_then _ _ _ _ ((λ p. cc), inl refl)
                  (guard_then _ _ _ _ ((λ p. cc), inl refl)
                    λ owned.
                      begin_then _ _ _ ((λ p. cc), inl refl)
                        (fresh_then _ _
                          (now_then _ _ (opened-Post year_of tenant input w n owned _))))

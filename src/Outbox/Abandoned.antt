-- ===== src/Outbox/Abandoned.antt =====
-- A row whose first claim crashed: internal/platform/outbox/dispatcher.go never sets
-- lease_expires_at when it claims, and a NULL lease never expires.
use orvexa.Outbox.{
  Row, by_occurrence, is_claimable, publishing, is_among, due_rows, is_leased, claim, Store,
  lease_rows, lease, settle, run, dispatch, publish, insert_in_order, ack, tick, release, ack_row,
  release_row, leased_batch, send_rows,
}
use orvexa.Base.{
  ◌∷◌, ℕ, ◌≡◌, List, Bool, false, All, ◌==◌, true, none, update_where, take, select, refl, ◌<◌, suc,
  Bool-cases, inl, ap, inr, All-map, if◌then◌else◌, arith, leb, sym, ◌∙◌,
}
use Prim.Native.Nat.{zero}
use mathlib.Core.List.{[]}
use orvexa.Database.{World, pure, exec}
use orvexa.Database.Rules.{
  Post, begin_then, fresh_then, attempt_ok_then, commit_then, pure-Post, fails, outcome_then,
  Post-map, Post-world, returns, bind-Post, attempt-Post, now_then, raise-Post,
}
use orvexa.Errors.{Result, ok, err}
use orvexa.Database.Outcomes.{try-Post}

-- The row was claimed for the first time and never acknowledged or released.
pub record IsAbandoned (next : ℕ) (r : Row) : Type 0 where
  pub held : r.status ≡ publishing
  pub unset : r.lease_expires_at ≡ none
  pub drawn : r.lease_token < next

-- Every row of its id is this row, unchanged.
abbrev pub Remains : Row → List Row → Type 0
Remains r rows = All (λ q. (q.id == r.id) ≡ true → q ≡ r) rows

module _ (P : Row → Type 0) where
  All-take : (n : ℕ) (rows : List Row) → All P rows → All P (take n rows)
  All-take zero rows h = tt
  All-take (suc n) [] h = tt
  All-take (suc n) (r ∷ rows) h = (h.0, All-take n rows h.1)

  All-insert_in_order :
      (r : Row) (rows : List Row) → P r → All P rows → All P (insert_in_order r rows)
  unfolding insert_in_order
  All-insert_in_order r [] p h = (p, tt)
  All-insert_in_order r (q ∷ rows) p h = elim (Bool-cases (leb r.occurred_at q.occurred_at)) [
    | inl first ↦ rw first (p, h)
    | inr after ↦ rw after (h.0, All-insert_in_order r rows p h.1)
  ]

  All-by_occurrence : (rows : List Row) → All P rows → All P (by_occurrence rows)
  unfolding by_occurrence
  All-by_occurrence [] h = tt
  All-by_occurrence (r ∷ rows) h = All-insert_in_order r _ h.0 (All-by_occurrence rows h.1)

  All-select :
      (p : Row → Bool) (rows : List Row)
      → All P rows
      → All (λ q. (p q ≡ true) × P q) (select p rows)
  All-select p [] h = tt
  All-select p (r ∷ rows) h = elim (Bool-cases (p r)) [
    | inl hit ↦ rw hit ((hit, h.0), All-select p rows h.1)
    | inr miss ↦ rw miss (All-select p rows h.1)
  ]

module _ (r : Row) where
  none_among : (due : List Row) → All (λ q. (q.id == r.id) ≡ false) due → is_among due r ≡ false
  none_among [] h = refl
  none_among (q ∷ due) h = ground (arith, none_among due h.1)

  unclaimable :
      (time : ℕ) → r.status ≡ publishing → r.lease_expires_at ≡ none → is_claimable time r ≡ false
  unfolding is_claimable
  unclaimable time held unset = rw (held, unset) refl

  not_due :
      (size time : ℕ) (rows : List Row)
      → is_claimable time r ≡ false
      → Remains r rows
      → is_among (due_rows size time rows) r ≡ false
  not_due size time rows shut h = none_among _ (
      All-take _ size _ (
        All-by_occurrence _ _
          (All-map _ _ (λ q k. other q k.0 k.1) _ (All-select _ (is_claimable time) rows h))))
    where
      other :
          (q : Row)
          → is_claimable time q ≡ true
          → ((q.id == r.id) ≡ true → q ≡ r)
          → (q.id == r.id) ≡ false
      other q yes_q same = elim (Bool-cases (q.id == r.id)) [
        | inl eq ↦ absurd (cc (ap (is_claimable time) (same eq), yes_q, shut))
        | inr neq ↦ neq
      ]

  -- An update that keeps ids and spares the row.
  Remains-update_where :
      (p : Row → Bool) (f : Row → Row) (rows : List Row)
      → p r ≡ false
      → ((q : Row) → (f q).id ≡ q.id)
      → Remains r rows
      → Remains r (update_where p f rows)
  Remains-update_where p f [] spared ids h = tt
  Remains-update_where p f (q ∷ rows) spared ids h =
      (kept (p q) refl, Remains-update_where p f rows spared ids h.1)
    where
      kept :
          (b : Bool)
          → p q ≡ b
          → ((if b then f q else q).id == r.id) ≡ true
          → (if b then f q else q) ≡ r
      kept true e same =
          absurd (cc (ap p (h.0 (ap (λ i. i == r.id) (sym (ids q)) ∙ same)), e, spared))
      kept false e same = h.0 same

  -- The row is there as it was, and its token is an old one.
  record Kept (w : World Store) : Type 0 where
    there : Remains r w.db.rows
    old : r.lease_token < w.next_id

  -- Between the claim and the end of a Tick, whose token is not that of the row.
  record Aside (c : ℕ × List Row) (w : World Store) : Type 0 where
    kept : Kept w
    apart : r.lease_token < c.0

  Remains-leased :
      (token : ℕ) (f : Row → Row) (rows : List Row)
      → r.lease_token < token
      → ((q : Row) → (f q).id ≡ q.id)
      → Remains r rows
      → Remains r (update_where (is_leased token) f rows)
  Remains-leased token f rows lt ids h =
      Remains-update_where (is_leased token) f rows (ground (arith, lt)) ids h

  module _ (returned : ℕ → List Row → List Row) (held : r.status ≡ publishing)
      (unset : r.lease_expires_at ≡ none) where
    claim-Aside :
        (size : ℕ) (w : World Store)
        → Kept w
        → Post (λ c v. Aside c v) (λ e v. Kept v) (claim returned size w)
    unfolding claim lease_rows pure lease
    claim-Aside size w k =
        begin_then _ _ w (record { there = k.there; old = k.old })
          (fresh_then _ _ (
            attempt_ok_then _
              (λ v.
                returned w.next_id
                  (leased_batch w.next_id (due_rows size v.now v.tx.rows) v.tx.rows))
              (λ v. record v {
                tx = record (v.tx) {
                  rows =
                      update_where (is_among (due_rows size v.now v.tx.rows)) (lease w.next_id)
                        v.tx.rows;
                };
              })
              _ _ (record { there = k.there; old = omega (arith, k.old) })
              (attempt_ok_then _
                (λ v.
                  returned w.next_id
                    (leased_batch w.next_id (due_rows size w.now w.db.rows) w.db.rows))
                (λ v. v) _ _ (record { there = k.there; old = omega (arith, k.old) })
                (commit_then _ _ _ (record { there = k.there; old = omega (arith, k.old) })
                  (pure-Post _ _ (record {
                    kept = record { there = stays; old = omega (arith, k.old) };
                    apart = k.old;
                  }))))))
      where
        stays :
            Remains r
              (update_where (is_among (due_rows size w.now w.db.rows)) (lease w.next_id) w.db.rows)
        stays =
            Remains-update_where _ (lease w.next_id) w.db.rows
              (not_due size w.now w.db.rows (unclaimable w.now held unset) k.there) (λ q. refl)
              k.there

  settle-Kept :
      (limit token : ℕ) (result : Result (Unit {0})) (w : World Store)
      → r.lease_token < token
      → Kept w
      → Post (λ _ v. Kept v) (λ e v. Kept v) (settle limit token result w)
  unfolding settle ack release exec ack_row release_row
  settle-Kept limit token (ok a) w lt k =
      attempt-Post _
        (λ v. (
          ok tt,
          record v {
            db = record (v.db) { rows = update_where (is_leased token) ack_row v.db.rows };
          },
        ))
        w (record { there = k.there; old = k.old })
        (returns (record {
          there = Remains-leased token ack_row w.db.rows lt (λ q. refl) k.there;
          old = k.old;
        }))
  settle-Kept limit token (err e) w lt k = bind-Post _ _ w (
      try-Post _ w (
        now_then _ w (
          attempt-Post _
            (λ v. (
              ok tt,
              record v {
                db = record (v.db) {
                  rows = update_where (is_leased token) (release_row limit w.now) v.db.rows;
                };
              },
            ))
            w (raise-Post e _ (record { there = k.there; old = k.old }))
            (returns (
              raise-Post e _ (record {
                there =
                    Remains-leased token (release_row limit w.now) w.db.rows lt (λ q. refl) k.there;
                old = k.old;
              }))))))

  send_rows-Kept :
      (reach : ℕ → ℕ) (rows : List Row) (w : World Store)
      → Kept w
      → Post (λ _ v. Kept v) (λ e v. Kept v) (send_rows reach rows w)
  unfolding send_rows
  send_rows-Kept reach [] w k = returns k
  send_rows-Kept reach (q ∷ rows) w k = elim (Bool-cases (w.fault w.statement)) [
    | inl down ↦ rw down (fails (record { there = k.there; old = k.old }))
    | inr up ↦ rw up (returns (record { there = k.there; old = k.old }))
  ]

  publish-Kept :
      (reach : ℕ → ℕ) (batch : List Row) (w : World Store)
      → Kept w
      → Post (λ _ v. Kept v) (λ e v. Kept v) (publish reach batch w)
  unfolding publish
  publish-Kept reach batch w k = send_rows-Kept reach _ w k

  dispatch-Kept :
      (reach : ℕ → ℕ) (limit : ℕ) (c : ℕ × List Row) (w : World Store)
      → Aside c w
      → Post (λ _ v. Kept v) (λ e v. Kept v) (dispatch reach limit c w)
  unfolding dispatch
  dispatch-Kept reach limit (token, []) w a = pure-Post _ _ a.kept
  dispatch-Kept reach limit (token, q ∷ qs) w a = outcome_then _ _ w (
      Post-map (λ x v k. settle-Kept limit token _ v a.apart k)
        (λ e v k. settle-Kept limit token _ v a.apart k) (publish-Kept reach (q ∷ qs) w a.kept))

-- A row that was claimed for the first time and whose worker then stopped stays as it is in every
-- later run of Ticks, at whatever times: it is never claimed again.
pub run-Remains :
    (returned : ℕ → List Row → List Row) (reach : ℕ → ℕ) (size limit : ℕ) (times : List ℕ)
    (w : World Store) (r : Row)
    → IsAbandoned w.next_id r
    → Remains r w.db.rows
    → Remains r (run returned reach size limit times w).db.rows
unfolding run tick
run-Remains returned reach size limit times w r h k =
    (go times w (record { there = k; old = h.drawn })).there
  where
    go :
        (times : List ℕ) (w : World Store)
        → Kept r w
        → Kept r (run returned reach size limit times w)
    go [] w k = k
    go (time ∷ times) w k = go times _ (
        Post-world (Kept r) _
          (bind-Post _ _ _ (
            Post-map (λ c v a. dispatch-Kept r reach limit c v a) (λ e v kept. kept)
              (claim-Aside r returned h.held h.unset size (record w { now = time })
                (record { there = k.there; old = k.old }))))
          (λ a v kept. kept) (λ e v kept. kept))

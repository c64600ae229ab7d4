-- ===== src/Outbox/Ticks.antt =====
-- Tick of internal/platform/outbox/dispatcher.go keeps the rows sound, whatever fails.
use orvexa.Base.{
  ◌∷◌, ℕ, List, ◌≡◌, ◌+◌, ◌++◌, All, All-map, map, update_where, arith, refl, sym, Bool-cases, inl,
  ◌∙◌, inr, select, append-nil,
}
use orvexa.Outbox.{
  claim, Row, lease_rows, Store, lease, due_rows, settle, ack, release, dispatch, publish, is_among,
  is_leased, ack_row, release_row, tick, run, send_rows, leased_batch,
}
use orvexa.Database.{World, exec, pure}
use orvexa.Outbox.Delivery.{
  IsSound, Claimed, IsSoundRow-later, IsSoundRow, leased_rows, released_rows, acked_rows, sent_ids,
}
use orvexa.Database.Rules.{
  Post, begin_then, fresh_then, attempt_ok_then, attempt-Post, pure-Post, now_then, commit_then,
  bind-Post, returns, Post-map, raise-Post, outcome_then, Post-world, fails,
}
use orvexa.Errors.{Result, ok, err}
use mathlib.Core.List.{[], Permᴰ}
use orvexa.Database.Outcomes.{try-Post}

module _ (limit : ℕ) (returned : ℕ → List Row → List Row)
    (any_order : (n : ℕ) (rows : List Row) → Permᴰ rows (returned n rows)) where
  abbrev Sound : World Store → Type 0
  Sound w = IsSound limit w

  drawn :
      (n : ℕ) (l : List ℕ) (rows : List Row)
      → All (IsSoundRow limit n l) rows
      → All (IsSoundRow limit (n + 1) l) rows
  drawn n l rows h =
      All-map _ _
        (λ r k. record {
          delivered = k.delivered;
          bounded = k.bounded;
          leased = omega (arith, k.leased);
        })
        rows h

  received_more :
      (n : ℕ) (l new : List ℕ) (rows : List Row)
      → All (IsSoundRow limit n l) rows
      → All (IsSoundRow limit n (l ++ new)) rows
  received_more n l new rows h =
      All-map _ _ (λ r k. IsSoundRow-later limit n n l new r (omega arith) k) rows h

  -- Between the claim and the end.
  abbrev Between : ℕ × List Row → World Store → Type 0
  Between (token, batch) w =
      (w.next_id ≡ token + 1) × All (Claimed limit token w.db.received batch) w.db.rows

  claim-Post :
      (size : ℕ) (w : World Store) → Sound w → Post Between (λ e v. Sound v) (claim returned size w)
  unfolding claim lease_rows pure
  claim-Post size w h = begin_then _ _ w h (
      fresh_then _ _ (
        attempt_ok_then _
          (λ v.
            returned w.next_id (leased_batch w.next_id (due_rows size v.now v.tx.rows) v.tx.rows))
          (λ v. record v {
            tx = record (v.tx) {
              rows =
                  update_where (is_among (due_rows size v.now v.tx.rows)) (lease w.next_id)
                    v.tx.rows;
            };
          })
          _ _ next
          (attempt_ok_then _
            (λ v.
              returned w.next_id (leased_batch w.next_id (due_rows size w.now w.db.rows) w.db.rows))
            (λ v. v) _ _ next
            (commit_then _ _ _ next (
              pure-Post _ _ (
                refl,
                leased_rows limit w.next_id w.db.received (due_rows size w.now w.db.rows) _ []
                    w.db.rows
                    (any_order w.next_id
                      (leased_batch w.next_id (due_rows size w.now w.db.rows) w.db.rows))
                    h,
              ))))))
    where
      next : All (IsSoundRow limit (w.next_id + 1) w.db.received) w.db.rows
      next = drawn w.next_id w.db.received w.db.rows h

  -- The rows without the tokens of a claim.
  forget :
      (token : ℕ) (l : List ℕ) (batch rows : List Row)
      → All (Claimed limit token l batch) rows
      → All (IsSoundRow limit (token + 1) l) rows
  forget token l batch rows h = All-map _ _ (λ r k. k.0) rows h

  ack-Post :
      (token : ℕ) (batch : List Row) (l : List ℕ) (w : World Store)
      → w.next_id ≡ token + 1
      → w.db.received ≡ l ++ sent_ids batch
      → All (Claimed limit token l batch) w.db.rows
      → Post (λ _ v. Sound v) (λ e v. Sound v) (ack token w)
  unfolding ack exec
  ack-Post token batch l w n got h =
      attempt-Post _
        (λ v. (
          ok tt,
          record v {
            db = record (v.db) { rows = update_where (is_leased token) ack_row v.db.rows };
          },
        ))
        w (rw (n, got) (received_more (token + 1) l _ w.db.rows (forget token l batch w.db.rows h)))
        (returns (rw (n, got) (acked_rows limit token l batch w.db.rows h)))

  release-Post :
      (token : ℕ) (w : World Store)
      → w.next_id ≡ token + 1
      → Sound w
      → Post (λ _ v. Sound v) (λ e v. Sound v) (release limit token w)
  unfolding release exec
  release-Post token w n h = now_then _ w (
      attempt-Post _
        (λ v. (
          ok tt,
          record v {
            db = record (v.db) {
              rows = update_where (is_leased token) (release_row limit w.now) v.db.rows;
            };
          },
        ))
        w h
        (returns (rw n (released_rows limit token w.now w.db.received w.db.rows (rw (sym n) h)))))

  settle-Post :
      (token : ℕ) (batch : List Row) (l : List ℕ) (r : Result (Unit {0})) (w : World Store)
      → w.next_id ≡ token + 1
      → (r ≡ ok tt → w.db.received ≡ l ++ sent_ids batch)
      → All (Claimed limit token l batch) w.db.rows
      → Sound w
      → Post (λ _ v. Sound v) (λ e v. Sound v) (settle limit token r w)
  unfolding settle
  settle-Post token batch l (ok a) w n got h s = ack-Post token batch l w n (got refl) h
  settle-Post token batch l (err e) w n got h s = bind-Post _ _ w (
      try-Post _ w (
        Post-map (λ _ v k. raise-Post e v k) (λ x v k. raise-Post e v k)
          (release-Post token w n s)))

  -- A publication only adds to what the bus received.
  record Adds (new : List ℕ) (w v : World Store) : Type 0 where
    same_rows : v.db.rows ≡ w.db.rows
    same_next : v.next_id ≡ w.next_id
    more : v.db.received ≡ w.db.received ++ new

  send_rows-Post :
      (reach : ℕ → ℕ) (rows : List Row) (w : World Store)
      → Post
          (λ _ v. Adds (map (λ r. r.id) rows) w v)
          (λ e v. (part : List ℕ) × Adds part w v)
          (send_rows reach rows w)
  unfolding send_rows
  send_rows-Post reach [] w =
      returns (record { same_rows = refl; same_next = refl; more = sym (append-nil w.db.received) })
  send_rows-Post reach (r ∷ rows) w = elim (Bool-cases (w.fault w.statement)) [
    | inl down ↦ rw down (fails (_, record { same_rows = refl; same_next = refl; more = refl }))
    | inr up ↦ rw up (returns (record { same_rows = refl; same_next = refl; more = refl }))
  ]

  publish-Post :
      (reach : ℕ → ℕ) (batch : List Row) (w : World Store)
      → Post
          (λ _ v. Adds (sent_ids batch) w v)
          (λ e v. (part : List ℕ) × Adds part w v)
          (publish reach batch w)
  unfolding publish
  publish-Post reach batch w = send_rows-Post reach (select (λ r. r.is_json) batch) w

  -- The claim's rows, after a publication.
  Adds-Sound :
      (token : ℕ) (batch : List Row) (new : List ℕ) (w v : World Store)
      → Between (token, batch) w
      → Adds new w v
      → Sound v
  Adds-Sound token batch new w v (n, h) a =
      rw (a.same_rows, a.same_next, a.more, n)
        (received_more (token + 1) w.db.received new w.db.rows
          (forget token w.db.received batch w.db.rows h))

  pub dispatch-Post :
      (reach : ℕ → ℕ) (c : ℕ × List Row) (w : World Store)
      → Between c w
      → Post (λ _ v. Sound v) (λ e v. Sound v) (dispatch reach limit c w)
  unfolding dispatch
  dispatch-Post reach (token, []) w (n, h) =
      pure-Post _ _ (rw n (forget token w.db.received [] w.db.rows h))
  dispatch-Post reach (token, r ∷ rs) w (n, h) = outcome_then _ _ w (
      Post-map
        (λ a v d.
          settle-Post token (r ∷ rs) w.db.received (ok a) v (d.same_next ∙ n) (λ e. d.more)
            (rw d.same_rows h) (Adds-Sound token (r ∷ rs) _ w v (n, h) d))
        (λ e v (part, d).
          settle-Post token (r ∷ rs) w.db.received (err e) v (d.same_next ∙ n) (λ p. cc)
            (rw d.same_rows h) (Adds-Sound token (r ∷ rs) part w v (n, h) d))
        (publish-Post reach (r ∷ rs) w))

  tick-Post :
      (reach : ℕ → ℕ) (size : ℕ) (w : World Store)
      → Sound w
      → Post (λ _ v. Sound v) (λ e v. Sound v) (tick returned reach size limit w)
  unfolding tick
  tick-Post reach size w h =
      bind-Post _ _ w
        (Post-map (λ c v k. dispatch-Post reach c v k) (λ e v k. k) (claim-Post size w h))

  -- Whatever happens in any number of Ticks, and in whatever order the database returns the rows of
  -- a claim, an event that is marked published and whose payload unmarshals was received by the bus,
  -- a pending event has attempts left, and no row holds a token that is still to be drawn.
  pub run-IsSound :
      (reach : ℕ → ℕ) (size : ℕ) (times : List ℕ) (w : World Store)
      → IsSound limit w
      → IsSound limit (run returned reach size limit times w)
  unfolding run
  run-IsSound reach size [] w h = h
  run-IsSound reach size (time ∷ times) w h = run-IsSound reach size times _ (
      Post-world Sound _ (tick-Post reach size (record w { now = time }) h) (λ a v k. k)
        (λ e v k. k))

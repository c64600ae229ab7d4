-- ===== src/Outbox/Draining.antt =====
-- Tick of internal/platform/outbox/dispatcher.go when no statement fails.
use orvexa.Base.{
  ◌∷◌, [], ℕ, List, ◌≡◌, ◌++◌, ◌<◌, All, Bool, map, select, update_where, refl, ap, Bool-cases, inl,
  inr, arith, append-nil, true, false, ◌==◌, ◌+◌, ◌∙◌, sym,
}
use orvexa.Outbox.{
  dispatch, publish, send_rows, settle, ack, lease, Store, Row, is_leased, ack_row, is_among,
  receive, tick, leased_batch, claim, lease_rows, due_rows,
}
use orvexa.Outbox.Delivery.{sent_ids}
use orvexa.Database.{◌>>=◌, attempt, exec, outcome, World, calm, pure, begin, fresh, commit}
use orvexa.Errors.{ok}
use mathlib.Core.List.{Permᴰ}

-- An acknowledgement finds the rows of its claim.
acked_leased :
    (token : ℕ) (due rows : List Row)
    → All (λ r. r.lease_token < token) rows
    → update_where (is_leased token) ack_row (update_where (is_among due) (lease token) rows)
      ≡ update_where (is_among due) (λ r. ack_row (lease token r)) rows
unfolding lease
acked_leased token due [] h = refl
acked_leased token due (r ∷ rows) h = elim (Bool-cases (is_among due r)) [
  | inl hit ↦
      rw hit
        (rw (same token) (ap (◌∷◌ (ack_row (lease token r))) (acked_leased token due rows h.1)))
  | inr miss ↦
      rw miss
        (rw (other (r.lease_token == token) refl) (ap (◌∷◌ r) (acked_leased token due rows h.1)))
]
  where
    same : (n : ℕ) → (n == n) ≡ true
    same n = ground arith

    other : (b : Bool) → (r.lease_token == token) ≡ b → (r.lease_token == token) ≡ false
    other b e = ground (arith, h.0)

spared {ℓ} :
    {A : Type ℓ} (p : A → Bool) (f : A → A) (xs : List A)
    → select p xs ≡ []
    → update_where p f xs ≡ xs
spared p f [] h = refl
spared p f (x ∷ xs) h = elim (Bool-cases (p x)) [
  | inl hit ↦ absurd (cc (rw hit at h))
  | inr miss ↦ rw miss (ap (◌∷◌ x) (spared p f xs (rw miss at h)))
]

Perm-empty {ℓ} : {A : Type ℓ} {xs ys : List A} → Permᴰ xs ys → ys ≡ [] → xs ≡ []
Perm-empty Permᴰ.nil h = refl
Perm-empty (Permᴰ.cons e d) h = absurd (cc h)
Perm-empty (Permᴰ.swap e f) h = absurd (cc h)
Perm-empty (Permᴰ.trans d e) h = Perm-empty d (Perm-empty e h)

map_empty {ℓ κ} : {A : Type ℓ} {B : Type κ} (f : A → B) (xs : List A) → map f xs ≡ [] → xs ≡ []
map_empty f [] h = refl
map_empty f (x ∷ xs) h = absurd (cc h)

-- No call of the bus fails.
sent :
    (reach : ℕ → ℕ) (rows : List Row) (w : World Store)
    → (k : ℕ) × (send_rows reach rows (calm w)
        ≡ (ok tt, record (calm w) { statement = k; db = receive rows w.db }))
unfolding send_rows
sent reach [] w = (w.statement, rw (append-nil w.db.received) refl)
sent reach (r ∷ rows) w = (w.statement + 1, refl)

-- The due rows are published with one attempt more, the others are as they were, and the bus has
-- received the due rows whose payloads unmarshal, in some order.
pub record Drains (token : ℕ) (due : List Row) (s t : Store) : Type 0 where
  pub rows : t.rows ≡ update_where (is_among due) (λ r. ack_row (lease token r)) s.rows
  pub batch : List Row
  pub all_due : Permᴰ (leased_batch token due s.rows) batch
  pub received : t.received ≡ s.received ++ sent_ids batch

-- What is left to do with the rows of a claim.
dispatch-Drains :
    (reach : ℕ → ℕ) (limit token : ℕ) (due batch : List Row) (s : Store) (w : World Store)
    → w.db.rows ≡ update_where (is_among due) (lease token) s.rows
    → w.db.received ≡ s.received
    → All (λ r. r.lease_token < token) s.rows
    → Permᴰ (leased_batch token due s.rows) batch
    → ((dispatch reach limit (token, batch) (calm w)).0 ≡ ok tt)
      × Drains token due s (dispatch reach limit (token, batch) (calm w)).1.db
unfolding dispatch publish settle ack outcome exec attempt pure ◌>>=◌ leased_batch
dispatch-Drains reach limit token due [] s w leased same old perm =
    let none_due = map_empty (lease token) _ (Perm-empty perm refl) in
    (
      refl,
      record {
        rows =
            leased
            ∙ spared (is_among due) (lease token) s.rows none_due
            ∙ sym (spared (is_among due) (λ r. ack_row (lease token r)) s.rows none_due);
        batch = [];
        all_due = perm;
        received = same ∙ sym (append-nil s.received);
      },
    )
dispatch-Drains reach limit token due (q ∷ qs) s w leased same old perm =
    let (k, e) = sent reach (select (λ r. r.is_json) (q ∷ qs)) w in
    rw e (
      refl,
      record {
        rows = rw leased (acked_leased token due s.rows old);
        batch = q ∷ qs;
        all_due = perm;
        received = ap (λ l. l ++ sent_ids (q ∷ qs)) same;
      },
    )

-- When no statement fails and no row holds a token that is still to be drawn, a Tick returns without
-- an error, marks exactly the due rows as published, and hands those of them whose payloads unmarshal
-- to the bus, each once and no others, in whatever order the database returns them.
pub tick-Drains :
    (returned : ℕ → List Row → List Row) (reach : ℕ → ℕ) (size limit : ℕ) (w : World Store)
    → ((n : ℕ) (rows : List Row) → Permᴰ rows (returned n rows))
    → All (λ r. r.lease_token < w.next_id) w.db.rows
    → ((tick returned reach size limit (calm w)).0 ≡ ok tt)
      × Drains w.next_id
          (due_rows size w.now w.db.rows)
          w.db
          (tick returned reach size limit (calm w)).1.db
unfolding tick claim lease_rows begin fresh commit attempt pure ◌>>=◌
tick-Drains returned reach size limit w any_order old =
    dispatch-Drains reach limit w.next_id (due_rows size w.now w.db.rows) _ w.db
      (claim returned size (calm w)).1 refl refl old (any_order w.next_id _)

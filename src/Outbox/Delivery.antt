-- ===== src/Outbox/Delivery.antt =====
-- What Tick guarantees of the rows: delivery before acknowledgement, and bounded attempts.
use orvexa.Base.{
  ◌∷◌, ℕ, List, ◌≤◌, All, ◌≡◌, any, ◌++◌, ◌==◌, ◌+◌, arith, map, true, any-append, update_where,
  ◌<◌, Bool, refl, if◌then◌else◌, ◌∙◌, select, ◌&&◌, Bool-cases, sym, append_assoc, inl, inr,
}
use orvexa.Outbox.{
  lease, Store, Row, published, pending, is_among, is_leased, ack_row, release_row, leased_batch,
}
use orvexa.Database.{World}
use mathlib.Core.List.{[], Permᴰ}
use mathlib.Core.Bool.{false}

-- A published row whose payload unmarshals was received by the bus, a pending row has attempts left,
-- and no row holds a token that is still to be drawn.
pub record IsSoundRow (limit next : ℕ) (received : List ℕ) (r : Row) : Type 0 where
  pub delivered : r.status ≡ published → r.is_json ≡ true → any (λ i. i == r.id) received ≡ true
  pub bounded : r.status ≡ pending → r.attempts < limit
  pub leased : r.lease_token < next

abbrev pub IsSound : ℕ → World Store → Type 0
IsSound limit w = All (IsSoundRow limit w.next_id w.db.received) w.db.rows

-- The ids that the publisher sends of a batch.
abbrev pub sent_ids : List Row → List ℕ
sent_ids batch = map (λ q. q.id) (select (λ q. q.is_json) batch)

-- A row of the id is in the batch, and its payload unmarshals.
abbrev pub carries : ℕ → List Row → Bool
carries id = any (λ q. q.is_json && q.id == id)

any-sent_ids : (id : ℕ) (batch : List Row) → any (λ i. i == id) (sent_ids batch) ≡ carries id batch
any-sent_ids id [] = refl
any-sent_ids id (q ∷ batch) = ground (arith, any-sent_ids id batch)

pub any-Perm {ℓ} : {A : Type ℓ} (p : A → Bool) {xs ys : List A} → Permᴰ xs ys → any p xs ≡ any p ys
any-Perm p Permᴰ.nil = refl
any-Perm p (Permᴰ.cons e d) = rw (e, any-Perm p d) refl
any-Perm p (Permᴰ.swap e f) = rw (e, f) (ground arith)
any-Perm p (Permᴰ.trans d e) = any-Perm p d ∙ any-Perm p e

module _ (limit : ℕ) where
  pub IsSoundRow-later :
      (n m : ℕ) (l new : List ℕ) (r : Row)
      → n ≤ m
      → IsSoundRow limit n l r
      → IsSoundRow limit m (l ++ new) r
  IsSoundRow-later n m l new r le h = record {
    delivered = λ e j. ground (arith, any-append (λ i. i == r.id) l new, h.delivered e j);
    bounded = h.bounded;
    leased = omega (arith, h.leased);
  }

  -- After the claim: a row that holds the new token is carried by the batch.
  unfoldable pub Holds : ℕ → List Row → Row → Type 0
  Holds token batch r = r.lease_token ≡ token → r.is_json ≡ true → carries r.id batch ≡ true

  -- What holds between the claim and the end of a Tick.
  abbrev pub Claimed : ℕ → List ℕ → List Row → Row → Type 0
  Claimed token l batch r = IsSoundRow limit (token + 1) l r × Holds token batch r

  leased_row :
      (token : ℕ) (l : List ℕ) (batch : List Row) (r : Row) (b : Bool)
      → IsSoundRow limit token l r
      → (b ≡ true → r.is_json ≡ true → carries r.id batch ≡ true)
      → Claimed token l batch (if b then lease token r else r)
  unfolding lease Holds
  leased_row token l batch r true h carried = (
    record { delivered = λ p. ground arith; bounded = λ p. ground arith; leased = omega arith },
    λ p j. carried refl j,
  )
  leased_row token l batch r false h carried = (
    record { delivered = h.delivered; bounded = h.bounded; leased = omega (arith, h.leased) },
    λ p. ground (arith, h.leased),
  )

  -- The rows `before` were passed already.
  carries-leased_batch :
      (token : ℕ) (due : List Row) (r : Row) (before rows : List Row)
      → is_among due r ≡ true
      → r.is_json ≡ true
      → carries r.id (leased_batch token due (before ++ r ∷ rows)) ≡ true
  unfolding leased_batch lease
  carries-leased_batch token due r [] rows hit j = rw hit (ground (arith, j))
  carries-leased_batch token due r (q ∷ before) rows hit j = elim (Bool-cases (is_among due q)) [
    | inl in_it ↦ rw in_it (ground (arith, carries-leased_batch token due r before rows hit j))
    | inr out ↦ rw out (carries-leased_batch token due r before rows hit j)
  ]

  pub leased_rows :
      (token : ℕ) (l : List ℕ) (due batch before rows : List Row)
      → Permᴰ (leased_batch token due (before ++ rows)) batch
      → All (IsSoundRow limit token l) rows
      → All (Claimed token l batch) (update_where (is_among due) (lease token) rows)
  leased_rows token l due batch before [] perm h = tt
  leased_rows token l due batch before (r ∷ rows) perm h = (
    leased_row token l batch r (is_among due r) h.0 λ hit j.
        sym (any-Perm (λ q. q.is_json && q.id == r.id) perm)
        ∙ carries-leased_batch token due r before rows hit j,
    leased_rows token l due batch (before ++ r ∷ []) rows
        (rw (append_assoc before (r ∷ []) rows) perm) h.1,
  )

  -- The acknowledged rows are those of the batch: the bus has received what of it unmarshals.
  acked_row :
      (token : ℕ) (l : List ℕ) (batch : List Row) (r : Row) (b : Bool)
      → is_leased token r ≡ b
      → Claimed token l batch r
      → IsSoundRow limit (token + 1) (l ++ sent_ids batch) (if b then ack_row r else r)
  unfolding ack_row Holds
  acked_row token l batch r true e (h, held) = record {
    delivered = λ p j.
        rw
          (
            any-append (λ i. i == r.id) l (sent_ids batch),
            any-sent_ids r.id batch,
            held (ground (arith, e)) j,
          )
          (ground arith);
    bounded = λ p. ground arith;
    leased = omega arith;
  }
  acked_row token l batch r false e (h, held) =
      IsSoundRow-later (token + 1) (token + 1) l _ r (omega arith) h

  pub acked_rows :
      (token : ℕ) (l : List ℕ) (batch rows : List Row)
      → All (Claimed token l batch) rows
      → All
          (IsSoundRow limit (token + 1) (l ++ sent_ids batch))
          (update_where (is_leased token) ack_row rows)
  acked_rows token l batch [] h = tt
  acked_rows token l batch (r ∷ rows) h =
      (acked_row token l batch r (is_leased token r) refl h.0, acked_rows token l batch rows h.1)

  released_row :
      (token time : ℕ) (l : List ℕ) (r : Row) (b : Bool)
      → IsSoundRow limit (token + 1) l r
      → IsSoundRow limit (token + 1) l (if b then release_row limit time r else r)
  unfolding release_row
  released_row token time l r true h = record {
    delivered = λ p j. ground arith;
    bounded = λ p. ground arith;
    leased = omega arith;
  }
  released_row token time l r false h = h

  pub released_rows :
      (token time : ℕ) (l : List ℕ) (rows : List Row)
      → All (IsSoundRow limit (token + 1) l) rows
      → All
          (IsSoundRow limit (token + 1) l)
          (update_where (is_leased token) (release_row limit time) rows)
  released_rows token time l [] h = tt
  released_rows token time l (r ∷ rows) h =
      (released_row token time l r (is_leased token r) h.0, released_rows token time l rows h.1)

-- ===== src/Comms/Draining.antt =====
-- What the ticks of internal/comms/consumer.go guarantee.
use orvexa.Base.{
  ◌∷◌, ℕ, String, ◌≤◌, List, All, any, ◌≡◌, true, false, str_eq, map, Bool, if◌then◌else◌, arith,
  eq_iff, refl, ◌<◌, All-map, Bool-cases, inl, suc, inr,
}
use orvexa.Comms.Core.{Core}
use orvexa.Comms.Consumer.{
  mark, settle, Consumer, mark_processed, count_failure, is_skipped, LedgerRow, drain_rows, ticks,
  next_statement, drain_row, tick,
}
use orvexa.Errors.{Result, err, ok}
use mathlib.Core.List.{[]}
use Prim.Native.Nat.{zero}

module _ {W : Type 0} (core : Core W) (batch_size max_attempts : ℕ) where
  -- No key has more than max_attempts failures, and a row is marked processed only when its event
  -- was processed without an error.
  pub record IsSound (c : Consumer W) : Type 0 where
    pub bounded : (p e : String) → c.attempts p e ≤ max_attempts
    pub earned :
        All (λ r. r.is_processed ≡ true → any (str_eq r.event_id) c.applied ≡ true) c.ledger

  next-IsSound :
      (c : Consumer W) → IsSound c → IsSound (next_statement core batch_size max_attempts c)
  next-IsSound c s = record { bounded = s.bounded; earned = s.earned }

  marked :
      (id : String) (applied : List String) (rows : List LedgerRow)
      → any (str_eq id) applied ≡ true
      → All (λ r. r.is_processed ≡ true → any (str_eq r.event_id) applied ≡ true) rows
      → All
          (λ r. r.is_processed ≡ true → any (str_eq r.event_id) applied ≡ true)
          (map (mark id) rows)
  unfolding mark
  marked id applied [] h s = tt
  marked id applied (r ∷ rows) h s = (one (str_eq r.event_id id) refl, marked id applied rows h s.1)
    where
      row : Bool → LedgerRow
      row b = if b then record r { is_processed = true } else r

      one :
          (b : Bool)
          → str_eq r.event_id id ≡ b
          → (row b).is_processed ≡ true
          → any (str_eq (row b).event_id) applied ≡ true
      one true e p = rw (is_id e) h
        where
          is_id : str_eq r.event_id id ≡ true → r.event_id ≡ id
          is_id e = ground (arith, eq_iff r.event_id id, e)
      one false e p = s.0 p

  counted_again :
      (r : LedgerRow) (c : Consumer W)
      → c.attempts r.provider r.event_id < max_attempts
      → IsSound c
      → (p q : String) → count_failure r.provider r.event_id c.attempts p q ≤ max_attempts
  unfolding count_failure
  counted_again r c lt s p q = elim (Bool-cases (str_eq p r.provider)) [
    | inl same_p ↦ elim (Bool-cases (str_eq q r.event_id)) [
      | inl same_q ↦
          let e : p ≡ r.provider = ground (arith, eq_iff p r.provider, same_p) in
          let f : q ≡ r.event_id = ground (arith, eq_iff q r.event_id, same_q) in
          let here : c.attempts p q ≡ c.attempts r.provider r.event_id = cc (e, f) in
          rw (same_p, same_q) (omega (arith, here, lt))
      | inr other_q ↦ rw (same_p, other_q) (s.bounded p q)
    ]
    | inr other_p ↦ rw other_p (s.bounded p q)
  ]

  earned_more :
      (id : String) (applied : List String) (rows : List LedgerRow)
      → All (λ r. r.is_processed ≡ true → any (str_eq r.event_id) applied ≡ true) rows
      → All (λ r. r.is_processed ≡ true → any (str_eq r.event_id) (id ∷ applied) ≡ true) rows
  earned_more id applied rows h = All-map _ _ (λ r k p. ground (arith, k p)) rows h

  is_self : (id : String) (applied : List String) → any (str_eq id) (id ∷ applied) ≡ true
  is_self id applied = ground (arith, eq_iff id id)

  mark_processed-IsSound :
      (r : LedgerRow) (w : W) (c : Consumer W)
      → IsSound c
      → IsSound (
          mark_processed core batch_size max_attempts r
            (record c { world = w; applied = r.event_id ∷ c.applied }))
  unfolding mark_processed
  mark_processed-IsSound r w c s = elim (Bool-cases (c.fault c.statement)) [
    | inl down ↦ rw down (record {
      bounded = s.bounded;
      earned = earned_more r.event_id c.applied c.ledger s.earned;
    })
    | inr up ↦ rw up (record {
      bounded = s.bounded;
      earned =
          marked r.event_id (r.event_id ∷ c.applied) c.ledger (is_self r.event_id c.applied)
            (earned_more r.event_id c.applied c.ledger s.earned);
    })
  ]

  settle-IsSound :
      (r : LedgerRow) (x : Result (Unit {0}) × W) (c : Consumer W)
      → is_skipped core batch_size max_attempts r c ≡ false
      → IsSound c
      → IsSound (settle core batch_size max_attempts r x c).1
  unfolding settle is_skipped
  settle-IsSound r (err e, w) c go s = record {
    bounded = λ p q. counted_again r c (ground (arith, go)) s p q;
    earned = s.earned;
  }
  settle-IsSound r (ok a, w) c go s = mark_processed-IsSound r w c s

  drain_row-IsSound :
      (r : LedgerRow) (c : Consumer W)
      → IsSound c
      → IsSound (drain_row core batch_size max_attempts r c).1
  unfolding drain_row
  drain_row-IsSound r c s = elim (Bool-cases (is_skipped core batch_size max_attempts r c)) [
    | inl skip ↦ rw skip s
    | inr try_it ↦ rw try_it (settle-IsSound r _ c try_it s)
  ]

  drain_rows-IsSound :
      (rows : List LedgerRow) (n : ℕ) (c : Consumer W)
      → IsSound c
      → IsSound (drain_rows core batch_size max_attempts rows n c).1
  unfolding drain_rows
  drain_rows-IsSound [] n c s = elim (Bool-cases (c.fault c.statement)) [
    | inl down ↦ rw down (next-IsSound c s)
    | inr up ↦ rw up (next-IsSound c s)
  ]
  drain_rows-IsSound (r ∷ rows) n c s = elim (Bool-cases (c.fault c.statement)) [
    | inl down ↦ rw down (next-IsSound c s)
    | inr up ↦ rw up (drain_rows-IsSound rows _ _ (drain_row-IsSound r _ (next-IsSound c s)))
  ]

  tick-IsSound : (c : Consumer W) → IsSound c → IsSound (tick core batch_size max_attempts c).1
  unfolding tick
  tick-IsSound c s = elim (Bool-cases (c.fault c.statement)) [
    | inl down ↦ rw down (next-IsSound c s)
    | inr up ↦ rw up (drain_rows-IsSound _ 0 _ (next-IsSound c s))
  ]

-- Whatever statements and whatever interactions fail in any number of ticks, no event has more
-- than max_attempts failures in the process, and a ledger row is marked processed only when its
-- event was processed without an error.
pub ticks-IsSound :
    {W : Type 0} (core : Core W) (batch_size max_attempts n : ℕ) (c : Consumer W)
    → IsSound core batch_size max_attempts c
    → IsSound core batch_size max_attempts (ticks core batch_size max_attempts n c)
unfolding ticks
ticks-IsSound core batch_size max_attempts zero c s = s
ticks-IsSound core batch_size max_attempts (suc n) c s =
    ticks-IsSound core batch_size max_attempts n _ (tick-IsSound core batch_size max_attempts c s)

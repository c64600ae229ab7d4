-- ===== src/Database/Inserting.antt =====
-- tx.Exec of an INSERT into a table with a unique key, beside the statements of Database.antt.
use orvexa.Base.{Bool, true, false, if◌then◌else◌, ◌≡◌, ◌+◌, Bool-cases, inl, inr}
use orvexa.Errors.{Error, ok, err}
use orvexa.Database.{World, Db, attempt, ◌>>=◌}
use orvexa.Database.Rules.{counted, Post, fails}

module _ {ℓ} {S : Type ℓ} where
  -- The statement fails with `e`, or finds the key taken, or adds the row.
  unfoldable pub tx_insert : Error → Error → (S → Bool) → (S → S) → Db S (Unit {0})
  unfolding attempt
  tx_insert e taken clashes add =
      attempt e (λ w. if clashes w.tx then (err taken, w) else (ok tt, record w { tx = add w.tx }))

module _ {ℓ ι μ υ} {S : Type ℓ} {B : Type ι} {Q : B → World S → Type μ}
    {E : Error → World S → Type υ} where
  pub tx_insert_then :
      (e taken : Error) (clashes : S → Bool) (add : S → S) (f : Unit {0} → Db S B) (w : World S)
      → E e (counted w)
      → (clashes w.tx ≡ true → E taken (counted w))
      → (clashes w.tx ≡ false
          → Post Q E (f tt (record w { statement = w.statement + 1; tx = add w.tx })))
      → Post Q E ((tx_insert e taken clashes add >>= f) w)
  unfolding tx_insert ◌>>=◌
  tx_insert_then e taken clashes add f w down clash k = elim (Bool-cases (w.fault w.statement)) [
    | inl h ↦ rw h (fails down)
    | inr h ↦ elim (Bool-cases (clashes w.tx)) [
      | inl found ↦ rw (h, found) (fails (clash found))
      | inr free ↦ rw (h, free) (k free)
    ]
  ]

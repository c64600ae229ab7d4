-- ===== src/Database.antt =====
-- The database as the services see it: a committed store, the view of the open transaction, and
-- an environment that decides of each statement whether it fails (a lost connection, a timeout, a
-- foreign key). `fault n` is the answer to statement n. Ids come from a counter (uuid.NewString).
-- A failed commit has committed nothing. One service call runs at a time.
pub mod Inserting
pub mod Querying
pub mod Rules
pub mod Outcomes
pub mod Stays
use orvexa.Base.{ℕ, zero, suc, ◌+◌, Bool, true, false, Option, none, some, String, if◌then◌else◌}
use orvexa.Errors.{Error, Result, ok, err, internal_error}

pub record World {ℓ} (S : Type ℓ) : Type ℓ where
  pub db : S
  pub tx : S
  pub fault : ℕ → Bool
  pub statement : ℕ
  pub next_id : ℕ
  pub now : ℕ

-- The same world, in which no statement fails.
abbrev pub calm {ℓ} : {S : Type ℓ} → World S → World S
calm w = record w { fault = λ n. false }

abbrev pub Db {ℓ κ} : Type ℓ → Type κ → Type (ℓ ⊔ κ)
Db S A = World S → Result A × World S

module _ {ℓ κ} {S : Type ℓ} {A : Type κ} where
  unfoldable pub pure : A → Db S A
  pure a w = (ok a, w)

  unfoldable pub raise : Error → Db S A
  raise e w = (err e, w)

  unfoldable pub lift : Result A → Db S A
  lift r w = (r, w)

  -- The next statement fails with `e`, or `act` happens.
  unfoldable pub attempt : Error → Db S A → Db S A
  attempt e act w =
      let w' = record w { statement = w.statement + 1 } in
      if w.fault w.statement then (err e, w') else act w'

  -- pool.QueryRow, pool.Query
  unfoldable pub read : Error → (S → A) → Db S A
  unfolding attempt
  read e f = attempt e (λ w. (ok (f w.db), w))

  -- tx.QueryRow
  unfoldable pub tx_read : Error → (S → A) → Db S A
  unfolding attempt
  tx_read e f = attempt e (λ w. (ok (f w.tx), w))

  dropped : Result A × World S → Result (Option A) × World S
  dropped (ok a, w) = (ok (some a), w)
  dropped (err e, w) = (ok none, w)

  -- The result of an action whose error is dropped.
  unfoldable pub try : Db S A → Db S (Option A)
  unfolding dropped
  try m w = dropped (m w)

  -- The result of an action as a value, for a caller that goes on after an error.
  unfoldable pub outcome : Db S A → Db S (Result A)
  outcome m w = let (r, w') = m w in (ok r, w')

  unfoldable pub replaced : Error → Result A × World S → Result A × World S
  replaced e (ok a, w) = (ok a, w)
  replaced e (err _, w) = (err e, w)

  -- An error of the action becomes `e`, with the old one as its private cause.
  unfoldable pub wrap : Error → Db S A → Db S A
  unfolding replaced
  wrap e m w = replaced e (m w)

module _ {ℓ} {S : Type ℓ} where
  unfoldable pub guard : Bool → Error → Db S (Unit {0})
  guard true e w = (ok tt, w)
  guard false e w = (err e, w)

  -- pool.Begin; the deferred Rollback drops `tx`, which the next Begin overwrites.
  unfoldable pub begin : Error → Db S (Unit {0})
  unfolding attempt
  begin e = attempt e (λ w. (ok tt, record w { tx = w.db }))

  -- tx.Commit
  unfoldable pub commit : Error → Db S (Unit {0})
  unfolding attempt
  commit e = attempt e (λ w. (ok tt, record w { db = w.tx }))

  -- pool.Exec, its own transaction
  unfoldable pub exec : Error → (S → S) → Db S (Unit {0})
  unfolding attempt
  exec e f = attempt e (λ w. (ok tt, record w { db = f w.db }))

  -- tx.Exec
  unfoldable pub tx_exec : Error → (S → S) → Db S (Unit {0})
  unfolding attempt
  tx_exec e f = attempt e (λ w. (ok tt, record w { tx = f w.tx }))

  -- uuid.NewString
  unfoldable pub fresh : Db S ℕ
  fresh w = (ok w.next_id, record w { next_id = w.next_id + 1 })

  -- time.Now
  unfoldable pub now : Db S ℕ
  now w = (ok w.now, w)

module _ {ℓ κ ι} {S : Type ℓ} {A : Type κ} {B : Type ι} where
  abbrev pub continue : Result A → (A → Db S B) → Db S B
  continue (ok a) f w = f a w
  continue (err e) f w = (err e, w)

  infixl 10 ◌>>=◌ ◌>>◌
  unfoldable pub ◌>>=◌ : Db S A → (A → Db S B) → Db S B
  unfolding pure raise lift attempt read tx_read try wrap guard begin commit exec tx_exec fresh now
      outcome
  ◌>>=◌ m f w = let (r, w') = m w in continue r f w'

  abbrev pub ◌>>◌ : Db S A → Db S B → Db S B
  m >> n = m >>= λ _. n

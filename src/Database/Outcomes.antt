-- ===== src/Database/Outcomes.antt =====
-- Rules for a statement that ends an action of Database.antt, and for actions whose errors are kept.
use orvexa.Base.{◌≡◌, Option, some, Bool, none, true, ◌+◌, refl}
use orvexa.Database.{World, Db, commit, dropped, guard, try, tx_exec, exec, outcome}
use orvexa.Database.Rules.{Post, counted, returns, fails, attempt-Post}
use orvexa.Errors.{Error, Result, ok, err}
use mathlib.Core.Bool.{false}

module _ {ℓ κ μ υ} {S : Type ℓ} {A : Type κ} {Q : Option A → World S → Type μ}
    {E : Error → World S → Type υ} where
  dropped-Post :
      (r : Result A × World S)
      → Post (λ a w. Q (some a) w) (λ e w. Q none w) r
      → Post Q E (dropped r)
  unfolding dropped
  dropped-Post (ok a, w) (returns h) = returns h
  dropped-Post (err e, w) (fails h) = returns h

  pub try-Post :
      (m : Db S A) (w : World S)
      → Post (λ a w'. Q (some a) w') (λ e w'. Q none w') (m w)
      → Post Q E (try m w)
  unfolding try
  try-Post m w h = dropped-Post (m w) h

module _ {ℓ μ υ} {S : Type ℓ} {Q : Unit {0} → World S → Type μ} {E : Error → World S → Type υ} where
  pub exec-Post :
      (e : Error) (g : S → S) (w : World S)
      → E e (counted w)
      → Q tt (record w { statement = w.statement + 1; db = g w.db })
      → Post Q E (exec e g w)
  unfolding exec
  exec-Post e g w h k = attempt-Post e (λ w'. (ok tt, record w' { db = g w'.db })) w h (returns k)

  pub guard-Post :
      (b : Bool) (e : Error) (w : World S) → E e w → (b ≡ true → Q tt w) → Post Q E (guard b e w)
  unfolding guard
  guard-Post true e w h k = returns (k refl)
  guard-Post false e w h k = fails h

  pub tx_exec-Post :
      (e : Error) (g : S → S) (w : World S)
      → E e (counted w)
      → Q tt (record w { statement = w.statement + 1; tx = g w.tx })
      → Post Q E (tx_exec e g w)
  unfolding tx_exec
  tx_exec-Post e g w h k =
      attempt-Post e (λ w'. (ok tt, record w' { tx = g w'.tx })) w h (returns k)

  pub commit-Post :
      (e : Error) (w : World S)
      → E e (counted w)
      → Q tt (record w { statement = w.statement + 1; db = w.tx })
      → Post Q E (commit e w)
  unfolding commit
  commit-Post e w h k = attempt-Post e (λ w'. (ok tt, record w' { db = w'.tx })) w h (returns k)

module _ {ℓ κ μ υ} {S : Type ℓ} {A : Type κ} {Q : Result A → World S → Type μ}
    {E : Error → World S → Type υ} where
  kept-Post :
      (r : Result A × World S)
      → Post (λ a w. Q (ok a) w) (λ e w. Q (err e) w) r
      → Post Q E (ok r.0, r.1)
  kept-Post (ok a, w) (returns h) = returns h
  kept-Post (err e, w) (fails h) = returns h

  pub outcome-Post :
      (m : Db S A) (w : World S)
      → Post (λ a w'. Q (ok a) w') (λ e w'. Q (err e) w') (m w)
      → Post Q E (outcome m w)
  unfolding outcome
  outcome-Post m w h = kept-Post (m w) h

-- What holds of the world after a call, as its postcondition.
pub world-Post {ℓ κ μ} :
    {S : Type ℓ}
    → {A : Type κ} → (P : World S → Type μ) → (r : Result A × World S) → P r.1
    → Post (λ _ v. P v) (λ _ v. P v) r
world-Post P (ok a, w) h = returns h
world-Post P (err e, w) h = fails h

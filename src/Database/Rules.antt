-- ===== src/Database/Rules.antt =====
-- Rules for the actions of Database.antt, one for each statement that a service can make next.
-- `Post Q E r`: the run `r` returned a value and a world with `Q`, or an error and one with `E`.
use orvexa.Base.{ℕ, ◌+◌, ◌≡◌, refl, subst, Bool, true, false, Bool-cases, inl, inr}
use orvexa.Errors.{Error, Result, ok, err}
use orvexa.Database.{
  World, Db, pure, raise, lift, attempt, read, tx_read, guard, begin, commit, exec, tx_exec, fresh,
  now, ◌>>=◌, continue, outcome,
}

pub data Post {ℓ κ ι υ} {S : Type ℓ} {A : Type κ} (Q : A → World S → Type ι)
    (E : Error → World S → Type υ) : Result A × World S → Type (ℓ ⊔ κ ⊔ ι ⊔ υ) where
  returns : {a : A} {w : World S} → Q a w → Post Q E (ok a, w)
  fails : {e : Error} {w : World S} → E e w → Post Q E (err e, w)

-- The world after a statement was counted.
abbrev pub counted {ℓ} : {S : Type ℓ} → World S → World S
counted w = record w { statement = w.statement + 1 }

module _ {ℓ κ ι υ} {S : Type ℓ} {A : Type κ} {Q : A → World S → Type ι}
    {E : Error → World S → Type υ} where
  pub Post-ok : {r : Result A × World S} (a : A) → Post Q E r → r.0 ≡ ok a → Q a r.1
  Post-ok a (returns {w = w} q) h = subst (λ b. Q b w) (cc) q
  Post-ok a (fails e) h = cc

  pub Post-err : {r : Result A × World S} (e : Error) → Post Q E r → r.0 ≡ err e → E e r.1
  Post-err e (returns q) h = cc
  Post-err e (fails {w = w} q) h = subst (λ b. E b w) (cc) q

  -- A weaker postcondition.
  pub Post-map {ι' υ'} :
      {Q' : A → World S → Type ι'} {E' : Error → World S → Type υ'} {r : Result A × World S}
      → ((a : A) (w : World S) → Q a w → Q' a w)
      → ((e : Error) (w : World S) → E e w → E' e w)
      → Post Q E r
      → Post Q' E' r
  Post-map f g (returns {a} {w} q) = returns (f a w q)
  Post-map f g (fails {e} {w} q) = fails (g e w q)

-- What both outcomes say of the world holds of the world that is left.
pub Post-world {ℓ κ ι υ μ} :
    {S : Type ℓ} {A : Type κ} {Q : A → World S → Type ι} {E : Error → World S → Type υ}
    (P : World S → Type μ) (r : Result A × World S)
    → Post Q E r
    → ((a : A) (w : World S) → Q a w → P w)
    → ((e : Error) (w : World S) → E e w → P w)
    → P r.1
Post-world P r (returns {a} {w} q) f g = f a w q
Post-world P r (fails {e} {w} q) f g = g e w q

module _ {ℓ κ μ υ} {S : Type ℓ} {A : Type κ} {Q : A → World S → Type μ}
    {E : Error → World S → Type υ} where
  pub pure-Post : (a : A) (w : World S) → Q a w → Post Q E (pure a w)
  unfolding pure
  pure-Post a w h = returns h

  pub raise-Post : (e : Error) (w : World S) → E e w → Post Q E (raise e w)
  unfolding raise
  raise-Post e w h = fails h

  pub attempt-Post :
      (e : Error) (act : Db S A) (w : World S)
      → E e (counted w)
      → Post Q E (act (counted w))
      → Post Q E (attempt e act w)
  unfolding attempt
  attempt-Post e act w h k = elim (Bool-cases (w.fault w.statement)) [
    | inl down ↦ rw down (fails h)
    | inr up ↦ rw up k
  ]

  pub read-Post :
      (e : Error) (g : S → A) (w : World S)
      → E e (counted w)
      → Q (g w.db) (counted w)
      → Post Q E (read e g w)
  unfolding read
  read-Post e g w h k = attempt-Post e (λ w'. (ok (g w'.db), w')) w h (returns k)

module _ {ℓ κ ι μ υ} {S : Type ℓ} {A : Type κ} {B : Type ι} {Q : B → World S → Type μ}
    {E : Error → World S → Type υ} where
  continue-Post :
      (f : A → Db S B) (r : Result A × World S)
      → Post (λ a w. Post Q E (f a w)) E r
      → Post Q E (continue r.0 f r.1)
  continue-Post f (ok a, w) (returns h) = h
  continue-Post f (err e, w) (fails h) = fails h

  pub bind-Post :
      (m : Db S A) (f : A → Db S B) (w : World S)
      → Post (λ a w'. Post Q E (f a w')) E (m w)
      → Post Q E ((m >>= f) w)
  unfolding ◌>>=◌
  bind-Post m f w h = continue-Post f (m w) h

  pub attempt_then :
      (e : Error) (act : Db S A) (f : A → Db S B) (w : World S)
      → E e (counted w)
      → Post Q E ((act >>= f) (counted w))
      → Post Q E ((attempt e act >>= f) w)
  unfolding ◌>>=◌
  attempt_then e act f w h k = elim (Bool-cases (w.fault w.statement)) [
    | inl down ↦ rw down (fails h)
    | inr up ↦ rw up k
  ]

  settled-Post :
      (f : Result A → Db S B) (r : Result A × World S)
      → Post (λ a w. Post Q E (f (ok a) w)) (λ e w. Post Q E (f (err e) w)) r
      → Post Q E (f r.0 r.1)
  settled-Post f (ok a, w) (returns h) = h
  settled-Post f (err e, w) (fails h) = h

  pub outcome_then :
      (m : Db S A) (f : Result A → Db S B) (w : World S)
      → Post (λ a w'. Post Q E (f (ok a) w')) (λ e w'. Post Q E (f (err e) w')) (m w)
      → Post Q E ((outcome m >>= f) w)
  unfolding ◌>>=◌ outcome
  outcome_then m f w h = settled-Post f (m w) h

  pub pure_then :
      (a : A) (f : A → Db S B) (w : World S) → Post Q E (f a w) → Post Q E ((pure a >>= f) w)
  unfolding ◌>>=◌
  pure_then a f w k = k

  -- A statement that happened, with the value and the world that it gives.
  pub attempt_ok_then :
      (e : Error) (g : World S → A) (h : World S → World S) (f : A → Db S B) (w : World S)
      → E e (counted w)
      → Post Q E (f (g (counted w)) (h (counted w)))
      → Post Q E ((attempt e (λ v. (ok (g v), h v)) >>= f) w)
  unfolding ◌>>=◌
  attempt_ok_then e g h f w down up = attempt_then e (λ v. (ok (g v), h v)) f w down up

  pub read_then :
      (e : Error) (g : S → A) (f : A → Db S B) (w : World S)
      → E e (counted w)
      → Post Q E (f (g w.db) (counted w))
      → Post Q E ((read e g >>= f) w)
  unfolding ◌>>=◌
  read_then e g f w h k = attempt_then e (λ w'. (ok (g w'.db), w')) f w h k

  pub tx_read_then :
      (e : Error) (g : S → A) (f : A → Db S B) (w : World S)
      → E e (counted w)
      → Post Q E (f (g w.tx) (counted w))
      → Post Q E ((tx_read e g >>= f) w)
  unfolding ◌>>=◌
  tx_read_then e g f w h k = attempt_then e (λ w'. (ok (g w'.tx), w')) f w h k

  pub lift_then :
      (r : Result A) (f : A → Db S B) (w : World S)
      → ((e : Error) → r ≡ err e → E e w)
      → ((a : A) → r ≡ ok a → Post Q E (f a w))
      → Post Q E ((lift r >>= f) w)
  unfolding ◌>>=◌
  lift_then (ok a) f w h k = k a refl
  lift_then (err e) f w h k = fails (h e refl)

module _ {ℓ ι μ υ} {S : Type ℓ} {B : Type ι} {Q : B → World S → Type μ}
    {E : Error → World S → Type υ} where
  pub guard_then :
      (b : Bool) (e : Error) (f : Unit {0} → Db S B) (w : World S)
      → E e w
      → (b ≡ true → Post Q E (f tt w))
      → Post Q E ((guard b e >>= f) w)
  unfolding ◌>>=◌
  guard_then true e f w h k = k refl
  guard_then false e f w h k = fails h

  pub begin_then :
      (e : Error) (f : Unit {0} → Db S B) (w : World S)
      → E e (counted w)
      → Post Q E (f tt (record w { statement = w.statement + 1; tx = w.db }))
      → Post Q E ((begin e >>= f) w)
  unfolding ◌>>=◌
  begin_then e f w h k = attempt_then e (λ w'. (ok tt, record w' { tx = w'.db })) f w h k

  pub commit_then :
      (e : Error) (f : Unit {0} → Db S B) (w : World S)
      → E e (counted w)
      → Post Q E (f tt (record w { statement = w.statement + 1; db = w.tx }))
      → Post Q E ((commit e >>= f) w)
  unfolding ◌>>=◌
  commit_then e f w h k = attempt_then e (λ w'. (ok tt, record w' { db = w'.tx })) f w h k

  pub exec_then :
      (e : Error) (g : S → S) (f : Unit {0} → Db S B) (w : World S)
      → E e (counted w)
      → Post Q E (f tt (record w { statement = w.statement + 1; db = g w.db }))
      → Post Q E ((exec e g >>= f) w)
  unfolding ◌>>=◌
  exec_then e g f w h k = attempt_then e (λ w'. (ok tt, record w' { db = g w'.db })) f w h k

  pub tx_exec_then :
      (e : Error) (g : S → S) (f : Unit {0} → Db S B) (w : World S)
      → E e (counted w)
      → Post Q E (f tt (record w { statement = w.statement + 1; tx = g w.tx }))
      → Post Q E ((tx_exec e g >>= f) w)
  unfolding ◌>>=◌
  tx_exec_then e g f w h k = attempt_then e (λ w'. (ok tt, record w' { tx = g w'.tx })) f w h k

  pub fresh_then :
      (f : ℕ → Db S B) (w : World S)
      → Post Q E (f w.next_id (record w { next_id = w.next_id + 1 }))
      → Post Q E ((fresh >>= f) w)
  unfolding ◌>>=◌
  fresh_then f w k = k

  pub now_then : (f : ℕ → Db S B) (w : World S) → Post Q E (f w.now w) → Post Q E ((now >>= f) w)
  unfolding ◌>>=◌
  now_then f w k = k

-- ===== src/Database/Stays.antt =====
-- Actions that leave the committed store as it is, whether they return or fail.
use orvexa.Database.{tx_exec, Db, pure, wrap, tx_read, begin, raise, ◌>>=◌, replaced, World, now}
use orvexa.Errors.{Error, ok, Result, err}
use orvexa.Database.Rules.{
  pure-Post, attempt-Post, raise-Post, bind-Post, Post, returns, Post-map, fails,
}
use orvexa.Base.{◌≡◌, refl, ◌∙◌}

abbrev pub Stays {ℓ κ} : {S : Type ℓ} {A : Type κ} → Db S A → Type (ℓ ⊔ κ)
Stays {S = S} m = (w : World S) → Post (λ a w'. w'.db ≡ w.db) (λ e w'. w'.db ≡ w.db) (m w)

module _ {ℓ κ} {S : Type ℓ} {A : Type κ} where
  pub pure-Stays : (a : A) → Stays {S = S} (pure a)
  pure-Stays a w = pure-Post a w refl

  pub raise-Stays : (e : Error) → Stays {S = S} {A = A} (raise e)
  raise-Stays e w = raise-Post e w refl

  pub tx_read-Stays : (e : Error) (g : S → A) → Stays (tx_read e g)
  unfolding tx_read
  tx_read-Stays e g w = attempt-Post e (λ w'. (ok (g w'.tx), w')) w refl (returns refl)

  replaced-Post :
      (x : Error) (s : S) (r : Result A × World S)
      → Post (λ a w'. w'.db ≡ s) (λ e w'. w'.db ≡ s) r
      → Post (λ a w'. w'.db ≡ s) (λ e w'. w'.db ≡ s) (replaced x r)
  unfolding replaced
  replaced-Post x s (ok a, w) (returns h) = returns h
  replaced-Post x s (err e, w) (fails h) = fails h

  pub wrap-Stays : (e : Error) (m : Db S A) → Stays m → Stays (wrap e m)
  unfolding wrap
  wrap-Stays e m h w = replaced-Post e w.db (m w) (h w)

module _ {ℓ} {S : Type ℓ} where
  pub now-Stays : Stays {S = S} now
  unfolding now
  now-Stays w = returns refl

  pub tx_exec-Stays : (e : Error) (f : S → S) → Stays (tx_exec e f)
  unfolding tx_exec
  tx_exec-Stays e f w =
      attempt-Post e (λ w'. (ok tt, record w' { tx = f w'.tx })) w refl (returns refl)

  pub begin-Stays : (e : Error) → Stays {S = S} (begin e)
  unfolding begin
  begin-Stays e w = attempt-Post e (λ w'. (ok tt, record w' { tx = w'.db })) w refl (returns refl)

module _ {ℓ κ ι} {S : Type ℓ} {A : Type κ} {B : Type ι} where
  pub bind-Stays :
      (m : Db S A) (f : A → Db S B) → Stays m → ((a : A) → Stays (f a)) → Stays (m >>= f)
  bind-Stays m f h k w = bind-Post m f w (
      Post-map (λ a w' same. Post-map (λ b v e. e ∙ same) (λ x v e. e ∙ same) (k a w'))
        (λ e w' same. same) (h w))

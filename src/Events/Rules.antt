-- ===== src/Events/Rules.antt =====
-- Rules for the steps that write an event.
use orvexa.Events.{new_envelope, insert_event, Envelope, Datum, Describes}
use orvexa.Database.{World, ◌>>=◌, Db}
use orvexa.Errors.{Error, invalid_error, internal_error, ok}
use orvexa.Base.{String, Option, ℕ, List, ◌≡◌, some, ◌+◌, arith, refl}
use orvexa.Database.Rules.{counted, Post, fails, attempt_then, returns, attempt-Post}
use mathlib.Core.Option.{none}
use orvexa.Database.Stays.{Stays}

module _ {ℓ ι μ υ} {S : Type ℓ} {B : Type ι} {Q : B → World S → Type μ}
    {E : Error → World S → Type υ} where
  pub new_envelope_then :
      (topic : String) (subject tenant : ℕ) (payload : List (String × Datum))
      (f : Option Envelope → Db S B) (w : World S)
      → ((env : Option Envelope)
          → ((e : Envelope) → env ≡ some e → Describes topic subject tenant payload e)
          → Post Q E (f env (record w { next_id = w.next_id + 1 })))
      → Post Q E ((new_envelope topic subject tenant payload >>= f) w)
  unfolding new_envelope ◌>>=◌
  new_envelope_then topic subject tenant payload f w k = k _ (λ e h. ground arith)

  pub insert_some_then :
      (put : Envelope → S → S) (e : Envelope) (f : Unit {0} → Db S B) (w : World S)
      → E (internal_error "outbox.insert_failed") (counted w)
      → Post Q E (f tt (record w { statement = w.statement + 1; tx = put e w.tx }))
      → Post Q E ((insert_event put (some e) >>= f) w)
  unfolding insert_event ◌>>=◌
  insert_some_then put e f w h k =
      attempt_then _ (λ v. (ok tt, record v { tx = put e v.tx })) f w h k

  -- With a nil envelope the insert is refused.
  pub insert_event_then :
      (put : Envelope → S → S) (env : Option Envelope) (f : Unit {0} → Db S B) (w : World S)
      → E (invalid_error "event.invalid_envelope") w
      → E (internal_error "outbox.insert_failed") (counted w)
      → ((e : Envelope)
          → env ≡ some e
          → Post Q E (f tt (record w { statement = w.statement + 1; tx = put e w.tx })))
      → Post Q E ((insert_event put env >>= f) w)
  unfolding insert_event ◌>>=◌
  insert_event_then put none f w h h' k = fails h
  insert_event_then put (some e) f w h h' k = insert_some_then put e f w h' (k e refl)

pub new_envelope-Stays {ℓ} :
    {S : Type ℓ} (topic : String) (subject tenant : ℕ) (payload : List (String × Datum))
    → Stays {S = S} (new_envelope topic subject tenant payload)
unfolding new_envelope
new_envelope-Stays topic subject tenant payload w = returns refl

pub insert_some-Stays {ℓ} :
    {S : Type ℓ} (put : Envelope → S → S) (e : Envelope) → Stays (insert_event put (some e))
unfolding insert_event
insert_some-Stays put e w =
    attempt-Post _ (λ v. (ok tt, record v { tx = put e v.tx })) w refl (returns refl)

-- ===== src/Interactions/Service/Steps.antt =====
-- Rules for the steps that the operations of internal/interactions/service.go share.
use orvexa.Interactions.Service.{get, insert_outbox, or_not_found}
use orvexa.Database.{World, ◌>>=◌, Db}
use orvexa.Interactions.Store.{Rec, Store, is_row, put_event}
use orvexa.Errors.{Error, internal_error, not_found_error}
use orvexa.Events.{Envelope, insert_event}
use orvexa.Base.{ℕ, Option, find, ◌≡◌, some, none, ◌+◌, Bool-cases, inl, inr, refl}
use orvexa.Database.Rules.{counted, Post, read_then, fails, raise-Post, pure-Post}

module _ {μ υ} {B : Type 0} {Q : B → World Store → Type μ} {E : Error → World Store → Type υ} where
  pub insert_outbox_then :
      (env : Option Envelope) (f : Unit {0} → Db Store B) (w : World Store)
      → E (internal_error "outbox.insert_failed") w
      → E (internal_error "outbox.insert_failed") (counted w)
      → ((e : Envelope)
          → env ≡ some e
          → Post Q E (f tt (record w { statement = w.statement + 1; tx = put_event e w.tx })))
      → Post Q E ((insert_outbox env >>= f) w)
  unfolding insert_outbox ◌>>=◌ insert_event
  insert_outbox_then none f w h h' k = fails h
  insert_outbox_then (some e) f w h h' k = elim (Bool-cases (w.fault w.statement)) [
    | inl down ↦ rw down (fails h')
    | inr up ↦ rw up (k e refl)
  ]

module _ {μ υ} {Q : Rec → World Store → Type μ} {E : Error → World Store → Type υ} where
  pub or_not_found_then :
      (row : Option Rec) (f : Rec → Db Store Rec) (w : World Store)
      → E (not_found_error "interaction.not_found") w
      → ((r : Rec) → row ≡ some r → Post Q E (f r w))
      → Post Q E ((or_not_found row >>= f) w)
  unfolding or_not_found ◌>>=◌
  or_not_found_then none f w h k = fails h
  or_not_found_then (some r) f w h k = k r refl

  or_not_found-Post :
      (row : Option Rec) (w : World Store)
      → (row ≡ none → E (not_found_error "interaction.not_found") w)
      → ((r : Rec) → row ≡ some r → Q r w)
      → Post Q E (or_not_found row w)
  unfolding or_not_found
  or_not_found-Post none w h k = raise-Post _ w (h refl)
  or_not_found-Post (some r) w h k = pure-Post r w (k r refl)

  -- Get, as the last step of an operation.
  pub get-Post :
      (tenant id : ℕ) (w : World Store)
      → E (internal_error "db.read_failed") (counted w)
      → (find (is_row tenant id) w.db.interactions ≡ none
          → E (not_found_error "interaction.not_found") (counted w))
      → ((r : Rec) → find (is_row tenant id) w.db.interactions ≡ some r → Q r (counted w))
      → Post Q E (get tenant id w)
  unfolding get
  get-Post tenant id w h h' k =
      read_then _ _ or_not_found w h
        (or_not_found-Post (find (is_row tenant id) w.db.interactions) (counted w) h' k)

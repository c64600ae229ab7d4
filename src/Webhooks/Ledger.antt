-- ===== src/Webhooks/Ledger.antt =====
-- The ledger of internal/webhooks/gateway.go: what one delivery does, and that a replay does nothing.
use orvexa.Base.{
  ◌∷◌, Bool, List, find, any, ◌≡◌, none, some, false, ◌++◌, refl, any-append, true, arith,
  find_test, if◌then◌else◌, Option-cases, ◌+◌, inl, Bool-cases, inr, sym,
}
use orvexa.Bytes.{Bytes, same_bytes_comm, same_bytes_sound}
use orvexa.Webhooks.{
  Store, Gateway, EventRow, ingest, ingest_headers, persist_event, is_event, finish, derive, Header,
  IngestResult, existing, insert_event_row, signed, answer, authorized,
}
use orvexa.Database.{World, ◌>>=◌, Db}
use orvexa.Errors.{Error, internal_error}
use orvexa.Database.Rules.{Post, guard_then, read_then, counted, raise-Post, fails, pure-Post}
use mathlib.Core.List.{[]}

-- No two rows have the provider and the event id in common.
abbrev pub IsUnique : List EventRow → Type 0
IsUnique [] = Unit
IsUnique (r ∷ rs) = (any (is_event r.provider r.event_id) rs ≡ false) × IsUnique rs

is_event_comm :
    (r q : EventRow) → is_event r.provider r.event_id q ≡ is_event q.provider q.event_id r
is_event_comm r q =
    rw (same_bytes_comm q.provider r.provider, same_bytes_comm q.event_id r.event_id) refl

pub IsUnique-append :
    (rs : List EventRow) (r : EventRow)
    → IsUnique rs
    → any (is_event r.provider r.event_id) rs ≡ false
    → IsUnique (rs ++ r ∷ [])
IsUnique-append [] r h free = (refl, tt)
IsUnique-append (q ∷ rs) r h free = (apart, IsUnique-append rs r h.1 (ground arith))
  where
    apart : any (is_event q.provider q.event_id) (rs ++ r ∷ []) ≡ false
    apart =
        rw (any-append (is_event q.provider q.event_id) rs (r ∷ []), h.0, is_event_comm q r)
          (ground arith)

module _ (lower : Bytes → Bytes) (hmac : Bytes → Bytes → Bytes) (digest : Bytes → Bytes) where
  abbrev pub row_of : Bytes → Bytes → EventRow
  row_of provider body = record {
    provider = provider;
    event_id = derive lower hmac digest provider body;
    payload = body;
    processed_at = none;
  }

  -- The ledger has the event of the delivery.
  abbrev pub is_stored : Bytes → Bytes → Store → Bool
  is_stored provider body s =
      any (is_event provider (derive lower hmac digest provider body)) s.events

  -- What an accepted delivery has done.
  pub record Ingested (g : Gateway) (provider body : Bytes) (header : Header) (s : Store)
      (r : IngestResult) (s' : Store) : Type 0 where
    pub is_authorized : authorized lower hmac digest g provider body header ≡ true
    pub event_id : r.event_id ≡ derive lower hmac digest provider body
    pub is_accepted : r.is_accepted ≡ true
    pub is_duplicate : r.is_duplicate ≡ is_stored provider body s
    pub rows :
        s'.events
        ≡ (if is_stored provider body s then s.events else s.events ++ row_of provider body ∷ [])

  found_id :
      (provider event_id : Bytes) (s : Store) (r : EventRow)
      → find (is_event provider event_id) s.events ≡ some r
      → r.event_id ≡ event_id
  found_id provider event_id s r h =
      same_bytes_sound r.event_id event_id
        (ground (arith, find_test (is_event provider event_id) s.events r h))

  module _ {μ υ} {B : Type 0} {Q : B → World Store → Type μ}
      {E : Error → World Store → Type υ} where
    insert_event_row_then :
        (r : EventRow) (f : Bool → Db Store B) (w : World Store)
        → E (internal_error "webhook.persist_failed") (counted w)
        → (any (is_event r.provider r.event_id) w.db.events ≡ true → Post Q E (f false (counted w)))
        → (any (is_event r.provider r.event_id) w.db.events ≡ false
            → Post Q E (
                f true (record w {
                  statement = w.statement + 1;
                  db = record { events = w.db.events ++ r ∷ [] };
                })))
        → Post Q E ((insert_event_row lower hmac digest r >>= f) w)
    unfolding insert_event_row ◌>>=◌
    insert_event_row_then r f w down dup new = elim (Bool-cases (w.fault w.statement)) [
      | inl h ↦ rw h (fails down)
      | inr h ↦ elim (Bool-cases (any (is_event r.provider r.event_id) w.db.events)) [
        | inl clash ↦ rw (h, clash) (dup clash)
        | inr free ↦ rw (h, free) (new free)
      ]
    ]

  persist_event-Post :
      (g : Gateway) (provider body : Bytes) (header : Header) (w : World Store)
      → authorized lower hmac digest g provider body header ≡ true
      → Post
          (λ r v. Ingested g provider body header w.db r v.db)
          (λ e v. v.db ≡ w.db)
          (persist_event lower hmac digest provider body w)
  unfolding persist_event finish existing answer
  persist_event-Post g provider body header w allowed =
      insert_event_row_then (row_of provider body) _ w refl
        (λ clash.
          read_then _ _ _ _ refl
            (elim (Option-cases
              (find (is_event provider (derive lower hmac digest provider body)) w.db.events)) [
                | inl gone ↦ rw gone (raise-Post _ _ refl)
                | inr (q, here) ↦ rw here (
                    pure-Post _ _ (record {
                      is_authorized = allowed;
                      event_id = found_id provider _ w.db q here;
                      is_accepted = refl;
                      is_duplicate = sym clash;
                      rows = rw clash refl;
                    }))
              ]))
        (λ free. pure-Post _ _ (record {
          is_authorized = allowed;
          event_id = refl;
          is_accepted = refl;
          is_duplicate = sym free;
          rows = rw free refl;
        }))

  -- A delivery is accepted only where it is authorized. Then it is answered with the id that its
  -- provider and body derive, the ledger has its row, which is added only where it was not there,
  -- and the answer says whether it was. An error has stored nothing.
  pub ingest_headers-Post :
      (g : Gateway) (provider body : Bytes) (header : Header) (w : World Store)
      → Post
          (λ r v. Ingested g provider body header w.db r v.db)
          (λ e v. v.db ≡ w.db)
          (ingest_headers lower hmac digest g provider body header w)
  unfolding ingest_headers
  ingest_headers-Post g provider body header w = guard_then _ _ _ _ refl λ _.
      guard_then _ _ _ _ refl λ _.
        guard_then _ _ _ _ refl λ _.
          guard_then _ _ _ _ refl λ allowed. persist_event-Post g provider body header w allowed

  -- Ingest is IngestHeaders with the header of its signature.
  pub ingest-ingest_headers :
      (g : Gateway) (provider body signature : Bytes)
      → ingest lower hmac digest g provider body signature
        ≡ ingest_headers lower hmac digest g provider body (signed lower hmac digest signature)
  unfolding ingest ingest_headers
  ingest-ingest_headers g provider body signature = refl

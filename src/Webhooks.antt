-- ===== src/Webhooks.antt =====
-- internal/webhooks/gateway.go and verify_registry.go: Ingest, IngestHeaders and MarkProcessed over
-- the table provider_events (migration 0007). `lower` is strings.ToLower of a trimmed provider,
-- `digest` the SHA-256 and `hmac` the HMAC-SHA256; hmac.Equal is equality, its time is not modelled.
-- A header is the list of its canonical names with their first values. A body that is no JSON fails
-- the INSERT, which is one of the answers of `fault`. Ids of rows are not read back, and left out.
pub mod Ledger
pub mod Replays
pub mod Meta
pub mod Peer
pub mod Form
pub mod Tokens
pub mod Order
mod Examples
use orvexa.Base.{
  ◌∷◌, Bool, ℕ, ◌++◌, Option, if◌then◌else◌, List, not, true, take, none, some, ◌&&◌, [], false,
  leb, any, length, find, update_where,
}
use orvexa.Bytes.{Bytes, same_bytes, codes}
use orvexa.Hex.{encode}
use orvexa.Database.{Db, pure, raise, ◌>>=◌, attempt, ◌>>◌, guard, now, read, try, exec}
use mathlib.Core.List.{[]}
use orvexa.Errors.{Error, internal_error, ok, invalid_error, unauth_error}

abbrev pub Header : Type 0
Header = List (Bytes × Bytes)

-- http.Header.Get
abbrev pub header_value : Bytes → Header → Bytes
header_value name [] = []
header_value name ((n, v) ∷ h) = if same_bytes n name then v else header_value name h

pub record VerifierConfig : Type 0 where
  pub twilio_auth_tokens : List Bytes
  pub whatsapp_app_secret : Bytes
  pub at_allowed_cidrs : List Bytes
  -- A canonical name of a header, as http.Header.Get makes it.
  pub at_peer_ip_header : Bytes
  pub external_url : Bytes
  -- ExternalURLs, in the order in which the map is ranged over.
  pub external_urls : List (Bytes × Bytes)

-- VerifyFunc, whose `none` is the nil error.
abbrev pub VerifyFunc : Type 0
VerifyFunc = VerifierConfig → Bytes → Header → Bytes → Option Error

abbrev pub Registry : Type 0
Registry = List (Bytes × VerifyFunc)

pub record Gateway : Type 0 where
  pub secret : Bytes
  pub verifiers : Registry
  pub vcfg : VerifierConfig

pub record EventRow : Type 0 where
  pub provider : Bytes
  pub event_id : Bytes
  pub payload : Bytes
  pub processed_at : Option ℕ

pub record Store : Type 0 where
  pub events : List EventRow

pub record IngestResult : Type 0 where
  pub event_id : Bytes
  pub is_duplicate : Bool
  pub is_accepted : Bool

abbrev pub signature_header : Bytes
signature_header = codes "X-Orvexa-Signature"

abbrev pub max_payload_bytes : ℕ
max_payload_bytes = 262144

abbrev pub is_event : Bytes → Bytes → EventRow → Bool
is_event provider event_id r = same_bytes r.provider provider && same_bytes r.event_id event_id

-- strings.Join(parts, "|") of idempotency.Derive
abbrev pub joined : Bytes → Bytes → Bytes
joined provider body = codes "webhook|" ++ provider ++ b'|' ∷ body

unfoldable pub is_authentic : Option Error → Bool
is_authentic none = true
is_authentic (some e) = false

-- The entry of a key, and whether there is one.
unfoldable pub lookup {ℓ} : {A : Type ℓ} → Bytes → List (Bytes × A) → Option A
lookup key [] = none
lookup key ((k, a) ∷ rest) = if same_bytes k key then some a else lookup key rest

unfoldable pub or_default : Bytes → Option Bytes → Bytes
or_default url none = url
or_default url (some u) = u

-- The first entry of a provider that is not empty, its key normalized.
unfoldable pub url_among : (Bytes → Bytes) → Bytes → List (Bytes × Bytes) → Option Bytes
url_among lower p [] = none
url_among lower p ((k, u) ∷ rest) =
    if same_bytes (lower k) p && not (same_bytes u []) then some u else url_among lower p rest

unfoldable pub external_url_for : (Bytes → Bytes) → VerifierConfig → Bytes → Bytes
unfolding lookup or_default url_among
external_url_for lower cfg provider = chosen (lookup (lower provider) cfg.external_urls)
  where
    chosen : Option Bytes → Bytes
    chosen (some u) =
        if same_bytes u []
        then or_default cfg.external_url (url_among lower (lower provider) cfg.external_urls)
        else u
    chosen none = or_default cfg.external_url (url_among lower (lower provider) cfg.external_urls)

-- SetVerifiers: the keys are normalized, and `none` stands for a nil entry.
unfoldable pub normalized : (Bytes → Bytes) → List (Bytes × Option VerifyFunc) → Registry
normalized lower [] = []
normalized lower ((p, none) ∷ reg) = normalized lower reg
normalized lower ((p, some v) ∷ reg) = (lower p, v) ∷ normalized lower reg

unfoldable pub set_verifiers :
    (Bytes → Bytes) → List (Bytes × Option VerifyFunc) → VerifierConfig → Gateway → Gateway
unfolding normalized
set_verifiers lower reg cfg g = record g { verifiers = normalized lower reg; vcfg = cfg }

module _ (lower : Bytes → Bytes) (hmac : Bytes → Bytes → Bytes) (digest : Bytes → Bytes) where
  unfoldable pub compute_signature : Bytes → Bytes → Bytes
  compute_signature secret body = encode (hmac secret body)

  unfoldable pub validate_signature : Bytes → Bytes → Bytes → Bool
  unfolding compute_signature
  validate_signature secret body provided =
      not (same_bytes secret []) && same_bytes (compute_signature secret body) provided

  unfoldable pub authorized : Gateway → Bytes → Bytes → Header → Bool
  unfolding lookup is_authentic validate_signature external_url_for
  authorized g provider body header = decided (lookup (lower provider) g.verifiers)
    where
      decided : Option VerifyFunc → Bool
      decided (some v) =
          is_authentic (v g.vcfg body header (external_url_for lower g.vcfg provider))
      decided none = validate_signature g.secret body (header_value signature_header header)

  -- idempotency.Derive("webhook", provider, body)
  unfoldable pub derive : Bytes → Bytes → Bytes
  derive provider body = codes "auto_" ++ encode (take 16 (digest (joined provider body)))

  unfoldable pub insert_event_row : EventRow → Db Store Bool
  insert_event_row r = attempt (internal_error "webhook.persist_failed") (λ w.
      let clash = any (is_event r.provider r.event_id) w.db.events in
      (
        ok (not clash),
        record w { db = record { events = if clash then w.db.events else w.db.events ++ r ∷ [] } },
      ))

  unfoldable pub answer : Bytes → Bool → IngestResult
  answer event_id is_duplicate = record {
    event_id = event_id;
    is_duplicate = is_duplicate;
    is_accepted = true;
  }

  -- A row that is gone is an error of Scan.
  unfoldable pub existing : Option EventRow → Db Store IngestResult
  unfolding answer
  existing none = raise (internal_error "webhook.lookup_failed")
  existing (some r) = pure (answer r.event_id true)

  unfoldable pub finish : Bytes → Bytes → Bool → Db Store IngestResult
  finish provider event_id true = pure (answer event_id false)
  finish provider event_id false = do
    row ←
        read (internal_error "webhook.lookup_failed")
          (λ s. find (is_event provider event_id) s.events)
    existing row

  unfoldable pub persist_event : Bytes → Bytes → Db Store IngestResult
  persist_event provider body = do
    let r : EventRow = record {
      provider = provider;
      event_id = derive provider body;
      payload = body;
      processed_at = none;
    }
    affected ← insert_event_row r
    finish provider (derive provider body) affected

  -- IngestHeaders
  unfoldable pub ingest_headers : Gateway → Bytes → Bytes → Header → Db Store IngestResult
  ingest_headers g provider body header = do
    guard (not (same_bytes provider []) && leb (length provider) 64)
        (invalid_error "webhook.invalid_provider")
    guard (not (same_bytes body [])) (invalid_error "webhook.empty_body")
    guard (leb (length body) max_payload_bytes) (invalid_error "webhook.body_too_large")
    guard (authorized g provider body header) (unauth_error "webhook.invalid_signature")
    persist_event provider body

  abbrev pub signed : Bytes → Header
  signed signature = if same_bytes signature [] then [] else (signature_header, signature) ∷ []

  -- Ingest
  unfoldable pub ingest : Gateway → Bytes → Bytes → Bytes → Db Store IngestResult
  ingest g provider body signature = do
    guard (not (same_bytes provider []) && leb (length provider) 64)
        (invalid_error "webhook.invalid_provider")
    guard (not (same_bytes body [])) (invalid_error "webhook.empty_body")
    guard (leb (length body) max_payload_bytes) (invalid_error "webhook.body_too_large")
    guard (authorized g provider body (signed signature)) (unauth_error "webhook.invalid_signature")
    persist_event provider body

abbrev pub is_unprocessed : Bytes → EventRow → Bool
is_unprocessed event_id r = same_bytes r.event_id event_id && is_open r.processed_at
  where
    is_open : Option ℕ → Bool
    is_open none = true
    is_open (some t) = false

-- MarkProcessed
unfoldable pub mark_processed : Bytes → Db Store (Option (Unit {0}))
mark_processed event_id = do
  time ← now
  try (
      exec (internal_error "db.write_failed") (λ s. record {
        events =
            update_where (is_unprocessed event_id) (λ r. record r { processed_at = some time })
              s.events;
      }))

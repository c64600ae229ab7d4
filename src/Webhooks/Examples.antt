-- ===== src/Webhooks/Examples.antt =====
-- A delivery of the simulator, its replay, and a delivery that Meta signs.
use orvexa.Base.{
  ◌∷◌, take, false, true, ◌≡◌, ◌++◌, [], none, drop, arith, refl, some, if◌then◌else◌,
}
use orvexa.Bytes.{break_at, extend, Bytes, codes, lower, equal_fold, same_bytes}
use orvexa.Webhooks.{
  Store, Header, Gateway, IngestResult, VerifierConfig, ingest_headers, derive, signature_header,
  authorized, lookup, header_value, validate_signature, compute_signature, persist_event,
  insert_event_row, finish, answer, existing, or_default,
}
use mathlib.Core.List.{Permᴰ}
use orvexa.Hex.{encode, decode, nibble, digit, join}
use orvexa.Webhooks.Meta.{
  verify_whatsapp_cloud, meta_header, sig_prefix, verify_whatsapp_cloud_signed, compare_digest,
  verify_whatsapp_cloud_sound,
}
use orvexa.Database.{World, ◌>>=◌}
use orvexa.Webhooks.Ledger.{Ingested, ingest_headers-Post}
use orvexa.Database.Rules.{Post}
use orvexa.Webhooks.Replays.{ingest_headers-again, stays}
use orvexa.Errors.{ok, unauth_error}
use orvexa.Webhooks.Peer.{
  Netip, verify_africas_talking, verify_africas_talking-prepend, peer_header, decide_peer, judge,
  peer_addr, covers, last_entry, behind_last, checked_addr,
}
use orvexa.Webhooks.Tokens.{Authentic, verify_twilio-Authentic}
use orvexa.Webhooks.Form.{
  twilio_header, verify_twilio, check_digest, check_form, try_tokens, parse_query, settings, pieces,
  parse_pair, cons_param, pair, unescape, put, escaped, cut, sort_params, insert_param,
  concat_params,
}
use orvexa.Webhooks.Order.{verify_twilio-Perm}

abbrev hmac : Bytes → Bytes → Bytes
hmac secret body = take 32 (secret ++ body ++ codes "0123456789abcdefghijklmnopqrstuv")

abbrev digest : Bytes → Bytes
digest s = take 32 (s ++ codes "0123456789abcdefghijklmnopqrstuv")

abbrev cfg : VerifierConfig
cfg = record {
  twilio_auth_tokens = codes "old" ∷ codes "new" ∷ [];
  whatsapp_app_secret = codes "app";
  at_allowed_cidrs = codes "196.250.209.0/24" ∷ [];
  at_peer_ip_header = [];
  external_url = [];
  external_urls = [];
}

abbrev gateway : Gateway
gateway = record { secret = codes "platform"; verifiers = []; vcfg = cfg }

abbrev meta_gateway : Gateway
meta_gateway = record gateway {
  verifiers = (codes "whatsappcloud", verify_whatsapp_cloud hmac) ∷ [];
}

abbrev body : Bytes
body = codes "{}"

abbrev header : Header
header = (signature_header, encode (hmac (codes "platform") body)) ∷ []

abbrev world : World Store
world = record {
  db = record { events = [] };
  tx = record { events = [] };
  fault = λ n. false;
  statement = 0;
  next_id = 1;
  now = 100;
}

ingest_headers-Post_example :
    Post
      (λ r v. Ingested lower hmac digest gateway (codes "simulator") body header world.db r v.db)
      (λ e v. v.db ≡ world.db)
      (ingest_headers lower hmac digest gateway (codes "simulator") body header world)
ingest_headers-Post_example =
    ingest_headers-Post lower hmac digest gateway (codes "simulator") body header world

abbrev first : IngestResult
first = record {
  event_id = derive lower hmac digest (codes "simulator") body;
  is_duplicate = false;
  is_accepted = true;
}

abbrev stored : World Store
stored = (ingest_headers lower hmac digest gateway (codes "simulator") body header world).1

is_first :
    (ingest_headers lower hmac digest gateway (codes "simulator") body header world).0 ≡ ok first
unfolding ingest_headers authorized lookup validate_signature compute_signature encode persist_event
    insert_event_row finish answer derive ◌>>=◌
is_first = refl

is_second :
    (ingest_headers lower hmac digest gateway (codes "simulator") body header stored).0
    ≡ ok (record first { is_duplicate = true })
unfolding ingest_headers authorized lookup validate_signature compute_signature encode persist_event
    insert_event_row finish answer derive ◌>>=◌ existing
is_second = refl

ingest_headers-again_example :
    (true ≡ true)
    × (first.event_id ≡ first.event_id)
    × ((ingest_headers lower hmac digest gateway (codes "simulator") body header stored).1.db.events
        ≡ stored.db.events)
ingest_headers-again_example =
    ingest_headers-again lower hmac digest gateway gateway (codes "simulator") body header header
      world stored first (record first { is_duplicate = true }) tt is_first stays is_second

abbrev meta_signed : Header
meta_signed = (meta_header, sig_prefix ++ encode (hmac (codes "app") body)) ∷ []

is_accepted_by_meta : verify_whatsapp_cloud hmac cfg body meta_signed [] ≡ none
unfolding verify_whatsapp_cloud encode decode nibble digit join compare_digest
is_accepted_by_meta = refl

verify_whatsapp_cloud_sound_example :
    (false ≡ false)
    × (equal_fold (take 7 (header_value meta_header meta_signed)) sig_prefix ≡ true)
    × (decode (drop 7 (header_value meta_header meta_signed)) ≡ some (hmac (codes "app") body))
verify_whatsapp_cloud_sound_example =
    verify_whatsapp_cloud_sound hmac cfg body meta_signed [] is_accepted_by_meta

verify_whatsapp_cloud_signed_example : verify_whatsapp_cloud hmac cfg body meta_signed [] ≡ none
verify_whatsapp_cloud_signed_example =
    verify_whatsapp_cloud_signed hmac cfg body meta_signed [] (omega arith) refl refl refl

-- Addresses and prefixes of one byte text each, for the allowlist.
abbrev net : Netip
net = record {
  Addr = Bytes;
  Prefix = Bytes;
  parse_addr = λ s. if same_bytes s [] then none else some s;
  parse_prefix = λ s. if same_bytes s [] then none else some s;
  has_zone = λ a. false;
  unmap = λ a. a;
  has_host_bits = λ p. false;
  contains = λ p a. same_bytes (take 12 p) (take 12 a);
}

abbrev forwarded : Header
forwarded = (codes "X-Forwarded-For", codes "203.0.113.9") ∷ []

abbrev forged : Header
forged = (codes "X-Forwarded-For", codes "196.250.209.7" ++ b',' ∷ codes "203.0.113.9") ∷ []

verify_africas_talking-prepend_example :
    verify_africas_talking net cfg body forged [] ≡ verify_africas_talking net cfg body forwarded []
unfolding peer_header
verify_africas_talking-prepend_example =
    verify_africas_talking-prepend net cfg body forwarded forged [] (codes "196.250.209.7") refl
      refl

is_rejected :
    verify_africas_talking net cfg body forged []
    ≡ some (unauth_error "webhook.at_peer_not_allowed")
unfolding verify_africas_talking peer_header decide_peer judge peer_addr covers last_entry
    behind_last checked_addr or_default
is_rejected = refl

abbrev sha1 : Bytes → Bytes → Bytes
sha1 secret body = take 20 (secret ++ body ++ codes "0123456789abcdefghij")

abbrev form : Bytes
form = codes "To=%2B254&Body=a+b"

abbrev callback : Bytes
callback = codes "https://x"

abbrev twilio_signed : Header
twilio_signed = (twilio_header, sha1 (codes "new") (codes "https://xBodya bTo+254")) ∷ []

is_accepted_by_twilio : verify_twilio sha1 (λ s. some s) cfg form twilio_signed callback ≡ none
unfolding verify_twilio check_digest check_form try_tokens parse_query settings pieces parse_pair
    cons_param pair unescape put escaped nibble cut break_at extend sort_params insert_param
    concat_params
is_accepted_by_twilio = refl

verify_twilio-Authentic_example : Authentic sha1 (λ s. some s) cfg form twilio_signed callback
verify_twilio-Authentic_example =
    verify_twilio-Authentic sha1 (λ s. some s) cfg form twilio_signed callback is_accepted_by_twilio

abbrev form_again : Bytes
form_again = codes "Body=a+b&To=%2B254"

verify_twilio-Perm_example :
    verify_twilio sha1 (λ s. some s) cfg form twilio_signed callback
    ≡ verify_twilio sha1 (λ s. some s) cfg form_again twilio_signed callback
unfolding parse_query settings pieces parse_pair cons_param pair unescape put escaped nibble cut
    break_at extend
verify_twilio-Perm_example =
    verify_twilio-Perm sha1 (λ s. some s) cfg form form_again twilio_signed callback
      ((codes "To", codes "+254") ∷ (codes "Body", codes "a b") ∷ [])
      ((codes "Body", codes "a b") ∷ (codes "To", codes "+254") ∷ []) refl refl
      (Permᴰ.swap refl refl)

-- ===== src/Interactions/Input.antt =====
-- The request of Create in internal/interactions/service.go, the tests on its fields, and
-- pkg/idempotency. `sha` is the hash of idempotency.Derive: crypto/sha256 and its hexadecimal form
-- are no part of the repository.
use Prim.Native.Char.{code}
use Prim.Native.String.{◌++◌ as append}
use orvexa.Base.{
  ℕ, String, Bool, if◌then◌else◌, str_eq, true, ◌&&◌, leb, not, ◌||◌, false, ◌==◌, count_chars,
}
use orvexa.Interactions.State.{
  voice, whatsapp, sms, email, chat, ussd, Direction, Channel, unknown_channel, unknown_direction,
}

pub record CreateInput : Type 0 where
  pub conversation_id : ℕ
  pub customer_id : ℕ
  pub channel : Channel
  pub direction : Direction
  pub source : String
  pub destination : String
  pub provider : String
  pub provider_ref : String
  pub idempotency_key : String

abbrev pub known_channel : Channel → Bool
known_channel (unknown_channel _) = false
known_channel _ = true

abbrev pub known_direction : Direction → Bool
known_direction (unknown_direction _) = false
known_direction _ = true

unfoldable pub same_channel : Channel → Channel → Bool
same_channel voice voice = true
same_channel whatsapp whatsapp = true
same_channel sms sms = true
same_channel email email = true
same_channel chat chat = true
same_channel ussd ussd = true
same_channel _ _ = false

-- pkg/idempotency: ^[A-Za-z0-9._:-]{8,128}$
key_char : ℕ → Bool
key_char c =
    leb b'A' c && leb c b'Z'
    || leb b'a' c && leb c b'z'
    || leb b'0' c && leb c b'9'
    || c == b'.'
    || c == b'_'
    || c == b':'
    || c == b'-'

all_key_chars : String → Bool
unfolding key_char
all_key_chars String.[] = true
all_key_chars (String.◌∷◌ c s) = key_char (code c) && all_key_chars s

unfoldable pub valid_key : String → Bool
unfolding all_key_chars count_chars
valid_key k = all_key_chars k && leb 8 (count_chars k) && leb (count_chars k) 128

unfoldable pub default_str : String → String → String
default_str v d = if str_eq v "" then d else v

-- idempotency.Derive(provider, provider_ref), over the hash `sha` of a text.
unfoldable pub derive : (String → String) → String → String → String
derive sha provider ref = append "auto_" (sha (append provider (append "|" ref)))

unfoldable pub effective_key : (String → String) → CreateInput → String
effective_key sha input =
    if str_eq input.idempotency_key "" && not (str_eq input.provider_ref "")
    then derive sha input.provider input.provider_ref
    else input.idempotency_key

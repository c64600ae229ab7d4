-- ===== src/Webhooks/Form.antt =====
-- VerifyTwilio of internal/webhooks/verify_twilio.go, with url.ParseQuery. `hmac` is the HMAC-SHA1,
-- `from_base64` the standard decoder on a text without the blanks around it.
use orvexa.Base.{
  ◌∷◌, List, Bool, Option, ℕ, some, [], select, if◌then◌else◌, ◌++◌, none, any, ◌==◌, not, ◌*◌,
  length, ltb, ◌+◌,
}
use orvexa.Bytes.{Bytes, codes, break_at, same_bytes, lex_lt}
use orvexa.Webhooks.{VerifierConfig, VerifyFunc, header_value}
use orvexa.Hex.{nibble}
use orvexa.Errors.{Error, unauth_error}
use mathlib.Core.List.{[]}
use mathlib.Core.Option.{none}

abbrev pub Param : Type 0
Param = Bytes × Bytes

-- The text up to the first such byte and the one behind it, strings.Cut.
unfoldable pub cut : Option (Bytes × Bytes) → Bytes → Bytes × Bytes
cut none s = (s, [])
cut (some p) s = p

unfoldable pub put : ℕ → Option Bytes → Option Bytes
put c none = none
put c (some s) = some (c ∷ s)

unfoldable pub escaped : Option ℕ → Option ℕ → Option Bytes → Option Bytes
unfolding put
escaped (some h) (some l) rest = put (h * 16 + l) rest
escaped _ _ rest = none

-- url.QueryUnescape
unfoldable pub unescape : Bytes → Option Bytes
unfolding put escaped nibble
unescape [] = some []
unescape (c ∷ []) = if c == b'%' then none else some ((if c == b'+' then b' ' else c) ∷ [])
unescape (c ∷ d ∷ []) =
    let rest = unescape (d ∷ []) in
    if c == b'%' then none else put (if c == b'+' then b' ' else c) rest
unescape (c ∷ d ∷ e ∷ s) =
    let rest = unescape (d ∷ e ∷ s) in
    let behind = unescape s in
    if c == b'%'
    then escaped (nibble d) (nibble e) behind
    else put (if c == b'+' then b' ' else c) rest

unfoldable pub pair : Option Bytes → Option Bytes → Option Param
pair (some k) (some v) = some (k, v)
pair _ _ = none

-- One setting between two ampersands.
unfoldable pub parse_pair : Bytes → Option Param
unfolding cut unescape pair
parse_pair s =
    let (k, v) = cut (break_at b'=' s) s in
    if any (λ c. c == b';') s then none else pair (unescape k) (unescape v)

unfoldable pub cons_param : Option Param → Option (List Param) → Option (List Param)
cons_param (some p) (some ps) = some (p ∷ ps)
cons_param _ _ = none

-- The settings of a query; an empty one is passed over.
unfoldable pub settings : List Bytes → Option (List Param)
unfolding parse_pair cons_param
settings [] = some []
settings (x ∷ xs) =
    let rest = settings xs in if same_bytes x [] then rest else cons_param (parse_pair x) rest

-- The pieces of a text between such bytes.
unfoldable pub pieces : ℕ → Bytes → List Bytes
pieces b [] = [] ∷ []
pieces b (c ∷ s) = elim (pieces b s) [
  | [] ↦ (c ∷ []) ∷ []
  | x ∷ xs ↦ if c == b then [] ∷ x ∷ xs else (c ∷ x) ∷ xs
]

-- url.ParseQuery, whose first error refuses the body.
unfoldable pub parse_query : Bytes → Option (List Param)
unfolding settings pieces
parse_query s = settings (pieces b'&' s)

abbrev pub param_lt : Param → Param → Bool
param_lt (k, v) (l, u) = if same_bytes k l then lex_lt v u else lex_lt k l

unfoldable pub insert_param : Param → List Param → List Param
insert_param p [] = p ∷ []
insert_param p (q ∷ qs) =
    let rest = insert_param p qs in if param_lt q p then q ∷ rest else p ∷ q ∷ qs

unfoldable pub sort_params : List Param → List Param
unfolding insert_param
sort_params [] = []
sort_params (p ∷ ps) = insert_param p (sort_params ps)

unfoldable pub concat_params : List Param → Bytes
concat_params [] = []
concat_params ((k, v) ∷ ps) = k ++ (v ++ concat_params ps)

abbrev pub signed_payload : Bytes → List Param → Bytes
signed_payload url ps = url ++ concat_params (sort_params ps)

abbrev pub twilio_header : Bytes
twilio_header = codes "X-Twilio-Signature"

abbrev pub misconfigured : Error
misconfigured = unauth_error "webhook.twilio_misconfigured"

abbrev pub invalid_signature : Error
invalid_signature = unauth_error "webhook.twilio_invalid_signature"

module _ (hmac : Bytes → Bytes → Bytes) (from_base64 : Bytes → Option Bytes) where
  -- The loop over the tokens.
  unfoldable pub try_tokens : List Bytes → Bytes → Bytes → Option Error
  try_tokens tokens signed provided =
      if any (λ t. same_bytes (hmac t signed) provided) tokens then none else some invalid_signature

  unfoldable pub check_form : List Bytes → Bytes → Bytes → Option (List Param) → Option Error
  unfolding try_tokens sort_params concat_params
  check_form tokens url provided none = some invalid_signature
  check_form tokens url provided (some ps) = try_tokens tokens (signed_payload url ps) provided

  unfoldable pub check_digest : List Bytes → Bytes → Bytes → Option Bytes → Option Error
  unfolding check_form parse_query
  check_digest tokens url body none = some invalid_signature
  check_digest tokens url body (some d) =
      if length d == 20 then check_form tokens url d (parse_query body) else some invalid_signature

  abbrev pub tokens_of : VerifierConfig → List Bytes
  tokens_of cfg = select (λ t. not (same_bytes t [])) cfg.twilio_auth_tokens

  unfoldable pub verify_twilio : VerifyFunc
  unfolding check_digest
  verify_twilio cfg body header url =
      if same_bytes url []
      then some misconfigured
      else if ltb 0 (length (tokens_of cfg))
      then check_digest (tokens_of cfg) url body (from_base64 (header_value twilio_header header))
      else some misconfigured

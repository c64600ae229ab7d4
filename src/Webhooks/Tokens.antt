-- ===== src/Webhooks/Tokens.antt =====
-- When VerifyTwilio of internal/webhooks/verify_twilio.go accepts a delivery.
use orvexa.Base.{
  ◌∷◌, Option, Bool, [], List, ◌≡◌, In, some, any, ◌≢◌, none, false, true, select, ltb, not,
  Bool-cases, length, inl, inr, subst, ◌==◌, arith, refl, if◌then◌else◌,
}
use orvexa.Bytes.{Bytes, same_bytes, same_bytes_refl, same_bytes_sound}
use orvexa.Webhooks.{VerifierConfig, Header, header_value}
use orvexa.Webhooks.Form.{
  Param, verify_twilio, check_digest, check_form, try_tokens, twilio_header, signed_payload,
  tokens_of, parse_query, invalid_signature,
}
use orvexa.Errors.{Error}

module _ (hmac : Bytes → Bytes → Bytes) (from_base64 : Bytes → Option Bytes) where
  -- The header carries the digest, under a configured token, of the URL and the sorted parameters.
  pub record Authentic (cfg : VerifierConfig) (body : Bytes) (header : Header) (url : Bytes)
      : Type 0 where
    pub has_url : same_bytes url [] ≡ false
    pub mac : Bytes
    pub decoded : from_base64 (header_value twilio_header header) ≡ some mac
    pub sized : length mac ≡ 20
    pub params : List Param
    pub parsed : parse_query body ≡ some params
    pub token : Bytes
    pub configured : In token cfg.twilio_auth_tokens
    pub nonempty : same_bytes token [] ≡ false
    pub is_mac : hmac token (signed_payload url params) ≡ mac

  refused : (e : Error) → some e ≢ none
  refused e p = cc

  accepting : (b : Bool) → b ≡ true → (if b then none else some invalid_signature) ≡ none
  accepting b h = rw h refl

  matching :
      (tokens : List Bytes) (signed mac : Bytes)
      → any (λ t. same_bytes (hmac t signed) mac) (select (λ t. not (same_bytes t [])) tokens)
        ≡ true
      → (t : Bytes) × In t tokens × (same_bytes t [] ≡ false) × (hmac t signed ≡ mac)
  matching [] signed mac h = cc
  matching (x ∷ tokens) signed mac h = elim (Bool-cases (same_bytes x [])) [
    | inl empty ↦ let (t, m, n, e) = matching tokens signed mac (rw empty at h) in (t, inr m, n, e)
    | inr full ↦ elim (Bool-cases (same_bytes (hmac x signed) mac)) [
      | inl here ↦ (x, inl refl, full, same_bytes_sound (hmac x signed) mac here)
      | inr on ↦
          let (t, m, n, e) = matching tokens signed mac (rw (full, on) at h) in (t, inr m, n, e)
    ]
  ]

  matched_token :
      (tokens : List Bytes) (signed mac t : Bytes)
      → In t tokens
      → same_bytes t [] ≡ false
      → hmac t signed ≡ mac
      → any (λ t. same_bytes (hmac t signed) mac) (select (λ t. not (same_bytes t [])) tokens)
        ≡ true
  matched_token [] signed mac t m n e = absurd m
  matched_token (x ∷ tokens) signed mac t (inl same) n e =
      let full : same_bytes x [] ≡ false = subst (λ y. same_bytes y [] ≡ false) same n in
      let here : hmac x signed ≡ mac = subst (λ y. hmac y signed ≡ mac) same e in
      rw (full, here, same_bytes_refl mac) refl
  matched_token (x ∷ tokens) signed mac t (inr m) n e = elim (Bool-cases (same_bytes x [])) [
    | inl empty ↦ rw empty (matched_token tokens signed mac t m n e)
    | inr full ↦ rw full (ground (arith, matched_token tokens signed mac t m n e))
  ]

  module _ (cfg : VerifierConfig) (body : Bytes) (header : Header) (url : Bytes) where
    by_form :
        (has_url : same_bytes url [] ≡ false) (mac : Bytes) (o : Option (List Param))
        → from_base64 (header_value twilio_header header) ≡ some mac
        → length mac ≡ 20
        → parse_query body ≡ o
        → check_form hmac from_base64 (tokens_of hmac from_base64 cfg) url mac o ≡ none
        → Authentic cfg body header url
    unfolding check_form try_tokens
    by_form has_url mac none decoded sized parsed h = cc
    by_form has_url mac (some ps) decoded sized parsed h =
        elim (Bool-cases (
          any (λ t. same_bytes (hmac t (signed_payload url ps)) mac)
            (tokens_of hmac from_base64 cfg))) [
              | inr out ↦ absurd (refused _ (rw out at h))
              | inl found ↦
                  let (t, m, n, e) =
                    matching cfg.twilio_auth_tokens (signed_payload url ps) mac found in
                  record {
                    has_url = has_url;
                    mac = mac;
                    decoded = decoded;
                    sized = sized;
                    params = ps;
                    parsed = parsed;
                    token = t;
                    configured = m;
                    nonempty = n;
                    is_mac = e;
                  }
            ]

    by_digest :
        (has_url : same_bytes url [] ≡ false) (o : Option Bytes)
        → from_base64 (header_value twilio_header header) ≡ o
        → check_digest hmac from_base64 (tokens_of hmac from_base64 cfg) url body o ≡ none
        → Authentic cfg body header url
    unfolding check_digest
    by_digest has_url none decoded h = cc
    by_digest has_url (some mac) decoded h = elim (Bool-cases (length mac == 20)) [
      | inr odd ↦ absurd (refused _ (rw odd at h))
      | inl sized ↦
          by_form has_url mac (parse_query body) decoded (ground (arith, sized)) refl
            (rw sized at h)
    ]

    -- A delivery of Twilio that is accepted is authentic.
    pub verify_twilio-Authentic :
        verify_twilio hmac from_base64 cfg body header url ≡ none → Authentic cfg body header url
    unfolding verify_twilio
    verify_twilio-Authentic h = elim (Bool-cases (same_bytes url [])) [
      | inl empty ↦ absurd (refused _ (rw empty at h))
      | inr has_url ↦ elim (Bool-cases (ltb 0 (length (tokens_of hmac from_base64 cfg)))) [
        | inr without ↦ absurd (refused _ (rw (has_url, without) at h))
        | inl some_token ↦ by_digest has_url _ refl (rw (has_url, some_token) at h)
      ]
    ]

    any_positive : (p : Bytes → Bool) (ts : List Bytes) → any p ts ≡ true → ltb 0 (length ts) ≡ true
    any_positive p [] h = cc
    any_positive p (t ∷ ts) h = ground arith

    -- An authentic delivery is accepted, whichever of the configured tokens signed it.
    pub Authentic-verify_twilio :
        Authentic cfg body header url → verify_twilio hmac from_base64 cfg body header url ≡ none
    unfolding verify_twilio check_digest check_form try_tokens
    Authentic-verify_twilio a =
        let found =
          matched_token cfg.twilio_auth_tokens (signed_payload url a.params) a.mac a.token
            a.configured a.nonempty a.is_mac in
        rw
          (
            a.has_url,
            any_positive _ (tokens_of hmac from_base64 cfg) found,
            a.decoded,
            a.sized,
            a.parsed,
          )
          (accepting _ found)

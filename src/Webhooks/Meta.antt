-- ===== src/Webhooks/Meta.antt =====
-- VerifyWhatsAppCloud of internal/webhooks/verify_whatsappcloud.go. `hmac` is the HMAC-SHA256.
use orvexa.Base.{
  Option, All, ◌≡◌, some, ◌<◌, none, if◌then◌else◌, length, Bool-cases, not, [], inl, false, ◌==◌,
  ap, leb, ◌++◌, sym, take, length-append, inr, drop, true, arith, refl, ◌≢◌,
}
use orvexa.Bytes.{Bytes, codes, same_bytes, equal_fold, same_bytes_sound, same_bytes_refl}
use orvexa.Hex.{decode, encode, length-encode, decode-encode}
use orvexa.Webhooks.{VerifierConfig, Header, VerifyFunc, header_value}
use orvexa.Errors.{Error, unauth_error}

abbrev pub meta_header : Bytes
meta_header = codes "X-Hub-Signature-256"

abbrev pub sig_prefix : Bytes
sig_prefix = codes "sha256="

-- The digest that a signature decodes to is compared with that of the body.
unfoldable pub compare_digest : Bytes → Option Bytes → Option Error
compare_digest expected none = some (unauth_error "webhook.whatsapp_invalid_signature")
compare_digest expected (some d) =
    if not (length d == 32)
    then some (unauth_error "webhook.whatsapp_invalid_signature")
    else if same_bytes expected d
    then none
    else some (unauth_error "webhook.whatsapp_invalid_signature")

module _ (hmac : Bytes → Bytes → Bytes) where
  unfoldable pub verify_whatsapp_cloud : VerifyFunc
  unfolding compare_digest
  verify_whatsapp_cloud cfg body header url =
      let provided = header_value meta_header header in
      if same_bytes cfg.whatsapp_app_secret []
      then some (unauth_error "webhook.whatsapp_misconfigured")
      else if leb (length provided) (length sig_prefix)
      then some (unauth_error "webhook.whatsapp_invalid_signature")
      else if not (equal_fold (take (length sig_prefix) provided) sig_prefix)
      then some (unauth_error "webhook.whatsapp_invalid_signature")
      else compare_digest (hmac cfg.whatsapp_app_secret body)
          (decode (drop (length sig_prefix) provided))

  compared :
      (expected : Bytes) (o : Option Bytes) → compare_digest expected o ≡ none → o ≡ some expected
  unfolding compare_digest
  compared expected none h = cc
  compared expected (some d) h = elim (Bool-cases (same_bytes expected d)) [
    | inl same ↦ ap some (sym (same_bytes_sound expected d same))
    | inr other ↦ ground (arith, other)
  ]

  refused : (e : Error) → some e ≢ none
  refused e p = cc

  -- Only a delivery with a secret, the scheme in any case of its letters, and the digits of the
  -- digest of this very body is accepted.
  pub verify_whatsapp_cloud_sound :
      (cfg : VerifierConfig) (body : Bytes) (header : Header) (url : Bytes)
      → verify_whatsapp_cloud cfg body header url ≡ none
      → (same_bytes cfg.whatsapp_app_secret [] ≡ false)
        × (equal_fold (take 7 (header_value meta_header header)) sig_prefix ≡ true)
        × (decode (drop 7 (header_value meta_header header))
            ≡ some (hmac cfg.whatsapp_app_secret body))
  unfolding verify_whatsapp_cloud
  verify_whatsapp_cloud_sound cfg body header url h =
      elim (Bool-cases (same_bytes cfg.whatsapp_app_secret [])) [
        | inl empty ↦ absurd (refused _ (rw empty at h))
        | inr secret ↦ elim (Bool-cases (leb (length (header_value meta_header header)) 7)) [
          | inl short ↦ absurd (refused _ (rw (secret, short) at h))
          | inr long ↦
              elim (Bool-cases (equal_fold (take 7 (header_value meta_header header)) sig_prefix)) [
                | inr other ↦ absurd (refused _ (rw (secret, long, other) at h))
                | inl scheme ↦ (secret, scheme, compared _ _ (rw (secret, long, scheme) at h))
              ]
        ]
      ]

  -- What the provider signs is accepted: the scheme and the digits of the digest of the body.
  pub verify_whatsapp_cloud_signed :
      (cfg : VerifierConfig) (body : Bytes) (header : Header) (url : Bytes)
      → All (λ c. c < 256) (hmac cfg.whatsapp_app_secret body)
      → length (hmac cfg.whatsapp_app_secret body) ≡ 32
      → same_bytes cfg.whatsapp_app_secret [] ≡ false
      → header_value meta_header header ≡ sig_prefix ++ encode (hmac cfg.whatsapp_app_secret body)
      → verify_whatsapp_cloud cfg body header url ≡ none
  unfolding verify_whatsapp_cloud compare_digest
  verify_whatsapp_cloud_signed cfg body header url bytes sized secret sent =
      let d = hmac cfg.whatsapp_app_secret body in
      rw
        (
          secret,
          sent,
          length-append sig_prefix (encode d),
          length-encode d,
          sized,
          decode-encode d bytes,
          sized,
          same_bytes_refl d,
        )
        refl

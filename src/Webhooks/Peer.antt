-- ===== src/Webhooks/Peer.antt =====
-- VerifyAfricasTalking of internal/webhooks/verify_africastalking.go. net/netip is a parameter; its
-- parsers are those of a text without the blanks around it. What is logged is left out.
use orvexa.Base.{
  ◌∷◌, if◌then◌else◌, ℕ, Option, List, ◌++◌, Bool, none, some, [], ◌≡◌, ◌==◌, false, any, not,
  arith, ◌&&◌, refl, ◌⊎◌, true, ◌≢◌, In, inl, Bool-cases, inr, ap,
}
use orvexa.Bytes.{Bytes, codes, same_bytes}
use orvexa.Webhooks.{VerifierConfig, Header, VerifyFunc, or_default, header_value}
use orvexa.Errors.{Error, unauth_error}

pub record Netip : Type 1 where
  pub Addr : Type 0
  pub Prefix : Type 0
  pub parse_addr : Bytes → Option Addr
  pub parse_prefix : Bytes → Option Prefix
  pub has_zone : Addr → Bool
  pub unmap : Addr → Addr
  -- prefix != prefix.Masked()
  pub has_host_bits : Prefix → Bool
  pub contains : Prefix → Addr → Bool

-- What stands behind the last such byte.
unfoldable pub behind_last : ℕ → Bytes → Option Bytes
behind_last b [] = none
behind_last b (c ∷ s) = elim (behind_last b s) [
  | some t ↦ some t
  | none ↦ if c == b then some s else none
]

unfoldable pub last_entry : Bytes → Bytes
unfolding behind_last
last_entry v = or_default v (behind_last b',' v)

unfoldable pub peer_header : VerifierConfig → Bytes
peer_header cfg =
    if same_bytes cfg.at_peer_ip_header [] then codes "X-Forwarded-For" else cfg.at_peer_ip_header

module _ (net : Netip) where
  unfoldable pub checked_addr : Option net.Addr → Option net.Addr
  checked_addr none = none
  checked_addr (some a) = if net.has_zone a then none else some (net.unmap a)

  unfoldable pub peer_addr : VerifierConfig → Header → Option net.Addr
  unfolding peer_header last_entry checked_addr
  peer_addr cfg header =
      let v = header_value (peer_header cfg) header in
      if same_bytes v [] then none else checked_addr (net.parse_addr (last_entry v))

  unfoldable pub covers : net.Addr → Option net.Prefix → Bool
  covers a none = false
  covers a (some p) = not (net.has_host_bits p) && net.contains p a

  unfoldable pub judge : List Bytes → Option net.Addr → Option Error
  unfolding covers
  judge cidrs none = some (unauth_error "webhook.at_peer_unverifiable")
  judge cidrs (some a) =
      if any (λ entry. covers a (net.parse_prefix entry)) cidrs
      then none
      else some (unauth_error "webhook.at_peer_not_allowed")

  -- Without an allowlist every delivery is accepted.
  unfoldable pub decide_peer : List Bytes → Option net.Addr → Option Error
  unfolding judge
  decide_peer [] peer = none
  decide_peer (entry ∷ rest) peer = judge (entry ∷ rest) peer

  unfoldable pub verify_africas_talking : VerifyFunc
  unfolding decide_peer peer_addr
  verify_africas_talking cfg body header url =
      decide_peer cfg.at_allowed_cidrs (peer_addr cfg header)

behind_last-append :
    (b : ℕ) (s t : Bytes) → behind_last b (s ++ (b ∷ t)) ≡ some (or_default t (behind_last b t))
unfolding behind_last or_default
behind_last-append b [] t = first (behind_last b t)
  where
    first :
        (o : Option Bytes)
        → elim o [ some u ↦ some u | none ↦ if b == b then some t else none ]
          ≡ some (or_default t o)
    first (some u) = refl
    first none = ground arith
behind_last-append b (c ∷ s) t = rw (behind_last-append b s t) refl

-- Whatever the client wrote before the last comma is not read.
last_entry-append : (junk v : Bytes) → last_entry (junk ++ (b',' ∷ v)) ≡ last_entry v
unfolding last_entry or_default
last_entry-append junk v = rw (behind_last-append b',' junk v) refl

append-is_empty : (junk v : Bytes) (b : ℕ) → same_bytes (junk ++ (b ∷ v)) [] ≡ false
append-is_empty [] v b = refl
append-is_empty (c ∷ junk) v b = refl

module _ (net : Netip) where
  abbrev Allowed : List Bytes → Option net.Addr → Type 0
  Allowed cidrs peer =
      (a : net.Addr) × (entry : Bytes) × (p : net.Prefix) × (peer ≡ some a)
      × In entry cidrs
      × (net.parse_prefix entry ≡ some p)
      × (net.has_host_bits p ≡ false)
      × (net.contains p a ≡ true)

  covering :
      (a : net.Addr) (entry : Bytes) (o : Option net.Prefix)
      → covers net a o ≡ true
      → (p : net.Prefix) × (o ≡ some p) × (net.has_host_bits p ≡ false) × (net.contains p a ≡ true)
  unfolding covers
  covering a entry none h = cc
  covering a entry (some p) h = (p, refl, ground (arith, h), ground (arith, h))

  among :
      (a : net.Addr) (cidrs : List Bytes)
      → any (λ entry. covers net a (net.parse_prefix entry)) cidrs ≡ true
      → (entry : Bytes) × In entry cidrs × (covers net a (net.parse_prefix entry) ≡ true)
  among a [] h = cc
  among a (x ∷ cidrs) h = elim (Bool-cases (covers net a (net.parse_prefix x))) [
    | inl here ↦ (x, inl refl, here)
    | inr on ↦ let (entry, m, c) = among a cidrs (rw on at h) in (entry, inr m, c)
  ]

  judged : (cidrs : List Bytes) (o : Option net.Addr) → judge net cidrs o ≡ none → Allowed cidrs o
  unfolding judge
  judged cidrs none h = cc
  judged cidrs (some a) h =
      elim (Bool-cases (any (λ entry. covers net a (net.parse_prefix entry)) cidrs)) [
        | inr out ↦ absurd (refused _ (rw out at h))
        | inl found ↦
            let (entry, m, c) = among a cidrs found in
            let (p, parsed, strict, inside) = covering a entry (net.parse_prefix entry) c in
            (a, entry, p, refl, m, parsed, strict, inside)
      ]
    where
      refused : (e : Error) → some e ≢ none
      refused e p = cc

  -- Where an allowlist is configured, a delivery is accepted only for a peer that can be read and
  -- that an entry covers which can be read itself and has no host bits set.
  pub verify_africas_talking-Allowed :
      (cfg : VerifierConfig) (body : Bytes) (header : Header) (url : Bytes)
      → verify_africas_talking net cfg body header url ≡ none
      → (cfg.at_allowed_cidrs ≡ []) ⊎ Allowed cfg.at_allowed_cidrs (peer_addr net cfg header)
  unfolding verify_africas_talking decide_peer
  verify_africas_talking-Allowed cfg body header url h = by_list cfg.at_allowed_cidrs h
    where
      by_list :
          (cidrs : List Bytes)
          → decide_peer net cidrs (peer_addr net cfg header) ≡ none
          → (cidrs ≡ []) ⊎ Allowed cidrs (peer_addr net cfg header)
      by_list [] k = inl refl
      by_list (entry ∷ rest) k = inr (judged (entry ∷ rest) (peer_addr net cfg header) k)

  -- The decision is that of the last entry of the header: entries that a client puts before it
  -- change nothing.
  pub verify_africas_talking-prepend :
      (cfg : VerifierConfig) (body : Bytes) (header forged : Header) (url junk : Bytes)
      → same_bytes (header_value (peer_header cfg) header) [] ≡ false
      → header_value (peer_header cfg) forged
        ≡ junk ++ (b',' ∷ header_value (peer_header cfg) header)
      → verify_africas_talking net cfg body forged url
        ≡ verify_africas_talking net cfg body header url
  unfolding verify_africas_talking peer_addr
  verify_africas_talking-prepend cfg body header forged url junk given is_forged =
      ap (decide_peer net cfg.at_allowed_cidrs) same_peer
    where
      same_peer : peer_addr net cfg forged ≡ peer_addr net cfg header
      same_peer =
          rw
            (
              is_forged,
              given,
              append-is_empty junk (header_value (peer_header cfg) header) b',',
              last_entry-append junk (header_value (peer_header cfg) header),
            )
            refl

-- ===== src/Webhooks/Order.antt =====
-- The parameters that VerifyTwilio of internal/webhooks/verify_twilio.go sorts, in any order.
use orvexa.Base.{
  ◌∷◌, ◌≡◌, true, false, arith, refl, Bool, Bool-cases, inl, inr, subst, List, ap, Option, some,
  ◌∙◌, if◌then◌else◌, length, ◌==◌, ◌++◌,
}
use orvexa.Bytes.{Bytes, lex_lt, same_bytes, same_bytes_comm, same_bytes_sound}
use mathlib.Core.List.{[], Permᴰ}
use orvexa.Webhooks.Form.{
  Param, param_lt, insert_param, sort_params, verify_twilio, parse_query, check_digest, tokens_of,
  twilio_header, check_form, try_tokens, concat_params, invalid_signature,
}
use orvexa.Webhooks.{VerifierConfig, Header, header_value}
use mathlib.Core.Option.{none}

lex_asym : (s t : Bytes) → lex_lt s t ≡ true → lex_lt t s ≡ false
lex_asym [] [] h = cc
lex_asym [] (d ∷ t) h = refl
lex_asym (c ∷ s) [] h = cc
lex_asym (c ∷ s) (d ∷ t) h = ground (arith, lex_asym s t)

lex_total : (s t : Bytes) → lex_lt s t ≡ false → lex_lt t s ≡ false → same_bytes s t ≡ true
lex_total [] [] h k = refl
lex_total [] (d ∷ t) h k = cc
lex_total (c ∷ s) [] h k = cc
lex_total (c ∷ s) (d ∷ t) h k = ground (arith, lex_total s t)

lex_between : (x q p : Bytes) → lex_lt x q ≡ false → lex_lt x p ≡ true → lex_lt q p ≡ true
lex_between [] [] [] h k = cc
lex_between [] [] (e ∷ p) h k = refl
lex_between [] (d ∷ q) p h k = cc
lex_between (c ∷ x) q [] h k = cc
lex_between (c ∷ x) [] (e ∷ p) h k = refl
lex_between (c ∷ x) (d ∷ q) (e ∷ p) h k = ground (arith, lex_between x q p)

lex_irrefl : (s : Bytes) → lex_lt s s ≡ false
lex_irrefl [] = refl
lex_irrefl (c ∷ s) = ground (arith, lex_irrefl s)

lex_above : (s t : Bytes) → lex_lt s t ≡ false → same_bytes s t ≡ false → lex_lt t s ≡ true
lex_above s t h apart = elim (Bool-cases (lex_lt t s)) [
  | inl above ↦ above
  | inr below ↦ clash (same_bytes s t) (lex_total s t h below) apart
]
  where
    clash : (b : Bool) → b ≡ true → b ≡ false → lex_lt t s ≡ true
    clash b p q = cc

lex_apart : (s t : Bytes) → lex_lt s t ≡ true → same_bytes s t ≡ false
lex_apart [] [] h = cc
lex_apart [] (d ∷ t) h = refl
lex_apart (c ∷ s) [] h = cc
lex_apart (c ∷ s) (d ∷ t) h = ground (arith, lex_apart s t)

param_asym : (p q : Param) → param_lt p q ≡ true → param_lt q p ≡ false
param_asym (k, v) (l, u) h = elim (Bool-cases (same_bytes k l)) [
  | inl same ↦ rw (same_bytes_comm l k, same) (lex_asym v u (rw same at h))
  | inr apart ↦ rw (same_bytes_comm l k, apart) (lex_asym k l (rw apart at h))
]

param_total : (p q : Param) → param_lt p q ≡ false → param_lt q p ≡ false → p ≡ q
param_total (k, v) (l, u) h i = elim (Bool-cases (same_bytes k l)) [
  | inl same ↦
      let first : k ≡ l = same_bytes_sound k l same in
      let second : v ≡ u =
        same_bytes_sound v u (lex_total v u (rw same at h) (rw (same_bytes_comm l k, same) at i)) in
      both first second
  | inr apart ↦
      clash (same_bytes k l) (lex_total k l (rw apart at h) (rw (same_bytes_comm l k, apart) at i))
        apart
]
  where
    both : k ≡ l → v ≡ u → ◌≡◌ {A = Param} (k, v) (l, u)
    both a b = cc

    clash : (b : Bool) → b ≡ true → b ≡ false → ◌≡◌ {A = Param} (k, v) (l, u)
    clash b a c = cc

param_between : (x q p : Param) → param_lt x q ≡ false → param_lt x p ≡ true → param_lt q p ≡ true
param_between (k, v) (l, u) (m, t) h i = elim (Bool-cases (same_bytes k l)) [
  | inl same ↦
      let first : k ≡ l = same_bytes_sound k l same in
      subst (λ y. param_lt (y, u) (m, t) ≡ true) first
        (elim (Bool-cases (same_bytes k m)) [
          | inl one ↦ rw one (lex_between v u t (rw same at h) (rw one at i))
          | inr two ↦ rw two (rw two at i)
        ])
  | inr apart ↦ elim (Bool-cases (same_bytes k m)) [
    | inl one ↦
        subst (λ y. param_lt (l, u) (y, t) ≡ true) (same_bytes_sound k m one)
          (rw (same_bytes_comm l k, apart) (lex_above k l (rw apart at h) apart))
    | inr two ↦
        let below : lex_lt l m ≡ true = lex_between k l m (rw apart at h) (rw two at i) in
        rw (lex_apart l m below) below
  ]
]

twice :
    (p q : Param)
    → param_lt q p ≡ false
    → param_lt p q ≡ false
    → ◌≡◌ {A = Param × Param} (p, q) (q, p)
twice p q a b = let e = param_total p q b a in cc

insert_param-insert_param :
    (p q : Param) (s : List Param)
    → insert_param p (insert_param q s) ≡ insert_param q (insert_param p s)
unfolding insert_param
insert_param-insert_param p q [] = elim (Bool-cases (param_lt q p)) [
  | inl below ↦ rw (below, param_asym q p below) refl
  | inr above ↦ elim (Bool-cases (param_lt p q)) [
    | inl under ↦ rw (above, under) refl
    | inr over ↦
        rw (above, over) (ap {A = Param × Param} (λ (a, b). a ∷ b ∷ []) (twice p q above over))
  ]
]
insert_param-insert_param p q (x ∷ xs) = elim (Bool-cases (param_lt x p)) [
  | inl xp ↦ elim (Bool-cases (param_lt x q)) [
    | inl xq ↦ rw (xq, xp, xq) (ap (◌∷◌ x) (insert_param-insert_param p q xs))
    | inr not_xq ↦ simp (not_xq, xp, param_between x q p not_xq xp)
  ]
  | inr not_xp ↦ elim (Bool-cases (param_lt x q)) [
    | inl xq ↦ simp (xq, not_xp, param_between x p q not_xp xq)
    | inr not_xq ↦ elim (Bool-cases (param_lt q p)) [
      | inl qp ↦ simp (not_xq, not_xp, qp, param_asym q p qp)
      | inr not_qp ↦ elim (Bool-cases (param_lt p q)) [
        | inl pq ↦ simp (not_xq, not_xp, not_qp, pq)
        | inr not_pq ↦
            ap {A = Param × Param} (λ (a, b). insert_param a (insert_param b (x ∷ xs)))
              (twice p q not_qp not_pq)
      ]
    ]
  ]
]

-- The sorted parameters do not depend on the order in which they come.
sort_params-Perm : {ps qs : List Param} → Permᴰ ps qs → sort_params ps ≡ sort_params qs
unfolding sort_params
sort_params-Perm Permᴰ.nil = refl
sort_params-Perm (Permᴰ.cons {a = a} {b = b} {l₁ = l₁} {l₂ = l₂} e d) =
    ap (λ x. insert_param x (sort_params l₁)) e ∙ ap (insert_param b) (sort_params-Perm d)
sort_params-Perm (Permᴰ.swap {a = a} {b = b} {a' = a'} {b' = b'} {l = l} e f) =
    ap (λ x. insert_param x (insert_param b (sort_params l))) e
    ∙ ap (λ x. insert_param b' (insert_param x (sort_params l))) f
    ∙ insert_param-insert_param b' a' (sort_params l)
sort_params-Perm (Permᴰ.trans d e) = sort_params-Perm d ∙ sort_params-Perm e

-- Two bodies with the same parameters in another order are accepted alike.
pub verify_twilio-Perm :
    (hmac : Bytes → Bytes → Bytes) (from_base64 : Bytes → Option Bytes) (cfg : VerifierConfig)
    (body body' : Bytes) (header : Header) (url : Bytes) (ps qs : List Param)
    → parse_query body ≡ some ps
    → parse_query body' ≡ some qs
    → Permᴰ ps qs
    → verify_twilio hmac from_base64 cfg body header url
      ≡ verify_twilio hmac from_base64 cfg body' header url
unfolding verify_twilio check_digest check_form
verify_twilio-Perm hmac from_base64 cfg body body' header url ps qs first second perm =
    rw (checked (from_base64 (header_value twilio_header header))) refl
  where
    checked :
        (o : Option Bytes)
        → check_digest hmac from_base64 (tokens_of hmac from_base64 cfg) url body o
          ≡ check_digest hmac from_base64 (tokens_of hmac from_base64 cfg) url body' o
    checked none = refl
    checked (some d) =
        rw (first, second)
          (ap
            (λ sorted.
              if length d == 20
              then try_tokens hmac from_base64 (tokens_of hmac from_base64 cfg)
                  (url ++ concat_params sorted) d
              else some invalid_signature)
            (sort_params-Perm perm))

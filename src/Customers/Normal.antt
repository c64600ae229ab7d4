-- ===== src/Customers/Normal.antt =====
-- NormalizeIdentifier of internal/customers/service.go is stable: a normal form is its own.
use orvexa.Base.{
  ◌∷◌, ◌≡◌, Bool, is_space, ℕ, map, true, Bool-cases, ◌&&◌, not, false, inl, ◌==◌, inr, refl, ap,
  arith, subst, sym, ◌∙◌,
}
use orvexa.Customers.Identifiers.{
  Text, trim, trim_left, trim_right, accepted, without_blanks, is_digit, normal_phone, all_of,
  is_empty, with_plus, trim_zeros, normalize_email, normalize_identifier, normalize_name,
  normalize_phone, phone_matches, digits_match, IdType, unknown_type, phone, whatsapp, email,
  external_crm, handle,
}
use orvexa.Errors.{ok}
use mathlib.Core.Bool.{false}
use mathlib.Core.List.{[]}

unfoldable starts_plain : Text → Bool
starts_plain [] = true
starts_plain (c ∷ s) = not (is_space c)

starts_plain-trim_left : (s : Text) → starts_plain (trim_left s) ≡ true
unfolding trim_left starts_plain
starts_plain-trim_left [] = refl
starts_plain-trim_left (c ∷ s) = elim (Bool-cases (is_space c)) [
  | inl space ↦ rw space (starts_plain-trim_left s)
  | inr plain ↦ rw (plain, plain) refl
]

starts_plain-trim_right : (s : Text) → starts_plain s ≡ true → starts_plain (trim_right s) ≡ true
unfolding trim_right starts_plain
starts_plain-trim_right [] h = refl
starts_plain-trim_right (c ∷ s) h = elim (Bool-cases (is_space c)) [
  | inl space ↦ ground (arith, space)
  | inr plain ↦ rw (plain, plain) refl
]

trim_left-plain : (s : Text) → starts_plain s ≡ true → trim_left s ≡ s
unfolding trim_left starts_plain
trim_left-plain [] h = refl
trim_left-plain (c ∷ s) h = elim (Bool-cases (is_space c)) [
  | inl space ↦ ground (arith, space)
  | inr plain ↦ rw plain refl
]

trim_right-again : (s : Text) → trim_right (trim_right s) ≡ trim_right s
unfolding trim_right
trim_right-again [] = refl
trim_right-again (c ∷ s) = elim (Bool-cases (is_space c && is_empty (trim_right s))) [
  | inl gone ↦ rw gone refl
  | inr kept ↦ rw (kept, trim_right-again s, kept) refl
]

trim-again : (s : Text) → trim (trim s) ≡ trim s
unfolding trim
trim-again s =
    rw
      (trim_left-plain (trim_right (trim_left s))
        (starts_plain-trim_right (trim_left s) (starts_plain-trim_left s)))
      (trim_right-again (trim_left s))

module _ (f : ℕ → ℕ) (keeps : (c : ℕ) → is_space (f c) ≡ is_space c) where
  trim_left-map : (s : Text) → trim_left (map f s) ≡ map f (trim_left s)
  unfolding trim_left
  trim_left-map [] = refl
  trim_left-map (c ∷ s) = elim (Bool-cases (is_space c)) [
    | inl space ↦ rw (keeps c, space) (trim_left-map s)
    | inr plain ↦ rw (keeps c, plain) refl
  ]

  is_empty-map : (s : Text) → is_empty (map f s) ≡ is_empty s
  is_empty-map [] = refl
  is_empty-map (c ∷ s) = refl

  trim_right-map : (s : Text) → trim_right (map f s) ≡ map f (trim_right s)
  unfolding trim_right
  trim_right-map [] = refl
  trim_right-map (c ∷ s) = elim (Bool-cases (is_space c && is_empty (trim_right s))) [
    | inl gone ↦ rw (keeps c, trim_right-map s, is_empty-map (trim_right s), gone) refl
    | inr kept ↦ rw (keeps c, trim_right-map s, is_empty-map (trim_right s), kept) refl
  ]

  trim-map : (s : Text) → trim (map f s) ≡ map f (trim s)
  unfolding trim
  trim-map s = rw (trim_left-map s) (trim_right-map (trim_left s))

map-again : (f : ℕ → ℕ) (again : (c : ℕ) → f (f c) ≡ f c) (s : Text) → map f (map f s) ≡ map f s
map-again f again [] = refl
map-again f again (c ∷ s) = rw (again c, map-again f again s) refl

accepted-same : (b : Bool) (v u : Text) → accepted b v ≡ ok u → (b ≡ true) × (v ≡ u)
unfolding accepted
accepted-same true v u h = (refl, cc)
accepted-same false v u h = cc

digit-plain : (c : ℕ) → is_digit c ≡ true → is_space c ≡ false
unfolding is_space
digit-plain c h = ground arith

trim_right-digits : (s : Text) → all_of is_digit s ≡ true → trim_right s ≡ s
unfolding trim_right all_of
trim_right-digits [] h = refl
trim_right-digits (c ∷ s) h = elim (Bool-cases (is_digit c)) [
  | inl digit ↦ rw (digit-plain c digit) (ap (◌∷◌ c) (trim_right-digits s (rw digit at h)))
  | inr other ↦ ground (arith, other)
]

without_blanks-digits : (s : Text) → all_of is_digit s ≡ true → without_blanks s ≡ s
unfolding without_blanks all_of
without_blanks-digits [] h = refl
without_blanks-digits (c ∷ s) h = elim (Bool-cases (is_digit c)) [
  | inl digit ↦
      let apart : (c == b' ') ≡ false = ground (arith, digit) in
      rw apart (ap (◌∷◌ c) (without_blanks-digits s (rw digit at h)))
  | inr other ↦ ground (arith, other)
]

-- A plus sign and digits are a normal form.
normal_phone-digits :
    (s : Text)
    → all_of is_digit s ≡ true
    → (trim (b'+' ∷ s) ≡ b'+' ∷ s) × (normal_phone (b'+' ∷ s) ≡ b'+' ∷ s)
unfolding trim trim_left trim_right is_space normal_phone with_plus without_blanks trim_zeros
normal_phone-digits s h =
    (rw (trim_right-digits s h) refl, rw (without_blanks-digits s h) (unzeroed s))
  where
    unzeroed : (t : Text) → with_plus (trim_zeros (b'+' ∷ t)) ≡ b'+' ∷ t
    unzeroed [] = refl
    unzeroed (c ∷ t) = refl

with_plus-first : (s : Text) → (t : Text) × (with_plus s ≡ b'+' ∷ t)
unfolding with_plus
with_plus-first [] = ([], refl)
with_plus-first (c ∷ s) = elim (Bool-cases (c == b'+')) [
  | inl plus ↦ (s, rw plus (ap (λ d. d ∷ s) (ground (arith, plus))))
  | inr other ↦ (c ∷ s, rw other refl)
]

digits_of_match : (t : Text) → phone_matches (b'+' ∷ t) ≡ true → all_of is_digit t ≡ true
unfolding phone_matches digits_match
digits_of_match t m = ground (arith, m)

accepted-true : (x : Text) → accepted true x ≡ ok x
unfolding accepted
accepted-true x = refl

normalize_phone-again : (v u : Text) → normalize_phone v ≡ ok u → normalize_phone (trim u) ≡ ok u
unfolding normalize_phone normal_phone
normalize_phone-again v u h =
    let (fits, is_u) = accepted-same (phone_matches (normal_phone v)) (normal_phone v) u h in
    let (t, plus) = with_plus-first (trim_zeros (without_blanks v)) in
    let is_plus : u ≡ b'+' ∷ t = sym is_u ∙ plus in
    let matches : phone_matches (b'+' ∷ t) ≡ true = subst (λ x. phone_matches x ≡ true) plus fits in
    let (trimmed, same) = normal_phone-digits t (digits_of_match t matches) in
    rw (is_plus, trimmed, same, matches) (accepted-true (b'+' ∷ t))

normalize_name-again :
    (v u : Text) → normalize_name (trim v) ≡ ok u → normalize_name (trim u) ≡ ok u
unfolding normalize_name
normalize_name-again v u h =
    let (fits, is_u) = accepted-same _ (trim v) u h in
    let trimmed : trim u ≡ trim v = subst (λ x. trim x ≡ trim v) is_u (trim-again v) in rw trimmed h

module _ (to_lower : ℕ → ℕ) (again : (c : ℕ) → to_lower (to_lower c) ≡ to_lower c)
    (keeps : (c : ℕ) → is_space (to_lower c) ≡ is_space c) where
  normalize_email-again :
      (v u : Text)
      → normalize_email to_lower (trim v) ≡ ok u
      → normalize_email to_lower (trim u) ≡ ok u
  unfolding normalize_email
  normalize_email-again v u h =
      let (fits, is_u) = accepted-same _ (map to_lower (trim v)) u h in
      let trimmed : trim u ≡ map to_lower (trim v) =
        subst (λ x. trim x ≡ map to_lower (trim v)) is_u
          (trim-map to_lower keeps (trim v) ∙ ap (map to_lower) (trim-again v)) in
      rw (trimmed, map-again to_lower again (trim v)) h

  -- A value that was accepted is its own normal form: normalized again, as Resolve does with a value
  -- that Create stored, it is accepted and does not change. It is asked of unicode.ToLower that it
  -- does nothing to its own results, and neither makes nor removes a space.
  pub normalize_identifier-again :
      (t : IdType) (value u : Text)
      → normalize_identifier to_lower t value ≡ ok u
      → normalize_identifier to_lower t u ≡ ok u
  unfolding normalize_identifier
  normalize_identifier-again phone value u h = normalize_phone-again (trim value) u h
  normalize_identifier-again whatsapp value u h = normalize_phone-again (trim value) u h
  normalize_identifier-again email value u h = normalize_email-again value u h
  normalize_identifier-again external_crm value u h = normalize_name-again value u h
  normalize_identifier-again handle value u h = normalize_name-again value u h
  normalize_identifier-again (unknown_type name) value u h = cc

-- ===== src/Strconv/RoundTrip.antt =====
-- A number that was printed is read back.
use native.Mathlib.Nat.{pow-succ'}
use orvexa.Base.{
  ◌^◌, ◌∷◌, ℕ, ◌≤◌, All, suc, ◌≢◌, ◌<◌, Bool-cases, [], ◌++◌, ◌≡◌, ltb, length, arith, inl, some,
  ◌/◌, inr, subst, ◌==◌, ◌+◌, append_assoc, All-append, false, append-nil, ◌%◌, length-append, refl,
  ap, ◌*◌,
}
use orvexa.Strconv.{itoa, atoi, digits, scan, unsigned, within, max_int}
use Prim.Native.Nat.{zero}
use orvexa.Bytes.{Bytes}

abbrev pub IsDigit : ℕ → Type 0
IsDigit c = (b'0' ≤ c) × (c ≤ b'9')

scan-digits : (f n : ℕ) (rest : Bytes) → n < f → scan 0 (digits f n ++ rest) ≡ scan n rest
unfolding scan digits
scan-digits zero n rest h = absurd (omega arith)
scan-digits (suc f) n rest h = elim (Bool-cases (ltb n 10)) [
  | inl one ↦ rw one (ground arith)
  | inr more ↦
      rw
        (
          more,
          append_assoc (digits f (n / 10)) ((b'0' + n % 10) ∷ []) rest,
          scan-digits f (n / 10) ((b'0' + n % 10) ∷ rest) (ground arith),
        )
        (ground arith)
]

digits-All : (f n : ℕ) → All IsDigit (digits f n)
unfolding digits
digits-All zero n = tt
digits-All (suc f) n = elim (Bool-cases (ltb n 10)) [
  | inl one ↦ rw one ((omega arith, ground arith), tt)
  | inr more ↦ rw more (
      All-append IsDigit (digits f (n / 10)) ((b'0' + n % 10) ∷ []) (digits-All f (n / 10))
        ((omega arith, omega arith), tt))
]

pub itoa-All : (n : ℕ) → All IsDigit (itoa n)
unfolding itoa
itoa-All n = digits-All (suc n) n

-- A text of digits is read without a sign.
atoi-unsigned :
    (s : Bytes) (n : ℕ) → All IsDigit s → s ≢ [] → scan 0 s ≡ some n → n ≤ max_int → atoi s ≡ some n
unfolding atoi unsigned within
atoi-unsigned [] n d ne h fits = absurd (ne refl)
atoi-unsigned (c ∷ s) n d ne h fits =
    let no_minus : (c == b'-') ≡ false = ground arith in
    let no_plus : (c == b'+') ≡ false = ground arith in rw (no_minus, no_plus, h) (ground arith)

digits-ne-nil : (f n : ℕ) → digits (suc f) n ≢ []
unfolding digits
digits-ne-nil f n = elim (Bool-cases (ltb n 10)) [
  | inl one ↦ rw one (cc)
  | inr more ↦ rw more (λ e. absurd (omega (arith, long, ap length e)))
]
  where
    long : length (digits f (n / 10) ++ (b'0' + n % 10) ∷ []) ≡ length (digits f (n / 10)) + 1
    long = length-append (digits f (n / 10)) ((b'0' + n % 10) ∷ [])

pub itoa-ne-nil : (n : ℕ) → itoa n ≢ []
unfolding itoa
itoa-ne-nil n = digits-ne-nil n n

pub atoi-itoa : (n : ℕ) → n ≤ max_int → atoi (itoa n) ≡ some n
unfolding itoa
atoi-itoa n fits =
    atoi-unsigned (digits (suc n) n) n (digits-All (suc n) n) (digits-ne-nil n n)
      (subst (λ s. scan 0 s ≡ some n) (append-nil (digits (suc n) n))
        (unfold scan in scan-digits (suc n) n [] (omega arith)))
      fits

-- A number below 10 ^ k has at most k digits.
length-digits : (k f n : ℕ) → n < 10 ^ suc k → length (digits f n) ≤ suc k
unfolding digits
length-digits k zero n h = omega arith
length-digits zero (suc f) n h = elim (Bool-cases (ltb n 10)) [
  | inl one ↦ rw one (omega arith)
  | inr more ↦ absurd (ground arith)
]
length-digits (suc k) (suc f) n h = elim (Bool-cases (ltb n 10)) [
  | inl one ↦ rw one (omega arith)
  | inr more ↦ rw more (
      omega (
        arith,
        length-append (digits f (n / 10)) ((b'0' + n % 10) ∷ []),
        length-digits k f (n / 10) (tenth n (10 ^ suc k) (rw (pow-succ' 10 (suc k)) at h)),
      ))
]
  where
    tenth : (m p : ℕ) → m < 10 * p → m / 10 < p
    tenth m p lt = omega arith

pub length-itoa : (k n : ℕ) → n < 10 ^ suc k → length (itoa n) ≤ suc k
unfolding itoa
length-itoa k n h = length-digits k (suc n) n h

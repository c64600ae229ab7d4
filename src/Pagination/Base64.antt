-- ===== src/Pagination/Base64.antt =====
-- encoding/base64, RawURLEncoding.
use orvexa.Base.{
  ◌∷◌, List, ◌/◌, ℕ, All, Option, ◌≡◌, ◌<◌, if◌then◌else◌, ◌%◌, some, none, ◌==◌, ◌*◌, leb, arith,
  ◌++◌, ltb, ◌||◌, ◌+◌, ◌&&◌, ◌-◌, false, refl,
}
use orvexa.Bytes.{Bytes}
use mathlib.Core.Option.{none}
use mathlib.Core.List.{[]}

-- The alphabet of the URL encoding.
unfoldable pub symbol : ℕ → ℕ
symbol n =
    if ltb n 26
    then n + 65
    else if ltb n 52
    then n + 71
    else if ltb n 62
    then n - 4
    else if n == 62
    then b'-'
    else b'_'

unfoldable pub value_of : ℕ → Option ℕ
value_of c =
    if leb b'A' c && leb c b'Z'
    then some (c - 65)
    else if leb b'a' c && leb c b'z'
    then some (c - 71)
    else if leb b'0' c && leb c b'9'
    then some (c + 4)
    else if c == b'-'
    then some 62
    else if c == b'_'
    then some 63
    else none

unfoldable pub encode : Bytes → Bytes
unfolding symbol
encode [] = []
encode (a ∷ []) = symbol (a / 4) ∷ symbol (a % 4 * 16) ∷ []
encode (a ∷ b ∷ []) = symbol (a / 4) ∷ symbol (a % 4 * 16 + b / 16) ∷ symbol (b % 16 * 4) ∷ []
encode (a ∷ b ∷ c ∷ s) =
    symbol (a / 4)
    ∷ symbol (a % 4 * 16 + b / 16)
    ∷ symbol (b % 16 * 4 + c / 64)
    ∷ symbol (c % 64)
    ∷ encode s

-- The values of the symbols; the decoder passes over line breaks.
unfoldable pub cons_value : Option ℕ → Option (List ℕ) → Option (List ℕ)
cons_value (some v) (some vs) = some (v ∷ vs)
cons_value _ _ = none

unfoldable pub values : Bytes → Option (List ℕ)
unfolding value_of cons_value
values [] = some []
values (c ∷ s) =
    let rest = values s in if c == b'\n' || c == b'\r' then rest else cons_value (value_of c) rest

abbrev pub prefix_bytes : Bytes → Option Bytes → Option Bytes
prefix_bytes s none = none
prefix_bytes s (some t) = some (s ++ t)

unfoldable pub join : List ℕ → Option Bytes
join [] = some []
join (p ∷ []) = none
join (p ∷ q ∷ []) = some ((p * 4 + q / 16) ∷ [])
join (p ∷ q ∷ r ∷ []) = some ((p * 4 + q / 16) ∷ (q % 16 * 16 + r / 4) ∷ [])
join (p ∷ q ∷ r ∷ t ∷ s) =
    prefix_bytes ((p * 4 + q / 16) ∷ (q % 16 * 16 + r / 4) ∷ (r % 4 * 64 + t) ∷ []) (join s)

unfoldable pub decode_values : Option (List ℕ) → Option Bytes
decode_values none = none
decode_values (some vs) = join vs

-- DecodeString
unfoldable pub decode : Bytes → Option Bytes
unfolding decode_values
decode s = decode_values (values s)

abbrev pub IsByte : ℕ → Type 0
IsByte c = c < 256

-- A symbol stands for its value, and is no line break and no space.
value_of-symbol : (n : ℕ) → n < 64 → value_of (symbol n) ≡ some n
unfolding value_of symbol
value_of-symbol n h = ground arith

symbol-gt : (n : ℕ) → n < 64 → 32 < symbol n
unfolding symbol
symbol-gt n h = ground arith

values-symbol :
    (n : ℕ) (s : Bytes) → n < 64 → values (symbol n ∷ s) ≡ cons_value (some n) (values s)
unfolding values
values-symbol n s h =
    let no_break : (symbol n == b'\n' || symbol n == b'\r') ≡ false =
      ground (arith, symbol-gt n h) in
    rw (no_break, value_of-symbol n h) refl

-- The six-bit values of a text.
sextets : Bytes → List ℕ
sextets [] = []
sextets (a ∷ []) = (a / 4) ∷ (a % 4 * 16) ∷ []
sextets (a ∷ b ∷ []) = (a / 4) ∷ (a % 4 * 16 + b / 16) ∷ (b % 16 * 4) ∷ []
sextets (a ∷ b ∷ c ∷ s) =
    (a / 4) ∷ (a % 4 * 16 + b / 16) ∷ (b % 16 * 4 + c / 64) ∷ (c % 64) ∷ sextets s

values-encode : (s : Bytes) → All IsByte s → values (encode s) ≡ some (sextets s)
unfolding encode sextets cons_value
values-encode [] h = unfold values in refl
values-encode (a ∷ []) h =
    rw (values-symbol (a / 4) _ (omega arith), values-symbol (a % 4 * 16) _ (omega arith))
      (unfold values in refl)
values-encode (a ∷ b ∷ []) h =
    rw
      (
        values-symbol (a / 4) _ (omega arith),
        values-symbol (a % 4 * 16 + b / 16) _ (omega arith),
        values-symbol (b % 16 * 4) _ (omega arith),
      )
      (unfold values in refl)
values-encode (a ∷ b ∷ c ∷ s) h =
    rw
      (
        values-symbol (a / 4) _ (omega arith),
        values-symbol (a % 4 * 16 + b / 16) _ (omega arith),
        values-symbol (b % 16 * 4 + c / 64) _ (omega arith),
        values-symbol (c % 64) _ (omega arith),
        values-encode s h.1.1.1,
      )
      refl

join-sextets : (s : Bytes) → All IsByte s → join (sextets s) ≡ some s
unfolding join sextets
join-sextets [] h = refl
join-sextets (a ∷ []) h = ground arith
join-sextets (a ∷ b ∷ []) h = ground arith
join-sextets (a ∷ b ∷ c ∷ s) h = ground (arith, join-sextets s h.1.1.1)

-- What was encoded is decoded to the same bytes.
pub decode-encode : (s : Bytes) → All IsByte s → decode (encode s) ≡ some s
unfolding decode decode_values
decode-encode s h = rw (values-encode s h) (join-sextets s h)

-- No symbol is a space.
pub encode-All : (s : Bytes) → All IsByte s → All (λ c. 32 < c) (encode s)
unfolding encode
encode-All [] h = tt
encode-All (a ∷ []) h =
    (symbol-gt (a / 4) (omega arith), (symbol-gt (a % 4 * 16) (omega arith), tt))
encode-All (a ∷ b ∷ []) h = (
  symbol-gt (a / 4) (omega arith),
  (symbol-gt (a % 4 * 16 + b / 16) (omega arith), (symbol-gt (b % 16 * 4) (omega arith), tt)),
)
encode-All (a ∷ b ∷ c ∷ s) h = (
  symbol-gt (a / 4) (omega arith),
  (
    symbol-gt (a % 4 * 16 + b / 16) (omega arith),
    (
      symbol-gt (b % 16 * 4 + c / 64) (omega arith),
      (symbol-gt (c % 64) (omega arith), encode-All s h.1.1.1),
    ),
  ),
)

-- ===== src/Strconv.antt =====
-- strconv.Itoa and strconv.Atoi over the bytes of a text, as the codecs of the program use them.
-- Their callers refuse a negative number as they refuse an error, so both are `none`.
pub mod RoundTrip
use orvexa.Bytes.{Bytes}
use orvexa.Base.{
  ◌∷◌, ℕ, zero, suc, ◌+◌, ◌-◌, ◌*◌, ◌/◌, ◌%◌, ◌^◌, List, [], ◌++◌, Option, none, some, Bool, ltb,
  leb, ◌==◌, ◌&&◌, if◌then◌else◌,
}

-- The digits of a number below the fuel.
unfoldable pub digits : ℕ → ℕ → Bytes
digits zero n = []
digits (suc f) n =
    let more = digits f (n / 10) ++ (b'0' + n % 10) ∷ [] in
    if ltb n 10 then (b'0' + n) ∷ [] else more

unfoldable pub itoa : ℕ → Bytes
unfolding digits
itoa n = digits (suc n) n

abbrev pub max_int : ℕ
max_int = 9223372036854775807

abbrev pub is_digit : ℕ → Bool
is_digit c = leb b'0' c && leb c b'9'

unfoldable pub scan : ℕ → Bytes → Option ℕ
scan n [] = some n
scan n (c ∷ s) = if is_digit c then scan (n * 10 + (c - b'0')) s else none

unfoldable pub unsigned : Bytes → Option ℕ
unfolding scan
unsigned [] = none
unsigned (c ∷ s) = scan 0 (c ∷ s)

unfoldable pub within : ℕ → Option ℕ → Option ℕ
within limit none = none
within limit (some n) = if leb n limit then some n else none

unfoldable pub atoi : Bytes → Option ℕ
unfolding unsigned within
atoi [] = none
atoi (c ∷ s) =
    if c == b'-'
    then within 0 (unsigned s)
    else if c == b'+'
    then within max_int (unsigned s)
    else within max_int (unsigned (c ∷ s))

-- ===== src/Hex.antt =====
-- encoding/hex, as the signatures of the webhooks use it.
use orvexa.Base.{
  ◌∷◌, ℕ, Option, if◌then◌else◌, All, some, ◌/◌, ◌<◌, ◌%◌, ◌≡◌, leb, ltb, ◌*◌, none, ◌&&◌, arith,
  ◌+◌, ◌-◌, ap, refl, length,
}
use orvexa.Bytes.{Bytes}
use mathlib.Core.List.{[]}

unfoldable pub digit : ℕ → ℕ
digit n = if ltb n 10 then b'0' + n else n + 87

-- Both cases of a letter are read.
unfoldable pub nibble : ℕ → Option ℕ
nibble c =
    if leb b'0' c && leb c b'9'
    then some (c - b'0')
    else if leb b'a' c && leb c b'f'
    then some (c - 87)
    else if leb b'A' c && leb c b'F'
    then some (c - 55)
    else none

unfoldable pub encode : Bytes → Bytes
unfolding digit
encode [] = []
encode (c ∷ s) = digit (c / 16) ∷ digit (c % 16) ∷ encode s

unfoldable pub join : Option ℕ → Option ℕ → Option Bytes → Option Bytes
join (some h) (some l) (some s) = some ((h * 16 + l) ∷ s)
join _ _ _ = none

unfoldable pub decode : Bytes → Option Bytes
unfolding nibble join
decode [] = some []
decode (c ∷ []) = none
decode (h ∷ l ∷ s) = let rest = decode s in join (nibble h) (nibble l) rest

nibble-digit : (n : ℕ) → n < 16 → nibble (digit n) ≡ some n
unfolding nibble digit
nibble-digit n h = ground arith

-- Every text of bytes is read back from its digits.
pub decode-encode : (s : Bytes) → All (λ c. c < 256) s → decode (encode s) ≡ some s
unfolding decode encode join
decode-encode [] h = refl
decode-encode (c ∷ s) h =
    rw
      (
        nibble-digit (c / 16) (omega arith),
        nibble-digit (c % 16) (omega arith),
        decode-encode s h.1,
      )
      (ap (λ n. some (n ∷ s)) (omega arith))

pub length-encode : (s : Bytes) → length (encode s) ≡ length s * 2
unfolding encode
length-encode [] = refl
length-encode (c ∷ s) = omega (arith, length-encode s)

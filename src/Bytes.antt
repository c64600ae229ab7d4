-- ===== src/Bytes.antt =====
-- Texts as lists of bytes, and the first place of a byte in a text.
use Prim.Native.Char.{code}
use orvexa.Base.{
  ◌∷◌, List, ℕ, String, All, ◌++◌, ◌≡◌, [], Option, some, ◌==◌, none, All-append, length,
  if◌then◌else◌, arith, false, refl, ◌+◌, suc, Bool-cases, inl, inr, Bool, leb, true, ◌&&◌, ltb,
}

abbrev pub Bytes : Type 0
Bytes = List ℕ

-- The bytes of an ASCII text.
abbrev pub codes : String → Bytes
codes String.[] = []
codes (String.◌∷◌ c s) = code c ∷ codes s

abbrev pub same_bytes : Bytes → Bytes → Bool
same_bytes [] [] = true
same_bytes [] (d ∷ t) = false
same_bytes (c ∷ s) [] = false
same_bytes (c ∷ s) (d ∷ t) = c == d && same_bytes s t

abbrev pub lower_byte : ℕ → ℕ
lower_byte c = if leb b'A' c && leb c b'Z' then c + 32 else c

-- strings.ToLower, on ASCII
abbrev pub lower : Bytes → Bytes
lower [] = []
lower (c ∷ s) = lower_byte c ∷ lower s

-- strings.EqualFold, on ASCII
abbrev pub equal_fold : Bytes → Bytes → Bool
equal_fold s t = same_bytes (lower s) (lower t)

-- s < t on strings
abbrev pub lex_lt : Bytes → Bytes → Bool
lex_lt [] [] = false
lex_lt [] (d ∷ t) = true
lex_lt (c ∷ s) [] = false
lex_lt (c ∷ s) (d ∷ t) = if c == d then lex_lt s t else ltb c d

pub same_bytes_sound : (s t : Bytes) → same_bytes s t ≡ true → s ≡ t
same_bytes_sound [] [] h = refl
same_bytes_sound [] (d ∷ t) h = cc
same_bytes_sound (c ∷ s) [] h = cc
same_bytes_sound (c ∷ s) (d ∷ t) h = grind (arith, same_bytes_sound s t)

pub same_bytes_refl : (s : Bytes) → same_bytes s s ≡ true
same_bytes_refl [] = refl
same_bytes_refl (c ∷ s) = grind (arith, same_bytes_refl s)

unfoldable pub extend : ℕ → Option (Bytes × Bytes) → Option (Bytes × Bytes)
extend c none = none
extend c (some (s, t)) = some (c ∷ s, t)

-- What stands before the first such byte, and what stands after it.
unfoldable pub break_at : ℕ → Bytes → Option (Bytes × Bytes)
unfolding extend
break_at b [] = none
break_at b (c ∷ s) = if c == b then some ([], s) else extend c (break_at b s)

-- The byte does not stand in the text.
abbrev pub Lacks : ℕ → Bytes → Type 0
Lacks b = All (λ c. (c == b) ≡ false)

pub break_at-append : (b : ℕ) (s t : Bytes) → Lacks b s → break_at b (s ++ (b ∷ t)) ≡ some (s, t)
unfolding break_at extend
break_at-append b [] t h = ground arith
break_at-append b (c ∷ s) t h = rw (h.0, break_at-append b s t h.1) refl

pub Lacks-append : (b : ℕ) (s t : Bytes) → Lacks b s → Lacks b t → Lacks b (s ++ t)
Lacks-append b s t = All-append (λ c. (c == b) ≡ false) s t

pub break_at-length :
    (b : ℕ) (s before after : Bytes)
    → break_at b s ≡ some (before, after)
    → length before + length after + 1 ≡ length s
unfolding break_at
break_at-length b [] before after h = cc
break_at-length b (c ∷ s) before after h = elim (Bool-cases (c == b)) [
  | inl found ↦ ground arith
  | inr on ↦ extended (break_at b s) (break_at-length b s) before after (rw on at h)
]
  where
    extended :
        (o : Option (Bytes × Bytes))
        → ((x y : Bytes) → o ≡ some (x, y) → length x + length y + 1 ≡ length s)
        → (x y : Bytes) → extend c o ≡ some (x, y)
        → length x + length y + 1 ≡ suc (length s)
    extended none k x y e = cc
    extended (some (x', y')) k x y e = omega (arith, k x' y' refl, first, second)
      where
        first : length x ≡ suc (length x')
        first = cc

        second : length y ≡ length y'
        second = cc

pub same_bytes_comm : (s t : Bytes) → same_bytes s t ≡ same_bytes t s
same_bytes_comm [] [] = refl
same_bytes_comm [] (d ∷ t) = refl
same_bytes_comm (c ∷ s) [] = refl
same_bytes_comm (c ∷ s) (d ∷ t) = ground (arith, same_bytes_comm s t)

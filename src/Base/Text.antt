-- ===== src/Base/Text.antt =====
-- Go strings: the length in bytes of the UTF-8 form, the length in runes, and blank texts.
use Prim.Native.Nat.{ℕ, ◌+◌, suc}
use Prim.Native.String.{String}
use Prim.Native.Char.{code}
use orvexa.Base.Tests.{if◌then◌else◌, ltb, leb, ◌==◌}
use mathlib.Core.Bool.{Bool, true, ◌&&◌, ◌||◌}

unfoldable pub char_bytes : ℕ → ℕ
char_bytes c = if ltb c 128 then 1 else if ltb c 2048 then 2 else if ltb c 65536 then 3 else 4

unfoldable pub byte_length : String → ℕ
unfolding char_bytes
byte_length String.[] = 0
byte_length (String.◌∷◌ c s) = char_bytes (code c) + byte_length s

-- utf8.RuneCountInString
unfoldable pub count_chars : String → ℕ
count_chars String.[] = 0
count_chars (String.◌∷◌ c s) = suc (count_chars s)

-- unicode.IsSpace
unfoldable pub is_space : ℕ → Bool
is_space c =
    leb 9 c && leb c 13
    || c == 32
    || c == 133
    || c == 160
    || c == 5760
    || leb 8192 c && leb c 8202
    || c == 8232
    || c == 8233
    || c == 8239
    || c == 8287
    || c == 12288

-- strings.TrimSpace(s) == ""
unfoldable pub is_blank : String → Bool
unfolding is_space
is_blank String.[] = true
is_blank (String.◌∷◌ c s) = is_space (code c) && is_blank s

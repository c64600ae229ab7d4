-- ===== src/Pagination.antt =====
-- pkg/pagination/pagination.go, pageFrom of internal/httpserver/handlers.go, and the window that the
-- List functions of the services cut from their rows. A cursor is its bytes. A negative limit is 0,
-- which clamp treats alike; an offset beyond the largest int wraps around as it does in Go. White
-- space round a cursor is that of ASCII.
pub mod Base64
pub mod Cursor
pub mod Walk
mod Examples
use orvexa.Base.{
  ◌∷◌, if◌then◌else◌, Option, List, ℕ, take, leb, ◌==◌, Bool, ◌&&◌, ltb, some, ◌||◌, true, none,
  ◌+◌, ◌-◌, ◌++◌, drop, ◌*◌, false, suc, length, ◌%◌,
}
use orvexa.Bytes.{Bytes, break_at, codes}
use orvexa.Strconv.{itoa, atoi, max_int}
use orvexa.Pagination.Base64.{encode, decode}
use mathlib.Core.List.{[]}
use mathlib.Core.Option.{none}
use Prim.Native.Nat.{zero}

abbrev pub default_limit : ℕ
default_limit = 25

abbrev pub max_limit : ℕ
max_limit = 100

pub record Page : Type 0 where
  pub offset : ℕ
  pub limit : ℕ

unfoldable pub clamp : ℕ → ℕ
clamp n = if n == 0 then default_limit else if ltb max_limit n then max_limit else n

abbrev is_space : ℕ → Bool
is_space c = leb 9 c && leb c 13 || c == b' '

unfoldable pub trim_left : Bytes → Bytes
trim_left [] = []
trim_left (c ∷ s) = if is_space c then trim_left s else c ∷ s

abbrev pub is_empty {ℓ} : {A : Type ℓ} → List A → Bool
is_empty [] = true
is_empty (x ∷ xs) = false

unfoldable pub trim_right : Bytes → Bytes
trim_right [] = []
trim_right (c ∷ s) = let rest = trim_right s in if is_empty rest && is_space c then [] else c ∷ rest

-- strings.TrimSpace
unfoldable pub trim_space : Bytes → Bytes
unfolding trim_left trim_right
trim_space s = trim_right (trim_left s)

unfoldable pub page_of : Option ℕ → Option ℕ → Option Page
unfolding clamp
page_of (some off) (some zero) = none
page_of (some off) (some (suc lim)) = some (record { offset = off; limit = clamp (suc lim) })
page_of _ _ = none

-- strings.SplitN(raw, "|", 2), whose one part is refused
unfoldable pub parse_parts : Option (Bytes × Bytes) → Option Page
unfolding page_of
parse_parts none = none
parse_parts (some (off, lim)) = page_of (atoi off) (atoi lim)

unfoldable pub parse_raw : Option Bytes → Option Page
unfolding parse_parts
parse_raw none = none
parse_raw (some raw) = parse_parts (break_at b'|' raw)

-- Parse; `none` is "malformed cursor".
unfoldable pub parse : Bytes → ℕ → Option Page
unfolding parse_raw trim_space clamp
parse cursor limit =
    if is_empty cursor
    then some (record { offset = 0; limit = clamp limit })
    else parse_raw (decode (trim_space cursor))

-- fmt's %d of a sum of two ints
unfoldable pub print_sum : ℕ → Bytes
print_sum n = if leb n max_int then itoa n else b'-' ∷ itoa (18446744073709551616 - n)

-- Page.NextCursor
unfoldable pub next_cursor : Page → ℕ → Bytes
unfolding print_sum
next_cursor p returned =
    if ltb returned p.limit
    then []
    else encode (print_sum (p.offset + p.limit) ++ (b'|' ∷ itoa p.limit))

-- LIMIT page.Limit+1 OFFSET page.Offset, and what List makes of the rows.
unfoldable pub window {ℓ} : {A : Type ℓ} → Page → List A → List A × Bytes
window p rows =
    let out = take (p.limit + 1) (drop p.offset rows) in
    if ltb p.limit (length out) then (take p.limit out, next_cursor p p.limit) else (out, [])

-- The handlers' atoi: an int that wraps around, and 0 for anything but digits.
unfoldable pub digits_of : ℕ → Bytes → Option ℕ
digits_of n [] = some n
digits_of n (c ∷ s) =
    if ltb c b'0' || ltb b'9' c
    then none
    else digits_of ((n * 10 + (c - b'0')) % 18446744073709551616) s

unfoldable pub limit_of : Option ℕ → ℕ
limit_of none = 0
limit_of (some n) = if leb n max_int then n else 0

unfoldable pub or_first_page : Option Page → Page
or_first_page none = record { offset = 0; limit = default_limit }
or_first_page (some p) = p

-- pageFrom
unfoldable pub page_from : Bytes → Bytes → Page
unfolding or_first_page limit_of digits_of
page_from cursor limit = or_first_page (parse cursor (limit_of (digits_of 0 limit)))

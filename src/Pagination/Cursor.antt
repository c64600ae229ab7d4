-- ===== src/Pagination/Cursor.antt =====
-- Cursors that were given out are read back.

use orvexa.Base.{
  ◌∷◌, All, ℕ, ◌≡◌, ◌≤◌, ◌++◌, ◌+◌, ◌<◌, Bool, false, arith, ltb, All-append, leb, some, true, refl,
  ◌&&◌, suc, if◌then◌else◌, ◌||◌, ◌==◌, ap,
}
use orvexa.Bytes.{Bytes, Lacks, break_at-append}
use orvexa.Pagination.{
  trim_left, trim_space, is_empty, next_cursor, Page, trim_right, parse, page_of, print_sum,
  parse_raw, clamp, max_limit, parse_parts, default_limit,
}
use orvexa.Pagination.Base64.{encode, IsByte, encode-All, decode-encode}
use orvexa.Strconv.RoundTrip.{IsDigit, itoa-All, atoi-itoa}
use orvexa.Strconv.{itoa, max_int}
use mathlib.Core.List.{[]}
use Prim.Native.Nat.{zero}

trim_left_id : (s : Bytes) → All (λ c. 32 < c) s → trim_left s ≡ s
unfolding trim_left
trim_left_id [] h = refl
trim_left_id (c ∷ s) h = ground (arith, h.0)

trim_right_id : (s : Bytes) → All (λ c. 32 < c) s → trim_right s ≡ s
unfolding trim_right
trim_right_id [] h = refl
trim_right_id (c ∷ s) h =
    let no_space : (leb 9 c && leb c 13 || c == b' ') ≡ false = ground (arith, h.0) in
    rw (trim_right_id s h.1) (kept (is_empty s) no_space)
  where
    kept :
        (b : Bool)
        → (leb 9 c && leb c 13 || c == b' ') ≡ false
        → (if b && (leb 9 c && leb c 13 || c == b' ') then [] else c ∷ s) ≡ c ∷ s
    kept true e = rw e refl
    kept false e = refl

trim_space_id : (s : Bytes) → All (λ c. 32 < c) s → trim_space s ≡ s
unfolding trim_space
trim_space_id s h = rw (trim_left_id s h) (trim_right_id s h)

digit-IsByte : (s : Bytes) → All IsDigit s → All IsByte s
digit-IsByte [] h = tt
digit-IsByte (c ∷ s) h = (omega arith, digit-IsByte s h.1)

digit-Lacks : (s : Bytes) → All IsDigit s → Lacks b'|' s
digit-Lacks [] h = tt
digit-Lacks (c ∷ s) h = (ground (arith, h.0), digit-Lacks s h.1)

-- The text inside a cursor.
abbrev inside : ℕ → ℕ → Bytes
inside off lim = itoa off ++ (b'|' ∷ itoa lim)

inside-IsByte : (off lim : ℕ) → All IsByte (inside off lim)
inside-IsByte off lim =
    All-append IsByte (itoa off) (b'|' ∷ itoa lim) (digit-IsByte _ (itoa-All off))
      (omega arith, digit-IsByte _ (itoa-All lim))

is_empty-encode : (s : Bytes) → is_empty s ≡ false → is_empty (encode s) ≡ false
unfolding encode
is_empty-encode [] h = cc
is_empty-encode (a ∷ []) h = refl
is_empty-encode (a ∷ b ∷ []) h = refl
is_empty-encode (a ∷ b ∷ c ∷ s) h = refl

is_empty-inside : (s t : Bytes) → is_empty (s ++ (b'|' ∷ t)) ≡ false
is_empty-inside [] t = refl
is_empty-inside (c ∷ s) t = refl

-- The page of a limit that clamp leaves alone.
pub record IsPage (p : Page) : Type 0 where
  pub some_rows : 1 ≤ p.limit
  pub few_rows : p.limit ≤ max_limit
  pub in_range : p.offset + p.limit ≤ max_int

abbrev pub next_page : Page → Page
next_page p = record { offset = p.offset + p.limit; limit = p.limit }

page_of_lem :
    (off lim : ℕ)
    → 1 ≤ lim
    → lim ≤ max_limit
    → page_of (some off) (some lim) ≡ some (record { offset = off; limit = lim })
unfolding page_of clamp
page_of_lem off zero h k = absurd (omega arith)
page_of_lem off (suc lim) h k =
    let kept : (if suc lim == 0
          then default_limit
          else if ltb max_limit (suc lim)
          then max_limit
          else suc lim)
        ≡ suc lim =
      ground arith in
    ap (λ l. some (record { offset = off; limit = l })) kept

next_cursor_lem :
    (p : Page) (returned : ℕ)
    → IsPage p
    → p.limit ≤ returned
    → next_cursor p returned ≡ encode (inside (p.offset + p.limit) p.limit)
unfolding next_cursor print_sum
next_cursor_lem p returned h full =
    let more : ltb returned p.limit ≡ false = ground arith in
    let fits : leb (p.offset + p.limit) max_int ≡ true = ground (arith, h.in_range) in
    rw (more, fits) refl

-- The cursor of a full page is read back as the page after it, whatever limit comes with it.
pub parse-next_cursor :
    (p : Page) (returned limit : ℕ)
    → IsPage p
    → p.limit ≤ returned
    → parse (next_cursor p returned) limit ≡ some (next_page p)
unfolding parse parse_raw parse_parts
parse-next_cursor p returned limit h full =
    let text = inside (p.offset + p.limit) p.limit in
    let bytes = inside-IsByte (p.offset + p.limit) p.limit in
    rw
      (
        next_cursor_lem p returned h full,
        is_empty-encode text (is_empty-inside (itoa (p.offset + p.limit)) (itoa p.limit)),
        trim_space_id (encode text) (encode-All text bytes),
        decode-encode text bytes,
        break_at-append b'|' (itoa (p.offset + p.limit)) (itoa p.limit)
            (digit-Lacks _ (itoa-All _)),
        atoi-itoa (p.offset + p.limit) h.in_range,
        atoi-itoa p.limit (omega (arith, h.few_rows)),
      )
      (page_of_lem (p.offset + p.limit) p.limit h.some_rows h.few_rows)

pub is_empty-next_cursor : (p : Page) → IsPage p → is_empty (next_cursor p p.limit) ≡ false
is_empty-next_cursor p h =
    rw (next_cursor_lem p p.limit h (omega arith))
      (is_empty-encode _ (is_empty-inside (itoa (p.offset + p.limit)) (itoa p.limit)))

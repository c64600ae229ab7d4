-- ===== src/Freeswitch/Bounds.antt =====
-- What ReadFrame can buffer: a frame that it returns is within its limits.
use orvexa.Base.{
  ◌∷◌, ℕ, length, Bool, List, ◌≤◌, ◌+◌, ◌≡◌, some, arith, ◌<◌, All, Option, Bool-cases, suc, ltb,
  inl, none, subst, inr, false, ap, if◌then◌else◌, refl, sym, take, drop, true, length-take,
}
use orvexa.Strconv.{atoi}
use orvexa.Freeswitch.{
  read_headers, trim_return, read_line, split_header, Header, header_of, line_of, trim_line, got,
  trim_space, is_blank, Read, add_header, failed, frame_too_large, is_empty, read_body, read_frame,
  sized_body, read_full, finish_frame, Frame, max_headers, short_frame, header, has_content_type,
  content_length_name, frame_of, malformed_frame,
}
use mathlib.Core.List.{[]}
use orvexa.Bytes.{Bytes, break_at, break_at-length}
use Prim.Native.Nat.{zero}

length-trim_return : (s : Bytes) → length (trim_return s) ≤ length s
unfolding trim_return
length-trim_return [] = omega arith
length-trim_return (c ∷ []) = ground arith
length-trim_return (c ∷ d ∷ s) = omega (arith, length-trim_return (d ∷ s))

read_line-lt :
    (limit : ℕ) (s line rest : Bytes) → read_line limit s ≡ got line rest → length line < limit
unfolding read_line line_of trim_line
read_line-lt limit s line rest e = cases (break_at b'\n' s) e
  where
    cases : (o : Option (Bytes × Bytes)) → line_of limit s o ≡ got line rest → length line < limit
    cases none h = cc
    cases (some (l, r)) h = elim (Bool-cases (ltb limit (length l + 1))) [
      | inl long ↦ let lost : failed frame_too_large ≡ got line rest = rw long at h in cc (lost)
      | inr fits ↦
          let kept : got (trim_return l) r ≡ got line rest = rw fits at h in
          let is_line : trim_return l ≡ line = cc (kept) in
          ground (arith, length-trim_return l, ap length is_line)
    ]

split_header-lt :
    (line : Bytes) (h : Header) → split_header line ≡ some h → length h.0 + length h.1 < length line
unfolding split_header header_of
split_header-lt line (name, val) e =
    cases (break_at b':' line) (λ x y k. break_at-length b':' line x y k) e
  where
    shorter : (v : Bytes) → length (trim_space v) ≤ length v
    shorter [] = omega arith
    shorter (c ∷ v) = ground arith

    cases :
        (o : Option (Bytes × Bytes))
        → ((x y : Bytes) → o ≡ some (x, y) → length x + length y + 1 ≡ length line)
        → header_of o ≡ some (name, val)
        → length name + length val < length line
    cases none k h = cc
    cases (some (n, v)) k h = elim (Bool-cases (is_blank n)) [
      | inl blank ↦ let lost : none ≡ some (name, val) = rw blank at h in cc (lost)
      | inr named ↦
          let kept : ◌≡◌ {A = Option Header} (some (n, trim_space v)) (some (name, val)) =
            rw named at h in
          let is_name : n ≡ name = cc (kept) in
          let is_val : trim_space v ≡ val = cc (kept) in
          omega (arith, k n v refl, shorter v, ap length is_name, ap length is_val)
    ]

-- A header of a line within the limit.
abbrev pub IsBounded : ℕ → Header → Type 0
IsBounded limit h = length h.0 + length h.1 < limit

read_headers-bounds :
    (left : ℕ) (first : Bool) (limit : ℕ) (s : Bytes) (hs : List Header) (rest : Bytes)
    → read_headers left first limit s ≡ got hs rest
    → (length hs < left) × All (IsBounded limit) hs
unfolding read_headers add_header
read_headers-bounds zero first limit s hs rest e = cc
read_headers-bounds (suc left) first limit s hs rest e =
    round (read_line limit s) (λ l r k. read_line-lt limit s l r k)
      (λ r gs u k. read_headers-bounds left false limit r gs u k) e
  where
    added :
        (line r : Bytes) (o : Option Header) (more : Read (List Header))
        → ((h : Header) → o ≡ some h → IsBounded limit h)
        → ((gs : List Header) (u : Bytes)
            → more ≡ got gs u
            → (length gs < left) × All (IsBounded limit) gs)
        → add_header first o more ≡ got hs rest
        → (length hs < suc left) × All (IsBounded limit) hs
    added line r none more hd k h = cc
    added line r (some (name, val)) (failed x) hd k h = ground arith
    added line r (some (name, val)) (got gs u) hd k h =
        let whole : (name, val) ∷ gs ≡ hs = ground arith in
        subst (λ l. (length l < suc left) × All (IsBounded limit) l) whole
          (omega (arith, (k gs u refl).0), (hd (name, val) refl, (k gs u refl).1))

    round :
        (l : Read Bytes)
        → ((line r : Bytes) → l ≡ got line r → length line < limit)
        → ((r : Bytes) (gs : List Header) (u : Bytes)
            → read_headers left false limit r ≡ got gs u
            → (length gs < left) × All (IsBounded limit) gs)
        → (elim l as (λ _. Read (List Header)) [
          | failed x ↦ failed x
          | got line r ↦
              if is_empty line
              then got [] r
              else add_header first (split_header line) (read_headers left false limit r)
        ])
          ≡ got hs rest
        → (length hs < suc left) × All (IsBounded limit) hs
    round (failed x) a k h = cc
    round (got line r) a k h = elim (Bool-cases (is_empty line)) [
      | inl blank ↦
          let none_yet : got [] r ≡ got hs rest = rw blank at h in
          let empty : [] ≡ hs = cc (none_yet) in
          subst (λ l. (length l < suc left) × All (IsBounded limit) l) empty (omega arith, tt)
      | inr full ↦
          added line r (split_header line) (read_headers left false limit r)
            (λ g is_g. omega (arith, a line r refl, split_header-lt line g is_g)) (k r)
            (rw full at h)
    ]

read_full-bounds :
    (limit n : ℕ) (hs : List Header) (s rest : Bytes) (f : Frame)
    → n ≤ limit
    → read_full n hs s ≡ got f rest
    → (length f.body ≤ limit) × (f.headers ≡ hs)
unfolding read_full
read_full-bounds limit n hs s rest f small e = elim (Bool-cases (ltb (length s) n)) [
  | inl short ↦ let lost : failed short_frame ≡ got f rest = rw short at e in cc (lost)
  | inr enough ↦
      let kept : got (frame_of hs (take n s)) (drop n s) ≡ got f rest = rw enough at e in
      let is_frame : frame_of hs (take n s) ≡ f = cc (kept) in
      let is_body = ap (λ g. length g.body) is_frame in
      (omega (arith, length-take n s, is_body), sym (ap (λ g. g.headers) is_frame))
]

sized_body-bounds :
    (limit : ℕ) (o : Option ℕ) (hs : List Header) (s rest : Bytes) (f : Frame)
    → sized_body limit o hs s ≡ got f rest
    → (length f.body ≤ limit) × (f.headers ≡ hs)
unfolding sized_body
sized_body-bounds limit none hs s rest f e = cc
sized_body-bounds limit (some n) hs s rest f e = elim (Bool-cases (ltb limit n)) [
  | inl large ↦ let lost : failed frame_too_large ≡ got f rest = rw large at e in cc (lost)
  | inr small ↦ read_full-bounds limit n hs s rest f (ground arith) (rw small at e)
]

read_body-bounds :
    (limit : ℕ) (hs : List Header) (s rest : Bytes) (f : Frame)
    → read_body limit hs s ≡ got f rest
    → (length f.body ≤ limit) × (f.headers ≡ hs)
unfolding read_body
read_body-bounds limit hs s rest f e =
    elim (Bool-cases (is_empty (header content_length_name hs))) [
      | inl bare ↦
          let kept : got (frame_of hs []) s ≡ got f rest = rw bare at e in
          let is_frame : frame_of hs [] ≡ f = cc (kept) in
          (omega (arith, ap (λ g. length g.body) is_frame), sym (ap (λ g. g.headers) is_frame))
      | inr sized ↦
          sized_body-bounds limit (atoi (header content_length_name hs)) hs s rest f (rw sized at e)
    ]

-- A frame that ReadFrame returns has a body within the limit, at most 128 headers, and each of
-- these within the limit, whatever the peer sends.
pub read_frame-bounds :
    (limit : ℕ) (s rest : Bytes) (f : Frame)
    → read_frame limit s ≡ got f rest
    → (length f.body ≤ limit) × (length f.headers ≤ max_headers) × All (IsBounded limit) f.headers
unfolding read_frame finish_frame
read_frame-bounds limit s rest f e =
    cases (read_headers (max_headers + 1) true limit s)
      (λ hs u k. read_headers-bounds (max_headers + 1) true limit s hs u k) e
  where
    cases :
        (r : Read (List Header))
        → ((hs : List Header) (u : Bytes)
            → r ≡ got hs u
            → (length hs < max_headers + 1) × All (IsBounded limit) hs)
        → finish_frame limit r ≡ got f rest
        → (length f.body ≤ limit)
          × (length f.headers ≤ max_headers)
          × All (IsBounded limit) f.headers
    cases (failed x) k h = cc
    cases (got hs u) k h = elim (Bool-cases (has_content_type hs)) [
      | inl typed ↦
          let (small, is_hs) = read_body-bounds limit hs u rest f (rw typed at h) in
          let (few, each) = k hs u refl in
          (
            small,
            omega (arith, ap length is_hs),
            subst (λ l. All (IsBounded limit) l) (sym is_hs) each,
          )
      | inr untyped ↦ let lost : failed malformed_frame ≡ got f rest = rw untyped at h in cc (lost)
    ]

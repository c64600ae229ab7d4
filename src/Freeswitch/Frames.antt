-- ===== src/Freeswitch/Frames.antt =====
-- ReadFrame reads back a frame that was written, whatever follows it in the stream.
use orvexa.Base.{
  ◌∷◌, length, ℕ, drop, take, Bool, All, ◌<◌, ◌≤◌, [], ◌++◌, arith, ◌≡◌, refl, suc, ◌&&◌, false,
  ◌==◌, ap, ◌≢◌, ◌+◌, ltb, not, true, append_assoc, ◌∙◌, length-append,
}
use orvexa.Strconv.{itoa}
use orvexa.Freeswitch.{
  read_headers, Header, trim_return, read_line, Frame, is_empty, line_of, add_header, trim_line,
  max_frame_bytes, max_headers, got, read_frame, finish_frame, equal_fold, read_body,
  content_type_name, sized_body, prepend, read_full, header, content_type_of,
}
use orvexa.Freeswitch.Lines.{
  IsPrintable, NoReturn, line_text, header_line_lem, line_text-Lacks, line_text-NoReturn,
  length-line_text-pos, split_header-line_text,
}
use orvexa.Freeswitch.Printing.{
  event_frame, Fields, sized_frame, header_line, payload_body, parse_event, parsed,
}
use orvexa.Strconv.RoundTrip.{itoa-All, IsDigit, itoa-ne-nil, length-itoa, atoi-itoa}
use orvexa.Freeswitch.Events.{IsField, IsOrdered, parse_event-payload_body}
use orvexa.Bytes.{Bytes, codes, Lacks, break_at-append}

read_line-append :
    (limit : ℕ) (line rest : Bytes)
    → Lacks b'\n' line
    → NoReturn line
    → length line < limit
    → read_line limit (line ++ (b'\n' ∷ rest)) ≡ got line rest
unfolding read_line line_of trim_line
read_line-append limit line rest lacks plain fits =
    let short : ltb limit (length line + 1) ≡ false = ground arith in
    rw (break_at-append b'\n' line rest lacks, short, plain) refl

-- The end of the header block.
read_headers-end :
    (left : ℕ) (first : Bool) (limit : ℕ) (rest : Bytes)
    → 0 < limit
    → read_headers (suc left) first limit (b'\n' ∷ rest) ≡ got [] rest
unfolding read_headers trim_return
read_headers-end left first limit rest fits =
    rw (read_line-append limit [] rest tt refl fits, read_headers) refl

-- A header that fits is read, and the block goes on.
read_headers-header_line :
    (left : ℕ) (first : Bool) (limit : ℕ) (h : Header) (s : Bytes)
    → IsPrintable h
    → length (line_text h) < limit
    → (first && not (equal_fold h.0 content_type_name)) ≡ false
    → read_headers (suc left) first limit (header_line h ++ s)
      ≡ prepend h (read_headers left false limit s)
unfolding read_headers add_header
read_headers-header_line left first limit h s p fits allowed =
    rw
      (
        header_line_lem h s,
        read_headers,
        read_line-append limit (line_text h) s (line_text-Lacks h p) (line_text-NoReturn h p) fits,
        length-line_text-pos h,
        split_header-line_text h p,
        add_header,
        allowed,
      )
      refl

take-append : (s t : Bytes) → take (length s) (s ++ t) ≡ s
take-append [] t = refl
take-append (c ∷ s) t = ap (◌∷◌ c) (take-append s t)

drop-append : (s t : Bytes) → drop (length s) (s ++ t) ≡ t
drop-append [] t = refl
drop-append (c ∷ s) t = drop-append s t

digits-Lacks : (b : ℕ) (s : Bytes) → b < b'0' → All IsDigit s → Lacks b s
digits-Lacks b [] h d = tt
digits-Lacks b (c ∷ s) h d = (ground (arith, d.0), digits-Lacks b s h d.1)

digits-NoReturn : (s : Bytes) → All IsDigit s → NoReturn s
unfolding trim_return
digits-NoReturn [] d = refl
digits-NoReturn (c ∷ []) d = let other : (c == b'\r') ≡ false = ground (arith, d.0) in rw other refl
digits-NoReturn (c ∷ e ∷ s) d = ap (◌∷◌ c) (digits-NoReturn (e ∷ s) d.1)

abbrev type_header : Bytes → Header
type_header content_type = (codes "Content-Type", content_type)

abbrev length_header : Bytes → Header
length_header body = (codes "Content-Length", itoa (length body))

length_header-IsPrintable : (body : Bytes) → IsPrintable (length_header body)
length_header-IsPrintable body = record {
  named = refl;
  no_colon = ground arith;
  name_in_line = ground arith;
  val_in_line = digits-Lacks b'\n' _ (omega arith) (itoa-All (length body));
  no_return = digits-NoReturn _ (itoa-All (length body));
}

-- The value of a Content-Type that a line can hold.
pub record IsType (content_type : Bytes) : Type 0 where
  pub in_line : Lacks b'\n' content_type
  pub no_return : NoReturn content_type
  pub short : length content_type < 4000

type_header-IsPrintable : (t : Bytes) → IsType t → IsPrintable (type_header t)
type_header-IsPrintable t h = record {
  named = refl;
  no_colon = ground arith;
  name_in_line = ground arith;
  val_in_line = h.in_line;
  no_return = h.no_return;
}

abbrev pub sent_frame : Bytes → Bytes → Frame
sent_frame content_type body = record {
  content_type = content_type;
  body = body;
  headers = type_header content_type ∷ length_header body ∷ [];
}

is_empty-itoa : (n : ℕ) → is_empty (itoa n) ≡ false
is_empty-itoa n = full (itoa n) (itoa-ne-nil n)
  where
    full : (s : Bytes) → s ≢ [] → is_empty s ≡ false
    full [] ne = absurd (ne refl)
    full (c ∷ s) ne = refl

module _ (content_type body rest : Bytes) (typed : IsType content_type)
    (fits : length body ≤ max_frame_bytes) where
  sized_frame-split :
      sized_frame content_type body ++ rest
      ≡ header_line (type_header content_type)
        ++ (header_line (length_header body) ++ (b'\n' ∷ (body ++ rest)))
  unfolding sized_frame
  sized_frame-split =
      append_assoc (header_line (type_header content_type)) _ rest
      ∙ ap (λ s. header_line (type_header content_type) ++ s)
          (append_assoc (header_line (length_header body)) (b'\n' ∷ body) rest)

  read_headers-sized_frame :
      read_headers (max_headers + 1) true max_frame_bytes (sized_frame content_type body ++ rest)
      ≡ got (type_header content_type ∷ length_header body ∷ []) (body ++ rest)
  read_headers-sized_frame =
      let few = length-itoa 6 (length body) (omega arith) in
      rw
        (
          sized_frame-split,
          read_headers-header_line 128 true max_frame_bytes (type_header content_type)
              (header_line (length_header body) ++ (b'\n' ∷ (body ++ rest)))
              (type_header-IsPrintable content_type typed) (omega (arith, typed.short)) refl,
          read_headers-header_line 127 false max_frame_bytes (length_header body)
              (b'\n' ∷ (body ++ rest)) (length_header-IsPrintable body) (omega (arith, few)) refl,
          read_headers-end 126 false max_frame_bytes (body ++ rest) (omega arith),
        )
        refl

  pub read_frame-sized_frame :
      read_frame max_frame_bytes (sized_frame content_type body ++ rest)
      ≡ got (sent_frame content_type body) rest
  unfolding read_frame finish_frame read_body sized_body read_full header content_type_of
  read_frame-sized_frame =
      let small : ltb max_frame_bytes (length body) ≡ false = ground arith in
      let enough : ltb (length (body ++ rest)) (length body) ≡ false =
        ground (arith, length-append body rest) in
      rw
        (
          read_headers-sized_frame,
          is_empty-itoa (length body),
          atoi-itoa (length body) (omega arith),
          small,
          enough,
          take-append body rest,
          drop-append body rest,
        )
        refl

-- An event that is written as a frame is read back as that frame, whatever follows it, and its body
-- gives back the fields and the payload.
pub read_frame-event_frame :
    (fields : Fields) (payload rest : Bytes)
    → All IsField fields
    → IsOrdered fields
    → length (payload_body fields payload) ≤ max_frame_bytes
    → (f : Frame) × (read_frame max_frame_bytes (event_frame fields payload ++ rest) ≡ got f rest)
      × (f.content_type ≡ codes "text/event-plain")
      × (parse_event f.body ≡ parsed fields payload)
unfolding event_frame
read_frame-event_frame fields payload rest p o fits = (
  sent_frame (codes "text/event-plain") (payload_body fields payload),
  read_frame-sized_frame (codes "text/event-plain") (payload_body fields payload) rest
      (record {
        in_line = ground arith;
        no_return = unfold trim_return in refl;
        short = omega arith;
      })
      fits,
  refl,
  parse_event-payload_body fields payload p o,
)

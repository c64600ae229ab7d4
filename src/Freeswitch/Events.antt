-- ===== src/Freeswitch/Events.antt =====
-- ParseEvent reads back what payloadBody writes, and always comes to an end.
use orvexa.Base.{
  ◌∷◌, All, ◌≡◌, ℕ, ◌++◌, true, append-nil, false, arith, length, ap, refl, ◌≤◌, suc, some,
  append_assoc, ◌∙◌, All-append, length-append, ◌+◌, Option, ◌≢◌, Bool-cases, inl, inr,
}
use orvexa.Bytes.{break_at, Bytes, Lacks, break_at-length, break_at-append, lower, lex_lt}
use mathlib.Core.List.{[]}
use orvexa.Freeswitch.Printing.{
  parse_lines, set_field, field_lines, payload_body, Fields, parse_event, next_line, parsed,
  header_line, event_round, add_field, out_of_fuel, Parsed,
}
use orvexa.Freeswitch.{Header, same_bytes, trim_return, is_empty, split_header}
use orvexa.Freeswitch.Lines.{
  IsPrintable, NoReturn, line_text, header_line_lem, line_text-Lacks, line_text-NoReturn,
  length-line_text-pos, split_header-line_text,
}
use Prim.Native.Nat.{zero}
use mathlib.Core.Option.{none}

same_bytes-lex_lt : (s t : Bytes) → lex_lt s t ≡ true → same_bytes t s ≡ false
same_bytes-lex_lt [] [] h = cc
same_bytes-lex_lt [] (d ∷ t) h = refl
same_bytes-lex_lt (c ∷ s) [] h = cc
same_bytes-lex_lt (c ∷ s) (d ∷ t) h = ground (arith, same_bytes-lex_lt s t)

lex_lt_asym : (s t : Bytes) → lex_lt s t ≡ true → lex_lt t s ≡ false
lex_lt_asym [] [] h = cc
lex_lt_asym [] (d ∷ t) h = refl
lex_lt_asym (c ∷ s) [] h = cc
lex_lt_asym (c ∷ s) (d ∷ t) h = ground (arith, lex_lt_asym s t)

-- A key above all others goes to the end.
set_field-append :
    (name val : Bytes) (done : Fields)
    → All (λ h. lex_lt h.0 name ≡ true) done
    → set_field name val done ≡ done ++ (name, val) ∷ []
unfolding set_field
set_field-append name val [] h = refl
set_field-append name val ((n, v) ∷ fs) h =
    rw (same_bytes-lex_lt n name h.0, lex_lt_asym n name h.0)
      (ap (◌∷◌ (n, v)) (set_field-append name val fs h.1))

parse_lines_line :
    (fuel : ℕ) (fields : Fields) (line rest name val : Bytes)
    → Lacks b'\n' line
    → NoReturn line
    → is_empty line ≡ false
    → split_header line ≡ some (name, val)
    → parse_lines (suc fuel) fields (line ++ (b'\n' ∷ rest))
      ≡ parse_lines fuel (set_field (lower name) val fields) rest
unfolding parse_lines next_line event_round add_field
parse_lines_line fuel fields [] rest name val lacks plain full split = cc
parse_lines_line fuel fields (c ∷ line) rest name val lacks plain full split =
    rw (parse_lines, break_at-append b'\n' (c ∷ line) rest lacks, plain, split) refl

-- A printable field whose name is in lower case.
abbrev pub IsField : Header → Type 0
IsField h = IsPrintable h × (lower h.0 ≡ h.0)

-- The entries stand in the order of their keys.
abbrev pub IsOrdered : Fields → Type 0
IsOrdered [] = Unit
IsOrdered (h ∷ fs) = All (λ g. lex_lt h.0 g.0 ≡ true) fs × IsOrdered fs

-- The end of a payload body.
abbrev ending : Bytes → Bytes
ending [] = []
ending (c ∷ payload) = b'\n' ∷ c ∷ payload

payload_body_lem :
    (fields : Fields) (payload : Bytes)
    → payload_body fields payload ≡ field_lines fields ++ ending payload
unfolding payload_body
payload_body_lem fields [] = rw append-nil refl
payload_body_lem fields (c ∷ payload) = refl

parse_lines-ending :
    (fuel : ℕ) (done : Fields) (payload : Bytes)
    → length (ending payload) ≤ fuel
    → parse_lines fuel done (ending payload) ≡ parsed done payload
unfolding parse_lines next_line event_round break_at trim_return
parse_lines-ending zero done [] h = refl
parse_lines-ending (suc fuel) done [] h = refl
parse_lines-ending zero done (c ∷ payload) h = absurd (omega arith)
parse_lines-ending (suc fuel) done (c ∷ payload) h = refl

beyond :
    (h : Header) (done fs : Fields)
    → All (λ g. lex_lt h.0 g.0 ≡ true) fs
    → All (λ g. All (λ d. lex_lt d.0 g.0 ≡ true) done) fs
    → All (λ g. All (λ d. lex_lt d.0 g.0 ≡ true) (done ++ h ∷ [])) fs
beyond h done [] x y = tt
beyond h done (g ∷ fs) x y =
    (All-append (λ d. lex_lt d.0 g.0 ≡ true) done (h ∷ []) y.0 (x.0, tt), beyond h done fs x.1 y.1)

module _ (payload : Bytes) where
  field_lines-split :
      (h : Header) (todo : Fields)
      → (header_line h ++ field_lines todo) ++ ending payload
        ≡ line_text h ++ (b'\n' ∷ (field_lines todo ++ ending payload))
  field_lines-split h todo =
      append_assoc (header_line h) (field_lines todo) (ending payload)
      ∙ header_line_lem h (field_lines todo ++ ending payload)

  parse_lines-field_lines :
      (todo done : Fields) (fuel : ℕ)
      → All IsField todo
      → IsOrdered todo
      → All (λ g. All (λ h. lex_lt h.0 g.0 ≡ true) done) todo
      → length (field_lines todo ++ ending payload) ≤ fuel
      → parse_lines fuel done (field_lines todo ++ ending payload) ≡ parsed (done ++ todo) payload
  unfolding field_lines
  parse_lines-field_lines [] done fuel p o a fits =
      rw append-nil (parse_lines-ending fuel done payload fits)
  parse_lines-field_lines (h ∷ todo) done zero p o a fits = absurd (
      omega (
        arith,
        fits,
        ap length (field_lines-split h todo),
        length-append (line_text h) (b'\n' ∷ (field_lines todo ++ ending payload)),
      ))
  parse_lines-field_lines (h ∷ todo) done (suc n) p o a fits =
      let later = field_lines todo ++ ending payload in
      rw
        (
          field_lines-split h todo,
          parse_lines_line n done (line_text h) later h.0 h.1 (line_text-Lacks h p.0.0)
              (line_text-NoReturn h p.0.0) (length-line_text-pos h)
              (split_header-line_text h p.0.0),
          p.0.1,
          set_field-append h.0 h.1 done a.0,
        )
        (parse_lines-field_lines todo (done ++ h ∷ []) n p.1 o.1 (beyond h done todo o.0 a.1) (
            omega (
              arith,
              fits,
              ap length (field_lines-split h todo),
              length-append (line_text h) (b'\n' ∷ later),
            ))
          ∙ ap (λ fs. parsed fs payload) (append_assoc done (h ∷ []) todo))

nothing_above : (fs : Fields) → All (λ g. All (λ (h : Header). lex_lt h.0 g.0 ≡ true) []) fs
nothing_above [] = tt
nothing_above (g ∷ fs) = (tt, nothing_above fs)

-- ParseEvent reads back the fields and the payload that were written.
pub parse_event-payload_body :
    (fields : Fields) (payload : Bytes)
    → All IsField fields
    → IsOrdered fields
    → parse_event (payload_body fields payload) ≡ parsed fields payload
unfolding parse_event
parse_event-payload_body fields payload p o =
    rw (payload_body_lem fields payload)
      (parse_lines-field_lines payload fields [] _ p o (nothing_above fields) (omega arith))

next_line-shorter :
    (c : ℕ) (s : Bytes) → length (next_line (c ∷ s) (break_at b'\n' (c ∷ s))).1 ≤ length s
unfolding next_line
next_line-shorter c s = rest (break_at b'\n' (c ∷ s)) (break_at-length b'\n' (c ∷ s))
  where
    rest :
        (o : Option (Bytes × Bytes))
        → ((x y : Bytes) → o ≡ some (x, y) → length x + length y + 1 ≡ suc (length s))
        → length (next_line (c ∷ s) o).1 ≤ length s
    rest none k = omega arith
    rest (some (x, y)) k = omega (arith, k x y refl)

parse_lines-ends :
    (fuel : ℕ) (fields : Fields) (s : Bytes)
    → length s ≤ fuel
    → parse_lines fuel fields s ≢ out_of_fuel
unfolding parse_lines event_round add_field
parse_lines-ends fuel fields [] h = cc
parse_lines-ends zero fields (c ∷ s) h = absurd (omega arith)
parse_lines-ends (suc fuel) fields (c ∷ s) h =
    round (next_line (c ∷ s) (break_at b'\n' (c ∷ s)))
      (λ fs rest shorter. parse_lines-ends fuel fs rest shorter)
      (omega (arith, h, next_line-shorter c s))
  where
    added :
        (next : Fields → Parsed) (o : Option Header)
        → ((fs : Fields) → next fs ≢ out_of_fuel)
        → add_field next fields o ≢ out_of_fuel
    added next none k = cc
    added next (some (name, val)) k = k (set_field (lower name) val fields)

    round :
        (l : Bytes × Bytes)
        → ((fs : Fields) (rest : Bytes)
            → length rest ≤ fuel
            → parse_lines fuel fs rest ≢ out_of_fuel)
        → length l.1 ≤ fuel
        → event_round (parse_lines fuel) fields l ≢ out_of_fuel
    round (line, rest) k fits = elim (Bool-cases (is_empty (trim_return line))) [
      | inl blank ↦ rw blank (cc)
      | inr full ↦ rw full (added _ (split_header (trim_return line)) (λ fs. k fs rest fits))
    ]

-- ParseEvent comes to an end on every body: its rounds never outnumber the bytes.
pub parse_event-ends : (body : Bytes) → parse_event body ≢ out_of_fuel
unfolding parse_event
parse_event-ends body = parse_lines-ends (length body) [] body (omega arith)

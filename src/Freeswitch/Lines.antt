-- ===== src/Freeswitch/Lines.antt =====
-- Lines and header lines: what was written is read back.
use orvexa.Base.{◌∷◌, ℕ, ◌++◌, ◌≡◌, ◌≢◌, ap, false, append_assoc, [], some, refl}
use orvexa.Bytes.{break_at-append, Lacks, Bytes, Lacks-append}
use orvexa.Freeswitch.Printing.{header_line}
use orvexa.Freeswitch.{Header, split_header, trim_return, header_of, is_empty, is_blank}

-- The text does not end in a carriage return.
abbrev pub NoReturn : Bytes → Type 0
NoReturn s = trim_return s ≡ s

trim_return_cons : (c : ℕ) (s : Bytes) → s ≢ [] → NoReturn s → NoReturn (c ∷ s)
unfolding trim_return
trim_return_cons c [] ne h = absurd (ne refl)
trim_return_cons c (d ∷ s) ne h = ap (◌∷◌ c) h

pub NoReturn-append : (s : Bytes) (d : ℕ) (t : Bytes) → NoReturn (d ∷ t) → NoReturn (s ++ (d ∷ t))
NoReturn-append [] d t h = h
NoReturn-append (c ∷ s) d t h = trim_return_cons c (s ++ (d ∷ t)) (ne s) (NoReturn-append s d t h)
  where
    ne : (r : Bytes) → r ++ (d ∷ t) ≢ []
    ne [] = cc
    ne (x ∷ r) = cc

-- A header that a line can hold: the name is no blank text and has no colon, neither part breaks
-- the line, and the value does not end in a carriage return.
pub record IsPrintable (h : Header) : Type 0 where
  pub named : is_blank h.0 ≡ false
  pub no_colon : Lacks b':' h.0
  pub name_in_line : Lacks b'\n' h.0
  pub val_in_line : Lacks b'\n' h.1
  pub no_return : NoReturn h.1

-- A header line without its newline.
abbrev pub line_text : Header → Bytes
line_text (name, val) = name ++ (b':' ∷ b' ' ∷ val)

pub header_line_lem :
    (h : Header) (rest : Bytes) → header_line h ++ rest ≡ line_text h ++ (b'\n' ∷ rest)
unfolding header_line
header_line_lem (name, val) rest = simp append_assoc

pub line_text-Lacks : (h : Header) → IsPrintable h → Lacks b'\n' (line_text h)
line_text-Lacks (name, val) p =
    Lacks-append b'\n' name _ p.name_in_line (refl, (refl, p.val_in_line))

pub line_text-NoReturn : (h : Header) → IsPrintable h → NoReturn (line_text h)
unfolding trim_return
line_text-NoReturn (name, val) p = NoReturn-append name b':' (b' ' ∷ val) (after val p.no_return)
  where
    after : (v : Bytes) → NoReturn v → NoReturn (b':' ∷ b' ' ∷ v)
    after [] n = refl
    after (c ∷ v) n = ap (λ r. b':' ∷ b' ' ∷ r) n

pub split_header-line_text : (h : Header) → IsPrintable h → split_header (line_text h) ≡ some h
unfolding split_header header_of
split_header-line_text (name, val) p =
    rw (break_at-append b':' name (b' ' ∷ val) p.no_colon, p.named) refl

pub length-line_text-pos : (h : Header) → is_empty (line_text h) ≡ false
length-line_text-pos ([], val) = refl
length-line_text-pos (c ∷ name, val) = refl

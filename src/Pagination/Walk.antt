-- ===== src/Pagination/Walk.antt =====
-- Following the cursors yields every row once.
use native.Mathlib.Nat.{zero-add, suc-add}
use native.Mathlib.Numerals.{add-one}
use orvexa.Base.{
  ◌∷◌, ℕ, ◌≡◌, ◌≤◌, ◌++◌, ◌+◌, ◌<◌, false, arith, ltb, some, true, refl, suc, if◌then◌else◌, ap,
  List, Option, drop, length, take, none, length-take, ◌∙◌, Bool-cases, inl, sym, length-drop,
  ltb→lt, take-append-drop, inr,
}
use orvexa.Bytes.{Bytes}
use orvexa.Pagination.{is_empty, next_cursor, Page, parse, clamp, max_limit, window}
use orvexa.Strconv.{max_int}
use mathlib.Core.List.{[]}
use Prim.Native.Nat.{zero}
use mathlib.Core.Option.{none}
use orvexa.Pagination.Cursor.{IsPage, next_page, parse-next_cursor, is_empty-next_cursor}

clamp_bounds : (limit : ℕ) → (1 ≤ clamp limit) × (clamp limit ≤ max_limit)
unfolding clamp
clamp_bounds limit = ground arith

module _ {ℓ} {A : Type ℓ} where
  abbrev and_then : List A → Option (List A) → Option (List A)
  and_then out none = none
  and_then out (some more) = some (out ++ more)

  -- One answer of the service: the rows, and `more` for those behind the cursor.
  unfoldable pub answer : List A → (Bytes → Option (List A)) → Option Page → Option (List A)
  answer rows more none = none
  answer rows more (some p) =
      let (out, next) = window p rows in
      if is_empty next then some out else and_then out (more next)

  -- What a client collects that follows each cursor that it is given; `none` when its requests run
  -- out or a cursor is refused.
  unfoldable pub follow : ℕ → ℕ → Bytes → List A → Option (List A)
  unfolding answer
  follow zero limit cursor rows = none
  follow (suc requests) limit cursor rows =
      answer rows (λ next. follow requests limit next rows) (parse cursor limit)

  take_all : (n : ℕ) (xs : List A) → length xs ≤ n → take n xs ≡ xs
  take_all zero [] h = refl
  take_all zero (x ∷ xs) h = absurd (omega arith)
  take_all (suc n) [] h = refl
  take_all (suc n) (x ∷ xs) h = ap (◌∷◌ x) (take_all n xs (omega arith))

  take_more : (n : ℕ) (xs : List A) → take n (take (suc n) xs) ≡ take n xs
  take_more zero xs = refl
  take_more (suc n) [] = refl
  take_more (suc n) (x ∷ xs) = ap (◌∷◌ x) (take_more n xs)

  drop_nil : (n : ℕ) → drop {A = A} n [] ≡ []
  drop_nil zero = refl
  drop_nil (suc n) = refl

  drop-drop : (m n : ℕ) (xs : List A) → drop n (drop m xs) ≡ drop (m + n) xs
  drop-drop zero n xs = rw zero-add refl
  drop-drop (suc m) n [] = drop_nil n ∙ sym (drop_nil (suc m + n))
  drop-drop (suc m) n (x ∷ xs) = rw suc-add (drop-drop m n xs)

  window-full :
      (p : Page) (rows : List A)
      → p.limit < length (drop p.offset rows)
      → window p rows ≡ (take p.limit (drop p.offset rows), next_cursor p p.limit)
  unfolding window
  window-full p rows h =
      let more : ltb p.limit (length (take (p.limit + 1) (drop p.offset rows))) ≡ true =
        ground (arith, length-take (p.limit + 1) (drop p.offset rows)) in
      rw more (rw add-one (rw (take_more p.limit (drop p.offset rows)) refl))

  window-last :
      (p : Page) (rows : List A)
      → length (drop p.offset rows) ≤ p.limit
      → window p rows ≡ (drop p.offset rows, [])
  unfolding window
  window-last p rows h =
      rw (take_all (p.limit + 1) (drop p.offset rows) (omega arith)) (
        let done : ltb p.limit (length (drop p.offset rows)) ≡ false = ground arith in rw done refl)

  follow-drop :
      (requests limit : ℕ) (cursor : Bytes) (rows : List A) (p : Page)
      → parse cursor limit ≡ some p
      → 1 ≤ p.limit
      → p.limit ≤ max_limit
      → length rows ≤ max_int
      → length (drop p.offset rows) < requests
      → follow requests limit cursor rows ≡ some (drop p.offset rows)
  unfolding follow answer
  follow-drop zero limit cursor rows p e some_rows few fits h = absurd (omega arith)
  follow-drop (suc requests) limit cursor rows p e some_rows few fits h =
      elim (Bool-cases (ltb p.limit (length (drop p.offset rows)))) [
        | inl more ↦
            let page : IsPage p = record {
              some_rows = some_rows;
              few_rows = few;
              in_range = ground (arith, more, length-drop p.offset rows);
            } in
            let rest =
              follow-drop requests limit (next_cursor p p.limit) rows (next_page p)
                (parse-next_cursor p p.limit limit page (omega arith)) some_rows few fits
                (ground
                  (arith, length-drop p.offset rows, length-drop (p.offset + p.limit) rows)) in
            rw
              (
                e,
                window-full p rows (ltb→lt _ _ more),
                is_empty-next_cursor p page,
                rest,
                ← drop-drop p.offset p.limit rows,
              )
              (ap some (take-append-drop p.limit (drop p.offset rows)))
        | inr last ↦ rw (e, window-last p rows (ground arith)) refl
      ]

  -- A client that follows the cursors from the first page collects every row once and in order,
  -- whatever limit it asks for, with no more requests than one for each row and one more.
  pub follow_all :
      (limit : ℕ) (rows : List A)
      → length rows ≤ max_int
      → follow (length rows + 1) limit [] rows ≡ some rows
  follow_all limit rows fits =
      follow-drop (length rows + 1) limit [] rows (record { offset = 0; limit = clamp limit })
        (unfold parse in refl) (clamp_bounds limit).0 (clamp_bounds limit).1 fits (omega arith)

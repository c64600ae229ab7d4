-- ===== src/Cases/Numbering.antt =====
-- The references that Open of internal/cases/service.go allocates.
use orvexa.Base.{
  ◌∷◌, ℕ, List, All, ◌≡◌, length, ◌++◌, ◌<◌, ◌+◌, select, arith, [], any, ◌∙◌, ap, false,
  append-nil, ◌==◌, true, sym, append_assoc, refl,
}
use orvexa.Cases.Store.{Case, is_of_year, clashes}

-- How many cases of the tenant there are of the year.
abbrev pub year_count : ℕ → ℕ → List Case → ℕ
year_count tenant year rows = length (select (is_of_year tenant year) rows)

-- Every case is numbered by the cases of its tenant and year before it.
abbrev pub NumberedAfter : List Case → List Case → Type 0
NumberedAfter before [] = Unit
NumberedAfter before (c ∷ rows) =
    (c.number ≡ year_count c.tenant_id c.year before + 1) × NumberedAfter (before ++ c ∷ []) rows

year_count-append :
    (tenant year : ℕ) (xs ys : List Case)
    → year_count tenant year (xs ++ ys) ≡ year_count tenant year xs + year_count tenant year ys
year_count-append tenant year [] ys = omega arith
year_count-append tenant year (x ∷ xs) ys = ground (arith, year_count-append tenant year xs ys)

pub NumberedAfter-append :
    (before rows : List Case) (c : Case)
    → NumberedAfter before rows
    → c.number ≡ year_count c.tenant_id c.year (before ++ rows) + 1
    → NumberedAfter before (rows ++ c ∷ [])
NumberedAfter-append before [] c h e =
    (e ∙ ap (λ l. year_count c.tenant_id c.year l + 1) (append-nil before), tt)
NumberedAfter-append before (r ∷ rows) c h e = (
  h.0,
  NumberedAfter-append (before ++ r ∷ []) rows c h.1
      (e ∙ ap (λ l. year_count c.tenant_id c.year l + 1) (sym (append_assoc before (r ∷ []) rows))),
)

-- A number above the count is not taken, and a fresh id is not either.
pub unclashed :
    (before rows : List Case) (c : Case)
    → NumberedAfter before rows
    → All (λ d. d.id < c.id) rows
    → year_count c.tenant_id c.year (before ++ rows) < c.number
    → any (clashes c) rows ≡ false
unclashed before [] c h ids lt = refl
unclashed before (d ∷ rows) c h ids lt = ground (
  arith,
  ids.0,
  h.0,
  year_count-append c.tenant_id c.year before (d ∷ rows),
  lt,
  unclashed (before ++ d ∷ []) rows c h.1 ids.1 (rw (append_assoc before (d ∷ []) rows) lt),
  same_year,
)
  where
    same_year :
        (c.tenant_id == d.tenant_id) ≡ true
        → (c.year == d.year) ≡ true
        → year_count d.tenant_id d.year before ≡ year_count c.tenant_id c.year before
    same_year t y =
        let e : c.tenant_id ≡ d.tenant_id = ground (arith, t) in
        let f : c.year ≡ d.year = ground (arith, y) in cc (e, f)

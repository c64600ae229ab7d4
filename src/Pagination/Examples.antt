-- ===== src/Pagination/Examples.antt =====
-- Three rows, two to a page.
use orvexa.Base.{◌∷◌, [], ◌≡◌, arith, some, refl, List, ℕ}
use orvexa.Pagination.Walk.{follow, follow_all}
use orvexa.Pagination.{
  next_cursor, parse, page_from, Page, parse_raw, print_sum, trim_space, trim_left, trim_right,
  or_first_page,
}
use orvexa.Pagination.Cursor.{IsPage}
use orvexa.Strconv.{itoa, digits}
use orvexa.Pagination.Base64.{encode, symbol, decode, values, value_of, cons_value}
use orvexa.Bytes.{codes}

abbrev second : Page
second = record { offset = 25; limit = 25 }

second-IsPage : IsPage second
second-IsPage = record { some_rows = omega arith; few_rows = omega arith; in_range = omega arith }

abbrev rows : List ℕ
rows = 10 ∷ 11 ∷ 12 ∷ []

follow_all_example : follow 4 2 [] rows ≡ some rows
follow_all_example = follow_all 2 rows (omega arith)

-- "MjV8MjU" is 25|25.
first_cursor : next_cursor (record { offset = 0; limit = 25 }) 25 ≡ codes "MjV8MjU"
unfolding next_cursor print_sum itoa digits encode symbol
first_cursor = refl

-- A cursor that is none falls back to the first page.
no_cursor : page_from (codes "!!!") (codes "40") ≡ record { offset = 0; limit = 25 }
unfolding page_from parse parse_raw trim_space trim_left trim_right decode values value_of
    cons_value or_first_page
no_cursor = refl

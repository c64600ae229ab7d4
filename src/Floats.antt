-- ===== src/Floats.antt =====
-- Go's float64, as far as the code computes with it: the numbers from 0 up that do not overflow.
-- Such a number is counted in units of 2^-1074, the smallest one, so that each is a natural number
-- and the order and the equality are those of ℕ. Each operation rounds its exact result to the
-- nearest float64, a tie to the one whose last bit is 0.
pub mod Order
use orvexa.Base.{
  true, false, zero, suc, ◌≡◌, refl, ℕ, List, ◌∷◌, [], if◌then◌else◌, ◌+◌, ◌*◌, ◌/◌, ◌%◌, ◌^◌, ltb,
  leb, ◌==◌, ◌||◌, ◌&&◌, suc,
}

-- 1.0
unfoldable pub one : ℕ
one = 2 ^ 1074

-- The largest power of two that is at most `v`, and 1 for 0. Each round halves `v`, so that `v` itself
-- is enough fuel.
unfoldable pub power_below : ℕ → ℕ → ℕ
power_below zero v = 1
power_below (suc fuel) v = elim (ltb v 2) [ true ↦ 1 | false ↦ 2 * power_below fuel (v / 2) ]

-- The gap between the floats at `v`: 53 bits are kept.
unfoldable pub gap : ℕ → ℕ
gap v = power_below (v / 2 ^ 52) (v / 2 ^ 52)

-- The multiple of `unit` next to n / d.
unfoldable pub nearest : ℕ → ℕ → ℕ → ℕ
nearest unit n d =
    let q = n / (d * unit) in
    let twice = 2 * (n % (d * unit)) in
    unit * (if ltb (d * unit) twice || (twice == d * unit && q % 2 == 1) then q + 1 else q)

-- The float64 next to n / d.
unfoldable pub round : ℕ → ℕ → ℕ
round n d = nearest (gap (n / d)) n d

unfoldable pub float_of : ℕ → ℕ
float_of n = round (n * one) 1

unfoldable pub add_float : ℕ → ℕ → ℕ
add_float x y = round (x + y) 1

unfoldable pub multiply_float : ℕ → ℕ → ℕ
multiply_float x y = round (x * y) one

unfoldable pub divide_float : ℕ → ℕ → ℕ
divide_float x y = round (x * one) y

-- 0.1 + 0.2 is 0.30000000000000004.
sum_of_tenths :
    add_float (divide_float (float_of 1) (float_of 10)) (divide_float (float_of 2) (float_of 10))
    ≡ 1351079888211149 * 2 ^ 1022
unfolding add_float divide_float float_of round nearest gap power_below one
sum_of_tenths = refl

-- ===== src/Floats/Order.antt =====
-- The rounding of float64 keeps the order.
use orvexa.Base.{
  ℕ, zero, suc, ◌≡◌, ◌≤◌, ◌<◌, ◌+◌, ◌*◌, ◌/◌, ◌%◌, ◌^◌, Bool-cases, true, false, inl, inr, arith,
  ltb, ◌⊎◌, refl, sym, ap, ◌||◌, ◌&&◌, ◌==◌, if◌then◌else◌, ◌∙◌,
}
use orvexa.Floats.{
  power_below, gap, nearest, round, add_float, multiply_float, divide_float, float_of, one,
}
use native.Mathlib.Omega.{div_any}
use native.Mathlib.Nat.{
  div-div-eq-div-mul, div-lt_iff_lt-mul, mul-le-mul_left, mul-le-mul_right, mul-le-mul,
}

-- What `power_below` finds of `v`.
record IsPowerBelow (v p : ℕ) : Type 0 where
  positive : 1 ≤ p
  below : 2 ≤ p → p ≤ v
  next : v < 2 * p

power_small : (fuel v : ℕ) → ltb v 2 ≡ true → power_below fuel v ≡ 1
unfolding power_below
power_small zero v h = refl
power_small (suc fuel) v h = rw (power_below, h) refl

power_large :
    (fuel v : ℕ) → ltb v 2 ≡ false → power_below (suc fuel) v ≡ 2 * power_below fuel (v / 2)
unfolding power_below
power_large fuel v h = rw (power_below, h) refl

power_below-IsPowerBelow : (fuel v : ℕ) → v ≤ fuel → IsPowerBelow v (power_below fuel v)
power_below-IsPowerBelow zero v h =
    rw (power_small zero v (ground (arith, h)))
      (record { positive = omega arith; below = λ k. omega (arith, k); next = omega (arith, h) })
power_below-IsPowerBelow (suc fuel) v h = elim (Bool-cases (ltb v 2)) [
  | inl small ↦ rw (power_small (suc fuel) v small) (record {
    positive = omega arith;
    below = λ k. omega (arith, k);
    next = ground (arith, small);
  })
  | inr large ↦
      let p = power_below-IsPowerBelow fuel (v / 2) (ground (arith, large, h)) in
      rw (power_large fuel v large) (record {
        positive = omega (arith, p.positive);
        below = λ k. halved (power_below fuel (v / 2)) (ground (arith, large)) p;
        next = omega (arith, p.next);
      })
]
  where
    halved : (a : ℕ) → 2 ≤ v → IsPowerBelow (v / 2) a → 2 * a ≤ v
    halved a le p = elim (Bool-cases (ltb a 2)) [
      | inl is_one ↦ ground (arith, is_one, p.positive, le)
      | inr more ↦ let k = p.below (ground (arith, more)) in omega (arith, k)
    ]

-- A larger number has the same power, or one that is at least twice as large.
power_below_mono :
    (f g v w : ℕ)
    → v ≤ f
    → w ≤ g
    → v ≤ w
    → (power_below f v ≡ power_below g w) ⊎ (2 * power_below f v ≤ power_below g w)
power_below_mono f zero v w h k le =
    inl (power_small f v (ground (arith, k, le)) ∙ sym (power_small zero w (ground (arith, k))))
power_below_mono zero (suc g) v w h k le = elim (Bool-cases (ltb w 2)) [
  | inl low ↦ inl (power_small zero v (ground (arith, h)) ∙ sym (power_small (suc g) w low))
  | inr high ↦
      let p = power_below-IsPowerBelow g (w / 2) (ground (arith, high, k)) in
      rw (power_large g w high)
        (inr (rw (power_small zero v (ground (arith, h))) (omega (arith, p.positive))))
]
power_below_mono (suc f) (suc g) v w h k le = elim (Bool-cases (ltb w 2)) [
  | inl low ↦
      inl (power_small (suc f) v (ground (arith, low, le)) ∙ sym (power_small (suc g) w low))
  | inr high ↦ rw (power_large g w high) (elim (Bool-cases (ltb v 2)) [
    | inl small ↦
        let p = power_below-IsPowerBelow g (w / 2) (ground (arith, high, k)) in
        inr (rw (power_small (suc f) v small) (omega (arith, p.positive)))
    | inr large ↦
        rw (power_large f v large)
          (elim (power_below_mono f g (v / 2) (w / 2) (ground (arith, h, large))
            (ground (arith, k, high)) (omega (arith, le))) [
              | inl same ↦ inl (ap (λ p. 2 * p) same)
              | inr double ↦ inr (omega (arith, double))
            ])
  ])
]

-- The multiple next to a fraction, by the fraction's floor and remainder.
abbrev above : ℕ → ℕ → ℕ → ℕ
above D q r = if ltb D (2 * r) || (2 * r == D && q % 2 == 1) then q + 1 else q

above-bounds : (D q r : ℕ) → (q ≤ above D q r) × (above D q r ≤ q + 1)
above-bounds D q r = (ground arith, ground arith)

above_mono : (D q r s : ℕ) → r ≤ s → above D q r ≤ above D q s
above_mono D q r s le = ground (arith, le)

div_mono : (D n m : ℕ) → 1 ≤ D → n ≤ m → n / D ≤ m / D
div_mono D n m pos le =
    let over = (div-lt_iff_lt-mul pos).0 (next m) in
    let under : n / D < m / D + 1 = (div-lt_iff_lt-mul pos).1 (omega (arith, le, over)) in
    omega (arith, under)
  where
    next : (m : ℕ) → m / D < m / D + 1
    next m = omega arith

above-by_parts : (D q r p s : ℕ) → D * q + r ≤ D * p + s → q ≤ p → above D q r ≤ above D p s
above-by_parts D q r p s le floors = elim (Bool-cases (ltb q p)) [
  | inl fewer ↦
      let (_, up) = above-bounds D q r in
      let (down, _) = above-bounds D p s in ground (arith, fewer, up, down)
  | inr same ↦
      let e : q ≡ p = ground (arith, same, floors) in
      rw e (above_mono D p r s (omega (arith, rw e at le)))
]

-- With one unit.
nearest_mono : (unit d n m : ℕ) → 1 ≤ d * unit → n ≤ m → nearest unit n d ≤ nearest unit m d
unfolding nearest
nearest_mono unit d n m pos le =
    let D = d * unit in
    mul-le-mul_left unit (
      above-by_parts D (n / D) (n % D) (m / D) (m % D) (rw (div_any n D, div_any m D) le)
        (div_mono D n m pos le))

-- With the gaps of two numbers between which there is a power of two.
module _ (d n m g k : ℕ) (pos : 1 ≤ d) (twice : 2 * g ≤ k) (unit : 1 ≤ g)
    (low : n / d < 9007199254740992 * g) (high : 4503599627370496 * k ≤ m / d) where
  floor_low : n / (d * g) < 9007199254740992
  floor_low = rw (sym (div-div-eq-div-mul n d g)) ((div-lt_iff_lt-mul unit).1 low)

  floor_high : 4503599627370496 ≤ m / (d * k)
  floor_high =
      rw (sym (div-div-eq-div-mul m d k)) (elim (Bool-cases (ltb (m / d / k) 4503599627370496)) [
        | inl less ↦
            let some_k : 1 ≤ k = omega (arith, twice, unit) in
            let floor : m / d / k < 4503599627370496 = ground (arith, less) in
            let lt : m / d < 4503599627370496 * k = (div-lt_iff_lt-mul some_k).0 floor in
            absurd (omega (arith, lt, high))
        | inr more ↦ ground (arith, more)
      ])

  nearest_apart : nearest g n d ≤ nearest k m d
  unfolding nearest
  nearest_apart =
      let (_, up) = above-bounds (d * g) (n / (d * g)) (n % (d * g)) in
      let (down, _) = above-bounds (d * k) (m / (d * k)) (m % (d * k)) in
      chain (omega (arith, up, floor_low)) (omega (arith, down, floor_high))
    where
      chain : {a b : ℕ} → a ≤ 9007199254740992 → 4503599627370496 ≤ b → g * a ≤ k * b
      chain {a} {b} le le' =
          let x = mul-le-mul_left g le in
          let y = mul-le-mul_left k le' in omega (arith, x, y, twice)

pub round_mono : (d n m : ℕ) → 1 ≤ d → n ≤ m → round n d ≤ round m d
unfolding round gap
round_mono d n m pos le =
    let v = n / d / 2 ^ 52 in
    let w = m / d / 2 ^ 52 in
    let p : IsPowerBelow v (power_below v v) = power_below-IsPowerBelow v v (omega arith) in
    let q : IsPowerBelow w (power_below w w) = power_below-IsPowerBelow w w (omega arith) in
    let floors = div_mono d n m pos le in
    elim (power_below_mono v w v w (omega arith) (omega arith) (omega (arith, floors))) [
      | inl same ↦ rw same (nearest_mono (power_below w w) d n m (mul-le-mul pos q.positive) le)
      | inr twice ↦
          let k = q.below (omega (arith, twice, p.positive)) in
          nearest_apart d n m (power_below v v) (power_below w w) pos twice p.positive
            (omega (arith, p.next)) (omega (arith, k))
    ]

one_positive : 1 ≤ one
unfolding one
one_positive = omega arith

pub float_of_mono : (n m : ℕ) → n ≤ m → float_of n ≤ float_of m
unfolding float_of
float_of_mono n m le = round_mono 1 _ _ (omega arith) (mul-le-mul_right one le)

pub add_float_mono : (x y x' y' : ℕ) → x ≤ x' → y ≤ y' → add_float x y ≤ add_float x' y'
unfolding add_float
add_float_mono x y x' y' h k = round_mono 1 _ _ (omega arith) (omega (arith, h, k))

pub multiply_float_mono : (c x y : ℕ) → x ≤ y → multiply_float c x ≤ multiply_float c y
unfolding multiply_float
multiply_float_mono c x y h = round_mono one _ _ one_positive (mul-le-mul_left c h)

pub divide_float_mono : (c x y : ℕ) → 1 ≤ c → x ≤ y → divide_float x c ≤ divide_float y c
unfolding divide_float
divide_float_mono c x y pos h = round_mono c _ _ pos (mul-le-mul_right one h)

one_is : float_of 1 ≡ one
unfolding float_of round nearest gap power_below one
one_is = refl

-- A number from 1 up is not rounded to 0.
pub float_of_positive : (n : ℕ) → 1 ≤ n → 1 ≤ float_of n
float_of_positive n le =
    let more = float_of_mono 1 n le in omega (arith, one_positive, rw one_is at more)

-- ===== src/Data/Cast/Rounding.antt =====
-- src/c/data.c, `iot_data_cast_val`: the conversion of integers to `double` against the limits of the
-- types.
use native.Mathlib.Nat.{mul-le-mul_right, div-le_of_le-mul, le-div_iff_mul-le}
use iotech_c_utils.Common.{
  ℕ, zero, suc, ◌+◌, ◌*◌, ◌/◌, ◌^◌, ◌<◌, ◌≤◌, ◌≡◌, ◌∙◌, arith, refl, true, false, ltb, ◌⊎◌, inl,
  inr,
}
use iotech_c_utils.Data.Cast.{round_to, double_from, to_double}

pub to_double_small : (n : ℕ) → n < 2 ^ 53 → to_double n ≡ n
unfolding to_double double_from round_to
to_double_small n h = ground arith

round_to_near : (n : ℕ) → 2 ^ 63 ≤ n → n ≤ 2 ^ 63 + 1024 → round_to 2048 n ≡ 2 ^ 63
unfolding round_to
round_to_near n h k = ground arith

round_to_above : (n : ℕ) → 2 ^ 63 + 1024 < n → 2 ^ 63 < round_to 2048 n
unfolding round_to
round_to_above n h = ground arith

round_to_bound : (u n : ℕ) → 0 < u → n ≤ 2 ^ 53 * u → round_to u n ≤ 2 ^ 53 * u
unfolding round_to
round_to_bound u n h k =
    let q : n / u ≤ 2 ^ 53 = div-le_of_le-mul u (omega arith) in
    elim (lower (n / u) (2 ^ 53) q) [
      | inl e ↦ grind (arith, e)
      | inr l ↦ grind (arith, mul-le-mul_right u l)
    ]
  where
    lower : (a b : ℕ) → a ≤ b → (a ≡ b) ⊎ (a + 1 ≤ b)
    lower a b h = ground arith

round_to_least : (u n : ℕ) → 0 < u → 2 ^ 52 * u ≤ n → 2 ^ 52 * u ≤ round_to u n
unfolding round_to
round_to_least u n h k =
    let q : 2 ^ 52 ≤ n / u = (le-div_iff_mul-le h).1 k in
    let a = mul-le-mul_right u q in grind (arith, a)

side : (a b : ℕ) → ((ltb a b ≡ true) × (a < b)) ⊎ ((ltb a b ≡ false) × (b ≤ a))
side a b = ground arith

double_from_least : (k u n : ℕ) → 0 < u → 2 ^ 52 * u ≤ n → 2 ^ 52 * u ≤ double_from k u n
unfolding double_from
double_from_least zero u n h l = round_to_least u n h l
double_from_least (suc k) u n h l = elim (side n (2 ^ 53 * u)) [
  | inl (e, g) ↦ rw e (round_to_least u n h l)
  | inr (e, g) ↦
      rw e (omega (arith, double_from_least k (2 * u) n (omega arith) (omega (arith, g))))
]

-- The bound of `double_from` after `j` rounds.
abbrev limit : ℕ → ℕ → ℕ
limit zero u = 2 ^ 53 * u
limit (suc j) u = limit j (2 * u)

-- The spacing of the doubles there.
abbrev scaled : ℕ → ℕ → ℕ
scaled zero u = u
scaled (suc j) u = scaled j (2 * u)

limit_least : (j u : ℕ) → 2 ^ 53 * u ≤ limit j u
limit_least zero u = omega arith
limit_least (suc j) u = omega (arith, limit_least j (2 * u))

double_from_bound : (k j u n : ℕ) → 0 < u → j ≤ k → n < limit j u → double_from k u n ≤ limit j u
unfolding double_from
double_from_bound zero zero u n h l b = round_to_bound u n h (omega arith)
double_from_bound zero (suc j) u n h l b = absurd (omega arith)
double_from_bound (suc k) zero u n h l b =
    let e : ltb n (2 ^ 53 * u) ≡ true = ground arith in rw e (round_to_bound u n h (omega arith))
double_from_bound (suc k) (suc j) u n h l b = elim (side n (2 ^ 53 * u)) [
  | inl (e, g) ↦
      rw e (omega (arith, round_to_bound u n h (omega (arith, g)), limit_least j (2 * u)))
  | inr (e, g) ↦ rw e (double_from_bound k j (2 * u) n (omega arith) (omega arith) b)
]

pub to_double_least : (n : ℕ) → 2 ^ 53 ≤ n → 2 ^ 53 ≤ to_double n
unfolding to_double double_from
to_double_least n h =
    let e : ltb n (2 ^ 53) ≡ false = ground arith in rw e (double_from_least 10 2 n (omega arith) h)

-- Below 2^63 and below 2^64 the conversion stays at most there.
pub to_double_63 : (n : ℕ) → n < 2 ^ 63 → to_double n ≤ 2 ^ 63
unfolding to_double
to_double_63 n h = double_from_bound 11 10 1 n (omega arith) (omega arith) h

pub to_double_64 : (n : ℕ) → n < 2 ^ 64 → to_double n ≤ 2 ^ 64
unfolding to_double
to_double_64 n h = double_from_bound 11 11 1 n (omega arith) (omega arith) h

double_from_skip : (k u n : ℕ) → 2 ^ 53 * u ≤ n → double_from (suc k) u n ≡ double_from k (2 * u) n
unfolding double_from
double_from_skip k u n h = let e : ltb n (2 ^ 53 * u) ≡ false = ground arith in rw e refl

double_from_high : (k u n : ℕ) → limit k u ≤ 2 * n → double_from k u n ≡ round_to (scaled k u) n
unfolding double_from
double_from_high zero u n h = refl
double_from_high (suc k) u n h =
    double_from_skip k u n (omega (arith, limit_least k (2 * u))) ∙ double_from_high k (2 * u) n h

to_double_high : (n : ℕ) → 2 ^ 63 ≤ n → to_double n ≡ round_to 2048 n
unfolding to_double
to_double_high n h = double_from_high 11 1 n (omega arith)

-- From 2^63 on, the conversion stays at 2^63 up to 1024 above it.
pub to_double_near : (n : ℕ) → 2 ^ 63 ≤ n → n ≤ 2 ^ 63 + 1024 → to_double n ≡ 2 ^ 63
to_double_near n h k = to_double_high n h ∙ round_to_near n h k

pub to_double_above : (n : ℕ) → 2 ^ 63 + 1024 < n → 2 ^ 63 < to_double n
to_double_above n h = rw (to_double_high n (omega arith)) (round_to_above n h)

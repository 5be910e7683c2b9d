-- ===== src/Data/Cast/Exact.antt =====
-- src/c/data.c, `iot_data_cast_val`: the result of a cast between integer types.
use iotech_c_utils.Common.{
  ℕ, ◌+◌, ◌-◌, ◌^◌, ◌<◌, ◌≤◌, ◌≡◌, arith, refl, ap, Bool, true, false, not, ◌&&◌, leb, Option, none,
  some, if◌then◌else◌, ◌⊎◌, ◌≢◌, inl, inr,
}
use iotech_c_utils.Common.Int.{ℤ, pos, negsuc}
use iotech_c_utils.Data.{IntType, int64, uint64}
use iotech_c_utils.Data.Cast.{to_double, value_of, outside, convert, cast_to, cast_int}
use iotech_c_utils.Data.Cast.Rounding.{to_double_near, to_double_above}
use iotech_c_utils.Data.Cast.Range.{
  in_range, Near, to_double-Near, outside_pos, outside_negsuc, convert_pos, convert_negsuc,
}

-- The numbers above the limit of `int64_t` whose `double` is 2^63, and what they become.
abbrev pub lost : IntType → ℤ → IntType → Bool
lost uint64 (pos n) int64 = leb (2 ^ 63) n && leb n (2 ^ 63 + 1024)
lost _ _ _ = false

abbrev pub less_2_64 : ℤ → ℤ
less_2_64 (pos n) = negsuc (2 ^ 64 - 1 - n)
less_2_64 (negsuc n) = negsuc (2 ^ 64 + n)

abbrev pub exact : IntType → ℤ → Option ℤ
exact u z = if in_range u z then some z else none

cast_int_tested :
    (t u : IntType) (z : ℤ)
    → outside u (value_of t z) ≡ not (in_range u z)
    → (in_range u z ≡ true → cast_to t z u ≡ z)
    → cast_int t z u ≡ exact u z
unfolding cast_int
cast_int_tested t u z e f = rw e (on (in_range u z) f)
  where
    on :
        (b : Bool) {r s : ℤ}
        → (b ≡ true → r ≡ s)
        → (if not b then none else some r) ≡ (if b then some s else none)
    on true g = ap some (g refl)
    on false g = refl

cast_to_pos : (t u : IntType) (n : ℕ) → in_range u (pos n) ≡ true → cast_to t (pos n) u ≡ pos n
cast_to_pos int64 u n h = convert_pos u n h
cast_to_pos uint64 u n h = convert_pos u n h
cast_to_pos _ u n h = refl

cast_to_negsuc :
    (t u : IntType) (n : ℕ) → in_range u (negsuc n) ≡ true → cast_to t (negsuc n) u ≡ negsuc n
cast_to_negsuc int64 u n h = convert_negsuc u n h
cast_to_negsuc uint64 u n h = convert_negsuc u n h
cast_to_negsuc _ u n h = refl

-- The value that is tested, for the numbers of a type.
same-Near : (n : ℕ) → n < 2 ^ 63 → Near n n
same-Near n h = (inl refl, inl (omega arith), omega arith)

tested_pos :
    (t u : IntType) (n : ℕ)
    → in_range t (pos n) ≡ true
    → lost t (pos n) u ≡ false
    → outside u (value_of t (pos n)) ≡ not (in_range u (pos n))
tested_pos int64 u n h l =
    let b : n < 2 ^ 63 = ground arith in
    outside_pos u n (to_double n) (to_double-Near n (omega arith)) (inr (inl b)) (omega arith)
tested_pos uint64 u n h l =
    let b : n < 2 ^ 64 = ground arith in
    outside_pos u n (to_double n) (to_double-Near n b) (sharp u l) b
  where
    above : (leb (2 ^ 63) n && leb n (2 ^ 63 + 1024)) ≡ false → (n < 2 ^ 63) ⊎ (2 ^ 63 + 1024 < n)
    above e = ground arith

    sharp :
        (u : IntType)
        → lost uint64 (pos n) u ≡ false
        → (u ≢ int64) ⊎ ((n < 2 ^ 63) ⊎ (2 ^ 63 < to_double n))
    sharp int64 e = elim (above e) [ inl a ↦ inr (inl a) | inr a ↦ inr (inr (to_double_above n a)) ]
    sharp u e = ground arith
tested_pos _ u n h l =
    let b : n < 2 ^ 63 = ground arith in
    outside_pos u n n (same-Near n b) (inr (inl b)) (omega arith)

tested_negsuc :
    (t u : IntType) (n : ℕ)
    → in_range t (negsuc n) ≡ true
    → outside u (value_of t (negsuc n)) ≡ not (in_range u (negsuc n))
tested_negsuc int64 u n h =
    let b : n < 2 ^ 63 = ground arith in
    outside_negsuc u n (to_double (n + 1)) (to_double-Near (n + 1) (omega arith)) b
tested_negsuc uint64 u n h = ground arith
tested_negsuc _ u n h =
    let b : n + 1 < 2 ^ 63 = ground arith in
    let e : n + 1 - 1 ≡ n = omega arith in
    rw e at (outside_negsuc u n (n + 1) (same-Near (n + 1) b) (omega arith))

converts_to_less : (n : ℕ) → 2 ^ 63 ≤ n → n < 2 ^ 64 → convert int64 (pos n) ≡ less_2_64 (pos n)
converts_to_less n h k = ground arith

cast_int-lost :
    (n : ℕ)
    → 2 ^ 63 ≤ n
    → n ≤ 2 ^ 63 + 1024
    → cast_int uint64 (pos n) int64 ≡ some (less_2_64 (pos n))
unfolding cast_int
cast_int-lost n h k = rw (to_double_near n h k) (ap some (converts_to_less n h (omega arith)))

-- `iot_data_cast_val` of a number of one integer type to another gives the number where that type has
-- it, and fails where it has not; but a `uint64_t` from 2^63 to 2^63 + 1024, whose `double` is the one
-- of the limit of `int64_t`, passes the test and becomes the number less 2^64.
pub cast_int-exact :
    (t u : IntType) (z : ℤ)
    → in_range t z ≡ true
    → cast_int t z u ≡ (if lost t z u then some (less_2_64 z) else exact u z)
cast_int-exact t u z h = on (lost t z u) refl
  where
    kept : (z : ℤ) → in_range t z ≡ true → lost t z u ≡ false → cast_int t z u ≡ exact u z
    kept (pos n) h l = cast_int_tested t u (pos n) (tested_pos t u n h l) (cast_to_pos t u n)
    kept (negsuc n) h l =
        cast_int_tested t u (negsuc n) (tested_negsuc t u n h) (cast_to_negsuc t u n)

    gone : (t u : IntType) (z : ℤ) → lost t z u ≡ true → cast_int t z u ≡ some (less_2_64 z)
    gone uint64 int64 (pos n) e = cast_int-lost n (ground arith) (ground arith)
    gone uint64 u (pos n) e = cc
    gone uint64 u (negsuc n) e = cc
    gone t u z e = cc

    on :
        (b : Bool) → lost t z u ≡ b → cast_int t z u ≡ (if b then some (less_2_64 z) else exact u z)
    on true e = gone t u z e
    on false e = kept z h e

-- ===== src/Data/Cast.antt =====
-- src/c/data.c, `iot_data_cast_val` between the integer types and Booleans.
pub mod Rounding
pub mod Range
pub mod Exact
use iotech_c_utils.Common.{
  ℕ, zero, suc, ◌+◌, ◌-◌, ◌*◌, ◌/◌, ◌%◌, ◌^◌, Bool, true, false, not, ◌&&◌, ◌||◌, Option, none,
  some, if◌then◌else◌, ◌==◌, ltb,
}
use iotech_c_utils.Common.Int.{ℤ, pos, negsuc, lt_ℤ, to_ui64}
use iotech_c_utils.Data.{
  IntType, is_signed, int8, uint8, int16, uint16, int32, uint32, int64, uint64,
}

-- The multiple of `u` nearest to a number, in a tie the one with an even quotient.
unfoldable pub round_to : ℕ → ℕ → ℕ
round_to u n =
    let q = n / u in
    let r = n % u in
    if ltb (2 * r) u
    then q * u
    else if ltb u (2 * r)
    then (q + 1) * u
    else if q % 2 == 0
    then q * u
    else (q + 1) * u

-- The conversion of an integer below 2^64 to `double`: 53 significant bits.
unfoldable pub double_from : ℕ → ℕ → ℕ → ℕ
unfolding round_to
double_from zero u n = round_to u n
double_from (suc k) u n =
    let rest = double_from k (2 * u) n in if ltb n (2 ^ 53 * u) then round_to u n else rest

unfoldable pub to_double : ℕ → ℕ
unfolding double_from
to_double n = double_from 11 1 n

-- A negative number of `int64_t` is converted by its magnitude.
abbrev pub double_of : ℤ → ℤ
double_of (pos n) = pos (to_double n)
double_of (negsuc n) = negsuc (to_double (n + 1) - 1)

-- `max_vals` and `min_vals`, as doubles: the limits of the 64-bit types are rounded.
abbrev pub max_val : IntType → ℤ
max_val int8 = pos 127
max_val uint8 = pos 255
max_val int16 = pos 32767
max_val uint16 = pos 65535
max_val int32 = pos 2147483647
max_val uint32 = pos 4294967295
max_val int64 = pos (2 ^ 63)
max_val uint64 = pos (2 ^ 64)

abbrev pub min_val : IntType → ℤ
min_val int8 = negsuc 127
min_val int16 = negsuc 32767
min_val int32 = negsuc 2147483647
min_val int64 = negsuc (2 ^ 63 - 1)
min_val _ = pos 0

-- The bits of a type, and whether `dfloat` holds: its values are exact as a `double`.
abbrev pub int_bits : IntType → ℕ
int_bits int8 = 8
int_bits uint8 = 8
int_bits int16 = 16
int_bits uint16 = 16
int_bits int32 = 32
int_bits uint32 = 32
int_bits int64 = 64
int_bits uint64 = 64

abbrev pub dfloat : IntType → Bool
dfloat int64 = false
dfloat uint64 = false
dfloat _ = true

-- `VALUE ()`.
abbrev pub value_of : IntType → ℤ → ℤ
value_of t z = if dfloat t then z else double_of z

-- C's conversion of an integer to an integer type, on a machine that wraps around.
abbrev pub signed_word : ℕ → ℕ → ℤ
signed_word half r = if ltb r half then pos r else negsuc (2 * half - 1 - r)

abbrev pub convert : IntType → ℤ → ℤ
convert u z =
    let r = to_ui64 z % 2 ^ int_bits u in
    if is_signed u then signed_word (2 ^ (int_bits u - 1)) r else pos r

-- `CAST (T)` of a value in range: a `double` gives its integer.
abbrev pub cast_to : IntType → ℤ → IntType → ℤ
cast_to t z u = if dfloat t then z else convert u z

-- The test against the limits.
abbrev pub outside : IntType → ℤ → Bool
outside u v = lt_ℤ (max_val u) v || lt_ℤ v (min_val u)

-- `iot_data_cast_val` of an integer to an integer type, `none` for false.
unfoldable pub cast_int : IntType → ℤ → IntType → Option ℤ
cast_int t z u = if outside u (value_of t z) then none else some (cast_to t z u)

-- From and to a Boolean, which `iot_data_cast_val` treats as a `uint64_t`, and takes without a test.
abbrev pub cast_bool : Bool → IntType → Option ℤ
unfolding cast_int
cast_bool b u = cast_int uint64 (pos (if b then 1 else 0)) u

abbrev pub cast_int_bool : ℤ → Bool
cast_int_bool (pos zero) = false
cast_int_bool (pos (suc n)) = true
cast_int_bool (negsuc n) = true

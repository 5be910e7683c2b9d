-- ===== src/Common/Bits.antt =====
-- Bit operations at variables: one step of the digit recursion, and the masks and the disjoint
-- `|` that the codecs use.
use Prim.Native.Nat.{ℕ, zero, suc, ◌+◌, ◌*◌, ◌/◌, ◌%◌, ◌≤◌, ◌<◌, min, max}
use Prim.Native.Nat.{bit_and, bit_or, bit_and-bitwise, bit_or-bitwise}
use mathlib.Core.Path.{◌≡◌, refl}
use iotech_c_utils.Common.Digits.{digits_step}
use native.Mathlib.Omega.{arith}

abbrev no_digits : ℕ → ℕ
no_digits y = 0

abbrev its_digits : ℕ → ℕ
its_digits y = y

pub bit_and_step : (x y : ℕ) → bit_and x y ≡ bit_and (x / 2) (y / 2) * 2 + min (x % 2) (y % 2)
bit_and_step zero y = omega (arith, bit_and-bitwise 0 y, bit_and-bitwise 0 (y / 2))
bit_and_step (suc x) y =
    let step = digits_step no_digits min (suc x) y (omega arith) in
    omega (arith, step, bit_and-bitwise (suc x) y, bit_and-bitwise (suc x / 2) (y / 2))

pub bit_or_step : (x y : ℕ) → bit_or x y ≡ bit_or (x / 2) (y / 2) * 2 + max (x % 2) (y % 2)
bit_or_step zero y = omega (arith, bit_or-bitwise 0 y, bit_or-bitwise 0 (y / 2))
bit_or_step (suc x) y =
    let step = digits_step its_digits max (suc x) y (omega arith) in
    omega (arith, step, bit_or-bitwise (suc x) y, bit_or-bitwise (suc x / 2) (y / 2))

-- Zero on the right of both, by halving.
right_zero : (n x : ℕ) → x ≤ n → (bit_and x 0 ≡ 0) × (bit_or x 0 ≡ x)
right_zero n zero h = (refl, refl)
right_zero zero (suc x) h = absurd (omega arith)
right_zero (suc n) (suc x) h =
    let half = right_zero n (suc x / 2) (omega arith) in
    (omega (arith, bit_and_step (suc x) 0, half.0), omega (arith, bit_or_step (suc x) 0, half.1))

-- A mask of one more 1 digit.
bit_and_odd : (a m : ℕ) → bit_and a (m * 2 + 1) ≡ bit_and (a / 2) m * 2 + a % 2
bit_and_odd a m =
    let e : (m * 2 + 1) / 2 ≡ m = omega arith in rw (bit_and_step a (m * 2 + 1), e) (omega arith)

pub bit_and-one : (a : ℕ) → bit_and a 1 ≡ a % 2
bit_and-one a = omega (arith, bit_and_odd a 0, (right_zero (a / 2) (a / 2) (omega arith)).0)

pub bit_and_15 : (a : ℕ) → bit_and a 15 ≡ a % 16
bit_and_15 a = omega (
  arith,
  bit_and_odd a 7,
  bit_and_odd (a / 2) 3,
  bit_and_odd (a / 2 / 2) 1,
  bit_and-one (a / 2 / 2 / 2),
)

pub bit_and_63 : (a : ℕ) → bit_and a 63 ≡ a % 64
bit_and_63 a = omega (arith, bit_and_odd a 31, bit_and_odd (a / 2) 15, bit_and_15 (a / 2 / 2))

pub bit_and_255 : (a : ℕ) → bit_and a 255 ≡ a % 256
bit_and_255 a = omega (arith, bit_and_odd a 127, bit_and_odd (a / 2) 63, bit_and_63 (a / 2 / 2))

-- A number shifted by one bit.
bit_or_even : (x c : ℕ) → bit_or (x * 2) c ≡ bit_or x (c / 2) * 2 + c % 2
bit_or_even x c = let e : x * 2 / 2 ≡ x = omega arith in rw (bit_or_step (x * 2) c, e) (omega arith)

bit_or_4 : (x c : ℕ) → bit_or (x * 4) c ≡ bit_or x (c / 4) * 4 + c % 4
bit_or_4 x c =
    let e : x * 4 ≡ x * 2 * 2 = omega arith in
    let d : c / 2 / 2 ≡ c / 4 = omega arith in
    rw (e, bit_or_even (x * 2) c, bit_or_even x (c / 2), d) (omega arith)

bit_or_16 : (x c : ℕ) → bit_or (x * 16) c ≡ bit_or x (c / 16) * 16 + c % 16
bit_or_16 x c =
    let e : x * 16 ≡ x * 4 * 4 = omega arith in
    let d : c / 4 / 4 ≡ c / 16 = omega arith in
    rw (e, bit_or_4 (x * 4) c, bit_or_4 x (c / 4), d) (omega arith)

-- `x << 6 | c` where `c` has six bits.
pub bit_or_shift6 : (x c : ℕ) → c < 64 → bit_or (x * 64) c ≡ x * 64 + c
bit_or_shift6 x c h =
    let e : x * 64 ≡ x * 4 * 16 = omega arith in
    let d : c / 16 / 4 ≡ 0 = omega arith in
    rw (e, bit_or_16 (x * 4) c, bit_or_4 x (c / 16), d)
      (omega (arith, (right_zero x x (omega arith)).1))

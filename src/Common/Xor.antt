-- ===== src/Common/Xor.antt =====
-- The laws of exclusive or, from one step of its digit recursion.
use Prim.Native.Nat.{ℕ, zero, suc, ◌+◌, ◌*◌, ◌/◌, ◌%◌, ◌≤◌, ◌<◌}
use Prim.Native.Nat.{bit_xor, differ, bit_xor-bitwise}
use mathlib.Core.Path.{◌≡◌, refl, sym, ap, ap₂, ◌∙◌}
use iotech_c_utils.Common.Digits.{digits_step}
use native.Mathlib.Omega.{arith}

differ_lem : (a b : ℕ) → a < 2 → b < 2 → differ a b ≡ (a + b) % 2
differ_lem zero zero p q = refl
differ_lem zero (suc zero) p q = refl
differ_lem zero (suc (suc b)) p q = absurd (omega arith)
differ_lem (suc zero) zero p q = refl
differ_lem (suc zero) (suc zero) p q = refl
differ_lem (suc zero) (suc (suc b)) p q = absurd (omega arith)
differ_lem (suc (suc a)) b p q = absurd (omega arith)

pub zero-bit_xor : (b : ℕ) → bit_xor 0 b ≡ b
zero-bit_xor b = bit_xor-bitwise 0 b

abbrev its_digits : ℕ → ℕ
its_digits y = y

pub bit_xor_step : (x y : ℕ) → bit_xor x y ≡ bit_xor (x / 2) (y / 2) * 2 + (x + y) % 2
bit_xor_step zero y = omega (arith, zero-bit_xor y, zero-bit_xor (y / 2))
bit_xor_step (suc x) y =
    let step = digits_step its_digits differ (suc x) y (omega arith) in
    let last = differ_lem (suc x % 2) (y % 2) (omega arith) (omega arith) in
    omega (arith, step, last, bit_xor-bitwise (suc x) y, bit_xor-bitwise (suc x / 2) (y / 2))

bit_xor_half : (a b : ℕ) → bit_xor a b / 2 ≡ bit_xor (a / 2) (b / 2)
bit_xor_half a b = omega (arith, bit_xor_step a b)

bit_xor_parity : (a b : ℕ) → bit_xor a b % 2 ≡ (a + b) % 2
bit_xor_parity a b = omega (arith, bit_xor_step a b)

comm_fuel : (n a b : ℕ) → a ≤ n → b ≤ n → bit_xor a b ≡ bit_xor b a
comm_fuel zero a b p q =
    let e : a ≡ 0 = omega arith in
    let d : b ≡ 0 = omega arith in ap₂ bit_xor (e ∙ sym d) (d ∙ sym e)
comm_fuel (suc n) a b p q = omega (
  arith,
  bit_xor_step a b,
  bit_xor_step b a,
  comm_fuel n (a / 2) (b / 2) (omega arith) (omega arith),
)

pub bit_xor_comm : (a b : ℕ) → bit_xor a b ≡ bit_xor b a
bit_xor_comm a b = comm_fuel (a + b) a b (omega arith) (omega arith)

assoc_fuel :
    (n a b c : ℕ) → a ≤ n → b ≤ n → c ≤ n → bit_xor (bit_xor a b) c ≡ bit_xor a (bit_xor b c)
assoc_fuel zero a b c p q r =
    let e : a ≡ 0 = omega arith in rw (e, zero-bit_xor b, zero-bit_xor (bit_xor b c))
assoc_fuel (suc n) a b c p q r = omega (
  arith,
  bit_xor_step (bit_xor a b) c,
  bit_xor_step a (bit_xor b c),
  bit_xor_parity a b,
  bit_xor_parity b c,
  ap (λ t. bit_xor t (c / 2)) (bit_xor_half a b),
  ap (bit_xor (a / 2)) (bit_xor_half b c),
  assoc_fuel n (a / 2) (b / 2) (c / 2) (omega arith) (omega arith) (omega arith),
)

pub bit_xor_assoc : (a b c : ℕ) → bit_xor (bit_xor a b) c ≡ bit_xor a (bit_xor b c)
bit_xor_assoc a b c = assoc_fuel (a + b + c) a b c (omega arith) (omega arith) (omega arith)

pub bit_xor_left_comm : (a b c : ℕ) → bit_xor a (bit_xor b c) ≡ bit_xor b (bit_xor a c)
bit_xor_left_comm a b c =
    sym (bit_xor_assoc a b c) ∙ ap (λ t. bit_xor t c) (bit_xor_comm a b) ∙ bit_xor_assoc b a c

pub bit_xor-zero : (a : ℕ) → bit_xor a 0 ≡ a
bit_xor-zero a = bit_xor_comm a 0 ∙ zero-bit_xor a

-- ===== src/Common/Int.antt =====
-- Integers for the signed types, by their two halves, and their order.
use Prim.Native.Nat.{ℕ, ◌-◌, ◌%◌, ◌^◌}
use mathlib.Core.Bool.{Bool, true, false}
use iotech_c_utils.Common.Tests.{ltb, ◌==◌}

-- `negsuc n` is -(n + 1).
pub data ℤ : Type 0 where
  pos : ℕ → ℤ
  negsuc : ℕ → ℤ

abbrev pub eq_ℤ : ℤ → ℤ → Bool
eq_ℤ (pos a) (pos b) = a == b
eq_ℤ (negsuc a) (negsuc b) = a == b
eq_ℤ (pos a) (negsuc b) = false
eq_ℤ (negsuc a) (pos b) = false

abbrev pub lt_ℤ : ℤ → ℤ → Bool
lt_ℤ (pos a) (pos b) = ltb a b
lt_ℤ (negsuc a) (negsuc b) = ltb b a
lt_ℤ (pos a) (negsuc b) = false
lt_ℤ (negsuc a) (pos b) = true

-- The conversion to `uint32_t` and to `uint64_t`.
abbrev pub to_ui32 : ℤ → ℕ
to_ui32 (pos n) = n % 2 ^ 32
to_ui32 (negsuc n) = 2 ^ 32 - 1 - n % 2 ^ 32

abbrev pub to_ui64 : ℤ → ℕ
to_ui64 (pos n) = n % 2 ^ 64
to_ui64 (negsuc n) = 2 ^ 64 - 1 - n % 2 ^ 64

-- ===== src/Data/Compare/ByValue.antt =====
-- src/c/data.c, `iot_data_compare_value` of two integers.
use iotech_c_utils.Common.{ℕ, ◌+◌, ◌^◌, ◌<◌, ◌≡◌, arith, true, false, ◌⊎◌, inl, inr}
use iotech_c_utils.Common.Int.{ℤ, pos, negsuc}
use iotech_c_utils.Order.{gt}
use iotech_c_utils.Data.{Floats, IntType, int, is_signed}
use iotech_c_utils.Data.Compare.{Caches, cmp_ℤ, compare_value}

-- A number that is not negative and fits 64 bits.
abbrev pub IsUnsigned : ℤ → Type 0
IsUnsigned (pos n) = n < 2 ^ 64
IsUnsigned (negsuc n) = ⊥

module _ ⦃fl : Floats⦄ where
  -- Where both types are signed, or both numbers are not negative and fit 64 bits,
  -- `iot_data_compare_value` orders integers of any two types as numbers.
  pub compare_value_integers :
      (c d : Caches) (t u : IntType) (a b : ℤ)
      → ((is_signed t ≡ true) × (is_signed u ≡ true)) ⊎ (IsUnsigned a × IsUnsigned b)
      → compare_value c d (int t a) (int u b) ≡ cmp_ℤ a b
  unfolding compare_value
  compare_value_integers c d t u a b (inl (p, q)) = ground arith
  compare_value_integers c d t u (pos a) (pos b) (inr (p, q)) = ground arith
  compare_value_integers c d t u (negsuc a) b (inr (p, q)) = absurd p
  compare_value_integers c d t u (pos a) (negsuc b) (inr (p, q)) = absurd q

  -- A negative signed number compares above a number of an unsigned type, unless that one reaches
  -- the 64 bit two's complement of the first.
  pub compare_value_mixed :
      (c d : Caches) (t u : IntType) (n m : ℕ)
      → is_signed t ≡ true
      → is_signed u ≡ false
      → n + m + 1 < 2 ^ 64
      → compare_value c d (int t (negsuc n)) (int u (pos m)) ≡ gt
  unfolding compare_value
  compare_value_mixed c d t u n m p q h = ground arith

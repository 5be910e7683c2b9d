-- ===== src/Data/Cast/Range.antt =====
-- src/c/data.c, `iot_data_cast_val`: the test against the limits of the target type.
use iotech_c_utils.Common.{
  ℕ, ◌+◌, ◌-◌, ◌^◌, ◌<◌, ◌≤◌, ◌≡◌, arith, refl, Bool, true, false, not, ltb, ◌⊎◌, ◌≢◌, inl, inr,
}
use iotech_c_utils.Common.Int.{ℤ, pos, negsuc}
use iotech_c_utils.Data.{IntType, int8, uint8, int16, uint16, int32, uint32, int64, uint64}
use iotech_c_utils.Data.Cast.{to_double, outside, convert}
use iotech_c_utils.Data.Cast.Rounding.{
  to_double_small, to_double_least, to_double_63, to_double_64, to_double_near,
}

-- The numbers of a type.
abbrev pub in_range : IntType → ℤ → Bool
in_range int8 (pos n) = ltb n 128
in_range int8 (negsuc n) = ltb n 128
in_range uint8 (pos n) = ltb n 256
in_range int16 (pos n) = ltb n 32768
in_range int16 (negsuc n) = ltb n 32768
in_range uint16 (pos n) = ltb n 65536
in_range int32 (pos n) = ltb n 2147483648
in_range int32 (negsuc n) = ltb n 2147483648
in_range uint32 (pos n) = ltb n 4294967296
in_range int64 (pos n) = ltb n (2 ^ 63)
in_range int64 (negsuc n) = ltb n (2 ^ 63)
in_range uint64 (pos n) = ltb n (2 ^ 64)
in_range _ (negsuc n) = false

-- Where the code takes `m` for the magnitude `n`.
abbrev pub Near : ℕ → ℕ → Type 0
Near n m = ((m ≡ n) ⊎ ((2 ^ 53 ≤ n) × (2 ^ 53 ≤ m))) × ((m ≤ 2 ^ 63) ⊎ (2 ^ 63 < n)) × (m ≤ 2 ^ 64)

pub to_double-Near : (n : ℕ) → n < 2 ^ 64 → Near n (to_double n)
to_double-Near n h =
    (cases n (2 ^ 53) (to_double_small n) (to_double_least n), least, to_double_64 n h)
  where
    cases : (a b : ℕ) {m : ℕ} → (a < b → m ≡ a) → (b ≤ a → b ≤ m) → (m ≡ a) ⊎ ((b ≤ a) × (b ≤ m))
    cases a b f g = ground arith

    top : (a b : ℕ) {m : ℕ} → (a < b → m ≤ b) → (a ≡ b → m ≡ b) → (m ≤ b) ⊎ (b < a)
    top a b f g = ground arith

    least : (to_double n ≤ 2 ^ 63) ⊎ (2 ^ 63 < n)
    least =
        top n (2 ^ 63) (to_double_63 n)
          (λ e. to_double_near n (omega (arith, e)) (omega (arith, e)))

-- A number above zero against the limits of a type.
pub outside_pos :
    (u : IntType) (n m : ℕ)
    → Near n m
    → (u ≢ int64) ⊎ ((n < 2 ^ 63) ⊎ (2 ^ 63 < m))
    → n < 2 ^ 64
    → outside u (pos m) ≡ not (in_range u (pos n))
outside_pos int8 n m h k b = ground arith
outside_pos uint8 n m h k b = ground arith
outside_pos int16 n m h k b = ground arith
outside_pos uint16 n m h k b = ground arith
outside_pos int32 n m h k b = ground arith
outside_pos uint32 n m h k b = ground arith
outside_pos int64 n m h (inl d) b = absurd (d refl)
outside_pos int64 n m h (inr k) b = ground arith
outside_pos uint64 n m h k b = ground arith

pub outside_negsuc :
    (u : IntType) (n m : ℕ)
    → Near (n + 1) m
    → n < 2 ^ 63
    → outside u (negsuc (m - 1)) ≡ not (in_range u (negsuc n))
outside_negsuc int8 n m h k = ground arith
outside_negsuc uint8 n m h k = ground arith
outside_negsuc int16 n m h k = ground arith
outside_negsuc uint16 n m h k = ground arith
outside_negsuc int32 n m h k = ground arith
outside_negsuc uint32 n m h k = ground arith
outside_negsuc int64 n m h k = ground arith
outside_negsuc uint64 n m h k = ground arith

pub convert_pos : (u : IntType) (n : ℕ) → in_range u (pos n) ≡ true → convert u (pos n) ≡ pos n
convert_pos int8 n h = ground arith
convert_pos uint8 n h = ground arith
convert_pos int16 n h = ground arith
convert_pos uint16 n h = ground arith
convert_pos int32 n h = ground arith
convert_pos uint32 n h = ground arith
convert_pos int64 n h = ground arith
convert_pos uint64 n h = ground arith

pub convert_negsuc :
    (u : IntType) (n : ℕ) → in_range u (negsuc n) ≡ true → convert u (negsuc n) ≡ negsuc n
convert_negsuc int8 n h = ground arith
convert_negsuc uint8 n h = ground arith
convert_negsuc int16 n h = ground arith
convert_negsuc uint16 n h = ground arith
convert_negsuc int32 n h = ground arith
convert_negsuc uint32 n h = ground arith
convert_negsuc int64 n h = ground arith
convert_negsuc uint64 n h = ground arith

-- ===== src/Order.antt =====
-- The order on map keys that `iot_data_cmp` (src/c/data.c) gives, as an interface: the tree code
-- uses only the sign of its result.
use iotech_c_utils.Common.{◌⊎◌, inl, inr, ℕ, ◌≡◌, refl, arith, ltb, ◌==◌, if◌then◌else◌}

-- The sign of a comparison.
pub data Sign : Type 0 where
  lt eq gt : Sign

pub record KeyOrder {ℓ} (K : Type ℓ) : Type ℓ where
  pub cmp : K → K → Sign
  pub cmp_refl : (a : K) → cmp a a ≡ eq
  pub cmp_eq : (a b : K) → cmp a b ≡ eq → a ≡ b
  pub cmp_flip : (a b : K) → cmp a b ≡ gt → cmp b a ≡ lt
  pub cmp_unflip : (a b : K) → cmp a b ≡ lt → cmp b a ≡ gt
  pub cmp_trans : (a b c : K) → cmp a b ≡ lt → cmp b c ≡ lt → cmp a c ≡ lt

-- The case for two `uint64_t` keys.
abbrev pub cmp_ui64 : ℕ → ℕ → Sign
cmp_ui64 a b = if a == b then eq else if ltb a b then lt else gt

pub cmp_ui64_refl : (a : ℕ) → cmp_ui64 a a ≡ eq
cmp_ui64_refl a = ground arith

pub cmp_ui64_eq : (a b : ℕ) → cmp_ui64 a b ≡ eq → a ≡ b
cmp_ui64_eq a b h = ground arith

pub cmp_ui64_flip : (a b : ℕ) → cmp_ui64 a b ≡ gt → cmp_ui64 b a ≡ lt
cmp_ui64_flip a b h = ground arith

pub cmp_ui64_unflip : (a b : ℕ) → cmp_ui64 a b ≡ lt → cmp_ui64 b a ≡ gt
cmp_ui64_unflip a b h = ground arith

pub cmp_ui64_trans : (a b c : ℕ) → cmp_ui64 a b ≡ lt → cmp_ui64 b c ≡ lt → cmp_ui64 a c ≡ lt
cmp_ui64_trans a b c h k = ground arith

instance abbrev pub ui64_order : KeyOrder ℕ
ui64_order = record {
  cmp = cmp_ui64;
  cmp_refl = cmp_ui64_refl;
  cmp_eq = cmp_ui64_eq;
  cmp_flip = cmp_ui64_flip;
  cmp_unflip = cmp_ui64_unflip;
  cmp_trans = cmp_ui64_trans;
}

-- To split on a comparison and keep the equation.
pub Sign-cases : (s : Sign) → (s ≡ lt) ⊎ ((s ≡ eq) ⊎ (s ≡ gt))
Sign-cases lt = inl refl
Sign-cases eq = inr (inl refl)
Sign-cases gt = inr (inr refl)

-- ===== src/Uuid/Form.antt =====
-- src/c/uuid.c and src/c/util.c: the form of a printed UUID.
use iotech_c_utils.Common.{
  ℕ, zero, suc, ◌/◌, ◌<◌, ◌≡◌, arith, bit_and, Bool, true, List, [], ◌∷◌, All, IsByte, length,
  get_or,
}
use iotech_c_utils.Common.Bits.{bit_and_15}
use iotech_c_utils.Uuid.{hexdigits, hex, unparse, string_is_uuid}

All-get_or : (P : ℕ → Type 0) (xs : List ℕ) (n d : ℕ) → All P xs → n < length xs → P (get_or xs n d)
All-get_or P [] n d h lt = absurd (omega arith)
All-get_or P (x ∷ xs) zero d h lt = h.0
All-get_or P (x ∷ xs) (suc n) d h lt = All-get_or P xs n d h.1 (omega arith)

module _ (isxdigit : ℕ → Bool) (h : All (λ c. isxdigit c ≡ true) hexdigits) where
  hex-isxdigit : (n : ℕ) → n < 16 → isxdigit (hex n) ≡ true
  unfolding hex
  hex-isxdigit n lt = All-get_or (λ c. isxdigit c ≡ true) hexdigits n 0 h lt

  hex_high : (b : ℕ) → IsByte b → isxdigit (hex (b / 16)) ≡ true
  hex_high b p = hex-isxdigit (b / 16) (omega arith)

  hex_low : (b : ℕ) → isxdigit (hex (bit_and b 15)) ≡ true
  hex_low b = hex-isxdigit (bit_and b 15) (omega (arith, bit_and_15 b))

  -- Where the C library's `isxdigit` accepts the digits 0 to 9 and a to f, every UUID of sixteen
  -- bytes is printed as a string that `iot_util_string_is_uuid` accepts.
  pub string_is_uuid-unparse :
      (a b c d e f g i j k l m n o p q : ℕ)
      → All IsByte (a ∷ b ∷ c ∷ d ∷ e ∷ f ∷ g ∷ i ∷ j ∷ k ∷ l ∷ m ∷ n ∷ o ∷ p ∷ q ∷ [])
      → string_is_uuid isxdigit
          (unparse (a ∷ b ∷ c ∷ d ∷ e ∷ f ∷ g ∷ i ∷ j ∷ k ∷ l ∷ m ∷ n ∷ o ∷ p ∷ q ∷ []))
        ≡ true
  string_is_uuid-unparse a b c d e f g i j k l m n o p q
        (
          ha,
          (
            hb,
            (hc, (hd, (he, (hf, (hg, (hi, (hj, (hk, (hl, (hm, (hn, (ho, (hp, (hq, _)))))))))))))),
          ),
        ) =
      rw (
        hex_high a ha,
        hex_low a,
        hex_high b hb,
        hex_low b,
        hex_high c hc,
        hex_low c,
        hex_high d hd,
        hex_low d,
        hex_high e he,
        hex_low e,
        hex_high f hf,
        hex_low f,
        hex_high g hg,
        hex_low g,
        hex_high i hi,
        hex_low i,
        hex_high j hj,
        hex_low j,
        hex_high k hk,
        hex_low k,
        hex_high l hl,
        hex_low l,
        hex_high m hm,
        hex_low m,
        hex_high n hn,
        hex_low n,
        hex_high o ho,
        hex_low o,
        hex_high p hp,
        hex_low p,
        hex_high q hq,
        hex_low q,
      )

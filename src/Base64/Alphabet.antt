-- ===== src/Base64/Alphabet.antt =====
-- src/c/base64.c: the characters that the encoder writes.
use iotech_c_utils.Common.{
  ℕ, ◌+◌, ◌*◌, ◌<◌, ◌≡◌, refl, sym, ◌∙◌, arith, not, true, List, [], ◌∷◌, ◌++◌, some, ◌==◌, All,
  All-append, ◌⊎◌, inl, inr, ◌≢◌,
}
use mathlib.Core.Path.{subst}
use iotech_c_utils.Base64.{dec, enc, codes, encode_loop, pad_loop, encode}
use iotech_c_utils.Base64.Chars.{dec-enc, every_below, every_below_lem}
use iotech_c_utils.Base64.RoundTrip.{
  symbol0, symbol1, symbol2, symbol3, pads, padded, encode_chunk_one, encode_chunk_two,
  encode_chunk_three,
}

-- A character of the alphabet or the pad; neither ends a C string.
abbrev pub IsCoded : ℕ → Type 0
IsCoded c = (c ≢ 0) × ((dec c < 64) ⊎ (c ≡ b'='))

enc-ne-zero_table : every_below (λ n. not (enc n == 0)) 64 ≡ true
unfolding every_below enc codes
enc-ne-zero_table = refl

enc-IsCoded : (n : ℕ) → n < 64 → IsCoded (enc n)
enc-IsCoded n h = (
  ground (arith, every_below_lem (λ n. not (enc n == 0)) 64 h enc-ne-zero_table),
  inl (rw (dec-enc n h) h),
)

pad-IsCoded : IsCoded b'='
pad-IsCoded = (omega arith, inr refl)

encode_loop-IsCoded : (input : List ℕ) → All IsCoded (encode_loop input)
unfolding encode_loop
encode_loop-IsCoded [] = tt
encode_loop-IsCoded (a ∷ []) =
    subst (All IsCoded) (sym (encode_chunk_one a))
      (enc-IsCoded _ (omega arith), (enc-IsCoded _ (omega arith), tt))
encode_loop-IsCoded (a ∷ b ∷ []) =
    subst (All IsCoded) (sym (encode_chunk_two a b)) (
      enc-IsCoded _ (omega arith),
      (enc-IsCoded _ (omega arith), (enc-IsCoded _ (omega arith), tt)),
    )
encode_loop-IsCoded (a ∷ b ∷ c ∷ rest) =
    let first = enc-IsCoded (symbol0 (a * 65536 + b * 256 + c)) (omega arith) in
    let second = enc-IsCoded (symbol1 (a * 65536 + b * 256 + c)) (omega arith) in
    let third = enc-IsCoded (symbol2 (a * 65536 + b * 256 + c)) (omega arith) in
    let fourth = enc-IsCoded (symbol3 (a * 65536 + b * 256 + c)) (omega arith) in
    subst (λ l. All IsCoded (l ++ encode_loop rest)) (sym (encode_chunk_three a b c))
      (first, (second, (third, (fourth, encode_loop-IsCoded rest))))

pads-IsCoded : (input : List ℕ) → All IsCoded (pads input)
unfolding pads
pads-IsCoded [] = tt
pads-IsCoded (a ∷ []) = (pad-IsCoded, (pad-IsCoded, tt))
pads-IsCoded (a ∷ b ∷ []) = (pad-IsCoded, tt)
pads-IsCoded (a ∷ b ∷ c ∷ rest) = pads-IsCoded rest

-- Every character that the encoder writes before the terminator is one of the alphabet or `=`, and
-- none is the terminator itself, so the C string is the whole encoding.
pub encode-IsCoded :
    (input : List ℕ) (size : ℕ) {s : List ℕ} → encode input size ≡ some s → All IsCoded s
unfolding encode
encode-IsCoded input size {s} e =
    let p : pad_loop 3 (encode_loop input) ≡ s = ground arith in
    subst (All IsCoded) (sym (padded input) ∙ p) (
      All-append IsCoded (encode_loop input) (pads input) (encode_loop-IsCoded input)
        (pads-IsCoded input))

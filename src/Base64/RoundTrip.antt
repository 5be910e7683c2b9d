-- ===== src/Base64/RoundTrip.antt =====
-- src/c/base64.c: decoding what the encoder wrote.
use iotech_c_utils.Common.{
  ℕ, zero, suc, ◌+◌, ◌*◌, ◌/◌, ◌%◌, ◌^◌, ◌≤◌, ◌≡◌, refl, ◌∙◌, arith, true, List, [], ◌∷◌, ◌++◌,
  none, some, bit_and, length, length-append, All, IsByte, append_assoc, append-nil, ◌⊎◌, inl, inr,
}
use iotech_c_utils.Common.Bits.{bit_and_63, bit_and_255}
use iotech_c_utils.Base64.{
  enc, encode_chunk, encode_loop, decode_end, decode_loop, pad_loop, encode, decode, encodesize,
}
use iotech_c_utils.Base64.Chars.{
  split_buffer_lem, decode_loop_symbol, decode_loop_flush, decode_loop_pad,
}

-- The four symbols of a 24 bit number.
abbrev pub symbol0 : ℕ → ℕ
symbol0 n = n / 262144 % 64

abbrev pub symbol1 : ℕ → ℕ
symbol1 n = n / 4096 % 64

abbrev pub symbol2 : ℕ → ℕ
symbol2 n = n / 64 % 64

abbrev pub symbol3 : ℕ → ℕ
symbol3 n = n % 64

mask_byte : (m : ℕ) → bit_and (m % 256) 63 ≡ m % 64
mask_byte m = omega (arith, bit_and_63 (m % 256))

pub encode_chunk_one :
    (a : ℕ) → let n = a * 65536 in encode_chunk a none none ≡ enc (symbol0 n) ∷ enc (symbol1 n) ∷ []
unfolding encode_chunk
encode_chunk_one a =
    let e : a * 65536 + 0 + 0 ≡ a * 65536 = omega arith in
    rw (e, mask_byte (a * 65536 / 262144), mask_byte (a * 65536 / 4096))

pub encode_chunk_two :
    (a b : ℕ)
    → let n = a * 65536 + b * 256 in
      encode_chunk a (some b) none ≡ enc (symbol0 n) ∷ enc (symbol1 n) ∷ enc (symbol2 n) ∷ []
unfolding encode_chunk
encode_chunk_two a b =
    let n : ℕ = a * 65536 + b * 256 in
    let e : a * 65536 + b * 256 + 0 ≡ n = omega arith in
    rw (e, mask_byte (n / 262144), mask_byte (n / 4096), mask_byte (n / 64))

pub encode_chunk_three :
    (a b c : ℕ)
    → let n = a * 65536 + b * 256 + c in
      encode_chunk a (some b) (some c)
      ≡ enc (symbol0 n) ∷ enc (symbol1 n) ∷ enc (symbol2 n) ∷ enc (symbol3 n) ∷ []
unfolding encode_chunk
encode_chunk_three a b c =
    let n : ℕ = a * 65536 + b * 256 + c in
    let e : a * 65536 + b * 256 + c * 1 ≡ n = omega arith in
    rw (e, mask_byte (n / 262144), mask_byte (n / 4096), mask_byte (n / 64), mask_byte n)

-- Three bytes, in full.
decode_three :
    (a b c : ℕ) (rest : List ℕ) (out_len len : ℕ) (out : List ℕ)
    → IsByte a
    → IsByte b
    → IsByte c
    → len + 3 ≤ out_len
    → decode_loop (encode_chunk a (some b) (some c) ++ rest) out_len 0 0 len out
      ≡ decode_loop rest out_len 0 0 (len + 3) (out ++ a ∷ b ∷ c ∷ [])
decode_three a b c rest out_len len out ha hb hc hl =
    let n : ℕ = a * 65536 + b * 256 + c in
    let s0 = symbol0 n in
    let s1 = symbol1 n in
    let s2 = symbol2 n in
    let s3 = symbol3 n in
    let full = ((0 * 64 + s0) * 64 + s1) * 64 + s2 in
    let e0 : (full * 64 + s3) / 65536 % 256 ≡ a = omega arith in
    let e1 : (full * 64 + s3) / 256 % 256 ≡ b = omega arith in
    let e2 : (full * 64 + s3) % 256 ≡ c = omega arith in
    rw (encode_chunk_three a b c) (
      decode_loop_symbol s0 _ out_len 0 0 len out (omega arith) (omega arith) (omega arith)
      ∙ decode_loop_symbol s1 _ out_len 1 _ len out (omega arith) (omega arith) (omega arith)
      ∙ decode_loop_symbol s2 _ out_len 2 _ len out (omega arith) (omega arith) (omega arith)
      ∙ decode_loop_flush s3 rest out_len full len out (omega arith) (omega arith) hl
      ∙ rw (split_buffer_lem (full * 64 + s3), e0, e1, e2))

decode_two :
    (a b : ℕ) (out_len len : ℕ) (out : List ℕ)
    → IsByte a
    → IsByte b
    → len + 2 ≤ out_len
    → decode_loop (encode_chunk a (some b) none ++ b'=' ∷ []) out_len 0 0 len out
      ≡ record { ok = true; out = out ++ a ∷ b ∷ []; out_len = len + 2 }
unfolding decode_end
decode_two a b out_len len out ha hb hl =
    let n : ℕ = a * 65536 + b * 256 in
    let s0 = symbol0 n in
    let s1 = symbol1 n in
    let s2 = symbol2 n in
    let full = ((0 * 64 + s0) * 64 + s1) * 64 + s2 in
    let e0 : bit_and (full / 2 ^ 10) 255 ≡ a = omega (arith, bit_and_255 (full / 2 ^ 10)) in
    let e1 : bit_and (full / 2 ^ 2) 255 ≡ b = omega (arith, bit_and_255 (full / 2 ^ 2)) in
    rw (encode_chunk_two a b) (
      decode_loop_symbol s0 _ out_len 0 0 len out (omega arith) (omega arith) (omega arith)
      ∙ decode_loop_symbol s1 _ out_len 1 _ len out (omega arith) (omega arith) (omega arith)
      ∙ decode_loop_symbol s2 _ out_len 2 _ len out (omega arith) (omega arith) (omega arith)
      ∙ decode_loop_pad [] out_len 3 full len out
      ∙ rw (e0, e1) (ground arith))

decode_one :
    (a : ℕ) (out_len len : ℕ) (out : List ℕ)
    → IsByte a
    → len + 1 ≤ out_len
    → decode_loop (encode_chunk a none none ++ b'=' ∷ b'=' ∷ []) out_len 0 0 len out
      ≡ record { ok = true; out = out ++ a ∷ []; out_len = len + 1 }
unfolding decode_end
decode_one a out_len len out ha hl =
    let n : ℕ = a * 65536 in
    let s0 = symbol0 n in
    let s1 = symbol1 n in
    let full = (0 * 64 + s0) * 64 + s1 in
    let e0 : bit_and (full / 2 ^ 4) 255 ≡ a = omega (arith, bit_and_255 (full / 2 ^ 4)) in
    rw (encode_chunk_one a) (
      decode_loop_symbol s0 _ out_len 0 0 len out (omega arith) (omega arith) (omega arith)
      ∙ decode_loop_symbol s1 _ out_len 1 _ len out (omega arith) (omega arith) (omega arith)
      ∙ decode_loop_pad _ out_len 2 full len out
      ∙ rw e0 (ground arith))

-- The padding of an encoding.
unfoldable pub pads : List ℕ → List ℕ
pads [] = []
pads (a ∷ []) = b'=' ∷ b'=' ∷ []
pads (a ∷ b ∷ []) = b'=' ∷ []
pads (a ∷ b ∷ c ∷ rest) = pads rest

pub length-encode_loop :
    (input : List ℕ)
    → length (encode_loop input)
      ≡ length input / 3 * 4 + (length input % 3 + (length input % 3 + 2) / 3)
unfolding encode_loop
length-encode_loop [] = refl
length-encode_loop (a ∷ []) = refl
length-encode_loop (a ∷ b ∷ []) = refl
length-encode_loop (a ∷ b ∷ c ∷ rest) = omega (arith, length-encode_loop rest)

pads_cases :
    (input : List ℕ)
    → ((length input % 3 ≡ 0) × (pads input ≡ []))
      ⊎ (((length input % 3 ≡ 1) × (pads input ≡ b'=' ∷ b'=' ∷ []))
          ⊎ ((length input % 3 ≡ 2) × (pads input ≡ b'=' ∷ [])))
unfolding pads
pads_cases [] = inl (refl, refl)
pads_cases (a ∷ []) = inr (inl (refl, refl))
pads_cases (a ∷ b ∷ []) = inr (inr (refl, refl))
pads_cases (a ∷ b ∷ c ∷ rest) = ground (arith, pads_cases rest)

pad_none : (f : ℕ) (out : List ℕ) → length out % 4 ≡ 0 → pad_loop f out ≡ out
unfolding pad_loop
pad_none zero out h = refl
pad_none (suc f) out h = ground arith

pad_one : (f : ℕ) (out : List ℕ) → length out % 4 ≡ 3 → pad_loop (suc f) out ≡ out ++ b'=' ∷ []
unfolding pad_loop
pad_one f out h = ground (
  arith,
  length-append out (b'=' ∷ []),
  pad_none f (out ++ b'=' ∷ []) (omega (arith, length-append out (b'=' ∷ []))),
)

pad_two :
    (f : ℕ) (out : List ℕ)
    → length out % 4 ≡ 2
    → pad_loop (suc (suc f)) out ≡ out ++ b'=' ∷ b'=' ∷ []
pad_two f out h =
    let step : pad_loop (suc (suc f)) out ≡ pad_loop (suc f) (out ++ b'=' ∷ []) =
      unfold pad_loop in ground arith in
    step
    ∙ pad_one f (out ++ b'=' ∷ []) (omega (arith, length-append out (b'=' ∷ [])))
    ∙ append_assoc out (b'=' ∷ []) (b'=' ∷ [])

pub padded : (input : List ℕ) → pad_loop 3 (encode_loop input) ≡ encode_loop input ++ pads input
padded input = elim (pads_cases input) [
  | inl (h, e) ↦ rw (e, append-nil) (pad_none 3 out (omega (arith, length-encode_loop input)))
  | inr (inl (h, e)) ↦ rw e (pad_two 1 out (omega (arith, length-encode_loop input)))
  | inr (inr (h, e)) ↦ rw e (pad_one 2 out (omega (arith, length-encode_loop input)))
]
  where
    out : List ℕ
    out = encode_loop input

decode-encode_loop :
    (input : List ℕ) (out_len len : ℕ) (out : List ℕ)
    → All IsByte input
    → len + length input ≤ out_len
    → decode_loop (encode_loop input ++ pads input) out_len 0 0 len out
      ≡ record { ok = true; out = out ++ input; out_len = len + length input }
unfolding encode_loop pads
decode-encode_loop [] out_len len out h hl = unfold decode_loop in ground (arith, append-nil out)
decode-encode_loop (a ∷ []) out_len len out h hl = decode_one a out_len len out h.0 (omega arith)
decode-encode_loop (a ∷ b ∷ []) out_len len out h hl =
    decode_two a b out_len len out h.0 h.1.0 (omega arith)
decode-encode_loop (a ∷ b ∷ c ∷ rest) out_len len out h hl =
    rw (append_assoc (encode_chunk a (some b) (some c)) (encode_loop rest) (pads rest)) (
      decode_three a b c _ out_len len out h.0 h.1.0 h.1.1.0 (omega arith)
      ∙ decode-encode_loop rest out_len (len + 3) (out ++ a ∷ b ∷ c ∷ []) h.1.1.1 (omega arith)
      ∙ ground (arith, append_assoc out (a ∷ b ∷ c ∷ []) rest))

pub length-padded :
    (input : List ℕ) → length (encode_loop input ++ pads input) + 1 ≡ encodesize (length input)
unfolding encode_loop pads encodesize
length-padded [] = refl
length-padded (a ∷ []) = refl
length-padded (a ∷ b ∷ []) = refl
length-padded (a ∷ b ∷ c ∷ rest) = ground (arith, length-padded rest)

-- For every list of bytes: where the encoder is given a buffer of at least `encodesize` bytes, it
-- succeeds, and decoding the string it wrote into a buffer that holds the bytes gives the bytes
-- back, with their number as the output length.
pub decode-encode :
    (input : List ℕ) (size out_len : ℕ)
    → All IsByte input
    → encodesize (length input) ≤ size
    → length input ≤ out_len
    → (s : List ℕ) × (encode input size ≡ some s)
      × (decode s out_len ≡ record { ok = true; out = input; out_len = length input })
unfolding encode decode
decode-encode input size out_len h hs hl = (
  pad_loop 3 (encode_loop input),
  ground arith,
  rw (padded input) (decode-encode_loop input out_len 0 [] h (omega arith) ∙ ground arith),
)

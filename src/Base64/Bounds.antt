-- ===== src/Base64/Bounds.antt =====
-- src/c/base64.c: what the codec writes on any input, and when decoding succeeds.
use iotech_c_utils.Common.{
  ℕ, ◌+◌, ◌*◌, ◌/◌, ◌%◌, ◌^◌, ◌≤◌, ◌<◌, ◌≡◌, refl, arith, Bool, true, false, List, [], ◌∷◌, ◌++◌,
  none, some, ◌==◌, bit_and, length, length-append, leb, ◌⊎◌, inl, inr, if◌then◌else◌, Bool-cases,
}
use iotech_c_utils.Base64.{
  dec, equals, invalid, split_buffer, push_symbol, encode_loop, decode_end, decode_loop, Decoded,
  pad_loop, encode, decode, encodesize, maxdecodesize,
}
use iotech_c_utils.Base64.RoundTrip.{padded, length-padded}

-- For every input and buffer size: the encoder fails exactly if the buffer is smaller than
-- `encodesize`, and the string it writes, with its terminator, takes `encodesize` bytes exactly.
pub length-encode :
    (input : List ℕ) (size : ℕ)
    → ((size < encodesize (length input)) × (encode input size ≡ none))
      ⊎ ((encodesize (length input) ≤ size)
          × ((s : List ℕ) × (encode input size ≡ some s)
              × (length s + 1 ≡ encodesize (length input))))
unfolding encode
length-encode input size = elim (Bool-cases (leb (encodesize (length input)) size)) [
  | inl e ↦ inr (
    ground arith,
    (pad_loop 3 (encode_loop input), rw e, rw (padded input) (length-padded input)),
  )
  | inr e ↦ inl (ground arith, rw e)
]

-- With room enough the size does not matter.
pub encode_room :
    (input : List ℕ) (size : ℕ)
    → encodesize (length input) ≤ size
    → encode input size ≡ encode input (encodesize (length input))
unfolding encode
encode_room input size h =
    let a : leb (encodesize (length input)) size ≡ true = ground arith in
    let b : leb (encodesize (length input)) (encodesize (length input)) ≡ true = ground arith in
    rw (a, b)

-- What holds of the output whatever the input is.
abbrev pub Fits : ℕ → Decoded → Type 0
Fits n r =
    (length r.out ≤ n)
    × (((r.ok ≡ true) × (length r.out ≡ r.out_len)) ⊎ ((r.ok ≡ false) × (r.out_len ≡ n)))

decode_end-Fits :
    (n iter buf len : ℕ) (out : List ℕ)
    → length out ≡ len
    → len ≤ n
    → Fits n (decode_end n iter buf len out)
unfolding decode_end
decode_end-Fits n iter buf len out e h = ground (
  arith,
  length-append out (bit_and (buf / 2 ^ 10) 255 ∷ bit_and (buf / 2 ^ 2) 255 ∷ []),
  length-append out (bit_and (buf / 2 ^ 4) 255 ∷ []),
)

length-split_buffer : (out : List ℕ) (buf : ℕ) → length (out ++ split_buffer buf) ≡ length out + 3
unfolding split_buffer
length-split_buffer out buf = length-append out _

decode_loop-Fits :
    (input : List ℕ) (n iter buf len : ℕ) (out : List ℕ)
    → length out ≡ len
    → len ≤ n
    → Fits n (decode_loop input n iter buf len out)
unfolding decode_loop
decode_loop-Fits [] n iter buf len out e h = decode_end-Fits n iter buf len out e h
decode_loop-Fits (ch ∷ input) n iter buf len out e h = ground (
  arith,
  decode_loop-Fits input n iter buf len out,
  decode_end-Fits n iter buf len out,
  length-split_buffer out (push_symbol buf (dec ch)),
  decode_loop-Fits input n 0 0 (len + 3) (out ++ split_buffer (push_symbol buf (dec ch))),
  decode_loop-Fits input n (iter + 1) (push_symbol buf (dec ch)) len out,
)

-- For every input string and buffer size, well formed or not: the decoder never writes beyond the
-- buffer; if it succeeds, the output length is the number of bytes it wrote, and if it fails, the
-- caller's length is unchanged.
pub decode-Fits : (s : List ℕ) (n : ℕ) → Fits n (decode s n)
unfolding decode
decode-Fits s n = decode_loop-Fits s n 0 0 0 [] refl (omega arith)

-- Whether no character before the first `=` is invalid. Of white space the table takes only the
-- line feed.
pub accepts : List ℕ → Bool
accepts [] = true
accepts (c ∷ s) =
    let rest = accepts s in
    if dec c == equals then true else if dec c == invalid then false else rest

-- The bytes that `r` symbols can fill.
abbrev capacity : ℕ → ℕ
capacity r = r / 4 * 3 + (r % 4 + 2) / 3 * 2

decode_end_ok :
    (n iter buf len r : ℕ) (out : List ℕ)
    → iter < 4
    → len + capacity (iter + r) ≤ n
    → (decode_end n iter buf len out).ok ≡ true
unfolding decode_end
decode_end_ok n iter buf len r out hi h = ground arith

decode_loop_ok :
    (s : List ℕ) (n iter buf len : ℕ) (out : List ℕ)
    → iter < 4
    → len + capacity (iter + length s) ≤ n
    → (decode_loop s n iter buf len out).ok ≡ accepts s
unfolding decode_loop accepts
decode_loop_ok [] n iter buf len out hi h = decode_end_ok n iter buf len 0 out hi h
decode_loop_ok (c ∷ s) n iter buf len out hi h = ground (
  arith,
  decode_loop_ok s n iter buf len out,
  decode_end_ok n iter buf len (length s + 1) out,
  decode_loop_ok s n 0 0 (len + 3) (out ++ split_buffer (push_symbol buf (dec c))),
  decode_loop_ok s n (iter + 1) (push_symbol buf (dec c)) len out,
)

-- For every string: with a buffer of at least `maxdecodesize` bytes, decoding succeeds exactly if
-- no character before the first `=` is invalid by the table.
pub decode-accepts : (s : List ℕ) (n : ℕ) → maxdecodesize s ≤ n → (decode s n).ok ≡ accepts s
unfolding decode maxdecodesize
decode-accepts s n h = decode_loop_ok s n 0 0 0 [] (omega arith) (ground arith)

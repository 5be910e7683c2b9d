-- ===== src/Base64/Chars.antt =====
-- The two tables of src/c/base64.c, and what the loops of the codec do with one character.
use iotech_c_utils.Common.{
  ℕ, zero, suc, ◌+◌, ◌*◌, ◌/◌, ◌%◌, ◌^◌, ◌≤◌, ◌<◌, ◌≡◌, refl, arith, Bool, true, ◌&&◌, List, [],
  ◌∷◌, ◌++◌, ◌==◌, ==_iff,
}
use iotech_c_utils.Common.Bits.{bit_and_255, bit_or_shift6}
use iotech_c_utils.Base64.{
  dec, enc, codes, push_symbol, split_buffer, decode_end, decode_loop, equals,
}

-- A test on the values under a bound, one after the other.
unfoldable pub every_below : (ℕ → Bool) → ℕ → Bool
every_below test zero = true
every_below test (suc bound) = every_below test bound && test bound

pub every_below_lem :
    (test : ℕ → Bool) (bound : ℕ) {i : ℕ}
    → i < bound
    → every_below test bound ≡ true
    → test i ≡ true
unfolding every_below
every_below_lem test (suc bound) {i = i} lt h = ground (arith, every_below_lem test bound {i = i})
every_below_lem test zero lt h = absurd (omega arith)

dec-enc_table : every_below (λ n. dec (enc n) == n) 64 ≡ true
unfolding every_below dec enc codes
dec-enc_table = refl

-- Decoding undoes the alphabet.
pub dec-enc : (n : ℕ) → n < 64 → dec (enc n) ≡ n
dec-enc n h = (==_iff _ n).0 (every_below_lem (λ n. dec (enc n) == n) 64 h dec-enc_table)

pub dec_pad : dec b'=' ≡ equals
unfolding dec
dec_pad = refl

pub push_symbol_lem : (buf c : ℕ) → buf < 2 ^ 26 → c < 64 → push_symbol buf c ≡ buf * 64 + c
unfolding push_symbol
push_symbol_lem buf c hb hc =
    let e : buf * 64 % 2 ^ 32 ≡ buf * 64 = omega arith in rw e (bit_or_shift6 buf c hc)

pub split_buffer_lem :
    (buf : ℕ) → split_buffer buf ≡ buf / 65536 % 256 ∷ buf / 256 % 256 ∷ buf % 256 ∷ []
unfolding split_buffer
split_buffer_lem buf = simp (bit_and_255)

-- A character of the alphabet, where the buffer is not full yet.
pub decode_loop_symbol :
    (n : ℕ) (input : List ℕ) (out_len iter buf len : ℕ) (out : List ℕ)
    → n < 64
    → buf < 2 ^ 26
    → iter < 3
    → decode_loop (enc n ∷ input) out_len iter buf len out
      ≡ decode_loop input out_len (iter + 1) (buf * 64 + n) len out
unfolding decode_loop
decode_loop_symbol n input out_len iter buf len out hn hb hi =
    ground (arith, dec-enc n hn, push_symbol_lem buf n hb hn)

-- The fourth character of a group.
pub decode_loop_flush :
    (n : ℕ) (input : List ℕ) (out_len buf len : ℕ) (out : List ℕ)
    → n < 64
    → buf < 2 ^ 26
    → len + 3 ≤ out_len
    → decode_loop (enc n ∷ input) out_len 3 buf len out
      ≡ decode_loop input out_len 0 0 (len + 3) (out ++ split_buffer (buf * 64 + n))
unfolding decode_loop
decode_loop_flush n input out_len buf len out hn hb hl =
    ground (arith, dec-enc n hn, push_symbol_lem buf n hb hn)

pub decode_loop_pad :
    (input : List ℕ) (out_len iter buf len : ℕ) (out : List ℕ)
    → decode_loop (b'=' ∷ input) out_len iter buf len out ≡ decode_end out_len iter buf len out
unfolding decode_loop
decode_loop_pad input out_len iter buf len out = ground (arith, dec_pad)

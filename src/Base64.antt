-- ===== src/Base64.antt =====
-- src/c/base64.c: the base64 codec over bytes and character codes.
-- A C string is the list of its characters before the terminator.
pub mod Chars
pub mod RoundTrip
pub mod Alphabet
pub mod Bounds
pub mod Tests
use Prim.Native.String.{String}
use Prim.Native.String
use Prim.Native.Char.{code}
use iotech_c_utils.Common.{
  ℕ, zero, suc, ◌+◌, ◌-◌, ◌*◌, ◌/◌, ◌%◌, ◌^◌, ◌<◌, bit_and, bit_or, Bool, true, false, not, List,
  [], ◌∷◌, ◌++◌, Option, none, some, length, get_or, ltb, leb, ◌==◌, if◌then◌else◌,
}

abbrev pub whitespace : ℕ
whitespace = 64

abbrev pub equals : ℕ
equals = 65

abbrev pub invalid : ℕ
invalid = 66

-- The value of each character, by its code.
pub dec_table : List ℕ
dec_table =
    66 ∷ 66 ∷ 66 ∷ 66 ∷ 66 ∷ 66 ∷ 66 ∷ 66 ∷ 66 ∷ 66 ∷ 64 ∷ 66 ∷ 66 ∷ 66 ∷ 66 ∷ 66 ∷ 66 ∷ 66 ∷ 66
    ∷ 66 ∷ 66 ∷ 66 ∷ 66 ∷ 66 ∷ 66 ∷ 66 ∷ 66 ∷ 66 ∷ 66 ∷ 66 ∷ 66 ∷ 66 ∷ 66 ∷ 66 ∷ 66 ∷ 66 ∷ 66 ∷ 66
    ∷ 66 ∷ 66 ∷ 66 ∷ 66 ∷ 66 ∷ 62 ∷ 66 ∷ 66 ∷ 66 ∷ 63 ∷ 52 ∷ 53 ∷ 54 ∷ 55 ∷ 56 ∷ 57 ∷ 58 ∷ 59 ∷ 60
    ∷ 61 ∷ 66 ∷ 66 ∷ 66 ∷ 65 ∷ 66 ∷ 66 ∷ 66 ∷ 0 ∷ 1 ∷ 2 ∷ 3 ∷ 4 ∷ 5 ∷ 6 ∷ 7 ∷ 8 ∷ 9 ∷ 10 ∷ 11 ∷ 12
    ∷ 13 ∷ 14 ∷ 15 ∷ 16 ∷ 17 ∷ 18 ∷ 19 ∷ 20 ∷ 21 ∷ 22 ∷ 23 ∷ 24 ∷ 25 ∷ 66 ∷ 66 ∷ 66 ∷ 66 ∷ 66 ∷ 66
    ∷ 26 ∷ 27 ∷ 28 ∷ 29 ∷ 30 ∷ 31 ∷ 32 ∷ 33 ∷ 34 ∷ 35 ∷ 36 ∷ 37 ∷ 38 ∷ 39 ∷ 40 ∷ 41 ∷ 42 ∷ 43 ∷ 44
    ∷ 45 ∷ 46 ∷ 47 ∷ 48 ∷ 49 ∷ 50 ∷ 51 ∷ 66 ∷ 66 ∷ 66 ∷ 66 ∷ 66 ∷ 66 ∷ 66 ∷ 66 ∷ 66 ∷ 66 ∷ 66 ∷ 66
    ∷ 66 ∷ 66 ∷ 66 ∷ 66 ∷ 66 ∷ 66 ∷ 66 ∷ 66 ∷ 66 ∷ 66 ∷ 66 ∷ 66 ∷ 66 ∷ 66 ∷ 66 ∷ 66 ∷ 66 ∷ 66 ∷ 66
    ∷ 66 ∷ 66 ∷ 66 ∷ 66 ∷ 66 ∷ 66 ∷ 66 ∷ 66 ∷ 66 ∷ 66 ∷ 66 ∷ 66 ∷ 66 ∷ 66 ∷ 66 ∷ 66 ∷ 66 ∷ 66 ∷ 66
    ∷ 66 ∷ 66 ∷ 66 ∷ 66 ∷ 66 ∷ 66 ∷ 66 ∷ 66 ∷ 66 ∷ 66 ∷ 66 ∷ 66 ∷ 66 ∷ 66 ∷ 66 ∷ 66 ∷ 66 ∷ 66 ∷ 66
    ∷ 66 ∷ 66 ∷ 66 ∷ 66 ∷ 66 ∷ 66 ∷ 66 ∷ 66 ∷ 66 ∷ 66 ∷ 66 ∷ 66 ∷ 66 ∷ 66 ∷ 66 ∷ 66 ∷ 66 ∷ 66 ∷ 66
    ∷ 66 ∷ 66 ∷ 66 ∷ 66 ∷ 66 ∷ 66 ∷ 66 ∷ 66 ∷ 66 ∷ 66 ∷ 66 ∷ 66 ∷ 66 ∷ 66 ∷ 66 ∷ 66 ∷ 66 ∷ 66 ∷ 66
    ∷ 66 ∷ 66 ∷ 66 ∷ 66 ∷ 66 ∷ 66 ∷ 66 ∷ 66 ∷ 66 ∷ 66 ∷ 66 ∷ 66 ∷ 66 ∷ 66 ∷ 66 ∷ 66 ∷ 66 ∷ 66 ∷ 66
    ∷ 66 ∷ 66 ∷ 66 ∷ 66 ∷ 66 ∷ 66 ∷ 66 ∷ []

pub dec : ℕ → ℕ
unfolding dec_table
dec c = get_or dec_table c invalid

unfoldable pub codes : String → List ℕ
codes String.[] = []
codes (String.◌∷◌ c s) = code c ∷ codes s

pub enc_table : List ℕ
unfolding codes
enc_table = codes "ABCDEFGHIJKLMNOPQRSTUVWXYZabcdefghijklmnopqrstuvwxyz0123456789+/"

pub enc : ℕ → ℕ
unfolding enc_table
enc n = get_or enc_table n 0

pub encodesize : ℕ → ℕ
encodesize binsize =
    (let result = binsize / 3 * 4 in if not (binsize % 3 == 0) then result + 4 else result) + 1

pub maxdecodesize : List ℕ → ℕ
maxdecodesize input =
    let len = length input in if not (len % 4 == 0) then len / 4 * 3 + 2 else len / 4 * 3

-- What `iot_b64_decode` leaves: its result, the bytes written from `outv` on, and `*outLen`.
pub record Decoded : Type 0 where
  pub ok : Bool
  pub out : List ℕ
  pub out_len : ℕ

abbrev pub failed : List ℕ → ℕ → Decoded
failed out out_len = record { ok = false; out = out; out_len = out_len }

-- `buf << 6 | c` in a `uint32_t`.
pub push_symbol : ℕ → ℕ → ℕ
push_symbol buf c = bit_or (buf * 64 % 2 ^ 32) c

-- The three bytes that four symbols fill.
pub split_buffer : ℕ → List ℕ
split_buffer buf = bit_and (buf / 2 ^ 16) 255 ∷ bit_and (buf / 2 ^ 8) 255 ∷ bit_and buf 255 ∷ []

-- What follows the loop: the bytes of two or three symbols that are left in the buffer.
pub decode_end : (out_len iter buf len : ℕ) → List ℕ → Decoded
decode_end out_len iter buf len out =
    if iter == 3
    then (if ltb out_len (len + 2) then failed out out_len else record {
      ok = true;
      out = out ++ bit_and (buf / 2 ^ 10) 255 ∷ bit_and (buf / 2 ^ 2) 255 ∷ [];
      out_len = len + 2;
    })
    else if iter == 2
    then (if ltb out_len (len + 1)
        then failed out out_len
        else record { ok = true; out = out ++ bit_and (buf / 2 ^ 4) 255 ∷ []; out_len = len + 1 })
    else record { ok = true; out = out; out_len = len }

-- The loop over the input. `out` is what has been written so far.
pub decode_loop : List ℕ → (out_len iter buf len : ℕ) → List ℕ → Decoded
unfolding decode_end
decode_loop [] out_len iter buf len out = decode_end out_len iter buf len out
decode_loop (ch ∷ input) out_len iter buf len out =
    let c = dec ch in
    let buf' = push_symbol buf c in
    let skip = decode_loop input out_len iter buf len out in
    let flush = decode_loop input out_len 0 0 (len + 3) (out ++ split_buffer buf') in
    let more = decode_loop input out_len (iter + 1) buf' len out in
    if c == whitespace
    then skip
    else if c == invalid
    then failed out out_len
    else if c == equals
    then decode_end out_len iter buf len out
    else if iter + 1 == 4
    then (if ltb out_len (len + 3) then failed out out_len else flush)
    else more

pub decode : List ℕ → ℕ → Decoded
decode input out_len = decode_loop input out_len 0 0 0 []

-- A byte as the C code reads it where `x + k < inLen`, and nothing where not.
abbrev shifted : Option ℕ → ℕ → ℕ
shifted none k = 0
shifted (some b) k = b * 2 ^ k

abbrev char_if : Option ℕ → ℕ → List ℕ
char_if none c = []
char_if (some b) c = c ∷ []

-- One round of the encoding loop: one to three bytes, as two to four characters.
pub encode_chunk : ℕ → Option ℕ → Option ℕ → List ℕ
encode_chunk d0 d1 d2 =
    let n = d0 * 2 ^ 16 + shifted d1 8 + shifted d2 0 in
    enc (bit_and (n / 2 ^ 18 % 256) 63)
    ∷ enc (bit_and (n / 2 ^ 12 % 256) 63)
    ∷ (char_if d1 (enc (bit_and (n / 2 ^ 6 % 256) 63)) ++ char_if d2 (enc (bit_and (n % 256) 63)))

pub encode_loop : List ℕ → List ℕ
unfolding encode_chunk
encode_loop [] = []
encode_loop (a ∷ []) = encode_chunk a none none
encode_loop (a ∷ b ∷ []) = encode_chunk a (some b) none
encode_loop (a ∷ b ∷ c ∷ rest) = encode_chunk a (some b) (some c) ++ encode_loop rest

-- `while (resultIndex % 4)`; three rounds are enough.
pub pad_loop : ℕ → List ℕ → List ℕ
pad_loop zero out = out
pad_loop (suc fuel) out =
    let more = pad_loop fuel (out ++ b'=' ∷ []) in if length out % 4 == 0 then out else more

-- The string written to `out` before its terminator; `none` where `ok` is false.
pub encode : List ℕ → ℕ → Option (List ℕ)
encode input out_len =
    if leb (encodesize (length input)) out_len then some (pad_loop 3 (encode_loop input)) else none

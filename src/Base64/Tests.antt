-- ===== src/Base64/Tests.antt =====
-- src/c/base64.c: runs of the codec, and its theorems at concrete inputs.
use iotech_c_utils.Common.{ℕ, ◌≡◌, refl, arith, true, List, [], ◌∷◌, some, none}
use iotech_c_utils.Base64.{
  dec, enc, codes, push_symbol, split_buffer, decode_loop, decode, encode_loop, pad_loop, encode,
  encodesize, maxdecodesize, failed,
}
use iotech_c_utils.Base64.RoundTrip.{decode-encode}
use iotech_c_utils.Base64.Bounds.{Fits, accepts, decode-Fits, decode-accepts}

encode_man : encode (codes "Ma") 5 ≡ some (codes "TWE=")
unfolding encode encode_loop pad_loop codes encodesize enc
encode_man = refl

encode_small : encode (codes "Ma") 4 ≡ none
unfolding encode encode_loop pad_loop codes encodesize enc
encode_small = refl

decode_man :
    decode (84 ∷ 87 ∷ 10 ∷ 69 ∷ 61 ∷ []) 2 ≡ record { ok = true; out = codes "Ma"; out_len = 2 }
unfolding decode decode_loop codes dec push_symbol split_buffer
decode_man = refl

decode_small : decode (codes "TWE=") 1 ≡ failed [] 1
unfolding decode decode_loop codes dec push_symbol split_buffer
decode_small = refl

decode-encode_example :
    (s : List ℕ) × (encode (77 ∷ 255 ∷ []) 5 ≡ some s)
    × (decode s 2 ≡ record { ok = true; out = 77 ∷ 255 ∷ []; out_len = 2 })
unfolding encodesize
decode-encode_example = decode-encode (77 ∷ 255 ∷ []) 5 2 (omega arith) (omega arith) (omega arith)

decode-Fits_example : Fits 1 (decode (84 ∷ 87 ∷ 69 ∷ 61 ∷ []) 1)
decode-Fits_example = decode-Fits (84 ∷ 87 ∷ 69 ∷ 61 ∷ []) 1

decode-accepts_example : (decode (84 ∷ 87 ∷ 69 ∷ 61 ∷ []) 3).ok ≡ accepts (84 ∷ 87 ∷ 69 ∷ 61 ∷ [])
unfolding maxdecodesize
decode-accepts_example = decode-accepts (84 ∷ 87 ∷ 69 ∷ 61 ∷ []) 3 (omega arith)

-- A line feed is skipped; a space is refused.
decode_space : decode (codes "TW E=") 2 ≡ failed [] 2
unfolding decode decode_loop codes dec push_symbol split_buffer
decode_space = refl

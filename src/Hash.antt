-- ===== src/Hash.antt =====
-- src/c/hash.c: the two forms of the string hash.
mod Tests
use iotech_c_utils.Common.{
  ℕ, zero, suc, ◌+◌, ◌*◌, ◌%◌, ◌^◌, ◌≡◌, ◌≢◌, false, refl, arith, bit_xor, List, [], ◌∷◌, ◌++◌, All,
  length, if◌then◌else◌, ◌==◌,
}

-- `((hash << 5u) + hash) ^ b` in a `uint32_t`.
abbrev pub hash_byte : ℕ → ℕ → ℕ
hash_byte hash b = bit_xor ((hash * 32 % 2 ^ 32 + hash) % 2 ^ 32) b

-- The loop of `iot_hash` over the bytes of a buffer up to the terminator.
abbrev pub hash_string_from : ℕ → List ℕ → ℕ
hash_string_from hash [] = hash
hash_string_from hash (b ∷ str) =
    let rest = hash_string_from (hash_byte hash b) str in if b == 0 then hash else rest

abbrev pub hash_string : List ℕ → ℕ
hash_string str = hash_string_from 538 str

-- The loop of `iot_hash_data` over so many bytes of the data.
abbrev pub hash_data_from : ℕ → List ℕ → ℕ → ℕ
hash_data_from hash bytes zero = hash
hash_data_from hash [] (suc len) = hash
hash_data_from hash (b ∷ bytes) (suc len) = hash_data_from (hash_byte hash b) bytes len

abbrev pub hash_data : List ℕ → ℕ → ℕ
hash_data bytes len = hash_data_from 538 bytes len

same_from :
    (hash : ℕ) (str rest : List ℕ)
    → All (λ b. b ≢ 0) str
    → hash_string_from hash (str ++ (0 ∷ rest))
      ≡ hash_data_from hash (str ++ (0 ∷ rest)) (length str)
same_from hash [] rest h = refl
same_from hash (b ∷ str) rest h =
    let more : (b == 0) ≡ false = ground (arith, h.0) in
    rw more (same_from (hash_byte hash b) str rest h.1)

-- The hash of a terminated string in a buffer is the hash of its bytes as data, whatever follows the
-- terminator.
pub hash_string-hash_data :
    (str rest : List ℕ)
    → All (λ b. b ≢ 0) str
    → hash_string (str ++ (0 ∷ rest)) ≡ hash_data (str ++ (0 ∷ rest)) (length str)
hash_string-hash_data str rest h = same_from 538 str rest h

-- ===== src/Hash/Tests.antt =====
-- src/c/hash.c: the hashes of a concrete string.
use iotech_c_utils.Common.{◌≡◌, refl, [], ◌∷◌}
use iotech_c_utils.Hash.{hash_string, hash_data}

hash_of_ab : hash_string (97 ∷ 98 ∷ 0 ∷ 7 ∷ []) ≡ hash_data (97 ∷ 98 ∷ 0 ∷ 7 ∷ []) 2
hash_of_ab = refl

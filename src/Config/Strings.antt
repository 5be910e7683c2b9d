-- ===== src/Config/Strings.antt =====
-- src/c/config.c, src/c/container.c: `strcmp` of two strings as equality.
use iotech_c_utils.Common.{ℕ, ◌≡◌, refl, arith, true, List, [], ◌∷◌}
use iotech_c_utils.Config.{equal_bytes}

pub equal_bytes_self : (k : List ℕ) → equal_bytes k k ≡ true
equal_bytes_self [] = refl
equal_bytes_self (c ∷ k) = ground (arith, equal_bytes_self k)

pub equal_bytes_same : (k l : List ℕ) → equal_bytes k l ≡ true → k ≡ l
equal_bytes_same [] [] e = refl
equal_bytes_same [] (c ∷ l) e = cc
equal_bytes_same (c ∷ k) [] e = cc
equal_bytes_same (c ∷ k) (b ∷ l) e = ground (arith, equal_bytes_same k l)

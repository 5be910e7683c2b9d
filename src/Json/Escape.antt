-- ===== src/Json/Escape.antt =====
-- src/c/data.c, `iot_data_strcat_escape`: the length of the escaped text, which is counted first.
use iotech_c_utils.Common.{ℕ, ◌≤◌, ◌≡◌, refl, ap, arith, List, [], ◌∷◌, length, length-append}
use iotech_c_utils.Json.{repr_size, escape_char, escape_text, total_repr_size}

length-escape_char : (c : ℕ) → length (escape_char c) ≡ repr_size c
unfolding escape_char repr_size
length-escape_char c = ground arith

pub length-escape_text : (s : List ℕ) → length (escape_text s) ≡ total_repr_size s
length-escape_text [] = refl
length-escape_text (c ∷ s) = omega (
  arith,
  length-append (escape_char c) (escape_text s),
  length-escape_char c,
  length-escape_text s,
)

repr_size_least : (c : ℕ) → 1 ≤ repr_size c
unfolding repr_size
repr_size_least c = ground arith

pub total_repr_size_least : (s : List ℕ) → length s ≤ total_repr_size s
total_repr_size_least [] = omega arith
total_repr_size_least (c ∷ s) = omega (arith, repr_size_least c, total_repr_size_least s)

escape_char_plain : (c : ℕ) → repr_size c ≡ 1 → escape_char c ≡ c ∷ []
unfolding escape_char
escape_char_plain c e = rw e

-- Where the counted length is that of the text, nothing is escaped.
pub escape_text_plain : (s : List ℕ) → length s ≡ total_repr_size s → escape_text s ≡ s
escape_text_plain [] e = refl
escape_text_plain (c ∷ s) e =
    let one : repr_size c ≡ 1 = omega (arith, repr_size_least c, total_repr_size_least s) in
    rw (escape_char_plain c one) (ap (◌∷◌ c) (escape_text_plain s (omega (arith, one))))

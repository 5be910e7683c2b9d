-- ===== src/Uuid.antt =====
-- src/c/uuid.c and src/c/util.c: printing a UUID, its version bits, and the test for its form. The
-- random words are an argument, as is `isxdigit` of the C library.
pub mod Form
mod Tests
use iotech_c_utils.Common.{
  ℕ, suc, ◌+◌, ◌/◌, ◌%◌, bit_and, bit_or, Bool, true, false, ◌&&◌, ◌||◌, List, [], ◌∷◌, ◌++◌,
  if◌then◌else◌, ◌==◌, length, get_or,
}
use iotech_c_utils.Base64.{codes}

unfoldable pub hexdigits : List ℕ
unfolding codes
hexdigits = codes "0123456789abcdef"

unfoldable pub hex : ℕ → ℕ
unfolding hexdigits
hex n = get_or hexdigits n 0

-- The loop of `iot_uuid_unparse` from byte `i` on; the string without its terminator.
abbrev pub unparse_from : ℕ → List ℕ → List ℕ
unparse_from i [] = []
unparse_from i (tmp ∷ uuid) =
    let digits = hex (tmp / 16) ∷ hex (bit_and tmp 15) ∷ unparse_from (i + 1) uuid in
    if (i == 4) || ((i == 6) || ((i == 8) || (i == 10))) then b'-' ∷ digits else digits

abbrev pub unparse : List ℕ → List ℕ
unparse uuid = unparse_from 0 uuid

-- The two marks that `iot_uuid_generate` puts on random bytes, at index 6 and at index 8.
abbrev pub mark : ℕ → List ℕ → List ℕ
mark i [] = []
mark i (b ∷ s) =
    let rest = mark (i + 1) s in
    (if i == 6
      then bit_or (bit_and b 0xf) 0x40
      else if i == 8
      then bit_or (bit_and b 0x3f) 0x80
      else b)
    ∷ rest

module _ (isxdigit : ℕ → Bool) where
  -- The loop of `iot_util_string_is_uuid` from character `i` on.
  abbrev pub is_uuid_from : ℕ → List ℕ → Bool
  is_uuid_from i [] = true
  is_uuid_from i (c ∷ str) =
      let rest = is_uuid_from (i + 1) str in
      if (i == 8) || ((i == 13) || ((i == 18) || (i == 23)))
      then (c == b'-') && rest
      else isxdigit c && rest

  -- `iot_util_string_is_uuid` of a string.
  abbrev pub string_is_uuid : List ℕ → Bool
  string_is_uuid str = (length str == 36) && is_uuid_from 0 str

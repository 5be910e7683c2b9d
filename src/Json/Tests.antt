-- ===== src/Json/Tests.antt =====
-- src/c/data-json.c: texts of concrete values, and the theorems at them.
use iotech_c_utils.Common.{
  ℕ, ◌≤◌, ◌<◌, ◌+◌, ◌≡◌, refl, arith, true, List, [], ◌∷◌, ◌++◌, Option, none, some, length,
  if◌then◌else◌, ltb,
}
use iotech_c_utils.Common.Int.{pos, negsuc}
use iotech_c_utils.Data.{
  Value, nil, cons, done, entry, null_ptr, int, bool, string, vector, list, dict, int8, uint8,
  FloatType,
}
use iotech_c_utils.Data.Tests.{bit_floats}
use iotech_c_utils.Json.{
  to_json, digits, escape_char, repr_size, strcat_escape, append_text, make_room, dump,
}
use iotech_c_utils.Json.Text.{json_text, to_json_lem, IsShort}
use iotech_c_utils.Json.Tokens.{value_tokens, reread, levels}
use iotech_c_utils.Json.Unescape.{IsAscii}
use iotech_c_utils.Json.RoundTrip.{value_from_json-to_json}
use iotech_c_utils.Json.Reader.{
  primitive, array_token, string_from_token, value_from_json, weigh, unescape, contains,
  number_from_text, primitive_from_text, strtoull, digits_value, read_elements, unescape_step,
  unescape_char, unescape_unicode,
}

abbrev no_text : FloatType → ℕ → List ℕ
no_text t bits = b'0' ∷ []

no_text-IsShort : IsShort no_text
no_text-IsShort t bits = omega arith

-- A list with a line end and a quote in its string, and a map with a NULL value.
abbrev report : Value
report = dict (
    entry (string (b'k' ∷ []))
      (list (cons (string (10 ∷ b'"' ∷ 1 ∷ [])) (cons (int int8 (negsuc 11)) nil)))
      (entry (int uint8 (pos 7)) null_ptr (entry (int uint8 (pos 8)) (bool true) done)))

-- {"k":["\n\"\u0001",-12],"8":true}
report_text :
    json_text no_text report
    ≡ b'{' ∷ b'"' ∷ b'k' ∷ b'"' ∷ b':' ∷ b'[' ∷ b'"' ∷ b'\\' ∷ b'n' ∷ b'\\' ∷ b'"' ∷ b'\\' ∷ b'u'
      ∷ b'0' ∷ b'0' ∷ b'0' ∷ b'1' ∷ b'"' ∷ b',' ∷ b'-' ∷ b'1' ∷ b'2' ∷ b']' ∷ b',' ∷ b'"' ∷ b'8'
      ∷ b'"' ∷ b':' ∷ b't' ∷ b'r' ∷ b'u' ∷ b'e' ∷ b'}' ∷ []
unfolding escape_char repr_size digits
report_text = refl

to_json_lem_example : (s : List ℕ) × ((size : ℕ) → 0 < size → to_json no_text report size ≡ some s)
to_json_lem_example =
    to_json_lem no_text report no_text-IsShort (tt, (tt, (tt, tt)), (tt, tt, (tt, tt, tt)))

-- An unpaired surrogate at the start of a string: the destination is taken one back before it.
abbrev ascii_only : ℕ → Option (List ℕ)
ascii_only c = if ltb c 128 then some (c ∷ []) else none

ascii_only-IsAscii : IsAscii ascii_only
ascii_only-IsAscii c h = ground arith

writes_before : unescape ascii_only 9 [] (b'\\' ∷ b'u' ∷ b'd' ∷ b'8' ∷ b'0' ∷ b'0' ∷ []) ≡ none
unfolding unescape unescape_step unescape_char unescape_unicode
writes_before = refl

-- The number 2^64 has no type, so the vector of it keeps its slot empty.
too_large : List ℕ
too_large =
    b'1' ∷ b'8' ∷ b'4' ∷ b'4' ∷ b'6' ∷ b'7' ∷ b'4' ∷ b'4' ∷ b'0' ∷ b'7' ∷ b'3' ∷ b'7' ∷ b'0' ∷ b'9'
    ∷ b'5' ∷ b'5' ∷ b'1' ∷ b'6' ∷ b'1' ∷ b'6' ∷ []

has_no_type : primitive_from_text (λ s. 0) too_large ≡ none
unfolding too_large primitive_from_text number_from_text contains strtoull digits_value
has_no_type = refl

empty_slot :
    value_from_json ascii_only
      (λ s. 0)
      (b'[' ∷ (too_large ++ (b']' ∷ [])))
      2
      (record { type = array_token; start = 0; end = 22; size = 1 }
        ∷ record { type = primitive; start = 1; end = 21; size = 0 }
        ∷ [])
    ≡ some (some (vector (cons null_ptr nil)), [])
unfolding value_from_json read_elements string_from_token too_large primitive_from_text
    number_from_text contains strtoull digits_value
empty_slot = refl

not_written : to_json no_text (vector (cons null_ptr nil)) 512 ≡ none
unfolding to_json strcat_escape append_text make_room dump repr_size
not_written = refl

abbrev plain : Value
plain = list (cons (int uint8 (pos 200)) (cons (string (b'"' ∷ [])) nil))

value_from_json-to_json_example :
    (s : List ℕ) × ((size : ℕ) → 0 < size → to_json no_text plain size ≡ some s)
    × (length (value_tokens no_text 0 plain) ≤ 1 + weigh s)
    × (value_from_json ascii_only (λ t. 0) s (levels plain) (value_tokens no_text 0 plain)
        ≡ some (some (reread plain), []))
value_from_json-to_json_example =
    value_from_json-to_json ascii_only (λ t. 0) no_text plain ascii_only-IsAscii no_text-IsShort
      (ground arith, ((λ e. omega (arith, e), tt), tt))

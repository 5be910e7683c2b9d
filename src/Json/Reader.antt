-- ===== src/Json/Reader.antt =====
-- src/c/data-json.c, the reader: values from the tokens of src/c/json.c. `none` is a read outside the
-- tokens, a write before a string, or a recursion out of fuel; a NULL result is `some (none, _)`.
-- `c32rtomb` and `strtod` of the C library are arguments. The cache shares equal strings, which are one
-- value here. A sign before the digits is all that `strtoull` passes over, as a token has no space.
use iotech_c_utils.Common.{
  ℕ, zero, suc, ◌+◌, ◌-◌, ◌*◌, ◌%◌, ◌^◌, Bool, false, ◌&&◌, ◌||◌, List, [], ◌∷◌, ◌++◌, Option, none,
  some, length, if◌then◌else◌, ◌==◌, ltb, leb,
}
use iotech_c_utils.Common.Int.{ℤ, pos, negsuc}
use iotech_c_utils.RbTree.{◌>>=◌}
use iotech_c_utils.Data.{
  Floats, Value, Values, Entries, done, nil, cons, null_ptr, null, int, float, bool, string, vector,
  dict, float64, int64, uint64,
}
use iotech_c_utils.Cbor.{drop}
use iotech_c_utils.Cbor.Reader.{c_string, add_entry}
use iotech_c_utils.Json.{take}

-- `iot_json_type_t` and `iot_json_tok_t`.
pub data TokenType : Type 0 where
  undefined object array_token string_token string_esc primitive : TokenType

pub record Token : Type 0 where
  pub type : TokenType
  pub start : ℕ
  pub end : ℕ
  pub size : ℕ

unfoldable pub contains : ℕ → List ℕ → Bool
contains c [] = false
contains c (d ∷ s) = d == c || contains c s

-- `%4x` of four hexadecimal digits, which are all that the tokenizer lets through.
abbrev pub hex_digit_value : ℕ → Option ℕ
hex_digit_value c =
    if leb b'0' c && leb c b'9'
    then some (c - b'0')
    else if leb b'a' c && leb c b'f'
    then some (c - b'a' + 10)
    else if leb b'A' c && leb c b'F'
    then some (c - b'A' + 10)
    else none

abbrev pub hex_value : ℕ → List ℕ → Option ℕ
hex_value acc [] = some acc
hex_value acc (c ∷ s) = hex_digit_value c >>= λ d. hex_value (acc * 16 + d) s

abbrev pub drop_last : List ℕ → Option (List ℕ)
drop_last [] = none
drop_last (c ∷ []) = some []
drop_last (c ∷ d ∷ s) = drop_last (d ∷ s) >>= λ t. some (c ∷ t)

module _ (c32rtomb : ℕ → Option (List ℕ)) where
  -- `case 'u'`: what is written then, and the rest. The error of `c32rtomb` is (size_t) -1, which is
  -- above 0 and takes the destination one back.
  unfoldable pub unescape_unicode : List ℕ → List ℕ → Option (List ℕ × List ℕ)
  unescape_unicode dst s =
      let written = hex_value 0 (take 4 s) >>= λ wc. elim (c32rtomb wc) [
        | some bytes ↦ some (dst ++ bytes, drop 4 s)
        | none ↦ drop_last dst >>= λ dst'. some (dst', drop 4 s)
      ] in
      if ltb (length s) 4 then some (dst, s) else written

  -- The character after a backslash.
  unfoldable pub unescape_char : List ℕ → ℕ → List ℕ → Option (List ℕ × List ℕ)
  unfolding unescape_unicode
  unescape_char dst c s =
      if c == b'b'
      then some (dst ++ (8 ∷ []), s)
      else if c == b'f'
      then some (dst ++ (12 ∷ []), s)
      else if c == b'r'
      then some (dst ++ (13 ∷ []), s)
      else if c == b'n'
      then some (dst ++ (10 ∷ []), s)
      else if c == b't'
      then some (dst ++ (9 ∷ []), s)
      else if c == b'u'
      then unescape_unicode dst s
      else some (dst ++ (c ∷ []), s)

  -- One round of the loop of `iot_data_string_from_json_token`, and the loop.
  unfoldable pub unescape_step : List ℕ → ℕ → List ℕ → Option (List ℕ × List ℕ)
  unfolding unescape_char
  unescape_step dst c s =
      let escaped : Option (List ℕ × List ℕ) = elim s [
        | [] ↦ none
        | d ∷ s' ↦ unescape_char dst d s'
      ] in
      if c == b'\\' then escaped else some (dst ++ (c ∷ []), s)

  unfoldable pub unescape : ℕ → List ℕ → List ℕ → Option (List ℕ)
  unescape fuel dst [] = some dst
  unescape zero dst (c ∷ s) = none
  unescape (suc fuel) dst (c ∷ s) = unescape_step dst c s >>= λ r. unescape fuel r.0 r.1

  -- The text of a token, and `iot_data_string_from_json_token`.
  abbrev pub token_text : List ℕ → Token → List ℕ
  token_text json t = take (t.end - t.start) (drop t.start json)

  unfoldable pub string_from_token : List ℕ → Token → Option (List ℕ)
  unfolding unescape
  string_from_token json t =
      let text = token_text json t in
      elim t.type [ string_esc ↦ unescape (length text) [] text | _ ↦ some text ] >>= λ s.
      some (c_string s)

-- `strtoull`, `none` for `ERANGE`.
unfoldable pub digits_value : ℕ → List ℕ → ℕ
digits_value acc [] = acc
digits_value acc (c ∷ s) =
    let rest = digits_value (acc * 10 + (c - b'0')) s in
    if leb b'0' c && leb c b'9' then rest else acc

abbrev pub in_range_64 : ℕ → Option ℕ
in_range_64 n = if ltb n (2 ^ 64) then some n else none

unfoldable pub strtoull : List ℕ → Option ℕ
strtoull [] = some 0
strtoull (c ∷ s) =
    if c == b'-'
    then (in_range_64 (digits_value 0 s) >>= λ n. some ((2 ^ 64 - n) % 2 ^ 64))
    else if c == b'+'
    then in_range_64 (digits_value 0 s)
    else in_range_64 (digits_value 0 (c ∷ s))

abbrev pub negated : ℕ → ℤ
negated zero = pos 0
negated (suc n) = negsuc n

abbrev pub tail : List ℕ → List ℕ
tail [] = []
tail (c ∷ s) = s

-- The default case of `iot_data_primitive_from_json`.
unfoldable pub number_from_text : (List ℕ → ℕ) → List ℕ → Option Value
number_from_text strtod s =
    if contains b'.' s || (contains b'e' s || contains b'E' s)
    then some (float float64 (strtod s))
    else if contains b'-' s
    then (strtoull (tail s) >>= λ n. if leb n (2 ^ 63) then some (int int64 (negated n)) else none)
    else strtoull s >>= λ n. some (int (if ltb n (2 ^ 63) then int64 else uint64) (pos n))

unfoldable pub primitive_from_text : (List ℕ → ℕ) → List ℕ → Option Value
unfolding number_from_text
primitive_from_text strtod [] = number_from_text strtod []
primitive_from_text strtod (c ∷ s) =
    if c == b't' || c == b'f'
    then some (bool (c == b't'))
    else if c == b'n'
    then some null
    else number_from_text strtod (c ∷ s)

-- The slots of a vector that no element fills.
abbrev pub empty_slots : ℕ → Values
empty_slots zero = nil
empty_slots (suc n) = cons null_ptr (empty_slots n)

abbrev pub Read : Type 0
Read = List Token → Option (Option Value × List Token)

-- The loop of `iot_data_vector_from_json`: the elements that are left and the slots that are; the
-- elements that have no value leave their slots to the end.
unfoldable pub read_elements : Read → ℕ → ℕ → List Token → Option (Values × List Token)
read_elements read zero missing ts = some (empty_slots missing, ts)
read_elements read (suc n) missing ts = read ts >>= λ r. elim r.0 [
  | none ↦ read_elements read n (missing + 1) r.1
  | some v ↦ read_elements read n missing r.1 >>= λ q. some (cons v q.0, q.1)
]

-- The token count that `iot_data_from_json_with_cache` allows for.
abbrev pub token_weight : ℕ → ℕ
token_weight c = if c == b',' || c == b'{' then 1 else if c == b':' || c == b'[' then 2 else 0

unfoldable pub weigh : List ℕ → ℕ
weigh [] = 0
weigh (c ∷ s) = token_weight c + weigh s

module _ ⦃fl : Floats⦄ (c32rtomb : ℕ → Option (List ℕ)) (strtod : List ℕ → ℕ) (json : List ℕ) where
  -- The loop of `iot_data_map_from_json`.
  unfoldable pub read_members : Read → ℕ → Entries → List Token → Option (Entries × List Token)
  read_members read zero es ts = some (es, ts)
  read_members read (suc n) es [] = none
  read_members read (suc n) es (t ∷ ts) = string_from_token c32rtomb json t >>= λ key.
      read ts >>= λ r.
      read_members read n (elim r.0 [ none ↦ es | some v ↦ add_entry (string key) v es ]) r.1

  -- `iot_data_value_from_json`, with its cases.
  unfoldable pub value_from_json : ℕ → Read
  value_from_json zero ts = none
  value_from_json (suc fuel) [] = none
  value_from_json (suc fuel) (t ∷ ts) = elim t.type [
    | primitive ↦ string_from_token c32rtomb json t >>= λ s. some (primitive_from_text strtod s, ts)
    | object ↦
        read_members (value_from_json fuel) t.size done ts >>= λ r. some (some (dict r.0), r.1)
    | array_token ↦
        read_elements (value_from_json fuel) t.size 0 ts >>= λ r. some (some (vector r.0), r.1)
    | _ ↦ string_from_token c32rtomb json t >>= λ s. some (some (string s), ts)
  ]

  -- `iot_data_from_json_with_cache`: `parse` is `iot_json_parse`, which incorporates the jsmn tokenizer,
  -- with room for so many tokens, and `none` for an error or for no tokens.
  unfoldable pub from_json : (List ℕ → ℕ → Option (List Token)) → ℕ → Option Value
  from_json parse fuel =
      let parsed : Option Value = elim (parse json (1 + weigh json)) [
        | none ↦ some null
        | some ts ↦ value_from_json fuel ts >>= λ r. some (elim r.0 [ none ↦ null | some v ↦ v ])
      ] in
      if length json == 0 then some null else parsed

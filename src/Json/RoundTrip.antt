-- ===== src/Json/RoundTrip.antt =====
-- src/c/data-json.c: a value that is written as text and read again.
use iotech_c_utils.Common.{
  ℕ, zero, suc, ◌+◌, ◌≤◌, ◌<◌, ◌≡◌, refl, sym, arith, true, false, List, [], ◌++◌, Option, some,
  length, append_assoc, append-nil,
}
use iotech_c_utils.Common.Int.{pos, negsuc}
use iotech_c_utils.Data.{
  Floats, Value, Values, nil, cons, null_ptr, null, int, bool, string, vector, list, FloatType,
  count_values, dict,
}
use iotech_c_utils.Cbor.Buffer.{HasNoNull, HaveNoNull}
use iotech_c_utils.Json.{escape_text, decimal, to_json}
use iotech_c_utils.Json.Text.{json_text, values_text, to_json-json_text, IsShort}
use iotech_c_utils.Json.Decimal.{
  json_int, primitive_from_text-decimal, decimal-nonzero, digits_some,
}
use iotech_c_utils.Json.Unescape.{IsAscii}
use iotech_c_utils.Json.Tokens.{
  IsPlain, ArePlain, reread, reread_values, levels, value_levels, value_tokens, values_tokens,
  weigh-value_tokens,
}
use iotech_c_utils.Json.Reader.{Token, read_elements, value_from_json, weigh}
use iotech_c_utils.Json.Parts.{
  Part, Part-inside, Part-first, Part-second, read_primitive-Part, read_lem_null, read_lem_bool,
  read_quoted, read_none, read_array, read_element,
}

levels_pos : (v : Value) → 1 ≤ levels v
levels_pos (vector vs) = omega arith
levels_pos (list vs) = omega arith
levels_pos _ = omega arith

mutual
  plain_no_null : (v : Value) → IsPlain v → HasNoNull v
  plain_no_null null_ptr p = absurd p
  plain_no_null (vector vs) p = plains_no_null vs p
  plain_no_null (list vs) p = plains_no_null vs p
  plain_no_null (dict es) p = absurd p
  plain_no_null _ p = tt

  plains_no_null : (vs : Values) → ArePlain vs → HaveNoNull vs
  plains_no_null nil p = tt
  plains_no_null (cons v vs) p = (plain_no_null v p.0, plains_no_null vs p.1)

some_text :
    (print_float : FloatType → ℕ → List ℕ) (v : Value)
    → IsPlain v
    → 0 < length (json_text print_float v)
some_text print_float (int t (pos n)) p = digits_some 20 n (omega arith)
some_text print_float (int t (negsuc n)) p = omega arith
some_text print_float (bool true) p = omega arith
some_text print_float (bool false) p = omega arith
some_text print_float null p = omega arith
some_text print_float (string s) p = omega arith
some_text print_float (vector vs) p = omega arith
some_text print_float (list vs) p = omega arith
some_text print_float _ p = absurd p

module _ ⦃fl : Floats⦄ (c32rtomb : ℕ → Option (List ℕ)) (strtod : List ℕ → ℕ) where
  module _ (json : List ℕ) (print_float : FloatType → ℕ → List ℕ) where
    mutual
      read_lem :
          IsAscii c32rtomb
          → (v : Value) (f o : ℕ) (ts : List Token) → IsPlain v
          → levels v ≤ f
          → Part c32rtomb strtod json print_float o (json_text print_float v)
          → value_from_json c32rtomb strtod json f (value_tokens print_float o v ++ ts)
            ≡ some (some (reread v), ts)
      read_lem a null (suc f) o ts p l m = read_lem_null c32rtomb strtod json print_float f o ts m
      read_lem a (int t z) (suc f) o ts p l m =
          read_primitive-Part c32rtomb strtod json print_float f o (decimal z) (json_int z) ts m
            (decimal-nonzero z) (primitive_from_text-decimal strtod z p)
      read_lem a (bool b) (suc f) o ts p l m =
          read_lem_bool c32rtomb strtod json print_float b f o ts m
      read_lem a (string s) (suc f) o ts p l m =
          read_quoted c32rtomb strtod json print_float a s f o ts p
            (Part-inside c32rtomb strtod json print_float o b'"' (escape_text s) _ m)
      read_lem a (vector vs) (suc f) o ts p l m =
          read_array c32rtomb strtod json print_float f o _ (count_values vs) (reread_values vs) _
            ts
            (read_values_lem a vs f (o + 1) ts p (omega arith) (
              Part-inside c32rtomb strtod json print_float o b'[' (values_text print_float vs) _ m))
      read_lem a (list vs) (suc f) o ts p l m =
          read_array c32rtomb strtod json print_float f o _ (count_values vs) (reread_values vs) _
            ts
            (read_values_lem a vs f (o + 1) ts p (omega arith) (
              Part-inside c32rtomb strtod json print_float o b'[' (values_text print_float vs) _ m))
      read_lem a v zero o ts p l m = absurd (omega (arith, l, levels_pos v))
      read_lem a v (suc f) o ts p l m = absurd p

      read_values_lem :
          IsAscii c32rtomb
          → (vs : Values) (f o : ℕ) (ts : List Token) → ArePlain vs
          → value_levels vs ≤ f
          → Part c32rtomb strtod json print_float o (values_text print_float vs)
          → read_elements
              (value_from_json c32rtomb strtod json f)
              (count_values vs)
              0
              (values_tokens print_float o vs ++ ts)
            ≡ some (reread_values vs, ts)
      read_values_lem a nil f o ts p l m = read_none c32rtomb strtod json print_float f ts
      read_values_lem a (cons v nil) f o ts p l m =
          read_element c32rtomb strtod json print_float f 0 (reread v) nil _ ts ts
            (rw append-nil (read_lem a v f o ts p.0 (omega (arith, l)) m))
            (read_none c32rtomb strtod json print_float f ts)
      read_values_lem a (cons v (cons w vs)) f o ts p l m =
          let t = json_text print_float v in
          let after = o + (length t + 1) in
          read_element c32rtomb strtod json print_float f (suc (count_values vs)) (reread v)
            (reread_values (cons w vs)) _ (values_tokens print_float after (cons w vs) ++ ts) ts
            (rw append_assoc (
              read_lem a v f o (values_tokens print_float after (cons w vs) ++ ts) p.0
                (omega (arith, l)) (Part-first c32rtomb strtod json print_float o t _ m)))
            (read_values_lem a (cons w vs) f after ts p.1 (omega (arith, l))
              (Part-second c32rtomb strtod json print_float o b',' t _ m))

  -- Where `c32rtomb` gives an ASCII character back and the text of a float fits where it is printed, a
  -- plain value is written from any first buffer size as one text. `iot_data_from_json_with_cache` allows
  -- for enough tokens for it; and from the tokens whose places in the text are those of the parts of the
  -- value, `iot_data_value_from_json` reads the value again and uses each token, with each integer as an
  -- `int64_t` or else a `uint64_t`, and each list as a vector. Plain values have no map, array, binary,
  -- float or pointer. Nothing is stated of the tokenizer itself.
  pub value_from_json-to_json :
      (print_float : FloatType → ℕ → List ℕ) (v : Value)
      → IsAscii c32rtomb
      → IsShort print_float
      → IsPlain v
      → (s : List ℕ) × ((size : ℕ) → 0 < size → to_json print_float v size ≡ some s)
        × (length (value_tokens print_float 0 v) ≤ 1 + weigh s)
        × (value_from_json c32rtomb strtod s (levels v) (value_tokens print_float 0 v)
            ≡ some (some (reread v), []))
  value_from_json-to_json print_float v a b p =
      let text = json_text print_float v in
      let whole : text ≡ text ++ [] = sym (append-nil text) in
      let read =
        read_lem text print_float a v (levels v) 0 [] p (omega arith) ([], [], whole, refl) in
      (
        text,
        λ size n. to_json-json_text print_float v size b (plain_no_null v p) n,
        weigh-value_tokens print_float v 0 p,
        rw append-nil at read,
      )

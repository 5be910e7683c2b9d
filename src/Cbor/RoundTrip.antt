-- ===== src/Cbor/RoundTrip.antt =====
-- src/c/data-cbor.c: the bytes that are written against the decoder of RFC 8949.
use iotech_c_utils.Common.{
  ℕ, zero, suc, ◌+◌, ◌*◌, ◌^◌, ◌<◌, ◌≤◌, ◌≡◌, refl, arith, ◌∙◌, ap, true, false, List, [], ◌∷◌,
  ◌++◌, some, length, All, append_assoc, ◌==◌, Bool-cases, inl, inr, none, if◌then◌else◌, leb,
}
use iotech_c_utils.Common.Int.{ℤ, pos, negsuc}
use mathlib.Core.Path.{subst}
use iotech_c_utils.Data.{
  IntType, FloatType, float32, float64, ElementType, int_element, float_element, bool_element,
  Value, Values, Entries, null_ptr, null, int, float, bool, pointer, string, binary, array, vector,
  list, dict, nil, cons, done, entry, is_signed, element_size, count_values, count_entries,
}
use iotech_c_utils.Cbor.{signed, drop, elements, to_cbor_with_size}
use iotech_c_utils.Cbor.Buffer.{
  head, encode_int, encode_word, encode_words, encoding, encode_values, encode_entries, HasNoNull,
  to_cbor_with_size-encoding,
}
use iotech_c_utils.Cbor.Decoder.{
  Items, Pairs, bytes_item, text_item, sequence, mapping, simple, read_head, take_bytes,
  decode_items, decode_pairs, decode_body, decode_item,
}
use iotech_c_utils.Cbor.Heads.{width_of, read_head-head}
use iotech_c_utils.Cbor.Items.{
  int_item, float_item_of, word_item, word_items, value_item, value_items, entry_items, FitsInt,
  IsWide, IsWord, IsEncodable, AreEncodable, EntriesAreEncodable, depth, depth_values,
  depth_entries,
}

pub decode_head :
    (f v m : ℕ) (body : List ℕ)
    → v < 2 ^ 64
    → m < 8
    → decode_item (suc f) (head v (m * 32) ++ body)
      ≡ decode_body (decode_item f) (record { major = m; width = width_of v; argument = v }) body
unfolding decode_item
decode_head f v m body h k = rw (read_head-head v m body h k)

take_bytes-append : (s rest : List ℕ) → take_bytes (length s) (s ++ rest) ≡ some (s, rest)
unfolding take_bytes
take_bytes-append [] rest = refl
take_bytes-append (b ∷ s) rest = rw (take_bytes-append s rest)

decode_int :
    (f : ℕ) (z : ℤ) (rest : List ℕ)
    → FitsInt z
    → decode_item (suc f) (encode_int z ++ rest) ≡ some (int_item z, rest)
unfolding decode_body
decode_int f (pos n) rest h = decode_head f n 0 rest h (omega arith)
decode_int f (negsuc n) rest h = decode_head f n 1 rest h (omega arith)

decode_float :
    (f : ℕ) (t : FloatType) (bits : ℕ) (rest : List ℕ)
    → IsWide t bits
    → decode_item (suc f) (head bits 0xe0 ++ rest) ≡ some (float_item_of t bits, rest)
unfolding decode_body
decode_float f float32 bits rest h =
    decode_head f bits 7 rest (omega arith) (omega arith) ∙ ground arith
decode_float f float64 bits rest h =
    decode_head f bits 7 rest (omega arith) (omega arith) ∙ ground arith

decode_simple :
    (f b : ℕ) (rest : List ℕ)
    → 20 ≤ b
    → b < 24
    → decode_item (suc f) ((0xe0 + b) ∷ rest) ≡ some (simple b, rest)
unfolding decode_item decode_body read_head
decode_simple f b rest k h = ground arith

FitsInt-signed :
    (t : IntType) (w : ℕ)
    → w < 256 ^ element_size (int_element t)
    → FitsInt (signed (element_size (int_element t)) w)
FitsInt-signed t w h = ground arith

IsWord-fits : (t : IntType) (w : ℕ) → w < 256 ^ element_size (int_element t) → w < 2 ^ 64
IsWord-fits t w h = ground arith

decode_word :
    (f : ℕ) (t : ElementType) (w : ℕ) (rest : List ℕ)
    → IsWord t w
    → decode_item (suc f) (encode_word t w ++ rest) ≡ some (word_item t w, rest)
decode_word f (int_element t) w rest h = elim (Bool-cases (is_signed t)) [
  | inl e ↦
      rw e (decode_int f (signed (element_size (int_element t)) w) rest (FitsInt-signed t w h))
  | inr e ↦ rw e (decode_int f (pos w) rest (IsWord-fits t w h))
]
decode_word f (float_element t) w rest h = decode_float f t w rest h
decode_word f bool_element w rest h = elim (Bool-cases (w == 0)) [
  | inl e ↦ rw e (decode_simple f 20 rest (omega arith) (omega arith))
  | inr e ↦ rw e (decode_simple f 21 rest (omega arith) (omega arith))
]

decode_words :
    (f : ℕ) (t : ElementType) (ws rest : List ℕ)
    → All (IsWord t) ws
    → decode_items (decode_item (suc f)) (length ws) (encode_words t ws ++ rest)
      ≡ some (word_items t ws, rest)
unfolding decode_items
decode_words f t [] rest h = refl
decode_words f t (w ∷ ws) rest h = rw (
  append_assoc (encode_word t w) (encode_words t ws) rest,
  decode_word f t w (encode_words t ws ++ rest) h.0,
  decode_words f t ws rest h.1,
)

length-elements : (size n : ℕ) (bytes : List ℕ) → length (elements size n bytes) ≡ n
length-elements size zero bytes = refl
length-elements size (suc n) bytes = ap suc (length-elements size n (drop size bytes))

decode_array :
    (f : ℕ) (t : ElementType) (n : ℕ) (bytes rest : List ℕ)
    → All (IsWord t) (elements (element_size t) n bytes)
    → decode_items
        (decode_item (suc f))
        n
        (encode_words t (elements (element_size t) n bytes) ++ rest)
      ≡ some (word_items t (elements (element_size t) n bytes), rest)
decode_array f t n bytes rest h =
    subst
      (λ k.
        decode_items (decode_item (suc f)) k
          (encode_words t (elements (element_size t) n bytes) ++ rest)
        ≡ some (word_items t (elements (element_size t) n bytes), rest))
      (length-elements (element_size t) n bytes)
      (decode_words f t (elements (element_size t) n bytes) rest h)

-- An item of a count of items, once they are read.
decode_counted :
    (f n : ℕ) (body rest : List ℕ) (is : Items)
    → n < 2 ^ 64
    → decode_items (decode_item f) n (body ++ rest) ≡ some (is, rest)
    → decode_item (suc f) ((head n 0x80 ++ body) ++ rest) ≡ some (sequence is, rest)
unfolding decode_body
decode_counted f n body rest is h e =
    rw (append_assoc (head n 0x80) body rest)
      (decode_head f n 4 (body ++ rest) h (omega arith) ∙ rw e)

decode_mapping :
    (f n : ℕ) (body rest : List ℕ) (ps : Pairs)
    → n < 2 ^ 64
    → decode_pairs (decode_item f) n (body ++ rest) ≡ some (ps, rest)
    → decode_item (suc f) ((head n 0xa0 ++ body) ++ rest) ≡ some (mapping ps, rest)
unfolding decode_body
decode_mapping f n body rest ps h e =
    rw (append_assoc (head n 0xa0) body rest)
      (decode_head f n 5 (body ++ rest) h (omega arith) ∙ rw e)

decode_text :
    (f : ℕ) (s rest : List ℕ)
    → length s < 2 ^ 64
    → decode_item (suc f) ((head (length s) 0x60 ++ s) ++ rest) ≡ some (text_item s, rest)
unfolding decode_body
decode_text f s rest h =
    rw (append_assoc (head (length s) 0x60) s rest)
      (decode_head f (length s) 3 (s ++ rest) h (omega arith) ∙ rw (take_bytes-append s rest))

decode_bytes :
    (f : ℕ) (s rest : List ℕ)
    → length s < 2 ^ 64
    → decode_item (suc f) ((head (length s) 0x40 ++ s) ++ rest) ≡ some (bytes_item s, rest)
unfolding decode_body
decode_bytes f s rest h =
    rw (append_assoc (head (length s) 0x40) s rest)
      (decode_head f (length s) 2 (s ++ rest) h (omega arith) ∙ rw (take_bytes-append s rest))

mutual
  unfolding encoding decode_items decode_pairs

  decode_lem :
      (v : Value) (f : ℕ) (rest : List ℕ)
      → IsEncodable v
      → depth v < suc f
      → decode_item (suc f) (encoding v ++ rest) ≡ some (value_item v, rest)
  decode_lem null_ptr f rest h d = decode_simple f 22 rest (omega arith) (omega arith)
  decode_lem null f rest h d = decode_simple f 22 rest (omega arith) (omega arith)
  decode_lem (int t z) f rest h d = decode_int f z rest h
  decode_lem (float t bits) f rest h d = decode_float f t bits rest h
  decode_lem (bool true) f rest h d = decode_simple f 21 rest (omega arith) (omega arith)
  decode_lem (bool false) f rest h d = decode_simple f 20 rest (omega arith) (omega arith)
  decode_lem (pointer p) f rest h d = absurd h
  decode_lem (string s) f rest h d = decode_text f s rest h
  decode_lem (binary s) f rest h d = decode_bytes f s rest h
  decode_lem (array t n bytes) zero rest h d = absurd (omega arith)
  decode_lem (array t n bytes) (suc f) rest h d =
      let ws = elements (element_size t) n bytes in
      decode_counted (suc f) n (encode_words t ws) rest (word_items t ws) h.0
        (decode_array f t n bytes rest h.1)
  decode_lem (vector vs) f rest h d =
      decode_counted f (count_values vs) (encode_values vs) rest (value_items vs) h.0
        (decode_values_lem vs f rest h.1 (omega arith))
  decode_lem (list vs) f rest h d =
      decode_counted f (count_values vs) (encode_values vs) rest (value_items vs) h.0
        (decode_values_lem vs f rest h.1 (omega arith))
  decode_lem (dict es) f rest h d =
      decode_mapping f (count_entries es) (encode_entries es) rest (entry_items es) h.0
        (decode_entries_lem es f rest h.1 (omega arith))

  decode_values_lem :
      (vs : Values) (f : ℕ) (rest : List ℕ)
      → AreEncodable vs
      → depth_values vs < f
      → decode_items (decode_item f) (count_values vs) (encode_values vs ++ rest)
        ≡ some (value_items vs, rest)
  decode_values_lem nil f rest h d = refl
  decode_values_lem (cons v vs) zero rest h d = absurd (omega arith)
  decode_values_lem (cons v vs) (suc f) rest h d = rw (
    append_assoc (encoding v) (encode_values vs) rest,
    decode_lem v f (encode_values vs ++ rest) h.0 (omega arith),
    decode_values_lem vs (suc f) rest h.1 (omega arith),
  )

  decode_entries_lem :
      (es : Entries) (f : ℕ) (rest : List ℕ)
      → EntriesAreEncodable es
      → depth_entries es < f
      → decode_pairs (decode_item f) (count_entries es) (encode_entries es ++ rest)
        ≡ some (entry_items es, rest)
  decode_entries_lem done f rest h d = refl
  decode_entries_lem (entry k v es) zero rest h d = absurd (omega arith)
  decode_entries_lem (entry k v es) (suc f) rest h d = rw (
    append_assoc (encoding k) (encoding v ++ encode_entries es) rest,
    append_assoc (encoding v) (encode_entries es) rest,
    decode_lem k f (encoding v ++ (encode_entries es ++ rest)) h.0 (omega arith),
    decode_lem v f (encode_entries es ++ rest) h.1 (omega arith),
    decode_entries_lem es (suc f) rest h.2 (omega arith),
  )

-- The decoder of RFC 8949, with more fuel than the value is deep, reads the bytes that stand for an
-- encodable value as the item of that value, and leaves the bytes after it.
pub decode_item-encoding :
    (v : Value) (f : ℕ) (rest : List ℕ)
    → IsEncodable v
    → depth v < f
    → decode_item f (encoding v ++ rest) ≡ some (value_item v, rest)
decode_item-encoding v zero rest h d = absurd (omega arith)
decode_item-encoding v (suc f) rest h d = decode_lem v f rest h d

-- For a value with no NULL pointer but the values of map entries, without pointers, whose numbers and
-- lengths fit 64 bits and whose floats have bits that take the full width of their type,
-- `iot_data_to_cbor_with_size` writes inside its buffer only, from any first size. It returns NULL where
-- the bytes are more than `UINT32_MAX`, and else bytes that RFC 8949 decodes as the item of the value,
-- whatever follows them.
pub to_cbor_with_size-decode_item :
    (v : Value) (size : ℕ)
    → HasNoNull v
    → IsEncodable v
    → (bytes : List ℕ) × (to_cbor_with_size v size
        ≡ some (if leb (length bytes) 4294967295 then some bytes else none))
      × ((rest : List ℕ) → decode_item (suc (depth v)) (bytes ++ rest) ≡ some (value_item v, rest))
to_cbor_with_size-decode_item v size n h = (
  encoding v,
  to_cbor_with_size-encoding v size n,
  λ rest. decode_item-encoding v (suc (depth v)) rest h (omega arith),
)

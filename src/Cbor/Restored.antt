-- ===== src/Cbor/Restored.antt =====
-- src/c/data-cbor.c: a value that is written, decoded and read again.
use iotech_c_utils.Common.{
  ℕ, ◌^◌, ◌<◌, ◌≡◌, ◌≢◌, refl, arith, ◌∙◌, true, false, List, [], ◌∷◌, Option, some, All, length,
  append-nil, if◌then◌else◌, ◌==◌, leb,
}
use iotech_c_utils.Common.Int.{ℤ, pos, negsuc}
use iotech_c_utils.Data.{
  Floats, IntType, int8, int16, int32, int64, uint8, uint16, uint32, uint64, float32, float64,
  ElementType, int_element, float_element, bool_element, Value, Values, null_ptr, null, int, float,
  bool, pointer, string, binary, array, vector, list, dict, nil, cons, is_signed, element_size,
}
use iotech_c_utils.Cbor.{signed, elements, to_cbor_with_size}
use iotech_c_utils.Cbor.Buffer.{encoding, HasNoNull, to_cbor_with_size-encoding}
use iotech_c_utils.Cbor.Decoder.{decode_item, Item}
use iotech_c_utils.Cbor.Items.{
  int_item, word_item, word_items, value_item, value_items, IsEncodable, AreEncodable, depth,
  IsWord,
}
use iotech_c_utils.Cbor.RoundTrip.{decode_item-encoding}
use iotech_c_utils.Cbor.Reader.{read_item, read_items, c_string, from_cbor}

-- The narrowest type that the reader has for an integer.
abbrev pub narrowest : ℤ → IntType
narrowest (pos n) =
    if leb n 255
    then uint8
    else if leb n 65535
    then uint16
    else if leb n 4294967295
    then uint32
    else uint64
narrowest (negsuc n) =
    if leb n 127
    then int8
    else if leb n 32767
    then int16
    else if leb n 2147483647
    then int32
    else int64

abbrev pub narrowed : ℤ → Value
narrowed z = int (narrowest z) z

abbrev pub restored_word : ElementType → ℕ → Value
restored_word (int_element t) w =
    narrowed (if is_signed t then signed (element_size (int_element t)) w else pos w)
restored_word (float_element t) w = float t w
restored_word bool_element w = bool (if w == 0 then false else true)

abbrev pub restored_words : ElementType → List ℕ → Values
restored_words t [] = nil
restored_words t (w ∷ ws) = cons (restored_word t w) (restored_words t ws)

-- The value with each integer in its narrowest type, and a vector for each array and list.
abbrev mutual
  pub restored : Value → Value
  restored (int t z) = narrowed z
  restored (array t n bytes) = vector (restored_words t (elements (element_size t) n bytes))
  restored (vector vs) = vector (restored_values vs)
  restored (list vs) = vector (restored_values vs)
  restored null_ptr = null
  restored v = v

  pub restored_values : Values → Values
  restored_values nil = nil
  restored_values (cons v vs) = cons (restored v) (restored_values vs)

-- A negative number of at least -2 ^ 63.
abbrev pub InRange : ℤ → Type 0
InRange (pos n) = n < 2 ^ 64
InRange (negsuc n) = n < 2 ^ 63

-- No map stands in the value, no string has a 0 among its characters, and integers are in range.
abbrev mutual
  pub IsPlain : Value → Type 0
  IsPlain (int t z) = InRange z
  IsPlain (string s) = All (λ c. c ≢ 0) s
  IsPlain (vector vs) = ArePlain vs
  IsPlain (list vs) = ArePlain vs
  IsPlain (dict es) = ⊥
  IsPlain v = Unit {0}

  pub ArePlain : Values → Type 0
  ArePlain nil = Unit {0}
  ArePlain (cons v vs) = IsPlain v × ArePlain vs

pub c_string_whole : (s : List ℕ) → All (λ c. c ≢ 0) s → c_string s ≡ s
c_string_whole [] h = refl
c_string_whole (c ∷ s) h = ground (arith, c_string_whole s h.1, h.0)

module _ ⦃fl : Floats⦄ (half_to_single : ℕ → ℕ) where
  read_int : (z : ℤ) → InRange z → read_item half_to_single (int_item z) ≡ some (narrowed z)
  unfolding read_item
  read_int (pos n) h = ground arith
  read_int (negsuc n) h = ground arith

  InRange-signed :
      (t : IntType) (w : ℕ)
      → w < 256 ^ element_size (int_element t)
      → InRange (if is_signed t then signed (element_size (int_element t)) w else pos w)
  InRange-signed t w h = ground arith

  read_word :
      (t : ElementType) (w : ℕ)
      → IsWord t w
      → read_item half_to_single (word_item t w) ≡ some (restored_word t w)
  unfolding read_item
  read_word (int_element t) w h =
      read_int (if is_signed t then signed (element_size (int_element t)) w else pos w)
        (InRange-signed t w h)
  read_word (float_element float32) w h = refl
  read_word (float_element float64) w h = refl
  read_word bool_element w h = ground arith

  read_words :
      (t : ElementType) (ws : List ℕ)
      → All (IsWord t) ws
      → read_items half_to_single (word_items t ws) ≡ restored_words t ws
  unfolding read_item
  read_words t [] h = refl
  read_words t (w ∷ ws) h = rw (read_word t w h.0, read_words t ws h.1)

  mutual
    unfolding read_item

    read_lem :
        (v : Value)
        → IsEncodable v
        → IsPlain v
        → read_item half_to_single (value_item v) ≡ some (restored v)
    read_lem (int t z) h p = read_int z p
    read_lem (float float32 bits) h p = refl
    read_lem (float float64 bits) h p = refl
    read_lem (bool true) h p = refl
    read_lem (bool false) h p = refl
    read_lem (string s) h p = rw (c_string_whole s p)
    read_lem (array t n bytes) h p = rw (read_words t (elements (element_size t) n bytes) h.1)
    read_lem (vector vs) h p = rw (read_values_lem vs h.1 p)
    read_lem (list vs) h p = rw (read_values_lem vs h.1 p)
    read_lem (pointer a) h p = absurd h
    read_lem (dict es) h p = absurd p
    read_lem null_ptr h p = refl
    read_lem null h p = refl
    read_lem (binary bytes) h p = refl

    read_values_lem :
        (vs : Values)
        → AreEncodable vs
        → ArePlain vs
        → read_items half_to_single (value_items vs) ≡ restored_values vs
    read_values_lem nil h p = refl
    read_values_lem (cons v vs) h p = rw (read_lem v h.0 p.0, read_values_lem vs h.1 p.1)

  -- Where `cbor_load` returns the item of any bytes that the decoder of RFC 8949 reads to their end with
  -- `f` levels: a value of fewer levels, with no map, pointer or NULL pointer, whose strings have no zero
  -- byte, whose integers are those of the reader's types, whose lengths fit 64 bits and whose floats have
  -- bits that take the full width of their type, and whose encoding is shorter than 2 ^ 32, is written to
  -- its encoding from any first buffer size, and `iot_data_from_cbor` reads that as the value with each
  -- integer, unchanged, in its narrowest type and each array and list as a vector.
  pub from_cbor-to_cbor :
      (cbor_load : List ℕ → Option Item) (f : ℕ) (v : Value) (size : ℕ)
      → ((bytes : List ℕ) (i : Item)
          → decode_item f bytes ≡ some (i, [])
          → cbor_load bytes ≡ some i)
      → HasNoNull v
      → IsEncodable v
      → IsPlain v
      → depth v < f
      → length (encoding v) < 2 ^ 32
      → (to_cbor_with_size v size ≡ some (some (encoding v)))
        × (from_cbor half_to_single cbor_load (encoding v) ≡ some (restored v))
  unfolding from_cbor
  from_cbor-to_cbor cbor_load f v size conforms n h p d l = (written, rw (loaded, read_lem v h p))
    where
      written : to_cbor_with_size v size ≡ some (some (encoding v))
      written =
          let short : leb (length (encoding v)) 4294967295 ≡ true = ground arith in
          to_cbor_with_size-encoding v size n ∙ rw short

      loaded : cbor_load (encoding v) ≡ some (value_item v)
      loaded =
          conforms (encoding v) (value_item v)
            (rw (← append-nil (encoding v)) (decode_item-encoding v f [] h d))

-- ===== src/Cbor/Items.antt =====
-- src/c/data-cbor.c: the CBOR item that stands for a value, and the values that the writer can encode.
use iotech_c_utils.Common.{
  ℕ, suc, ◌^◌, ◌<◌, ◌≤◌, max, List, [], ◌∷◌, length, All, if◌then◌else◌, ◌==◌,
}
use iotech_c_utils.Common.Int.{ℤ, pos, negsuc}
use iotech_c_utils.Data.{
  FloatType, float32, float64, ElementType, int_element, float_element, bool_element, Value, Values,
  Entries, null_ptr, null, int, float, bool, pointer, string, binary, array, vector, list, dict,
  nil, cons, done, entry, is_signed, element_size, count_values, count_entries,
}
use iotech_c_utils.Cbor.{signed, elements}
use iotech_c_utils.Cbor.Decoder.{
  Item, Items, Pairs, unsigned, negative, bytes_item, text_item, sequence, mapping, simple,
  float_item, no_items, item, no_pairs, pair, int_width,
}
use iotech_c_utils.Cbor.Heads.{width_of}

-- The item that stands for a value.
abbrev pub int_item : ℤ → Item
int_item (pos n) = unsigned (int_width (width_of n)) n
int_item (negsuc n) = negative (int_width (width_of n)) n

abbrev pub float_item_of : FloatType → ℕ → Item
float_item_of float32 bits = float_item 4 bits
float_item_of float64 bits = float_item 8 bits

abbrev pub word_item : ElementType → ℕ → Item
word_item (int_element t) w =
    int_item (if is_signed t then signed (element_size (int_element t)) w else pos w)
word_item (float_element t) w = float_item_of t w
word_item bool_element w = simple (if w == 0 then 20 else 21)

abbrev pub word_items : ElementType → List ℕ → Items
word_items t [] = no_items
word_items t (w ∷ ws) = item (word_item t w) (word_items t ws)

abbrev mutual
  pub value_item : Value → Item
  value_item null_ptr = simple 22
  value_item null = simple 22
  value_item (int t z) = int_item z
  value_item (float t bits) = float_item_of t bits
  value_item (bool b) = simple (if b then 21 else 20)
  value_item (pointer p) = simple 22
  value_item (string s) = text_item s
  value_item (binary bytes) = bytes_item bytes
  value_item (array t n bytes) = sequence (word_items t (elements (element_size t) n bytes))
  value_item (vector vs) = sequence (value_items vs)
  value_item (list vs) = sequence (value_items vs)
  value_item (dict es) = mapping (entry_items es)

  pub value_items : Values → Items
  value_items nil = no_items
  value_items (cons v vs) = item (value_item v) (value_items vs)

  pub entry_items : Entries → Pairs
  entry_items done = no_pairs
  entry_items (entry k v es) = pair (value_item k) (value_item v) (entry_items es)

-- An integer of at most 64 bits, and a float whose bits, as a number, take its full width.
abbrev pub FitsInt : ℤ → Type 0
FitsInt (pos n) = n < 2 ^ 64
FitsInt (negsuc n) = n < 2 ^ 64

abbrev pub IsWide : FloatType → ℕ → Type 0
IsWide float32 bits = (2 ^ 16 ≤ bits) × (bits < 2 ^ 32)
IsWide float64 bits = (2 ^ 32 ≤ bits) × (bits < 2 ^ 64)

abbrev pub IsWord : ElementType → ℕ → Type 0
IsWord (int_element t) w = w < 256 ^ element_size (int_element t)
IsWord (float_element t) w = IsWide t w
IsWord bool_element w = w < 256

-- No pointer stands in the value, no NULL but as the value of an entry, every float is wide, and the
-- numbers and lengths fit their types.
abbrev mutual
  pub IsEncodable : Value → Type 0
  IsEncodable null_ptr = Unit {0}
  IsEncodable null = Unit {0}
  IsEncodable (int t z) = FitsInt z
  IsEncodable (float t bits) = IsWide t bits
  IsEncodable (bool b) = Unit {0}
  IsEncodable (pointer p) = ⊥
  IsEncodable (string s) = length s < 2 ^ 64
  IsEncodable (binary bytes) = length bytes < 2 ^ 64
  IsEncodable (array t n bytes) = (n < 2 ^ 64) × All (IsWord t) (elements (element_size t) n bytes)
  IsEncodable (vector vs) = (count_values vs < 2 ^ 64) × AreEncodable vs
  IsEncodable (list vs) = (count_values vs < 2 ^ 64) × AreEncodable vs
  IsEncodable (dict es) = (count_entries es < 2 ^ 64) × EntriesAreEncodable es

  pub AreEncodable : Values → Type 0
  AreEncodable nil = Unit {0}
  AreEncodable (cons v vs) = IsEncodable v × AreEncodable vs

  pub EntriesAreEncodable : Entries → Type 0
  EntriesAreEncodable done = Unit {0}
  EntriesAreEncodable (entry k v es) = IsEncodable k × IsEncodable v × EntriesAreEncodable es

abbrev mutual
  pub depth : Value → ℕ
  depth (array t n bytes) = 1
  depth (vector vs) = suc (depth_values vs)
  depth (list vs) = suc (depth_values vs)
  depth (dict es) = suc (depth_entries es)
  depth _ = 0

  pub depth_values : Values → ℕ
  depth_values nil = 0
  depth_values (cons v vs) = max (depth v) (depth_values vs)

  pub depth_entries : Entries → ℕ
  depth_entries done = 0
  depth_entries (entry k v es) = max (depth k) (max (depth v) (depth_entries es))

-- ===== src/Cbor/Reader.antt =====
-- src/c/data-cbor.c, the reader: values from the items that libcbor's `cbor_load` returns. `none` is
-- a NULL result.
use iotech_c_utils.Common.{
  ℕ, true, false, List, [], ◌∷◌, ◌++◌, Option, none, some, if◌then◌else◌, ◌==◌, leb,
}
use iotech_c_utils.Common.Int.{pos, negsuc}
use iotech_c_utils.Order.{lt, eq, gt}
use iotech_c_utils.RbTree.{◌>>=◌}
use iotech_c_utils.Data.{
  Floats, int8, int16, int32, int64, uint8, uint16, uint32, uint64, float32, float64, Value, Values,
  Entries, null, int, float, bool, string, binary, vector, dict, nil, cons, done, entry,
}
use iotech_c_utils.Data.Compare.{compare_keys}
use iotech_c_utils.Cbor.Decoder.{
  IntWidth, width8, width16, width32, width64, Item, Items, Pairs, unsigned, negative, bytes_item,
  text_item, chunked_bytes, chunked_text, sequence, mapping, tagged, simple, float_item, no_items,
  item, no_pairs, pair,
}

-- `cbor_uint_to_iot_data` and `cbor_negint_to_iot_data`.
abbrev pub read_uint : IntWidth → ℕ → Value
read_uint width8 n = int uint8 (pos n)
read_uint width16 n = int uint16 (pos n)
read_uint width32 n = int uint32 (pos n)
read_uint width64 n = int uint64 (pos n)

abbrev pub read_negint : IntWidth → ℕ → Value
read_negint width8 n = if leb n 127 then int int8 (negsuc n) else int int16 (negsuc n)
read_negint width16 n = if leb n 32767 then int int16 (negsuc n) else int int32 (negsuc n)
read_negint width32 n = if leb n 2147483647 then int int32 (negsuc n) else int int64 (negsuc n)
read_negint width64 n = if leb n 9223372036854775807 then int int64 (negsuc n) else null

-- The chunks of a string of indefinite length, one after the other.
abbrev pub join_chunks : List (List ℕ) → List ℕ
join_chunks [] = []
join_chunks (c ∷ cs) = c ++ join_chunks cs

-- The string that starts at the bytes: it ends before the first that is 0.
abbrev pub c_string : List ℕ → List ℕ
c_string [] = []
c_string (b ∷ bytes) = if b == 0 then [] else b ∷ c_string bytes

-- `if (!element_data)`: an element that cannot be read becomes null.
abbrev pub or_alloc_null : Option Value → Value
or_alloc_null none = null
or_alloc_null (some v) = v

-- `cbor_float_ctrl_to_iot_data`, of a control item; below, of a float.
abbrev pub read_simple : ℕ → Option Value
read_simple n =
    if n == 20
    then some (bool false)
    else if n == 21
    then some (bool true)
    else if n == 22
    then some null
    else none

module _ ⦃fl : Floats⦄ where
  -- `iot_data_map_add` on the entries in their order.
  unfoldable pub add_entry : Value → Value → Entries → Entries
  add_entry k v done = entry k v done
  add_entry k v (entry l w es) =
      let rest = add_entry k v es in
      elim (compare_keys k l) [
        | lt ↦ entry k v (entry l w es)
        | eq ↦ entry l v es
        | gt ↦ entry l w rest
      ]

  -- `continue` where the key or the value cannot be read.
  abbrev pub add_read : Option Value → Option Value → Entries → Entries
  unfolding add_entry
  add_read (some k) (some v) es = add_entry k v es
  add_read _ _ es = es

  module _ (half_to_single : ℕ → ℕ) where
    abbrev pub read_float : ℕ → ℕ → Option Value
    read_float w bits =
        if w == 2
        then some (float float32 (half_to_single bits))
        else if w == 4
        then some (float float32 bits)
        else if w == 8
        then some (float float64 bits)
        else none

    -- `cbor_to_iot_data`, with `cbor_array_to_iot_data` and `cbor_map_to_iot_data`.
    unfoldable mutual
      unfolding add_read

      pub read_item : Item → Option Value
      read_item (unsigned w n) = some (read_uint w n)
      read_item (negative w n) = some (read_negint w n)
      read_item (bytes_item bytes) = some (binary bytes)
      read_item (text_item bytes) = some (string (c_string bytes))
      read_item (chunked_bytes cs) = some (binary (join_chunks cs))
      read_item (chunked_text cs) = some (string (c_string (join_chunks cs)))
      read_item (sequence is) = some (vector (read_items is))
      read_item (mapping ps) = some (dict (read_pairs ps done))
      read_item (tagged t i) = read_item i
      read_item (simple n) = read_simple n
      read_item (float_item w bits) = read_float w bits

      pub read_items : Items → Values
      read_items no_items = nil
      read_items (item i is) = cons (or_alloc_null (read_item i)) (read_items is)

      pub read_pairs : Pairs → Entries → Entries
      read_pairs no_pairs es = es
      read_pairs (pair k v ps) es = read_pairs ps (add_read (read_item k) (read_item v) es)

    -- `iot_data_from_cbor`, over `cbor_load`, which has an error for bytes that are no item.
    unfoldable pub from_cbor : (List ℕ → Option Item) → List ℕ → Option Value
    unfolding read_item
    from_cbor cbor_load bytes = cbor_load bytes >>= read_item

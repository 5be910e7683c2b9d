-- ===== src/Cbor.antt =====
-- src/c/data-cbor.c, the writer: the buffer that grows, the head of an item, the dump of a value and
-- `iot_data_to_cbor`. A write outside the buffer or through a NULL pointer is `none`.
pub mod Buffer
pub mod Decoder
pub mod Heads
pub mod Items
pub mod RoundTrip
pub mod Reader
pub mod Restored
mod Tests
pub mod Floats
use iotech_c_utils.Common.{
  ℕ, zero, suc, ◌+◌, ◌-◌, ◌*◌, ◌/◌, ◌%◌, ◌^◌, Bool, true, false, List, [], ◌∷◌, ◌++◌, Option, none,
  some, length, if◌then◌else◌, ◌==◌, ltb, leb,
}
use iotech_c_utils.Common.Int.{ℤ, pos, negsuc}
use iotech_c_utils.RbTree.{◌>>=◌}
use iotech_c_utils.Data.{
  IntType, int8, int16, int32, int64, uint8, uint16, uint32, uint64, FloatType, ElementType,
  int_element, float_element, bool_element, Value, Values, Entries, null_ptr, null, int, float,
  bool, pointer, string, binary, array, vector, list, dict, nil, cons, done, entry, is_signed,
  element_size, count_values, count_entries,
}

-- `iot_cbor_holder_t`: `bytes` is what stands before `index`.
pub record Holder : Type 0 where
  pub bytes : List ℕ
  pub size : ℕ
  pub index : ℕ

abbrev pub buff_size : ℕ
buff_size = 512

abbrev pub doubling_limit : ℕ
doubling_limit = 4096

abbrev pub buff_increment : ℕ
buff_increment = 1024

-- `iot_cbor_holder_check_size`.
unfoldable pub check_size : ℕ → Holder → Holder
check_size required h =
    let total = h.index + required in
    let inc = if ltb doubling_limit h.size then buff_increment else h.size in
    let inc' = if ltb (h.size + inc) total then required else inc in
    if ltb h.size total then record h { size = h.size + inc' } else h

-- `memcpy` to `data + index`, or a store there, with the index moved on.
unfoldable pub store : List ℕ → Holder → Option Holder
store bs h =
    if leb (h.index + length bs) h.size
    then some (record h { bytes = h.bytes ++ bs; index = h.index + length bs })
    else none

-- `iot_data_cbor_write_bytes`.
unfoldable pub write_bytes : List ℕ → Holder → Option Holder
unfolding check_size store
write_bytes bs h = store bs (check_size (length bs) h)

-- `htobe16`, `htobe32` and `htobe64`, in the order of the bytes in memory.
abbrev pub be16 : ℕ → List ℕ
be16 v = (v / 256 % 256) ∷ (v % 256) ∷ []

abbrev pub be32 : ℕ → List ℕ
be32 v = be16 (v / 65536) ++ be16 v

abbrev pub be64 : ℕ → List ℕ
be64 v = be32 (v / 4294967296) ++ be32 v

-- `iot_data_cbor_write_uint`.
unfoldable pub write_uint : ℕ → ℕ → Holder → Option Holder
unfolding check_size store
write_uint value tag h =
    if ltb value 0x18
    then store (((value + tag) % 256) ∷ []) (check_size 1 h)
    else if leb value 255
    then store (((0x18 + tag) % 256) ∷ []) (check_size 2 h) >>= store (value ∷ [])
    else if leb value 65535
    then store (((0x19 + tag) % 256) ∷ []) (check_size 3 h) >>= store (be16 value)
    else if leb value 4294967295
    then store (((0x1a + tag) % 256) ∷ []) (check_size 5 h) >>= store (be32 value)
    else store (((0x1b + tag) % 256) ∷ []) (check_size 9 h) >>= store (be64 value)

-- `iot_data_cbor_write_int`: -1 - value, where value is negative.
abbrev pub write_int : ℤ → Holder → Option Holder
unfolding write_uint
write_int (pos n) h = write_uint n 0 h
write_int (negsuc n) h = write_uint n 0x20 h

-- One byte for a Boolean or a null.
abbrev pub write_simple : ℕ → Holder → Option Holder
unfolding store check_size
write_simple b h = store (b ∷ []) (check_size 1 h)

-- The elements of an array: little endian words of so many bytes.
abbrev pub le_word : ℕ → List ℕ → ℕ
le_word zero bytes = 0
le_word (suc k) [] = 0
le_word (suc k) (b ∷ bytes) = b + 256 * le_word k bytes

abbrev pub drop : ℕ → List ℕ → List ℕ
drop zero bytes = bytes
drop (suc k) [] = []
drop (suc k) (b ∷ bytes) = drop k bytes

abbrev pub elements : ℕ → ℕ → List ℕ → List ℕ
elements size zero bytes = []
elements size (suc n) bytes = le_word size bytes ∷ elements size n (drop size bytes)

-- A word of so many bytes as a two's complement number.
abbrev pub signed : ℕ → ℕ → ℤ
signed size w = if ltb (w * 2) (256 ^ size) then pos w else negsuc (256 ^ size - 1 - w)

-- `iot_data_dump_cbor_ptr`, for the types that an array can hold.
abbrev pub dump_ptr : ElementType → ℕ → Holder → Option Holder
unfolding write_int write_uint write_simple
dump_ptr (int_element t) w h =
    if is_signed t then write_int (signed (element_size (int_element t)) w) h else write_uint w 0 h
dump_ptr (float_element t) w h = write_uint w 0xe0 h
dump_ptr bool_element w h = write_simple (if w == 0 then 0xf4 else 0xf5) h

unfoldable pub dump_elements : ElementType → List ℕ → Holder → Option Holder
unfolding dump_ptr
dump_elements t [] h = some h
dump_elements t (w ∷ ws) h = dump_ptr t w h >>= dump_elements t ws

-- `if (value)` of an entry: a value that is NULL is written as null.
abbrev pub or_null : Value → Option Holder → Holder → Option Holder
unfolding write_simple
or_null null_ptr dumped h = write_simple 0xf6 h
or_null v dumped h = dumped

-- `iot_data_dump_cbor`.
unfoldable mutual
  unfolding write_uint write_int write_bytes write_simple dump_elements or_null

  pub dump : Value → Holder → Option Holder
  dump null_ptr h = none
  dump null h = write_simple 0xf6 h
  dump (int t z) h = write_int z h
  dump (float t bits) h = write_uint bits 0xe0 h
  dump (bool b) h = write_simple (if b then 0xf5 else 0xf4) h
  dump (pointer p) h = some h
  dump (string s) h = write_uint (length s) 0x60 h >>= write_bytes s
  dump (binary bytes) h = write_uint (length bytes) 0x40 h >>= write_bytes bytes
  dump (array t n bytes) h =
      write_uint n 0x80 h >>= dump_elements t (elements (element_size t) n bytes)
  dump (vector vs) h = write_uint (count_values vs) 0x80 h >>= dump_values vs
  dump (list vs) h = write_uint (count_values vs) 0x80 h >>= dump_values vs
  dump (dict es) h = write_uint (count_entries es) 0xa0 h >>= dump_entries es

  pub dump_values : Values → Holder → Option Holder
  dump_values nil h = some h
  dump_values (cons v vs) h = dump v h >>= dump_values vs

  pub dump_entries : Entries → Holder → Option Holder
  dump_entries done h = some h
  dump_entries (entry k v es) h = dump k h >>= λ h'. or_null v (dump v h') h' >>= dump_entries es

-- `iot_data_to_cbor_with_size`: the bytes of the binary, or NULL for more than `UINT32_MAX` bytes.
abbrev pub binary_of : Holder → Option (List ℕ)
binary_of h = if leb h.index 4294967295 then some h.bytes else none

unfoldable pub to_cbor_with_size : Value → ℕ → Option (Option (List ℕ))
unfolding dump
to_cbor_with_size v size =
    dump v (record { bytes = []; size = size; index = 0 }) >>= λ h. some (binary_of h)

-- `iot_data_to_cbor`.
unfoldable pub to_cbor : Value → Option (Option (List ℕ))
unfolding to_cbor_with_size
to_cbor v = to_cbor_with_size v buff_size

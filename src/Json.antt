-- ===== src/Json.antt =====
-- src/c/data-json.c, the writer, with the string buffer of src/c/data.c that it writes to. `none` is a
-- write outside the buffer or the read of a NULL pointer. The text of a float is an argument, and the
-- order that a map can carry as metadata is not modelled.
pub mod Escape
pub mod Buffer
pub mod Text
pub mod Decimal
pub mod Unescape
pub mod Reader
pub mod Tokens
pub mod Parts
pub mod RoundTrip
mod Tests
use iotech_c_utils.Common.{
  ℕ, zero, suc, ◌+◌, ◌-◌, ◌*◌, ◌/◌, ◌%◌, ◌^◌, bit_and, Bool, true, false, ◌&&◌, ◌||◌, List, [], ◌∷◌,
  ◌++◌, Option, none, some, length, if◌then◌else◌, ◌==◌, ltb, leb, max,
}
use iotech_c_utils.Common.Int.{ℤ, pos, negsuc}
use iotech_c_utils.RbTree.{◌>>=◌}
use iotech_c_utils.Base64.{encodesize, encode}
use iotech_c_utils.Data.{
  Value, Values, Entries, done, entry, nil, cons, null_ptr, null, int, float, bool, pointer, string,
  binary, array, vector, list, dict, FloatType, ElementType, int_element, float_element,
  bool_element, is_signed, element_size,
}
use iotech_c_utils.Cbor.{elements, signed}

-- `iot_string_holder_t`: the string so far, the size of the allocation, and `free`.
pub record StringHolder : Type 0 where
  pub str : List ℕ
  pub size : ℕ
  pub free : ℕ

abbrev pub str_buff_doubling_limit : ℕ
str_buff_doubling_limit = 4096

abbrev pub str_buff_increment : ℕ
str_buff_increment = 1024

-- `iot_data_holder_realloc`.
unfoldable pub holder_realloc : ℕ → StringHolder → StringHolder
holder_realloc required h =
    let inc = if ltb str_buff_doubling_limit h.size then str_buff_increment else h.size in
    let inc' = if ltb inc required then required else inc in
    record h { size = h.size + inc'; free = h.free + inc' }

-- Text and its terminator written to `str + size - free - 1`, which has to be the end of the string,
-- and then `free` made smaller by a number.
unfoldable pub append_text : List ℕ → ℕ → StringHolder → Option StringHolder
append_text text len h =
    let at' = h.size - h.free - 1 in
    if at' == length h.str && leb (at' + length text + 1) h.size
    then some (record h { str = h.str ++ text; free = h.free - len })
    else none

-- `iot_data_repr_size`.
unfoldable pub repr_size : ℕ → ℕ
repr_size c =
    if c == 8 || (c == 9 || (c == 10 || (c == 12 || (c == 13 || (c == b'"' || c == b'\\')))))
    then 2
    else if ltb c 32
    then 6
    else 1

-- The letter after the backslash; `default` writes nothing.
abbrev pub short_escape : ℕ → List ℕ
short_escape c =
    if c == 8
    then b'b' ∷ []
    else if c == 12
    then b'f' ∷ []
    else if c == 10
    then b'n' ∷ []
    else if c == 13
    then b'r' ∷ []
    else if c == 9
    then b't' ∷ []
    else if c == b'"'
    then b'"' ∷ []
    else if c == b'\\'
    then b'\\' ∷ []
    else []

abbrev pub hex_digit : ℕ → ℕ
hex_digit d = if ltb d 10 then b'0' + d else b'a' + (d - 10)

-- What the loop of `iot_data_strcat_escape` writes for a character.
unfoldable pub escape_char : ℕ → List ℕ
escape_char c =
    if repr_size c == 1
    then c ∷ []
    else if repr_size c == 2
    then b'\\' ∷ short_escape c
    else b'\\'
      ∷ b'u'
      ∷ b'0'
      ∷ b'0'
      ∷ (if bit_and c 16 == 0 then b'0' else b'1')
      ∷ hex_digit (bit_and c 15)
      ∷ []

abbrev pub escape_text : List ℕ → List ℕ
escape_text [] = []
escape_text (c ∷ s) = escape_char c ++ escape_text s

abbrev pub total_repr_size : List ℕ → ℕ
total_repr_size [] = 0
total_repr_size (c ∷ s) = repr_size c + total_repr_size s

unfoldable pub make_room : ℕ → StringHolder → StringHolder
make_room len h = if ltb h.free len then holder_realloc len h else h

-- `iot_data_strcat_escape`; and `iot_data_strcat` and `iot_data_add_quote`.
unfoldable pub strcat_escape : List ℕ → Bool → StringHolder → Option StringHolder
strcat_escape add escape h =
    let len = if escape then total_repr_size add else length add in
    append_text (if length add == len then add else escape_text add) len (make_room len h)

abbrev pub strcat : List ℕ → StringHolder → Option StringHolder
strcat add h = strcat_escape add true h

abbrev pub add_quote : StringHolder → Option StringHolder
add_quote h = strcat_escape (b'"' ∷ []) false h

-- `iot_data_base64_encode`.
unfoldable pub add_base64 : List ℕ → StringHolder → Option StringHolder
add_base64 [] h = some h
add_base64 (b ∷ bytes) h =
    let len = encodesize (length (b ∷ bytes)) - 1 in
    let h' = make_room len h in encode (b ∷ bytes) (h'.free + 1) >>= λ text. append_text text len h'

-- `%d` and `%u` of a number of at most 64 bits: no more than 20 digits.
unfoldable pub digits : ℕ → ℕ → List ℕ
digits zero n = []
digits (suc fuel) n =
    let rest = digits fuel (n / 10) in
    if ltb n 10 then (b'0' + n) ∷ [] else rest ++ ((b'0' + n % 10) ∷ [])

abbrev pub decimal : ℤ → List ℕ
decimal (pos n) = digits 20 n
decimal (negsuc n) = b'-' ∷ digits 20 (n + 1)

abbrev pub true_text : List ℕ
true_text = b't' ∷ b'r' ∷ b'u' ∷ b'e' ∷ []

abbrev pub false_text : List ℕ
false_text = b'f' ∷ b'a' ∷ b'l' ∷ b's' ∷ b'e' ∷ []

abbrev pub null_text : List ℕ
null_text = b'n' ∷ b'u' ∷ b'l' ∷ b'l' ∷ []

abbrev pub val_buff_size : ℕ
val_buff_size = 31

abbrev pub take : ℕ → List ℕ → List ℕ
take zero s = []
take (suc n) [] = []
take (suc n) (c ∷ s) = c ∷ take n s

-- `snprintf` or `strncpy` of a text into the next `IOT_VAL_BUFF_SIZE` bytes, the last for a terminator.
unfoldable pub add_value : List ℕ → StringHolder → Option StringHolder
add_value text h =
    let h' = make_room val_buff_size h in
    let text' = take (val_buff_size - 1) text in
    let written = append_text text' (length text') h' in
    if leb (h'.size - h'.free - 1 + val_buff_size) h'.size then written else none

-- An element of an array as text, for its type.
unfoldable pub element_text : (FloatType → ℕ → List ℕ) → ElementType → ℕ → List ℕ
element_text print_float (int_element t) w =
    decimal (if is_signed t then signed (element_size (int_element t)) w else pos w)
element_text print_float (float_element t) w = print_float t w
element_text print_float bool_element w = if w == 0 then false_text else true_text

module _ (print_float : FloatType → ℕ → List ℕ) where
  -- The elements of an array, a comma after each that has a next.
  unfoldable pub dump_elements : ElementType → List ℕ → StringHolder → Option StringHolder
  dump_elements t [] h = some h
  dump_elements t (w ∷ []) h = add_value (element_text print_float t w) h
  dump_elements t (w ∷ v ∷ ws) h =
      add_value (element_text print_float t w) h >>= strcat (b',' ∷ []) >>= dump_elements t (v ∷ ws)

  abbrev pub quote_unless_string : Value → StringHolder → Option StringHolder
  quote_unless_string (string s) h = some h
  quote_unless_string v h = add_quote h

  abbrev pub comma_unless : Bool → StringHolder → Option StringHolder
  comma_unless first h = if first then some h else strcat (b',' ∷ []) h

  -- `iot_data_dump_json`.
  unfoldable mutual
    pub dump : Value → StringHolder → Option StringHolder
    dump null_ptr h = none
    dump null h = add_value null_text h
    dump (int t z) h = add_value (decimal z) h
    dump (float t bits) h = add_value (print_float t bits) h
    dump (bool b) h = add_value (if b then true_text else false_text) h
    dump (pointer p) h = some h
    dump (string s) h = add_quote h >>= strcat s >>= add_quote
    dump (binary bytes) h = add_quote h >>= add_base64 bytes >>= add_quote
    dump (array t n bytes) h =
        strcat (b'[' ∷ []) h
        >>= dump_elements t (elements (element_size t) n bytes)
        >>= strcat (b']' ∷ [])
    dump (vector vs) h = strcat (b'[' ∷ []) h >>= dump_values vs >>= strcat (b']' ∷ [])
    dump (list vs) h = strcat (b'[' ∷ []) h >>= dump_values vs >>= strcat (b']' ∷ [])
    dump (dict es) h = strcat (b'{' ∷ []) h >>= dump_entries true es >>= strcat (b'}' ∷ [])

    pub dump_values : Values → StringHolder → Option StringHolder
    dump_values nil h = some h
    dump_values (cons v nil) h = dump v h
    dump_values (cons v (cons w vs)) h = dump v h >>= strcat (b',' ∷ []) >>= dump_values (cons w vs)

    -- An entry whose value is NULL is left out; `first` until one is written.
    pub dump_entries : Bool → Entries → StringHolder → Option StringHolder
    dump_entries first done h = some h
    dump_entries first (entry k null_ptr es) h = dump_entries first es h
    dump_entries first (entry k v es) h =
        comma_unless first h
        >>= quote_unless_string k
        >>= dump k
        >>= quote_unless_string k
        >>= strcat (b':' ∷ [])
        >>= dump v
        >>= dump_entries false es

  -- `iot_data_to_json_with_buffer` of a buffer of a size, which `iot_data_to_json_with_size` allocates.
  unfoldable pub to_json : Value → ℕ → Option (List ℕ)
  to_json v size = dump v (record { str = []; size = size; free = size - 1 }) >>= λ h. some h.str

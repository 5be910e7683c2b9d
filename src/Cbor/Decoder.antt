-- ===== src/Cbor/Decoder.antt =====
-- RFC 8949, independent of the writer: the items of definite length, and a decoder of one item that
-- returns the bytes after it. Of the simple values it takes the four that RFC 8949 assigns, false,
-- true, null and undefined, which are 20 to 23, and refuses the others. `chunked_bytes` and
-- `chunked_text` are the strings of indefinite length, which only the reader of src/c/data-cbor.c
-- meets.
use iotech_c_utils.Common.{
  ℕ, zero, suc, ◌+◌, ◌*◌, ◌/◌, ◌%◌, ◌&&◌, List, [], ◌∷◌, Option, none, some, if◌then◌else◌, ◌==◌,
  ltb, leb,
}
use iotech_c_utils.RbTree.{◌>>=◌}

-- The width of an integer's argument; one that stands in the first byte has 8 bits.
pub data IntWidth : Type 0 where
  width8 width16 width32 width64 : IntWidth

-- `float_item` has its width in bytes and its bits.
mutual
  pub data Item : Type 0 where
    unsigned : IntWidth → ℕ → Item
    negative : IntWidth → ℕ → Item
    bytes_item : List ℕ → Item
    text_item : List ℕ → Item
    chunked_bytes : List (List ℕ) → Item
    chunked_text : List (List ℕ) → Item
    sequence : Items → Item
    mapping : Pairs → Item
    tagged : ℕ → Item → Item
    simple : ℕ → Item
    float_item : ℕ → ℕ → Item

  pub data Items : Type 0 where
    no_items : Items
    item : Item → Items → Items

  pub data Pairs : Type 0 where
    no_pairs : Pairs
    pair : Item → Item → Pairs → Pairs

-- A big endian number of so many bytes.
abbrev pub read_be : ℕ → ℕ → List ℕ → Option (ℕ × List ℕ)
read_be zero acc bytes = some (acc, bytes)
read_be (suc n) acc [] = none
read_be (suc n) acc (b ∷ bytes) = read_be n (acc * 256 + b) bytes

-- The major type, the width of the argument in bytes (0 in the first byte), and the argument.
pub record Head : Type 0 where
  pub major : ℕ
  pub width : ℕ
  pub argument : ℕ

abbrev pub head_at : ℕ → ℕ → Option (ℕ × List ℕ) → Option (Head × List ℕ)
head_at major width read =
    read >>= λ r. some (record { major = major; width = width; argument = r.0 }, r.1)

unfoldable pub read_head : List ℕ → Option (Head × List ℕ)
read_head [] = none
read_head (b ∷ bytes) =
    if ltb (b % 32) 24
    then some (record { major = b / 32; width = 0; argument = b % 32 }, bytes)
    else if b % 32 == 24
    then head_at (b / 32) 1 (read_be 1 0 bytes)
    else if b % 32 == 25
    then head_at (b / 32) 2 (read_be 2 0 bytes)
    else if b % 32 == 26
    then head_at (b / 32) 4 (read_be 4 0 bytes)
    else if b % 32 == 27
    then head_at (b / 32) 8 (read_be 8 0 bytes)
    else none

-- So many bytes, and those after them.
unfoldable pub take_bytes : ℕ → List ℕ → Option (List ℕ × List ℕ)
take_bytes zero bytes = some ([], bytes)
take_bytes (suc n) [] = none
take_bytes (suc n) (b ∷ bytes) = take_bytes n bytes >>= λ r. some (b ∷ r.0, r.1)

abbrev pub int_width : ℕ → IntWidth
int_width w =
    if leb w 1 then width8 else if w == 2 then width16 else if w == 4 then width32 else width64

-- So many items, by a decoder of one.
unfoldable pub decode_items :
    (List ℕ → Option (Item × List ℕ)) → ℕ → List ℕ → Option (Items × List ℕ)
decode_items one zero bytes = some (no_items, bytes)
decode_items one (suc n) bytes =
    one bytes >>= λ r. decode_items one n r.1 >>= λ s. some (item r.0 s.0, s.1)

unfoldable pub decode_pairs :
    (List ℕ → Option (Item × List ℕ)) → ℕ → List ℕ → Option (Pairs × List ℕ)
decode_pairs one zero bytes = some (no_pairs, bytes)
decode_pairs one (suc n) bytes =
    one bytes >>= λ k. one k.1 >>= λ v. decode_pairs one n v.1 >>= λ s. some (pair k.0 v.0 s.0, s.1)

-- The item with this head.
unfoldable pub decode_body :
    (List ℕ → Option (Item × List ℕ)) → Head → List ℕ → Option (Item × List ℕ)
unfolding take_bytes decode_items decode_pairs
decode_body one h bytes =
    let m = h.major in
    let n = h.argument in
    if m == 0
    then some (unsigned (int_width h.width) n, bytes)
    else if m == 1
    then some (negative (int_width h.width) n, bytes)
    else if m == 2
    then take_bytes n bytes >>= (λ r. some (bytes_item r.0, r.1))
    else if m == 3
    then take_bytes n bytes >>= (λ r. some (text_item r.0, r.1))
    else if m == 4
    then decode_items one n bytes >>= (λ r. some (sequence r.0, r.1))
    else if m == 5
    then decode_pairs one n bytes >>= (λ r. some (mapping r.0, r.1))
    else if m == 6
    then one bytes >>= (λ r. some (tagged n r.0, r.1))
    else if leb h.width 1
    then (if h.width == 0 && leb 20 n then some (simple n, bytes) else none)
    else some (float_item h.width n, bytes)

-- Items nested no deeper than the fuel.
unfoldable pub decode_item : ℕ → List ℕ → Option (Item × List ℕ)
unfolding decode_body read_head
decode_item zero bytes = none
decode_item (suc fuel) bytes = read_head bytes >>= λ r. decode_body (decode_item fuel) r.0 r.1

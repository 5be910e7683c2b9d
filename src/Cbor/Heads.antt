-- ===== src/Cbor/Heads.antt =====
-- src/c/data-cbor.c, `iot_data_cbor_write_uint`: the heads of items against the decoder of RFC 8949.
use iotech_c_utils.Common.{
  ℕ, ◌+◌, ◌*◌, ◌/◌, ◌%◌, ◌^◌, ◌<◌, ◌≡◌, arith, List, ◌∷◌, ◌++◌, some, if◌then◌else◌, ltb, leb,
}
use iotech_c_utils.Cbor.{be16, be32, be64}
use iotech_c_utils.Cbor.Buffer.{head}
use iotech_c_utils.Cbor.Decoder.{read_head, read_be}

-- The width of a head's argument in bytes, and the head of an argument.
abbrev pub width_of : ℕ → ℕ
width_of v =
    if ltb v 24
    then 0
    else if leb v 255
    then 1
    else if leb v 65535
    then 2
    else if leb v 4294967295
    then 4
    else 8

be64_lem : (v : ℕ) (rest : List ℕ) → v < 2 ^ 64 → read_be 8 0 (be64 v ++ rest) ≡ some (v, rest)
be64_lem v rest h = ground arith

be32_lem : (v : ℕ) (rest : List ℕ) → v < 2 ^ 32 → read_be 4 0 (be32 v ++ rest) ≡ some (v, rest)
be32_lem v rest h = ground arith

-- The first byte has the major type and the width.
first_byte :
    (i m : ℕ) → i < 32 → m < 8 → ((i + m * 32) % 256 % 32 ≡ i) × ((i + m * 32) % 256 / 32 ≡ m)
first_byte i m h k = omega arith

read_in_byte :
    (v m : ℕ) (rest : List ℕ)
    → v < 24
    → m < 8
    → read_head (((v + m * 32) % 256) ∷ rest)
      ≡ some (record { major = m; width = 0; argument = v }, rest)
unfolding read_head
read_in_byte v m rest h k = ground (arith, first_byte v m)

read_8 :
    (v m : ℕ) (rest : List ℕ)
    → m < 8
    → read_head (((0x18 + m * 32) % 256) ∷ v ∷ rest)
      ≡ some (record { major = m; width = 1; argument = v }, rest)
unfolding read_head
read_8 v m rest k = ground (arith, first_byte 0x18 m)

read_16 :
    (v m : ℕ) (rest : List ℕ)
    → v < 2 ^ 16
    → m < 8
    → read_head (((0x19 + m * 32) % 256) ∷ (be16 v ++ rest))
      ≡ some (record { major = m; width = 2; argument = v }, rest)
unfolding read_head
read_16 v m rest h k = ground (arith, first_byte 0x19 m)

read_32 :
    (v m : ℕ) (rest : List ℕ)
    → v < 2 ^ 32
    → m < 8
    → read_head (((0x1a + m * 32) % 256) ∷ (be32 v ++ rest))
      ≡ some (record { major = m; width = 4; argument = v }, rest)
unfolding read_head
read_32 v m rest h k = ground (arith, first_byte 0x1a m)

read_64 :
    (v m : ℕ) (rest : List ℕ)
    → v < 2 ^ 64
    → m < 8
    → read_head (((0x1b + m * 32) % 256) ∷ (be64 v ++ rest))
      ≡ some (record { major = m; width = 8; argument = v }, rest)
unfolding read_head
read_64 v m rest h k = ground (arith, first_byte 0x1b m)

pub read_head-head :
    (v m : ℕ) (rest : List ℕ)
    → v < 2 ^ 64
    → m < 8
    → read_head (head v (m * 32) ++ rest)
      ≡ some (record { major = m; width = width_of v; argument = v }, rest)
unfolding head
read_head-head v m rest h k = ground (
  arith,
  read_in_byte v m rest,
  read_8 v m rest,
  read_16 v m rest,
  read_32 v m rest,
  read_64 v m rest,
)

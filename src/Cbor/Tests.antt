-- ===== src/Cbor/Tests.antt =====
-- Values written and read at concrete inputs, and the theorems about them there.
use iotech_c_utils.Common.{
  ℕ, suc, ◌^◌, ◌<◌, ◌≡◌, refl, arith, List, [], ◌∷◌, ◌++◌, Option, none, some, length,
  if◌then◌else◌, leb,
}
use iotech_c_utils.Common.Int.{negsuc}
use iotech_c_utils.RbTree.{◌>>=◌}
use iotech_c_utils.Data.{
  Value, null, int, int16, uint16, string, list, vector, array, nil, cons, int_element,
}
use iotech_c_utils.Data.Tests.{bit_floats, settings}
use iotech_c_utils.Cbor.{to_cbor_with_size}
use iotech_c_utils.Cbor.Buffer.{encoding}
use iotech_c_utils.Cbor.Items.{depth, value_item}
use iotech_c_utils.Cbor.RoundTrip.{to_cbor_with_size-decode_item}
use iotech_c_utils.Cbor.Decoder.{Item, decode_item}
use iotech_c_utils.Cbor.Reader.{from_cbor}
use iotech_c_utils.Cbor.Restored.{restored, from_cbor-to_cbor}

abbrev reading : Value
reading = vector (
    cons (int int16 (negsuc 499)) (
      cons (string (b'o' ∷ b'k' ∷ [])) (
        cons (array (int_element uint16) 2 (1 ∷ 0 ∷ 255 ∷ 255 ∷ []))
          (cons (list (cons null nil)) nil))))

written_reading :
    to_cbor_with_size reading 1
    ≡ some (
        some (
          0x84 ∷ 0x39 ∷ 0x01 ∷ 0xf3 ∷ 0x62 ∷ b'o' ∷ b'k' ∷ 0x82 ∷ 0x01 ∷ 0x19 ∷ 0xff ∷ 0xff ∷ 0x81
          ∷ 0xf6 ∷ []))
unfolding to_cbor_with_size
written_reading = refl

-- A loader of at most nine levels.
abbrev nine_levels : List ℕ → Option Item
unfolding decode_item
nine_levels bytes = decode_item 9 bytes >>= λ r. elim r.1 [ [] ↦ some r.0 | b ∷ bs ↦ none ]

conforms :
    (bytes : List ℕ) (i : Item) → decode_item 9 bytes ≡ some (i, []) → nine_levels bytes ≡ some i
unfolding nine_levels
conforms bytes i e = rw e

to_cbor_with_size-decode_item_example :
    (bytes : List ℕ) × (to_cbor_with_size settings 3
      ≡ some (if leb (length bytes) 4294967295 then some bytes else none))
    × ((rest : List ℕ)
        → decode_item (suc (depth settings)) (bytes ++ rest) ≡ some (value_item settings, rest))
to_cbor_with_size-decode_item_example =
    to_cbor_with_size-decode_item settings 3 (tt, (tt, (tt, tt)), (tt, tt, tt)) (ground arith)

small_enough : length (encoding reading) < 2 ^ 32
unfolding encoding
small_enough = omega arith

from_cbor-to_cbor_example :
    (to_cbor_with_size reading 512 ≡ some (some (encoding reading)))
    × (from_cbor (λ bits. bits) nine_levels (encoding reading) ≡ some (restored reading))
from_cbor-to_cbor_example =
    from_cbor-to_cbor (λ bits. bits) nine_levels 9 reading 512 conforms
      (tt, (tt, (tt, ((tt, tt), tt)))) (ground arith) (ground arith) (omega arith) small_enough

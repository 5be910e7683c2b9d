-- ===== src/Cbor/Floats.antt =====
-- src/c/data-cbor.c: the bytes that are written for floats and for empty slots.
use iotech_c_utils.Common.{
  ℕ, zero, suc, ◌^◌, ◌<◌, ◌≡◌, ◌≢◌, refl, arith, ◌∙◌, sym, List, [], ◌++◌, Option, none, some, ◌==◌,
  ◌&&◌, if◌then◌else◌, leb,
}
use iotech_c_utils.RbTree.{◌>>=◌}
use iotech_c_utils.Data.{
  FloatType, float32, float64, Values, null_ptr, float, vector, cons, count_values,
}
use iotech_c_utils.Cbor.{Holder, write_uint, to_cbor_with_size}
use iotech_c_utils.Cbor.Buffer.{encoding, head}
use iotech_c_utils.Cbor.Decoder.{Item, simple, float_item, decode_item, decode_body}
use iotech_c_utils.Cbor.Heads.{width_of}
use iotech_c_utils.Cbor.Items.{value_item}
use iotech_c_utils.Cbor.RoundTrip.{decode_head}

-- Below this number the bits of a float are written in fewer bytes than the type has.
abbrev pub narrow_limit : FloatType → ℕ
narrow_limit float32 = 2 ^ 16
narrow_limit float64 = 2 ^ 32

-- The item that the bytes of such a float are, if any.
abbrev read_as : ℕ → Option Item
read_as bits =
    if leb (width_of bits) 1
    then (if width_of bits == 0 && leb 20 bits then some (simple bits) else none)
    else some (float_item (width_of bits) bits)

decode_narrow :
    (f bits : ℕ) (rest : List ℕ)
    → bits < 2 ^ 64
    → decode_item (suc f) (head bits 0xe0 ++ rest) ≡ (read_as bits >>= λ i. some (i, rest))
unfolding decode_body
decode_narrow f bits rest h = decode_head f bits 7 rest h (omega arith) ∙ ground arith

-- A float whose bits, as a number, are below the limit, such as 0.0, is not read by RFC 8949 as that
-- float: its bytes are a simple value, assigned or not, or a float of fewer bytes.
pub narrow_float :
    (t : FloatType) (bits f : ℕ) (rest : List ℕ)
    → bits < narrow_limit t
    → 0 < f
    → decode_item f (encoding (float t bits) ++ rest) ≢ some (value_item (float t bits), rest)
unfolding encoding
narrow_float t bits zero rest h k e = absurd (omega arith)
narrow_float float32 bits (suc f) rest h k e =
    let d = sym (decode_narrow f bits rest (omega arith)) ∙ e in ground arith
narrow_float float64 bits (suc f) rest h k e =
    let d = sym (decode_narrow f bits rest (omega arith)) ∙ e in ground arith

never : (m : Option Holder) → (let failed : Option Holder = none in m >>= λ h. failed) ≡ none
never none = refl
never (some h) = refl

-- A vector whose first slot is empty is not written: the writer reads through the NULL pointer.
pub empty_slot :
    (vs : Values) (size : ℕ) → to_cbor_with_size (vector (cons null_ptr vs)) size ≡ none
unfolding to_cbor_with_size
empty_slot vs size = rw (
    never (
      write_uint (count_values (cons null_ptr vs)) 0x80
        (record { bytes = []; size = size; index = 0 })))

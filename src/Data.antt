-- ===== src/Data.antt =====
-- include/iot/data.h and src/c/data.c, the values that an `iot_data_t` pointer stands for, with the
-- type codes, the sizes of elements and `iot_data_hash`. A value is what a reader of the object sees:
-- its reference count, its ownership flags and its metadata are not part of it.
pub mod Cast
pub mod Compare
pub mod Dimensions
pub mod Tests
use iotech_c_utils.Common.{
  ℕ, zero, suc, ◌+◌, ◌%◌, ◌^◌, bit_xor, Bool, true, false, List, [], ◌∷◌, length, if◌then◌else◌,
  ◌==◌,
}
use iotech_c_utils.Common.Int.{ℤ, to_ui32}
use iotech_c_utils.Hash.{hash_string_from, hash_data_from}

-- The integer and the floating point members of `iot_data_type_t`.
pub data IntType : Type 0 where
  int8 uint8 int16 uint16 int32 uint32 int64 uint64 : IntType

pub data FloatType : Type 0 where
  float32 float64 : FloatType

-- The type of an array's elements.
pub data ElementType : Type 0 where
  int_element : IntType → ElementType
  float_element : FloatType → ElementType
  bool_element : ElementType

-- `null_ptr` is a pointer that is NULL. A float is its bit pattern, a pointer its address, a string
-- its characters without the terminator, an array its element type, its length and its bytes. A
-- vector and a list hold their elements in the order of iteration, a map its keys and values.
mutual
  pub data Value : Type 0 where
    null_ptr null : Value
    int : IntType → ℤ → Value
    float : FloatType → ℕ → Value
    bool : Bool → Value
    pointer : ℕ → Value
    string : List ℕ → Value
    binary : List ℕ → Value
    array : ElementType → ℕ → List ℕ → Value
    vector : Values → Value
    list : Values → Value
    dict : Entries → Value

  pub data Values : Type 0 where
    nil : Values
    cons : Value → Values → Values

  pub data Entries : Type 0 where
    done : Entries
    entry : Value → Value → Entries → Entries

abbrev pub int_code : IntType → ℕ
int_code int8 = 0
int_code uint8 = 1
int_code int16 = 2
int_code uint16 = 3
int_code int32 = 4
int_code uint32 = 5
int_code int64 = 6
int_code uint64 = 7

abbrev pub float_code : FloatType → ℕ
float_code float32 = 8
float_code float64 = 9

abbrev pub element_code : ElementType → ℕ
element_code (int_element t) = int_code t
element_code (float_element t) = float_code t
element_code bool_element = 10

-- `iot_data_type`.
abbrev pub type_code : Value → ℕ
type_code null_ptr = 20
type_code (int t z) = int_code t
type_code (float t bits) = float_code t
type_code (bool b) = 10
type_code (pointer p) = 11
type_code (string s) = 12
type_code null = 13
type_code (binary bytes) = 14
type_code (array t n bytes) = 15
type_code (vector vs) = 16
type_code (list vs) = 17
type_code (dict es) = 18

abbrev pub is_signed : IntType → Bool
is_signed int8 = true
is_signed int16 = true
is_signed int32 = true
is_signed int64 = true
is_signed _ = false

-- `iot_data_type_sizes` of the types that an array can hold.
abbrev pub element_size : ElementType → ℕ
element_size (int_element int8) = 1
element_size (int_element uint8) = 1
element_size (int_element int16) = 2
element_size (int_element uint16) = 2
element_size (int_element int32) = 4
element_size (int_element uint32) = 4
element_size (int_element int64) = 8
element_size (int_element uint64) = 8
element_size (float_element float32) = 4
element_size (float_element float64) = 8
element_size bool_element = 1

abbrev pub count_values : Values → ℕ
count_values nil = 0
count_values (cons v vs) = suc (count_values vs)

abbrev pub count_entries : Entries → ℕ
count_entries done = 0
count_entries (entry k v es) = suc (count_entries es)

-- The floating point arithmetic of C on bit patterns: `==` and `<` of two values of a type, the
-- widening to a double, and the conversion to `uint32_t` that the hash of a float is.
pub record Floats : Type 0 where
  pub same : FloatType → ℕ → ℕ → Bool
  pub less : FloatType → ℕ → ℕ → Bool
  pub widen : FloatType → ℕ → ℕ
  pub float_hash : FloatType → ℕ → ℕ

-- The hash that each `iot_data_alloc` function stores, and the one that `iot_data_hash` computes where
-- an object is marked for it: those of an object just built, whose parts were just built too. An array of
-- length 0 is one allocated with NULL data; with other data the function stores 538. An empty slot counts
-- as 0.
module _ ⦃fl : Floats⦄ where
  unfoldable mutual
    pub fresh_hash : Value → ℕ
    fresh_hash null_ptr = 0
    fresh_hash null = 0
    fresh_hash (int t z) = to_ui32 z
    fresh_hash (float t bits) = fl.float_hash t bits
    fresh_hash (bool b) = 0
    fresh_hash (pointer p) = p % 2 ^ 32
    fresh_hash (string s) = hash_string_from 538 s
    fresh_hash (binary bytes) =
        if length bytes == 0 then 0 else hash_data_from 538 bytes (length bytes)
    fresh_hash (array t n bytes) = if n == 0 then 0 else hash_data_from 538 bytes (length bytes)
    fresh_hash (vector vs) = hash_values 0 vs
    fresh_hash (list vs) = hash_values 0 vs
    fresh_hash (dict es) = hash_entries 0 es

    pub hash_values : ℕ → Values → ℕ
    hash_values h nil = h
    hash_values h (cons v vs) = hash_values (bit_xor h (fresh_hash v)) vs

    pub hash_entries : ℕ → Entries → ℕ
    hash_entries h done = h
    hash_entries h (entry k v es) =
        let h' = bit_xor h (fresh_hash k) in
        hash_entries (if fresh_hash v == fresh_hash k then h' else bit_xor h' (fresh_hash v)) es

  -- The hashes of the parts of such an object, by the path to each.
  unfoldable mutual
    unfolding fresh_hash

    pub fresh : Value → List ℕ → ℕ
    fresh v [] = fresh_hash v
    fresh (vector vs) (i ∷ p) = fresh_in vs i p
    fresh (list vs) (i ∷ p) = fresh_in vs i p
    fresh (dict es) (i ∷ p) = fresh_under es i p
    fresh v (i ∷ p) = 0

    pub fresh_in : Values → ℕ → List ℕ → ℕ
    fresh_in nil i p = 0
    fresh_in (cons v vs) zero p = fresh v p
    fresh_in (cons v vs) (suc i) p = fresh_in vs i p

    -- A key, then its value.
    pub fresh_under : Entries → ℕ → List ℕ → ℕ
    fresh_under done i p = 0
    fresh_under (entry k v es) zero p = fresh k p
    fresh_under (entry k v es) (suc zero) p = fresh v p
    fresh_under (entry k v es) (suc (suc i)) p = fresh_under es i p

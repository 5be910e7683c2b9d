-- ===== src/Data/Compare.antt =====
-- src/c/data.c, `iot_data_cmp` with its callers, over values and the hashes their objects keep. An
-- object that is compared with itself is compared by its content here too. `lt` stands for a result
-- below 0 and `gt` for one above it.
pub mod Lex
pub mod Flat
pub mod Laws
pub mod ByValue
use iotech_c_utils.Common.{
  ℕ, zero, suc, ◌+◌, Bool, true, false, ◌&&◌, List, [], ◌∷◌, length, if◌then◌else◌, ◌==◌, ltb,
}
use iotech_c_utils.Common.Int.{ℤ, pos, negsuc, eq_ℤ, lt_ℤ, to_ui64}
use iotech_c_utils.Order.{Sign, lt, eq, gt, cmp_ui64}
use iotech_c_utils.Data.{
  IntType, FloatType, float64, Floats, Value, Values, Entries, null_ptr, null, int, float, bool,
  pointer, string, binary, array, vector, list, dict, nil, cons, done, entry, int_code, float_code,
  element_code, type_code, is_signed, count_values, count_entries, fresh,
}

-- A result that is not 0 is returned, or else the next one.
abbrev pub or_else : Sign → Sign → Sign
or_else lt s = lt
or_else eq s = s
or_else gt s = gt

-- `(a == b) ? 0 : (a < b) ? -1 : 1` of two signed integers, and of two Booleans.
abbrev pub cmp_ℤ : ℤ → ℤ → Sign
cmp_ℤ a b = if eq_ℤ a b then eq else if lt_ℤ a b then lt else gt

abbrev pub cmp_bool : Bool → Bool → Sign
cmp_bool true true = eq
cmp_bool false false = eq
cmp_bool true false = gt
cmp_bool false true = lt

-- `strcmp` of two strings, and `memcmp` of two buffers of one length.
abbrev pub cmp_bytes : List ℕ → List ℕ → Sign
cmp_bytes [] [] = eq
cmp_bytes [] (b ∷ bs) = lt
cmp_bytes (a ∷ as') [] = gt
cmp_bytes (a ∷ as') (b ∷ bs) = or_else (cmp_ui64 a b) (cmp_bytes as' bs)

-- Integers of two types, by value: each is widened to 64 bits, and C converts the signed one to
-- `uint64_t` where the other is unsigned.
abbrev pub cmp_int_values : Bool → ℤ → Bool → ℤ → Sign
cmp_int_values true a true b = cmp_ℤ a b
cmp_int_values _ a _ b = cmp_ui64 (to_ui64 a) (to_ui64 b)

-- What `iot_data_hash` returns for an object and for each part of it, by the path to the part: the
-- number of the element, or twice the number of the entry for its key and one more for its value. The
-- hash is kept in the object and is not settled by its content.
abbrev pub Caches : Type 0
Caches = List ℕ → ℕ

abbrev pub part : Caches → ℕ → Caches
part a i p = a (i ∷ p)

-- The tests on sizes and hashes before two collections are iterated.
abbrev pub cmp_sizes : ℕ → ℕ → ℕ → ℕ → Sign → Sign
cmp_sizes m n h k rest = or_else (cmp_ui64 m n) (or_else (cmp_ui64 h k) rest)

module _ ⦃fl : Floats⦄ where
  abbrev pub cmp_float : FloatType → ℕ → ℕ → Sign
  cmp_float t a b = if fl.same t a b then eq else if fl.less t a b then lt else gt

  -- The last clause is for values of two types.
  unfoldable mutual
    pub data_cmp : Bool → Caches → Caches → Value → Value → Sign
    data_cmp by_value a b null_ptr null_ptr = eq
    data_cmp by_value a b null_ptr w = lt
    data_cmp by_value a b v null_ptr = gt
    data_cmp by_value a b (int t x) (int u y) =
        if int_code t == int_code u
        then cmp_ℤ x y
        else if by_value
        then cmp_int_values (is_signed t) x (is_signed u) y
        else cmp_ui64 (int_code t) (int_code u)
    data_cmp by_value a b (float t x) (float u y) =
        if float_code t == float_code u
        then cmp_float t x y
        else if by_value
        then cmp_float float64 (fl.widen t x) (fl.widen u y)
        else cmp_ui64 (float_code t) (float_code u)
    data_cmp by_value a b (bool x) (bool y) = cmp_bool x y
    data_cmp by_value a b (pointer p) (pointer q) = cmp_ui64 p q
    data_cmp by_value a b (string s) (string t) = cmp_bytes s t
    data_cmp by_value a b null null = eq
    data_cmp by_value a b (binary x) (binary y) =
        or_else (cmp_ui64 (length x) (length y)) (cmp_bytes x y)
    data_cmp by_value a b (array t m x) (array u n y) =
        or_else (cmp_ui64 m n)
          (or_else (cmp_ui64 (element_code t) (element_code u)) (cmp_bytes x y))
    data_cmp by_value a b (vector vs) (vector ws) =
        cmp_sizes (count_values vs) (count_values ws) (a []) (b [])
          (cmp_values by_value a b 0 vs ws)
    data_cmp by_value a b (list vs) (list ws) =
        cmp_sizes (count_values vs) (count_values ws) (a []) (b [])
          (cmp_values by_value a b 0 vs ws)
    data_cmp by_value a b (dict es) (dict fs) =
        cmp_sizes (count_entries es) (count_entries fs) (a []) (b [])
          (cmp_entries by_value a b 0 es fs)
    data_cmp by_value a b v w = cmp_ui64 (type_code v) (type_code w)

    -- The loops run over two collections of one size.
    pub cmp_values : Bool → Caches → Caches → ℕ → Values → Values → Sign
    cmp_values by_value a b i nil ws = eq
    cmp_values by_value a b i (cons v vs) nil = gt
    cmp_values by_value a b i (cons v vs) (cons w ws) =
        or_else (data_cmp by_value (part a i) (part b i) v w)
          (cmp_values by_value a b (suc i) vs ws)

    pub cmp_entries : Bool → Caches → Caches → ℕ → Entries → Entries → Sign
    cmp_entries by_value a b i done fs = eq
    cmp_entries by_value a b i (entry k v es) done = gt
    cmp_entries by_value a b i (entry k v es) (entry l w fs) =
        or_else (data_cmp by_value (part a i) (part b i) k l) (
          or_else (data_cmp by_value (part a (suc i)) (part b (suc i)) v w)
            (cmp_entries by_value a b (suc (suc i)) es fs))

  -- `iot_data_compare`, `iot_data_compare_value`, `iot_data_equal`, `iot_data_equal_value`.
  unfoldable pub compare_data : Caches → Caches → Value → Value → Sign
  unfolding data_cmp
  compare_data a b v w = data_cmp false a b v w

  unfoldable pub compare_value : Caches → Caches → Value → Value → Sign
  unfolding data_cmp
  compare_value a b v w = data_cmp true a b v w

  abbrev pub is_eq : Sign → Bool
  is_eq eq = true
  is_eq _ = false

  unfoldable pub data_equal : Caches → Caches → Value → Value → Bool
  unfolding data_cmp
  data_equal a b v w = (a [] == b []) && is_eq (data_cmp false a b v w)

  unfoldable pub equal_value : Caches → Caches → Value → Value → Bool
  unfolding data_cmp
  equal_value a b v w = is_eq (data_cmp true a b v w)

  -- The comparison of two keys just built.
  unfoldable pub compare_keys : Value → Value → Sign
  unfolding compare_data fresh
  compare_keys k l = compare_data (fresh k) (fresh l) k l

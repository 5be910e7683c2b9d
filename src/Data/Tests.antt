-- ===== src/Data/Tests.antt =====
-- src/c/data.c: concrete values compared and cast, and the theorems on them at concrete values.
use iotech_c_utils.Common.{
  ◌≡◌, ◌↔◌, refl, ◌^◌, ◌+◌, ◌-◌, some, true, [], ◌∷◌, length, ◌==◌, ltb, none, if◌then◌else◌,
}
use iotech_c_utils.Common.Int.{pos, negsuc}
use iotech_c_utils.Order.{lt, eq, gt}
use iotech_c_utils.Data.{
  Floats, Value, int, int8, int32, int64, uint64, string, bool, list, dict, nil, cons, done, entry,
}
use iotech_c_utils.Data.Cast.{cast_int, to_double}
use iotech_c_utils.Data.Cast.Exact.{lost, less_2_64, exact, cast_int-exact}
use iotech_c_utils.Data.Compare.{Caches, compare_data, compare_value, data_equal}
use iotech_c_utils.Data.Compare.Laws.{SameHashes, compare_data_iff, key_order}

-- Floats by their bits, for tests without floats.
instance abbrev pub bit_floats : Floats
bit_floats = record {
  same = λ t a b. a == b;
  less = λ t a b. ltb a b;
  widen = λ t a. a;
  float_hash = λ t a. a;
}

abbrev ab : Value
ab = string (b'a' ∷ b'b' ∷ [])

abbrev abc : Value
abc = string (b'a' ∷ b'b' ∷ b'c' ∷ [])

abbrev pub pair_list : Value
pair_list = list (cons abc (cons (int int8 (negsuc 4)) nil))

abbrev pub settings : Value
settings = dict (entry ab pair_list (entry abc (bool true) done))

-- The hash 9 for every part.
abbrev kept : Caches
kept p = 9

shorter_first : compare_data kept kept ab abc ≡ lt
unfolding compare_data
shorter_first = refl

types_in_order : compare_data kept kept (int int8 (pos 9)) ab ≡ lt
unfolding compare_data
types_in_order = refl

equal_to_itself : data_equal kept kept settings settings ≡ true
unfolding data_equal
equal_to_itself = refl

by_value_across_types : compare_value kept kept (int int8 (pos 5)) (int uint64 (pos 5)) ≡ eq
unfolding compare_value
by_value_across_types = refl

-- Another hash for the list in the map.
abbrev old_inside : Caches
old_inside p = if length p == 1 then 5 else 9

stale_differs : compare_data old_inside kept settings settings ≡ lt
unfolding compare_data
stale_differs = refl

compare_data_iff_example :
    ((compare_data old_inside kept settings settings ≡ eq)
      ↔ ((settings ≡ settings) × SameHashes old_inside kept settings))
    × ((compare_data old_inside kept settings settings ≡ lt)
        ↔ (compare_data kept old_inside settings settings ≡ gt))
compare_data_iff_example = compare_data_iff old_inside kept settings settings refl refl

-- -1 against 5.
above_minus_one : compare_value kept kept (int int64 (negsuc 0)) (int uint64 (pos 5)) ≡ gt
unfolding compare_value
above_minus_one = refl

-- 2^63 + 1000 becomes -2^63 + 1000.
becomes_negative : cast_int uint64 (pos (2 ^ 63 + 1000)) int64 ≡ some (negsuc (2 ^ 63 - 1001))
unfolding cast_int to_double
becomes_negative = refl

too_large : cast_int int64 (pos (2 ^ 63 - 1)) int32 ≡ none
unfolding cast_int to_double
too_large = refl

-- -7 from int64 to int8.
cast_int-exact_example :
    cast_int int64 (negsuc 6) int8
    ≡ (if lost int64 (negsuc 6) int8 then some (less_2_64 (negsuc 6)) else exact int8 (negsuc 6))
cast_int-exact_example = cast_int-exact int64 int8 (negsuc 6) refl

-- ===== src/Config/Getters.antt =====
-- src/c/data.c: the typed getters of a map with string keys, and what they make of numbers that were
-- read from JSON.
use iotech_c_utils.Common.{
  ℕ, ◌^◌, ◌≡◌, refl, Bool, List, Option, none, some, if◌then◌else◌, ltb, Bool-cases, inl, inr,
}
use iotech_c_utils.Common.Int.{ℤ, pos}
use iotech_c_utils.Data.{
  Value, Values, Entries, IntType, FloatType, int, bool, float, pointer, vector, list, dict, int64,
  uint64, float64,
}
use iotech_c_utils.Config.{string_map_get, cast_value}
use iotech_c_utils.Json.Decimal.{json_int}

-- `iot_data_string_map_get_number`; a missing key is NULL, which no type is cast from.
unfoldable pub get_number :
    (FloatType → ℕ → IntType → Option ℤ) → Entries → List ℕ → IntType → Option ℤ
get_number cast_float map key type = cast_value cast_float (string_map_get map key) type

abbrev pub as_i64 : Value → ℤ → ℤ
as_i64 (int int64 z) default = z
as_i64 v default = default

abbrev pub as_ui64 : Value → ℤ → ℤ
as_ui64 (int uint64 z) default = z
as_ui64 v default = default

-- `iot_data_string_map_get_i64`, and its kin for the other types.
unfoldable pub get_i64 : Entries → List ℕ → ℤ → ℤ
get_i64 map key default = as_i64 (string_map_get map key) default

unfoldable pub get_ui64 : Entries → List ℕ → ℤ → ℤ
get_ui64 map key default = as_ui64 (string_map_get map key) default

unfoldable pub get_bool : Entries → List ℕ → Bool → Bool
get_bool map key default = elim (string_map_get map key) [ bool b ↦ b | _ ↦ default ]

abbrev pub as_f64 : Value → ℕ → ℕ
as_f64 (float float64 bits) default = bits
as_f64 v default = default

unfoldable pub get_f64 : Entries → List ℕ → ℕ → ℕ
get_f64 map key default = as_f64 (string_map_get map key) default

unfoldable pub get_pointer : Entries → List ℕ → Option ℕ
get_pointer map key = elim (string_map_get map key) [ pointer p ↦ some p | _ ↦ none ]

unfoldable pub get_vector : Entries → List ℕ → Option Values
get_vector map key = elim (string_map_get map key) [ vector vs ↦ some vs | _ ↦ none ]

unfoldable pub get_map : Entries → List ℕ → Option Entries
get_map map key = elim (string_map_get map key) [ dict es ↦ some es | _ ↦ none ]

unfoldable pub get_list : Entries → List ℕ → Option Values
get_list map key = elim (string_map_get map key) [ list vs ↦ some vs | _ ↦ none ]

-- A number from 0 on that was read from JSON is there for only one of the getters of its width: the
-- signed one below 2^63, and the unsigned one from there on; the other one gives the default.
json_number_getters :
    (map : Entries) (key : List ℕ) (n : ℕ) (default : ℤ)
    → string_map_get map key ≡ json_int (pos n)
    → (get_i64 map key default ≡ (if ltb n (2 ^ 63) then pos n else default))
      × (get_ui64 map key default ≡ (if ltb n (2 ^ 63) then default else pos n))
unfolding get_i64 get_ui64
json_number_getters map key n default h = elim (Bool-cases (ltb n (2 ^ 63))) [
  | inl e ↦ (rw (h, e) refl, rw (h, e) refl)
  | inr e ↦ (rw (h, e) refl, rw (h, e) refl)
]

-- ===== src/Config.antt =====
-- src/c/config.c: the substitution of environment variables in a configuration, and the typed values
-- of a configuration map. `none` is a write outside the buffer or a loop out of fuel; a NULL result is
-- `some none`. The environment is an argument, a string is its characters before the terminator.
pub mod Expansion
pub mod Strings
pub mod Getters
mod Tests
use iotech_c_utils.Common.{
  ℕ, zero, suc, ◌+◌, ◌-◌, Bool, true, false, ◌&&◌, List, [], ◌∷◌, ◌++◌, Option, none, some, length,
  if◌then◌else◌, ◌==◌, ltb, leb,
}
use iotech_c_utils.Common.Int.{ℤ}
use iotech_c_utils.RbTree.{◌>>=◌}
use iotech_c_utils.Data.{
  Value, Entries, FloatType, float, done, entry, null_ptr, int, bool, string, vector, dict, IntType,
  type_code,
}
use iotech_c_utils.Data.Cast.{cast_int, cast_bool, cast_int_bool}

-- `iot_parsed_holder_t`: the bytes written so far, the size of the allocation, and `len`.
pub record Parsed : Type 0 where
  pub bytes : List ℕ
  pub size : ℕ
  pub len : ℕ

-- `iot_update_parsed`.
unfoldable pub update_parsed : Parsed → List ℕ → Option Parsed
update_parsed h str =
    let len = h.len + length str in
    let size = if ltb h.size len then len else h.size in
    let room = leb (len - length str + length str) size && (len - length str == length h.bytes) in
    if room then some (record { bytes = h.bytes ++ str; size = size; len = len }) else none

abbrev pub max_env_len : ℕ
max_env_len = 64

-- `strchr (start, '}')`: the characters before it and after it.
abbrev pub close : List ℕ → Option (List ℕ × List ℕ)
close [] = none
close (c ∷ s) =
    let rest = close s >>= λ r. some (c ∷ r.0, r.1) in if c == b'}' then some ([], s) else rest

-- What follows `${`, if the string starts with it and has a `}`: the name and the rest.
unfoldable pub reference : List ℕ → Option (List ℕ × List ℕ)
reference (c ∷ d ∷ s) = let closed = close s in if c == b'$' && d == b'{' then closed else none
reference _ = none

-- The value of a name, unless it is empty, too long or not set.
unfoldable pub resolve : (List ℕ → Option (List ℕ)) → List ℕ → Option (List ℕ)
resolve getenv key =
    let found = getenv key in
    if length key == 0 then none else if leb max_env_len (length key) then none else found

-- The loop of `iot_config_substitute_env`.
unfoldable pub substitute :
    ℕ → (List ℕ → Option (List ℕ)) → Parsed → List ℕ → Option (Option (List ℕ))
substitute zero getenv h s = none
substitute (suc fuel) getenv h [] = update_parsed h (0 ∷ []) >>= λ h'. some (some h'.bytes)
substitute (suc fuel) getenv h (c ∷ s) = elim (reference (c ∷ s)) [
  | none ↦ update_parsed h (c ∷ []) >>= λ h'. substitute fuel getenv h' s
  | some (key, after) ↦ elim (resolve getenv key) [
    | none ↦ some none
    | some value ↦ update_parsed h value >>= λ h'. substitute fuel getenv h' after
  ]
]

-- `iot_config_substitute_env` of a string: the string allocated, with its terminator.
unfoldable pub substitute_env : (List ℕ → Option (List ℕ)) → List ℕ → Option (Option (List ℕ))
unfolding substitute
substitute_env getenv str =
    substitute (suc (length str)) getenv (record { bytes = []; size = length str; len = 0 }) str

abbrev pub equal_bytes : List ℕ → List ℕ → Bool
equal_bytes [] [] = true
equal_bytes (a ∷ as') (b ∷ bs) = a == b && equal_bytes as' bs
equal_bytes _ _ = false

-- `iot_data_string_map_get`: NULL where the key is missing.
unfoldable pub string_map_get : Entries → List ℕ → Value
string_map_get done key = null_ptr
string_map_get (entry (string k) v es) key =
    let rest = string_map_get es key in if equal_bytes k key then v else rest
string_map_get (entry _ v es) key = string_map_get es key

-- `iot_config_get_type`, with the code of the type, and its uses.
unfoldable pub config_get_type : Entries → List ℕ → ℕ → Value
config_get_type map key type =
    let v = string_map_get map key in if type_code v == type then v else null_ptr

abbrev pub config_string : Entries → List ℕ → Option (List ℕ)
config_string map key = elim (config_get_type map key 12) [ string s ↦ some s | _ ↦ none ]

abbrev pub config_map : Entries → List ℕ → Value
config_map map key = config_get_type map key 18

abbrev pub config_vector : Entries → List ℕ → Value
config_vector map key = config_get_type map key 16

-- `iot_config_string_default`.
abbrev pub config_string_default : Entries → List ℕ → Option (List ℕ) → Option (List ℕ)
config_string_default map key default = elim (string_map_get map key) [
  | string s ↦ some s
  | _ ↦ default
]

-- `iot_data_cast` to an integer type, but for floats, which are an argument.
unfoldable pub cast_value : (FloatType → ℕ → IntType → Option ℤ) → Value → IntType → Option ℤ
cast_value cast_float (int t z) u = cast_int t z u
cast_value cast_float (bool b) u = cast_bool b u
cast_value cast_float (float t bits) u = cast_float t bits u
cast_value cast_float _ u = none

-- `iot_config_cast` to an integer type, which `iot_config_i64` and its kin call; `none` for false.
unfoldable pub config_int :
    (FloatType → ℕ → IntType → Option ℤ) → Entries → List ℕ → IntType → Option ℤ
config_int cast_float map key u = cast_value cast_float (string_map_get map key) u

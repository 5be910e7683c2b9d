-- ===== src/Config/Tests.antt =====
-- src/c/config.c at concrete configurations.
use iotech_c_utils.Common.{
  ℕ, ◌≡◌, refl, true, List, [], ◌∷◌, ◌++◌, Option, none, some, if◌then◌else◌,
}
use iotech_c_utils.Common.Int.{ℤ, negsuc}
use iotech_c_utils.RbTree.{◌>>=◌}
use iotech_c_utils.Data.{Entries, done, entry, int, string, bool, int64, FloatType, IntType}
use iotech_c_utils.Config.{equal_bytes, reference, resolve, update_parsed, substitute_env}
use iotech_c_utils.Config.Expansion.{Expands, substitute_env-Expands}

-- HO is set to /x.
abbrev home : List ℕ → Option (List ℕ)
home key = if equal_bytes key (b'H' ∷ b'O' ∷ []) then some (b'/' ∷ b'x' ∷ []) else none

abbrev config : List ℕ
config = b'a' ∷ b'$' ∷ b'{' ∷ b'H' ∷ b'O' ∷ b'}' ∷ b'$' ∷ []

substituted : substitute_env home config ≡ some (some (b'a' ∷ b'/' ∷ b'x' ∷ b'$' ∷ 0 ∷ []))
unfolding substitute_env reference resolve update_parsed
substituted = refl

-- ${} is refused.
empty_name : substitute_env home (b'$' ∷ b'{' ∷ b'}' ∷ []) ≡ some none
unfolding substitute_env reference resolve update_parsed
empty_name = refl

substitute_env-Expands_example :
    (r : Option (List ℕ)) × Expands home config r
    × (substitute_env home config ≡ some (r >>= λ t. some (t ++ (0 ∷ []))))
substitute_env-Expands_example = substitute_env-Expands home config

abbrev settings : Entries
settings =
    entry (string (b'o' ∷ b'n' ∷ [])) (bool true)
      (entry (string (b'n' ∷ [])) (int int64 (negsuc 4)) done)

abbrev no_floats : FloatType → ℕ → IntType → Option ℤ
no_floats t bits u = none

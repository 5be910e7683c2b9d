-- ===== src/Component/Read.antt =====
-- src/c/component.c: a component as data, and its change of configuration. The entries of a map stand
-- in the order of their keys, and the function of the factory that takes a new configuration is an
-- argument, as is the text of a float.
use iotech_c_utils.Common.{
  ℕ, Bool, true, false, List, [], ◌∷◌, Option, none, some, if◌then◌else◌, ◌==◌, ◌≡◌, refl,
}
use iotech_c_utils.RbTree.{◌>>=◌}
use iotech_c_utils.Data.{Floats, FloatType, Value, Entries, done, entry, string, dict}
use iotech_c_utils.Data.Compare.{compare_keys}
use iotech_c_utils.Cbor.Reader.{add_entry}
use iotech_c_utils.Config.{string_map_get}
use iotech_c_utils.Json.{to_json}
use iotech_c_utils.Component.{initial, stopped, running, deleted, starting}

abbrev pub name_key : List ℕ
name_key = b'n' ∷ b'a' ∷ b'm' ∷ b'e' ∷ []

abbrev pub type_key : List ℕ
type_key = b't' ∷ b'y' ∷ b'p' ∷ b'e' ∷ []

abbrev pub state_key : List ℕ
state_key = b's' ∷ b't' ∷ b'a' ∷ b't' ∷ b'e' ∷ []

abbrev pub config_key : List ℕ
config_key = b'c' ∷ b'o' ∷ b'n' ∷ b'f' ∷ b'i' ∷ b'g' ∷ []

abbrev pub category_key : List ℕ
category_key = b'c' ∷ b'a' ∷ b't' ∷ b'e' ∷ b'g' ∷ b'o' ∷ b'r' ∷ b'y' ∷ []

-- `iot_component_state_name`.
abbrev pub state_name : ℕ → List ℕ
state_name state =
    if state == initial
    then b'I' ∷ b'n' ∷ b'i' ∷ b't' ∷ b'i' ∷ b'a' ∷ b'l' ∷ []
    else if state == stopped
    then b'S' ∷ b't' ∷ b'o' ∷ b'p' ∷ b'p' ∷ b'e' ∷ b'd' ∷ []
    else if state == running
    then b'R' ∷ b'u' ∷ b'n' ∷ b'n' ∷ b'i' ∷ b'n' ∷ b'g' ∷ []
    else if state == deleted
    then b'D' ∷ b'e' ∷ b'l' ∷ b'e' ∷ b't' ∷ b'e' ∷ b'd' ∷ []
    else if state == starting
    then b'S' ∷ b't' ∷ b'a' ∷ b'r' ∷ b't' ∷ b'i' ∷ b'n' ∷ b'g' ∷ []
    else b'U' ∷ b'n' ∷ b'k' ∷ b'n' ∷ b'o' ∷ b'w' ∷ b'n' ∷ []

module _ ⦃fl : Floats⦄ where
  -- `iot_component_read`: the name, the type, the state, the configuration, which is NULL for a component
  -- that the container did not create, and the category of the factory if it has one.
  unfoldable pub component_read : List ℕ → List ℕ → ℕ → Value → Option (List ℕ) → Entries
  component_read name type state config category =
      let es = add_entry (string config_key) config (
        add_entry (string state_key) (string (state_name state)) (
          add_entry (string type_key) (string type)
            (add_entry (string name_key) (string name) done))) in
      elim category [ none ↦ es | some c ↦ add_entry (string category_key) (string c) es ]

  -- `iot_data_map_merge` of configurations.
  abbrev pub merge_config : Entries → Entries → Entries
  merge_config es done = es
  merge_config es (entry k v more) = merge_config (add_entry k v es) more

  -- `iot_component_reconfig`: the result, the configuration, and the text that is saved, if the
  -- container saves configurations. The JSON buffer starts with 512 bytes.
  unfoldable pub component_reconfig :
      (FloatType → ℕ → List ℕ)
      → Option (Entries → Bool)
      → Bool
      → Entries
      → Entries
      → Option (Bool × Entries × Option (List ℕ))
  component_reconfig print_float reconfig_fn saves config map =
      let ok : Bool = elim reconfig_fn [ none ↦ true | some f ↦ f map ] in
      let merged = merge_config config map in
      let saved =
        to_json print_float (dict merged) 512 >>= λ text. some (true, merged, some text) in
      if ok
      then (if saves then saved else some (true, merged, none))
      else some (false, config, none)

  -- Each part of a component is found under its key.
  component_read-string_map_get :
      (name type : List ℕ) (state : ℕ) (config : Value) (category : List ℕ)
      → (string_map_get (component_read name type state config (some category)) name_key
          ≡ string name)
        × (string_map_get (component_read name type state config (some category)) type_key
            ≡ string type)
        × (string_map_get (component_read name type state config (some category)) state_key
            ≡ string (state_name state))
        × (string_map_get (component_read name type state config (some category)) config_key
            ≡ config)
        × (string_map_get (component_read name type state config (some category)) category_key
            ≡ string category)
  unfolding component_read add_entry string_map_get compare_keys
  component_read-string_map_get name type state config category = (refl, refl, refl, refl, refl)

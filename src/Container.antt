-- ===== src/Container.antt =====
-- src/c/container.c: the registry of components, which loads a component when it is first looked for.
-- `none` is a configuration whose text runs into undefined behaviour, or a loop out of fuel; a NULL
-- result is `some none`. The components stand in the order from the head of the list, the last one
-- created first. Libraries loaded at run time are not modelled, and the locks are taken by one thread.
pub mod Keeps
pub mod Loading
pub mod Reference
pub mod Order
mod Tests
use iotech_c_utils.Common.{
  ℕ, zero, suc, ◌+◌, ◌-◌, Bool, true, false, not, ◌&&◌, List, [], ◌∷◌, ◌++◌, Option, none, some,
  if◌then◌else◌, ◌==◌,
}
use iotech_c_utils.RbTree.{◌>>=◌}
use iotech_c_utils.Data.{Floats, Value, Entries, done, entry, string, dict}
use iotech_c_utils.Config.{substitute_env, string_map_get, equal_bytes}
use iotech_c_utils.Cbor.Reader.{c_string}
use iotech_c_utils.Json.Reader.{Token, from_json}

-- The container's configuration, `load` of `iot_container_config_t`, with what the C library and the
-- tokenizer of the repository do for it, and the depth of nesting that is read.
pub record Environment : Type 0 where
  pub load : List ℕ → Option (List ℕ)
  pub getenv : List ℕ → Option (List ℕ)
  pub c32rtomb : ℕ → Option (List ℕ)
  pub strtod : List ℕ → ℕ
  pub parse : List ℕ → ℕ → Option (List Token)
  pub depth : ℕ

-- What the code reads of `iot_component_t`; the callbacks that may be NULL are there or not.
pub record Component : Type 0 where
  pub name : List ℕ
  pub type : List ℕ
  pub has_starting : Bool
  pub has_stopping : Bool
  pub has_running : Bool

-- What `config_fn` of a factory does with the container: it looks for components, and in the end it
-- returns a component, which takes the name and the type of the model's caller, or NULL.
pub data ConfigRun : Type 0 where
  returns : Option Component → ConfigRun
  looks : List ℕ → (Option Component → ConfigRun) → ConfigRun

pub record Factory : Type 0 where
  pub type : List ℕ
  pub config_fn : Entries → ConfigRun

-- `iot_component_factory_find_locked`.
unfoldable pub factory_find : List Factory → List ℕ → Option Factory
factory_find [] type = none
factory_find (f ∷ fs) type =
    let rest = factory_find fs type in if equal_bytes f.type type then some f else rest

-- `iot_component_factory_add`.
unfoldable pub factory_add : List Factory → Factory → List Factory
factory_add fs f = elim (factory_find fs f.type) [ none ↦ f ∷ fs | some g ↦ fs ]

-- `iot_container_find_component_locked`, from the tail of the list.
unfoldable pub find_locked : List Component → List ℕ → Option Component
find_locked [] name = none
find_locked (c ∷ cs) name = elim (find_locked cs name) [
  | some d ↦ some d
  | none ↦ if equal_bytes name c.name then some c else none
]

-- `iot_container_delete_component`.
unfoldable pub delete_component : List Component → List ℕ → List Component
delete_component [] name = []
delete_component (c ∷ cs) name = elim (find_locked cs name) [
  | some d ↦ c ∷ delete_component cs name
  | none ↦ if equal_bytes name c.name then cs else c ∷ cs
]

-- The search of `iot_load_in_progress` for a name.
unfoldable pub on_stack : List ℕ → List (List ℕ) → Bool
on_stack name [] = false
on_stack name (n ∷ stack) =
    let rest = on_stack name stack in if equal_bytes n name then true else rest

-- `iot_data_string_map_get_string`.
abbrev pub map_string : Entries → List ℕ → Option (List ℕ)
map_string es key = elim (string_map_get es key) [ string s ↦ some s | _ ↦ none ]

-- `iot_component_config_to_map`; the maps that are read have string keys.
unfoldable pub component_config_to_map :
    ⦃fl : Floats⦄ → Environment → List ℕ → Option (Option Entries)
component_config_to_map env config = substitute_env env.getenv config >>= λ str. elim str [
  | none ↦ some none
  | some s ↦ from_json env.c32rtomb env.strtod (c_string s) env.parse env.depth >>= λ v. elim v [
    | dict es ↦ some (some es)
    | _ ↦ some none
  ]
]

module _ ⦃fl : Floats⦄ (env : Environment) (container_name : List ℕ)
    (factories : List Factory) where
  -- The configuration of the container: `load` of its name, as a map.
  unfoldable pub container_map : Option (Option Entries)
  container_map = elim (env.load container_name) [
    | none ↦ some none
    | some config ↦ component_config_to_map env config
  ]

  abbrev pub Find : Type 0
  Find = List Component → List ℕ → Option (List Component × Option Component)

  -- A run of `config_fn`.
  unfoldable pub run_config :
      Find → List Component → ConfigRun → Option (List Component × Option Component)
  run_config find cs (returns c) = some (cs, c)
  run_config find cs (looks name k) = find cs name >>= λ r. run_config find r.0 (k r.1)

  -- `iot_component_create`.
  unfoldable pub create_component :
      Find → List Component → List ℕ → Factory → List ℕ → Option (List Component)
  unfolding run_config
  create_component find cs cname factory config = component_config_to_map env config >>= λ map.
      elim map [
        | none ↦ some cs
        | some es ↦ run_config find cs (factory.config_fn es) >>= λ r. some (elim r.1 [
          | none ↦ r.0
          | some c ↦ record c { name = cname; type = factory.type } ∷ r.0
        ])
      ]

  -- `iot_container_typed_load`, with its result.
  unfoldable pub typed_load :
      Find → List Component → List ℕ → List ℕ → Option (List Component × Bool)
  unfolding create_component
  typed_load find cs cname ctype = elim (find_locked cs cname) [
    | some c ↦ some (cs, true)
    | none ↦ elim (factory_find factories ctype) [
      | none ↦ some (cs, false)
      | some factory ↦ elim (env.load cname) [
        | none ↦ some (cs, true)
        | some config ↦ create_component find cs cname factory config >>= λ cs'. some (cs', true)
      ]
    ]
  ]

  -- `iot_container_load_locked`, with the names of the loads in progress.
  unfoldable pub load_locked :
      (List (List ℕ) → Find)
      → List (List ℕ)
      → List Component
      → List ℕ
      → Option (List Component × Bool)
  unfolding typed_load container_map
  load_locked find stack cs cname =
      let loaded : Option (List Component × Bool) = container_map >>= λ map. elim map [
        | none ↦ some (cs, false)
        | some es ↦ elim (map_string es cname) [
          | none ↦ some (cs, false)
          | some ctype ↦ typed_load (find (cname ∷ stack)) cs cname ctype
        ]
      ] in
      elim (find_locked cs cname) [
        | some c ↦ some (cs, true)
        | none ↦ if on_stack cname stack then some (cs, false) else loaded
      ]

  -- `iot_container_find_component` of a name, where a configuration is set.
  unfoldable pub find_component : ℕ → List (List ℕ) → Find
  find_component zero stack cs name = none
  find_component (suc fuel) stack cs name = elim (find_locked cs name) [
    | some c ↦ some (cs, some c)
    | none ↦
        load_locked (find_component fuel) stack cs name >>= λ r. some (r.0, find_locked r.0 name)
  ]

  -- The loop of `iot_container_init` over the entries of the configuration, and its whole. A value that
  -- is not a string is the NULL type, which is outside the model.
  unfoldable pub load_entries : ℕ → List Component → Entries → Option (List Component)
  load_entries fuel cs done = some cs
  load_entries fuel cs (entry (string cname) (string ctype) es) =
      typed_load (find_component fuel []) cs cname ctype >>= λ r. load_entries fuel r.0 es
  load_entries fuel cs (entry k v es) = none

  unfoldable pub container_init : ℕ → List Component → Option (List Component × Bool)
  container_init fuel cs = container_map >>= λ map. elim map [
    | none ↦ some (cs, false)
    | some es ↦ load_entries fuel cs es >>= λ cs'. some (cs', true)
  ]

  -- `iot_container_add_component`.
  unfoldable pub add_component :
      ℕ → List Component → List ℕ → List ℕ → List ℕ → Option (List Component)
  add_component fuel cs ctype cname config = elim (factory_find factories ctype) [
    | none ↦ some cs
    | some factory ↦ create_component (find_component fuel []) cs cname factory config
  ]

-- The calls that the container makes of its components.
pub data Event : Type 0 where
  starting started stopping stopped : Component → Event
  running : Component → Bool → Event

-- A call of each component in turn: `iot_data_list_iter_next` goes from the tail to the head, and
-- `iot_data_list_iter_prev` back.
abbrev pub each_next : (Component → List Event) → List Component → List Event
each_next call [] = []
each_next call (c ∷ cs) = each_next call cs ++ call c

abbrev pub each_prev : (Component → List Event) → List Component → List Event
each_prev call [] = []
each_prev call (c ∷ cs) = call c ++ each_prev call cs

abbrev pub all_running : (Component → Bool) → List Component → Bool
all_running is_running [] = true
all_running is_running (c ∷ cs) = all_running is_running cs && is_running c

abbrev pub run_retries : ℕ
run_retries = 25

-- The loop of `iot_container_running`, with the tries left and those made: what each try sees of the
-- states of the components is an argument.
unfoldable pub wait_running : (ℕ → Component → Bool) → List Component → ℕ → ℕ → ℕ
wait_running sees cs zero tries = tries
wait_running sees cs (suc left) tries =
    let again = wait_running sees cs left (tries + 1) in
    if all_running (sees tries) cs then tries else again

abbrev pub if_has : Bool → Event → List Event
if_has present e = if present then e ∷ [] else []

-- `iot_container_running`, `iot_container_start` and `iot_container_stop`.
unfoldable pub container_running : (ℕ → Component → Bool) → List Component → List Event
container_running sees cs =
    let tries = wait_running sees cs run_retries 0 in
    each_next (λ c. if_has c.has_running (running c (tries == run_retries))) cs

unfoldable pub container_start : (ℕ → Component → Bool) → List Component → List Event
container_start sees cs =
    each_next (λ c. if_has c.has_starting (starting c)) cs
    ++ (each_next (λ c. started c ∷ []) cs ++ container_running sees cs)

unfoldable pub container_stop : List Component → List Event
container_stop cs =
    each_prev (λ c. if_has c.has_stopping (stopping c)) cs ++ each_prev (λ c. stopped c ∷ []) cs

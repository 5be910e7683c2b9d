-- ===== src/Container/Tests.antt =====
-- src/c/container.c: a container of two components that look for each other, and the theorems at it.
use iotech_c_utils.Common.{
  ℕ, ◌+◌, ◌≡◌, ◌⊎◌, ◌↔◌, refl, sym, arith, Bool, true, false, List, [], ◌∷◌, none, some,
  if◌then◌else◌, All,
}
use mathlib.Core.List.{reverse}
use iotech_c_utils.Data.{Entries, done, entry, string}
use iotech_c_utils.Data.Tests.{bit_floats}
use iotech_c_utils.Config.{substitute_env, string_map_get, equal_bytes, reference, update_parsed}
use iotech_c_utils.Cbor.Reader.{add_entry}
use iotech_c_utils.Data.Compare.{compare_keys}
use iotech_c_utils.Json.Reader.{
  Token, object, string_token, from_json, value_from_json, read_members, string_from_token, weigh,
}
use iotech_c_utils.Container.{
  Environment, Component, returns, looks, Factory, find_locked, on_stack, component_config_to_map,
  container_map, load_locked, find_component, container_init, load_entries, factory_find,
  container_start, container_stop,
}
use iotech_c_utils.Container.Keeps.{Unique, declared_type}
use iotech_c_utils.Container.Loading.{IsReadable, find_component_total}
use iotech_c_utils.Container.Order.{
  started_in, stopped_in, TimesOut, NeverRuns, container_start-container_stop,
}

-- {"a":"t","b":"t"}, the configuration of everything.
abbrev two_of_t : List ℕ
two_of_t =
    b'{' ∷ b'"' ∷ b'a' ∷ b'"' ∷ b':' ∷ b'"' ∷ b't' ∷ b'"' ∷ b',' ∷ b'"' ∷ b'b' ∷ b'"' ∷ b':' ∷ b'"'
    ∷ b't' ∷ b'"' ∷ b'}' ∷ []

abbrev letter : ℕ → Token
letter start = record { type = string_token; start = start; end = start + 1; size = 0 }

abbrev two_of_t_tokens : List Token
two_of_t_tokens =
    record { type = object; start = 0; end = 17; size = 2 }
    ∷ letter 2
    ∷ letter 6
    ∷ letter 10
    ∷ letter 14
    ∷ []

abbrev same_for_all : Environment
same_for_all = record {
  load = λ name. some two_of_t;
  getenv = λ key. none;
  c32rtomb = λ c. some (c ∷ []);
  strtod = λ s. 0;
  parse = λ text room. if equal_bytes text two_of_t then some two_of_t_tokens else none;
  depth = 2;
}

abbrev two_entries : Entries
two_entries =
    entry (string (b'a' ∷ [])) (string (b't' ∷ []))
      (entry (string (b'b' ∷ [])) (string (b't' ∷ [])) done)

abbrev a_component : Component
a_component = record {
  name = [];
  type = [];
  has_starting = true;
  has_stopping = false;
  has_running = true;
}

-- A factory whose components look for both `b` and `a` and do without.
abbrev looks_for_both : Factory
looks_for_both = record {
  type = b't' ∷ [];
  config_fn = λ es. looks (b'b' ∷ []) (λ b. looks (b'a' ∷ []) (λ a. returns (some a_component)));
}

abbrev named : ℕ → Component
named c = record a_component { name = c ∷ []; type = b't' ∷ [] }

read_two : component_config_to_map same_for_all two_of_t ≡ some (some two_entries)
unfolding component_config_to_map substitute_env from_json value_from_json read_members
    string_from_token weigh reference update_parsed add_entry compare_keys
read_two = refl

same_for_all-IsReadable : IsReadable same_for_all
same_for_all-IsReadable name config l =
    let same : two_of_t ≡ config = cc in (some two_entries, rw (sym same) read_two)

-- A search for `a` creates both, each once.
finds_both :
    find_component same_for_all (b'm' ∷ []) (looks_for_both ∷ []) 3 [] [] (b'a' ∷ [])
    ≡ some (named b'a' ∷ named b'b' ∷ [], some (named b'a'))
unfolding find_component find_locked load_locked on_stack component_config_to_map substitute_env
    reference update_parsed from_json value_from_json read_members string_from_token string_map_get
    add_entry compare_keys factory_find
finds_both = refl

-- The initialisation of the same container has no load in progress for the names it starts with, so it
-- creates `a` twice.
creates_twice :
    container_init same_for_all (b'm' ∷ []) (looks_for_both ∷ []) 3 []
    ≡ some (named b'a' ∷ named b'b' ∷ named b'a' ∷ [], true)
unfolding container_init load_entries find_component find_locked load_locked on_stack
    component_config_to_map substitute_env reference update_parsed from_json value_from_json
    read_members string_from_token string_map_get add_entry compare_keys factory_find
creates_twice = refl

map_of_all : container_map same_for_all (b'm' ∷ []) (looks_for_both ∷ []) ≡ some (some two_entries)
unfolding container_map
map_of_all = read_two

find_component_total_example :
    (cs' : List Component) × (find_component same_for_all
        (b'm' ∷ [])
        (looks_for_both ∷ [])
        3
        []
        []
        (b'a' ∷ [])
      ≡ some (cs', find_locked cs' (b'a' ∷ [])))
    × (Unique [] → Unique cs')
    × ((n : List ℕ) (c : Component) → find_locked [] n ≡ some c → find_locked cs' n ≡ some c)
    × ((n : List ℕ) (c : Component)
        → find_locked cs' n ≡ some c
        → (find_locked [] n ≡ some c) ⊎ (declared_type (some two_entries) n ≡ some c.type))
unfolding on_stack
find_component_total_example =
    find_component_total same_for_all (b'm' ∷ []) (looks_for_both ∷ []) (some two_entries) 3 []
      (b'a' ∷ []) same_for_all-IsReadable map_of_all (omega arith)

abbrev two_components : List Component
two_components = named b'a' ∷ named b'b' ∷ []

container_start-container_stop_example :
    (stopped_in (container_stop two_components) ≡ two_components)
    × (started_in (container_start (λ k c. equal_bytes c.name (b'a' ∷ [])) two_components)
        ≡ reverse (stopped_in (container_stop two_components)))
    × (timeout : Bool) × All
        (TimesOut timeout)
        (container_start (λ k c. equal_bytes c.name (b'a' ∷ [])) two_components)
    × ((timeout ≡ true) ↔ NeverRuns (λ k c. equal_bytes c.name (b'a' ∷ [])) two_components)
container_start-container_stop_example =
    container_start-container_stop (λ k c. equal_bytes c.name (b'a' ∷ [])) two_components

-- ===== src/Container/Reference.antt =====
-- src/c/config.c: `iot_config_component`, a component that a configuration names.
use iotech_c_utils.Common.{ℕ, ◌<◌, ◌≡◌, refl, List, [], Option, none, some, inl, inr, Option-cases}
use iotech_c_utils.Data.{Floats, Entries}
use iotech_c_utils.Config.{config_string}
use iotech_c_utils.Container.{
  Environment, Component, Factory, container_map, find_component, find_locked,
}
use iotech_c_utils.Container.Keeps.{pending}
use iotech_c_utils.Container.Loading.{IsReadable, find_component_total}

module _ ⦃fl : Floats⦄ (env : Environment) (container_name : List ℕ)
    (factories : List Factory) where
  -- `iot_config_component`.
  unfoldable pub config_component :
      ℕ → List Component → Entries → List ℕ → Option (List Component × Option Component)
  config_component fuel cs map key = elim (config_string map key) [
    | none ↦ some (cs, none)
    | some name ↦ find_component env container_name factories fuel [] cs name
  ]

  -- A configuration's reference to a component is followed to an end.
  config_component_total :
      (m : Option Entries) (fuel : ℕ) (cs : List Component) (map : Entries) (key : List ℕ)
      → IsReadable env
      → container_map env container_name factories ≡ some m
      → pending m [] < fuel
      → (cs' : List Component) × (c : Option Component) × (config_component fuel cs map key
          ≡ some (cs', c))
  unfolding config_component
  config_component_total m fuel cs map key r c l = elim (Option-cases (config_string map key)) [
    | inl e ↦ (cs, none, rw (e, config_component) refl)
    | inr (name, e) ↦
        let found = find_component_total env container_name factories m fuel cs name r c l in
        (found.0, find_locked found.0 name, rw (e, config_component) found.1)
  ]

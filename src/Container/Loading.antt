-- ===== src/Container/Loading.antt =====
-- src/c/container.c: loading on demand comes to an end.
use iotech_c_utils.Common.{
  ℕ, zero, suc, ◌<◌, ◌≡◌, refl, ap, sym, ◌∙◌, arith, Bool, true, false, List, [], ◌∷◌, Option, none,
  some, ◌⊎◌, inl, inr, Bool-cases, Option-cases,
}
use iotech_c_utils.Data.{Floats, Entries}
use iotech_c_utils.Container.{
  Environment, Component, ConfigRun, returns, looks, Factory, factory_find, find_locked, on_stack,
  map_string, component_config_to_map, container_map, Find, run_config, create_component,
  typed_load, load_locked, find_component,
}
use iotech_c_utils.Container.Keeps.{
  Unique, pending, declared_type, open_count_less, factory_find-type, Keeps, Keeps-refl,
  Keeps-trans, Keeps-create, Keeps-fewer,
}

-- Each configuration that there is can be read: the code stays inside its buffers and ends.
abbrev pub IsReadable : ⦃fl : Floats⦄ → Environment → Type 0
IsReadable env =
    (name config : List ℕ)
    → env.load name ≡ some config
    → (m : Option Entries) × (component_config_to_map env config ≡ some m)

module _ ⦃fl : Floats⦄ (env : Environment) (container_name : List ℕ) (factories : List Factory)
    (m : Option Entries) where
  -- A search for a component that ends.
  abbrev Finds : List (List ℕ) → Find env container_name factories → Type 0
  Finds stack find =
      (cs : List Component) (name : List ℕ)
      → (cs' : List Component) × (find cs name ≡ some (cs', find_locked cs' name))
        × Keeps m stack cs cs'

  run_config-Keeps :
      (stack : List (List ℕ)) (find : Find env container_name factories)
      → Finds stack find
      → (run : ConfigRun) (cs : List Component)
      → (cs' : List Component) × (c : Option Component) × (run_config env container_name factories
            find cs run
          ≡ some (cs', c))
        × Keeps m stack cs cs'
  unfolding run_config
  run_config-Keeps stack find f (returns c) cs = (cs, c, refl, Keeps-refl)
  run_config-Keeps stack find f (looks name k) cs =
      let (a, e, p) = f cs name in
      let (b, c, e', q) = run_config-Keeps stack find f (k (find_locked a name)) a in
      (b, c, rw e e', Keeps-trans p q)

  create_component-Keeps :
      (stack : List (List ℕ)) (find : Find env container_name factories) (cs : List Component)
      (cname : List ℕ) (factory : Factory) (config : List ℕ)
      → IsReadable env
      → env.load cname ≡ some config
      → Finds (cname ∷ stack) find
      → find_locked cs cname ≡ none
      → on_stack cname stack ≡ false
      → declared_type m cname ≡ some factory.type
      → (cs' : List Component) × (create_component env container_name factories find cs cname
            factory config
          ≡ some cs')
        × Keeps m stack cs cs'
  unfolding create_component
  create_component-Keeps stack find cs cname factory config r l f a o d =
      let (map, e) = r cname config l in
      elim (Option-cases map) [
        | inl none' ↦ (cs, rw (e, none') refl, Keeps-refl)
        | inr (es, some') ↦
            let (cs', c, q, k) =
              run_config-Keeps (cname ∷ stack) find f (factory.config_fn es) cs in
            elim (Option-cases c) [
              | inl none'' ↦ (cs', rw (e, some', q, none'') refl, Keeps-fewer cname k)
              | inr (x, some'') ↦
                  let new = record x { name = cname; type = factory.type } in
                  (new ∷ cs', rw (e, some', q, some'') refl, Keeps-create cname new k a o d refl)
            ]
      ]

  typed_load-Keeps :
      (stack : List (List ℕ)) (find : Find env container_name factories) (cs : List Component)
      (cname ctype : List ℕ)
      → IsReadable env
      → Finds (cname ∷ stack) find
      → find_locked cs cname ≡ none
      → on_stack cname stack ≡ false
      → declared_type m cname ≡ some ctype
      → (cs' : List Component) × (b : Bool) × (typed_load env container_name factories find cs cname
            ctype
          ≡ some (cs', b))
        × Keeps m stack cs cs'
  unfolding typed_load
  typed_load-Keeps stack find cs cname ctype r f a o d =
      elim (Option-cases (factory_find factories ctype)) [
        | inl none' ↦ (cs, false, rw (a, none', typed_load) refl, Keeps-refl)
        | inr (factory, some') ↦ elim (Option-cases (env.load cname)) [
          | inl none'' ↦ (cs, true, rw (a, some', none'', typed_load) refl, Keeps-refl)
          | inr (config, some'') ↦
              let typed = d ∙ ap some (sym (factory_find-type factories ctype factory some')) in
              let (cs', e, k) =
                create_component-Keeps stack find cs cname factory config r some'' f a o typed in
              (cs', true, rw (a, some', some'', e, typed_load) refl, k)
        ]
      ]

  load_locked-Keeps :
      (stack : List (List ℕ)) (find : List (List ℕ) → Find env container_name factories)
      (cs : List Component) (cname : List ℕ)
      → IsReadable env
      → container_map env container_name factories ≡ some m
      → (pending m (cname ∷ stack) < pending m stack → Finds (cname ∷ stack) (find (cname ∷ stack)))
      → find_locked cs cname ≡ none
      → (cs' : List Component) × (b : Bool) × (load_locked env container_name factories find stack
            cs cname
          ≡ some (cs', b))
        × Keeps m stack cs cs'
  unfolding load_locked
  load_locked-Keeps stack find cs cname r c f a = elim (Bool-cases (on_stack cname stack)) [
    | inl on ↦ (cs, false, rw (a, on, load_locked) refl, Keeps-refl)
    | inr o ↦ elim (Option-cases m) [
      | inl none' ↦ (cs, false, rw (a, o, c, none', load_locked) refl, Keeps-refl)
      | inr (es, some') ↦ elim (Option-cases (map_string es cname)) [
        | inl none'' ↦ (cs, false, rw (a, o, c, some', none'', load_locked) refl, Keeps-refl)
        | inr (ctype, some'') ↦
            let less : pending m (cname ∷ stack) < pending m stack =
              rw some' (open_count_less es cname ctype stack some'' o) in
            let declared : declared_type m cname ≡ some ctype = rw some' some'' in
            let (cs', b, e, k) =
              typed_load-Keeps stack (find (cname ∷ stack)) cs cname ctype r (f less) a o
                declared in
            (cs', b, rw (a, o, c, some', some'', load_locked) e, k)
      ]
    ]
  ]

  find_component-Keeps :
      (fuel : ℕ) (stack : List (List ℕ))
      → IsReadable env
      → container_map env container_name factories ≡ some m
      → pending m stack < fuel
      → Finds stack (find_component env container_name factories fuel stack)
  unfolding find_component
  find_component-Keeps zero stack r c l cs name = absurd (omega (arith, l))
  find_component-Keeps (suc fuel) stack r c l cs name = elim (Option-cases (find_locked cs name)) [
    | inr (x, some') ↦ (cs, rw (some', find_component) refl, Keeps-refl)
    | inl a ↦
        let find = find_component env container_name factories fuel in
        let next = λ (less : pending m (name ∷ stack) < pending m stack).
          find_component-Keeps fuel (name ∷ stack) r c (omega (arith, l, less)) in
        let (cs', b, e, k) = load_locked-Keeps stack find cs name r c next a in
        (cs', rw (a, e, find_component) refl, k)
  ]

-- Where each configuration can be read, `iot_container_find_component` with fuel above the number of
-- names in the container's configuration returns: the component with the name in the list it leaves,
-- or NULL. Names stay unique, components found before are found as before, and each new one has the
-- type that the configuration gives its name. Components may look for each other, in a cycle too.
pub find_component_total :
    ⦃fl : Floats⦄
    → (env : Environment) (container_name : List ℕ) (factories : List Factory) (m : Option Entries)
      (fuel : ℕ) (cs : List Component) (name : List ℕ)
    → IsReadable env
    → container_map env container_name factories ≡ some m
    → pending m [] < fuel
    → (cs' : List Component) × (find_component env container_name factories fuel [] cs name
        ≡ some (cs', find_locked cs' name))
      × (Unique cs → Unique cs')
      × ((n : List ℕ) (c : Component) → find_locked cs n ≡ some c → find_locked cs' n ≡ some c)
      × ((n : List ℕ) (c : Component)
          → find_locked cs' n ≡ some c
          → (find_locked cs n ≡ some c) ⊎ (declared_type m n ≡ some c.type))
find_component_total env container_name factories m fuel cs name r c l =
    let (cs', e, k) = find_component-Keeps env container_name factories m fuel [] r c l cs name in
    (cs', e, k.unique, k.present, k.created)

-- ===== src/Map/Add.antt =====
-- src/c/data.c, `iot_data_map_add` and `iot_data_map_add_unused` as a whole.
use iotech_c_utils.Common.{
  ℕ, ◌+◌, ◌%◌, ◌^◌, ◌≡◌, refl, Bool, true, false, not, [], Option, none, some, if◌then◌else◌,
}
use iotech_c_utils.Order.{KeyOrder}
use iotech_c_utils.Sorted.{written}
use iotech_c_utils.RbTree.{Tree, leaf, node, find_node, inorder}
use iotech_c_utils.RbTree.Search.{node_value}
use iotech_c_utils.RbTree.Remove.{is_node}
use iotech_c_utils.Map.{
  count_added, grow, unless_found, Hashed, Map, map_get, node_add, map_add, map_add_unused,
}
use iotech_c_utils.Map.Invariant.{IsWf}
use iotech_c_utils.Map.Update.{Adds, Writes, node_add-IsWf, map_get-Writes}

-- Whether a lookup found a value.
abbrev pub is_some {ℓ} : {A : Type ℓ} → Option A → Bool
is_some none = false
is_some (some a) = true

module _ {ℓ} {K V : Type ℓ} ⦃o : KeyOrder K⦄ ⦃hk : Hashed K⦄ ⦃hv : Hashed V⦄ where
  -- The size after the key was written.
  abbrev pub grown : Map K V → Option V → ℕ
  grown m found = if is_some found then m.size else (m.size + 1) % 2 ^ 32

  counted :
      (m m' : Map K V) (added : Bool) (z : Tree K V)
      → m'.size ≡ m.size
      → added ≡ (if is_node z then false else true)
      → (count_added (m', added)).size ≡ grown m (node_value z)
  counted m m' added leaf e a = rw (a, e)
  counted m m' added (node c l k v r) e a = rw (a, e)

  count_added-tree : (m' : Map K V) (added : Bool) → (count_added (m', added)).tree ≡ m'.tree
  count_added-tree m' true = refl
  count_added-tree m' false = refl

  pub map_add_lem :
      (m : Map K V) (key : K) (value : V)
      → IsWf m
      → (m' : Map K V) × (map_add m key value ≡ some m')
        × IsWf m'
        × Writes key (some value) (inorder m.tree) (inorder m'.tree)
        × (m'.size ≡ grown m (map_get m key))
  unfolding map_add map_get
  map_add_lem m key value h =
      let (m1, added, q, wf, w, e, a) = node_add-IsWf m key value h in
      (
        count_added (m1, added),
        rw q,
        wf,
        (λ j. rw (count_added-tree m1 added) (w j)),
        counted m m1 added (find_node m.tree key []).0 e a,
      )

  -- On every well-formed map, adding succeeds and gives a well-formed map, in which the key has the
  -- new value and every other key what it had, and whose size grows by one, modulo `2 ^ 32`, if the
  -- key was not there.
  pub map_add-IsWf :
      (m : Map K V) (key : K) (value : V) (j : K)
      → IsWf m
      → (m' : Map K V) × (map_add m key value ≡ some m')
        × IsWf m'
        × (map_get m' j ≡ written key j (some value) (map_get m j))
        × (m'.size ≡ grown m (map_get m key))
  map_add-IsWf m key value j h =
      let (m', q, wf, w, e) = map_add_lem m key value h in
      (m', q, wf, map_get-Writes m m' key j (some value) h wf w, e)

  unless_found-IsWf :
      (m : Map K V) (key : K) (value : V) (z : Tree K V) (r : Option (Map K V × Bool)) (j : K)
      → IsWf m
      → Adds m key value (is_node z) r
      → (m' : Map K V) × (unless_found z m r ≡ some (m', not (is_some (node_value z))))
        × IsWf m'
        × (map_get m' j ≡ (
            if is_some (node_value z)
            then map_get m j
            else written key j (some value) (map_get m j)))
  unless_found-IsWf m key value (node c l k v r) s j h x = (m, refl, h, refl)
  unless_found-IsWf m key value leaf s j h x =
      let (m1, added, q, wf, w, e, a) = x in
      let wf' : IsWf (grow m1) = rw a at wf in
      (grow m1, rw q, wf', map_get-Writes m (grow m1) key j (some value) h wf' w)

  -- On every well-formed map, adding an unused key succeeds and gives a well-formed map. A key that is
  -- there is refused and every key keeps its value; else the key has the new value and every other
  -- key what it had.
  pub map_add_unused-IsWf :
      (m : Map K V) (key : K) (value : V) (j : K)
      → IsWf m
      → (m' : Map K V) × (map_add_unused m key value ≡ some (m', not (is_some (map_get m key))))
        × IsWf m'
        × (map_get m' j ≡ (
            if is_some (map_get m key)
            then map_get m j
            else written key j (some value) (map_get m j)))
  unfolding map_add_unused map_get
  map_add_unused-IsWf m key value j h =
      unless_found-IsWf m key value (find_node m.tree key []).0 (node_add m key value) j h
        (node_add-IsWf m key value h)

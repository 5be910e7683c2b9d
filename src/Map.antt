-- ===== src/Map.antt =====
-- src/c/data.c, `iot_data_map_t` over the red-black tree: look up, add, remove, merge, the cached
-- hash and iteration. Keys and values are owned by the map; freeing them is not modelled.
pub mod Iterate
pub mod Hash
pub mod Invariant
pub mod Update
pub mod Add
pub mod Remove
pub mod Merge
mod Tests
use iotech_c_utils.Common.{
  ℕ, zero, suc, ◌+◌, ◌-◌, ◌%◌, ◌^◌, bit_xor, Bool, true, false, not, List, [], ◌∷◌, Option, none,
  some, if◌then◌else◌, ◌==◌, ltb, length,
}
use mathlib.Core.List.{foldl}
use iotech_c_utils.Order.{KeyOrder}
use iotech_c_utils.RbTree.{
  Tree, leaf, node, Frame, goes_left, goes_right, join, plug, inorder, find_node, insert, ◌>>=◌,
}
use iotech_c_utils.RbTree.Search.{node_value}
use iotech_c_utils.RbTree.Remove.{remove, is_node}

-- `iot_data_hash` of a key or a value.
pub record Hashed {ℓ} (A : Type ℓ) : Type ℓ where
  pub hash_of : A → ℕ

pub record Map {ℓ} (K V : Type ℓ) : Type ℓ where
  pub size : ℕ
  pub tree : Tree K V
  pub hash : ℕ
  pub rehash : Bool

-- `iot_data_map_iter_t` of a map: the node it is at, with its path, and `_count`.
pub record Iter {ℓ} (K V : Type ℓ) : Type ℓ where
  pub at : Option (Tree K V × List (Frame K V))
  pub count : ℕ

module _ {ℓ} {K V : Type ℓ} where
  -- `iot_data_map_iter`.
  abbrev pub iter_start : Iter K V
  iter_start = record { at = none; count = 0 }

  abbrev pub empty_map : Map K V
  empty_map = record { size = 0; tree = leaf; hash = 0; rehash = false }

  -- `iot_node_start` and `iot_node_end` of a subtree: the first and the last node with their paths.
  unfoldable pub node_start : Tree K V → List (Frame K V) → Option (Tree K V × List (Frame K V))
  node_start leaf path = none
  node_start (node c leaf k v r) path = some (node c leaf k v r, path)
  node_start (node c (node d a j w b) k v r) path =
      node_start (node d a j w b) (goes_left c k v r ∷ path)

  unfoldable pub node_end : Tree K V → List (Frame K V) → Option (Tree K V × List (Frame K V))
  node_end leaf path = none
  node_end (node c l k v leaf) path = some (node c l k v leaf, path)
  node_end (node c l k v (node d a j w b)) path =
      node_end (node d a j w b) (goes_right c l k v ∷ path)

  -- Up while the node is the right child, and then the parent.
  unfoldable pub climb_right : Tree K V → List (Frame K V) → Option (Tree K V × List (Frame K V))
  climb_right t [] = none
  climb_right t (goes_right c l k v ∷ up) = climb_right (node c l k v t) up
  climb_right t (goes_left c k v r ∷ up) = some (node c t k v r, up)

  unfoldable pub climb_left : Tree K V → List (Frame K V) → Option (Tree K V × List (Frame K V))
  climb_left t [] = none
  climb_left t (goes_left c k v r ∷ up) = climb_left (node c t k v r) up
  climb_left t (goes_right c l k v ∷ up) = some (node c l k v t, up)

  unfoldable pub node_next : Tree K V → List (Frame K V) → Option (Tree K V × List (Frame K V))
  unfolding node_start climb_right
  node_next leaf path = none
  node_next (node c l k v leaf) path = climb_right (node c l k v leaf) path
  node_next (node c l k v (node d a j w b)) path =
      node_start (node d a j w b) (goes_right c l k v ∷ path)

  unfoldable pub node_prev : Tree K V → List (Frame K V) → Option (Tree K V × List (Frame K V))
  unfolding node_end climb_left
  node_prev leaf path = none
  node_prev (node c leaf k v r) path = climb_left (node c leaf k v r) path
  node_prev (node c (node d a j w b) k v r) path =
      node_end (node d a j w b) (goes_left c k v r ∷ path)

  -- `iot_data_map_start` and `iot_data_map_end`: the value under the least and the greatest key.
  pub map_start : Map K V → Option V
  unfolding node_start
  map_start m = node_start m.tree [] >>= λ p. node_value p.0

  pub map_end : Map K V → Option V
  unfolding node_end
  map_end m = node_end m.tree [] >>= λ p. node_value p.0

  -- `iot_data_map_iter_next`, with the node it moves to.
  unfoldable pub iter_next : Map K V → Iter K V → Iter K V
  unfolding node_start node_next
  iter_next m it = record {
    at = elim it.at [ none ↦ node_start m.tree [] | some (t, path) ↦ node_next t path ];
    count = if ltb it.count m.size then it.count + 1 else 0;
  }

  unfoldable pub iter_prev : Map K V → Iter K V → Iter K V
  unfolding node_end node_prev
  iter_prev m it = record {
    at = elim it.at [ none ↦ node_end m.tree [] | some (t, path) ↦ node_prev t path ];
    count = it.count - 1;
  }

  abbrev pub iter_has_next : Map K V → Iter K V → Bool
  iter_has_next m it = ltb it.count m.size

  -- The entry of the node that the iterator is at: `iot_data_map_iter_key`, `iot_data_map_iter_value`.
  abbrev pub iter_entry : Iter K V → Option (K × V)
  iter_entry it = it.at >>= λ p. elim p.0 [ leaf ↦ none | node c l k v r ↦ some (k, v) ]

  -- `while (iot_data_map_iter_next (&iter))` and its mirror: the entries that the loop visits, with
  -- fuel for its rounds.
  unfoldable pub visit : ℕ → Map K V → Iter K V → List (K × V)
  unfolding iter_next
  visit zero m it = []
  visit (suc fuel) m it =
      let it' = iter_next m it in
      let rest = visit fuel m it' in elim (iter_entry it') [ none ↦ [] | some e ↦ e ∷ rest ]

  unfoldable pub visit_back : ℕ → Map K V → Iter K V → List (K × V)
  unfolding iter_prev
  visit_back zero m it = []
  visit_back (suc fuel) m it =
      let it' = iter_prev m it in
      let rest = visit_back fuel m it' in elim (iter_entry it') [ none ↦ [] | some e ↦ e ∷ rest ]

  -- The entries that a loop from `iot_data_map_iter` visits; each visits every node at most once.
  unfoldable pub entries : Map K V → List (K × V)
  unfolding visit
  entries m = visit (length (inorder m.tree)) m iter_start

module _ {ℓ} {K V : Type ℓ} ⦃hk : Hashed K⦄ ⦃hv : Hashed V⦄ where
  -- `iot_data_map_hash`: a value hash that equals the key hash is left out.
  unfoldable pub map_hash : ℕ → K → V → ℕ
  map_hash h key value =
      let h' = bit_xor h (hk.hash_of key) in
      if not (hv.hash_of value == hk.hash_of key) then bit_xor h' (hv.hash_of value) else h'

  -- The recomputation in `iot_data_hash`.
  unfoldable pub rehashed : Map K V → Map K V
  unfolding map_hash entries
  rehashed m = record m { hash = foldl (λ h e. map_hash h e.0 e.1) 0 (entries m); rehash = false }

  -- `iot_data_hash` of a map: its hash, recomputed first where it is out of date.
  unfoldable pub data_hash : Map K V → Map K V × ℕ
  unfolding rehashed
  data_hash m = let m' = if m.rehash then rehashed m else m in (m', m'.hash)

module _ {ℓ} {K V : Type ℓ} ⦃o : KeyOrder K⦄ where
  -- `iot_data_map_get`.
  unfoldable pub map_get : Map K V → K → Option V
  unfolding find_node
  map_get m key = node_value (find_node m.tree key []).0

  -- What `iot_data_map_remove` does once the node is out of the tree; `size` is a `uint32_t`.
  abbrev pub settled : Map K V → Tree K V → Bool → Map K V
  settled m u true = record m { tree = u; rehash = true; size = (m.size + 2 ^ 32 - 1) % 2 ^ 32 }
  settled m u false = record m { tree = u }

  -- `iot_data_map_remove`.
  unfoldable pub map_remove : Map K V → K → Option (Map K V × Bool)
  unfolding remove
  map_remove m key = remove m.tree key >>= λ r. some (settled m r.0 r.1, r.1)

module _ {ℓ} {K V : Type ℓ} ⦃o : KeyOrder K⦄ ⦃hk : Hashed K⦄ ⦃hv : Hashed V⦄ where
  -- The two branches of `iot_node_add`: the node that is there takes the value, or one is inserted.
  unfoldable pub node_add_at :
      Map K V → K → V → Tree K V → List (Frame K V) → Option (Map K V × Bool)
  unfolding insert map_hash
  node_add_at m key value (node c l k v r) path =
      some (record m { tree = plug (node c l k value r) path; rehash = true }, false)
  node_add_at m key value leaf path = insert m.tree key value >>= λ t.
      some (record m { tree = t; hash = map_hash m.hash key value }, true)

  unfoldable pub node_add : Map K V → K → V → Option (Map K V × Bool)
  unfolding node_add_at find_node
  node_add m key value =
      let found = find_node m.tree key [] in node_add_at m key value found.0 found.1

  -- `size++`.
  abbrev pub grow : Map K V → Map K V
  grow m = record m { size = (m.size + 1) % 2 ^ 32 }

  abbrev pub count_added : Map K V × Bool → Map K V
  count_added r = if r.1 then grow r.0 else r.0

  -- `iot_data_map_add`.
  unfoldable pub map_add : Map K V → K → V → Option (Map K V)
  unfolding node_add
  map_add m key value = node_add m key value >>= λ r. some (count_added r)

  -- The branches of `iot_data_map_add_unused`: only a key that is not found is added.
  abbrev pub unless_found : Tree K V → Map K V → Option (Map K V × Bool) → Option (Map K V × Bool)
  unless_found (node c l k v r) m added = some (m, false)
  unless_found leaf m added = added >>= λ r. some (grow r.0, true)

  -- `iot_data_map_add_unused`.
  unfoldable pub map_add_unused : Map K V → K → V → Option (Map K V × Bool)
  unfolding node_add find_node
  map_add_unused m key value = unless_found (find_node m.tree key []).0 m (node_add m key value)

  -- `iot_data_map_merge`, over the entries of the added map in the order of iteration.
  unfoldable pub merge_entries : Map K V → List (K × V) → Option (Map K V)
  unfolding map_add
  merge_entries m [] = some m
  merge_entries m ((k, v) ∷ es) = map_add m k v >>= λ m'. merge_entries m' es

  unfoldable pub map_merge : Map K V → Map K V → Option (Map K V)
  unfolding merge_entries entries
  map_merge m add = merge_entries m (entries add)

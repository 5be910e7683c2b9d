-- ===== src/Map/Invariant.antt =====
-- src/c/data.c, what holds of every map that the operations build.
use mathlib.Core.List.{foldl}
use iotech_c_utils.Common.Xor.{zero-bit_xor}
use iotech_c_utils.Common.{
  [], ap, ◌∙◌, ◌%◌, ◌^◌, ◌≡◌, ◌⊎◌, refl, inl, inr, Bool, true, false, length, if◌then◌else◌,
}
use iotech_c_utils.Order.{KeyOrder}
use iotech_c_utils.Sorted.{Sorted, lookup}
use iotech_c_utils.RbTree.{black, colour, inorder}
use iotech_c_utils.RbTree.Search.{find_node-lookup}
use iotech_c_utils.Map.{Hashed, Map, empty_map, map_get, data_hash, map_hash, rehashed}
use iotech_c_utils.Map.Iterate.{entries_lem}
use iotech_c_utils.Map.Hash.{content_hash, foldl-map_hash}

-- The keys ascend, `size` counts the entries, and a hash that is not out of date is that of the entries.
pub record IsWf {ℓ} {K V : Type ℓ} ⦃o : KeyOrder K⦄ ⦃hk : Hashed K⦄ ⦃hv : Hashed V⦄ (m : Map K V)
    : Type ℓ where
  pub root : colour m.tree ≡ black
  pub sorted : Sorted (inorder m.tree)
  pub sized : m.size ≡ length (inorder m.tree) % 2 ^ 32
  pub hashed : (m.rehash ≡ true) ⊎ (m.hash ≡ content_hash (inorder m.tree))

module _ {ℓ} {K V : Type ℓ} ⦃o : KeyOrder K⦄ where
  pub map_get-lookup :
      (m : Map K V) (key : K)
      → Sorted (inorder m.tree)
      → map_get m key ≡ lookup key (inorder m.tree)
  unfolding map_get
  map_get-lookup m key h = find_node-lookup m.tree key [] h

module _ {ℓ} {K V : Type ℓ} ⦃o : KeyOrder K⦄ ⦃hk : Hashed K⦄ ⦃hv : Hashed V⦄ where
  pub empty_map-IsWf : IsWf (empty_map {K = K} {V = V})
  empty_map-IsWf = record { root = refl; sorted = tt; sized = refl; hashed = inr refl }

  -- What a map with a hash up to date has of the map it stands for.
  abbrev IsUpToDate : Map K V → Map K V → Type ℓ
  IsUpToDate m m' = (m'.hash ≡ content_hash (inorder m.tree)) × (m'.tree ≡ m.tree) × IsWf m'

  updated :
      (m : Map K V) (b : Bool) → m.rehash ≡ b → IsWf m → IsUpToDate m (if b then rehashed m else m)
  unfolding rehashed
  updated m true e h =
      let fresh =
        ap (foldl (λ a e. map_hash a e.0 e.1) 0) (entries_lem m)
        ∙ foldl-map_hash (inorder m.tree) 0
        ∙ zero-bit_xor (content_hash (inorder m.tree)) in
      (
        fresh,
        refl,
        record { root = h.root; sorted = h.sorted; sized = h.sized; hashed = inr fresh },
      )
  updated m false e h = (elim h.hashed [ inl d ↦ cc | inr d ↦ d ], refl, h)

  -- The hash of a well-formed map is the exclusive or over its entries, whether it was kept up to
  -- date or is recomputed; asking for it changes no entry and keeps the map well-formed.
  pub data_hash-IsWf :
      (m : Map K V)
      → IsWf m
      → ((data_hash m).1 ≡ content_hash (inorder m.tree))
        × ((data_hash m).0.tree ≡ m.tree)
        × IsWf (data_hash m).0
  unfolding data_hash
  data_hash-IsWf m h = updated m m.rehash refl h

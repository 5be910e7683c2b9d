-- ===== src/Map/Tests.antt =====
-- src/c/data.c: the map on concrete maps from `uint64_t` keys to `uint64_t` values.
use mathlib.Core.List.{reverse}
use iotech_c_utils.Common.{ℕ, ◌%◌, ◌^◌, ◌≡◌, refl, inr, arith, false, none, some}
use iotech_c_utils.Order.{ui64_order}
use iotech_c_utils.Sorted.{written, or_else}
use iotech_c_utils.RbTree.{leaf, node, black, red, inorder}
use iotech_c_utils.Map.{
  Hashed, Map, empty_map, iter_start, visit, visit_back, data_hash, map_get, map_add, map_remove,
  map_merge,
}
use iotech_c_utils.Map.Hash.{content_hash}
use iotech_c_utils.Map.Invariant.{IsWf, data_hash-IsWf}
use iotech_c_utils.Map.Iterate.{visit-visit_back}
use iotech_c_utils.Map.Add.{is_some, grown, map_add-IsWf}
use iotech_c_utils.Map.Remove.{map_remove-IsWf}
use iotech_c_utils.Map.Merge.{map_merge-IsWf}

instance abbrev low_word : Hashed ℕ
low_word = record { hash_of = λ n. n % 2 ^ 32 }

-- 1 and 3, with the hash that the adding leaves.
abbrev two : Map ℕ ℕ
two = record {
  size = 2;
  tree = node black leaf 1 9 (node red leaf 3 3 leaf);
  hash = 11;
  rehash = false;
}

add_two : (m : Map ℕ ℕ) × (map_add empty_map 1 9 ≡ some m) × (map_add m 3 3 ≡ some two)
unfolding map_add
add_two = (_, refl, refl)

two-IsWf : IsWf two
two-IsWf = record { root = refl; sorted = ((refl, tt), (tt, tt)); sized = refl; hashed = inr refl }

visit-visit_back_example :
    (visit 2 two iter_start ≡ inorder two.tree)
    × (visit_back 2 two iter_start ≡ reverse (inorder two.tree))
visit-visit_back_example = visit-visit_back two 2 (omega arith)

data_hash-IsWf_example :
    ((data_hash two).1 ≡ content_hash (inorder two.tree))
    × ((data_hash two).0.tree ≡ two.tree)
    × IsWf (data_hash two).0
data_hash-IsWf_example = data_hash-IsWf two two-IsWf

map_add-IsWf_example :
    (m' : Map ℕ ℕ) × (map_add two 2 7 ≡ some m')
    × IsWf m'
    × (map_get m' 3 ≡ written {K = ℕ} 2 3 (some 7) (map_get two 3))
    × (m'.size ≡ grown two (map_get two 2))
map_add-IsWf_example = map_add-IsWf two 2 7 3 two-IsWf

map_remove-IsWf_example :
    (m' : Map ℕ ℕ) × (map_remove two 1 ≡ some (m', is_some (map_get two 1)))
    × IsWf m'
    × (map_get m' 3 ≡ written {K = ℕ} 1 3 none (map_get two 3))
map_remove-IsWf_example = map_remove-IsWf two 1 3 two-IsWf

map_merge-IsWf_example :
    (m' : Map ℕ ℕ) × (map_merge two two ≡ some m')
    × IsWf m'
    × (map_get m' 3 ≡ or_else (map_get two 3) (map_get two 3))
map_merge-IsWf_example = map_merge-IsWf two two 3 two-IsWf two-IsWf

-- ===== src/RbTree/Tests.antt =====
-- src/c/data.c: the red-black tree on concrete trees with `uint64_t` keys.
use iotech_c_utils.Common.{
  ℕ, ◌+◌, ◌*◌, ◌^◌, ◌≤◌, ◌≡◌, refl, Bool, true, List, [], ◌∷◌, ◌++◌, some, All, length,
}
use iotech_c_utils.Order.{ui64_order}
use iotech_c_utils.Sorted.{Sorted, lookup, IsBelow, IsAbove}
use iotech_c_utils.RbTree.{
  Tree, leaf, node, black, red, goes_left, goes_right, colour, inorder, find_node, insert, plug,
}
use iotech_c_utils.RbTree.Balance.{IsRb, IsRbRoot}
use iotech_c_utils.RbTree.Insert.{insert-IsRbRoot}
use iotech_c_utils.RbTree.Height.{size}
use iotech_c_utils.RbTree.Depth.{insert-find_node}
use iotech_c_utils.RbTree.Search.{node_value, find_node-lookup, insert-inorder}
use iotech_c_utils.RbTree.Remove.{remove}
use iotech_c_utils.RbTree.Remove.Removal.{Removed, remove_lem}
use iotech_c_utils.RbTree.Remove.Unbalanced.{remove_unbalanced}

-- Keys 2, 4 and 6, all black.
abbrev three : Tree ℕ ℕ
three = node black (node black leaf 2 20 leaf) 4 40 (node black leaf 6 60 leaf)

three-IsRbRoot : IsRbRoot three
three-IsRbRoot = (refl, (refl, (refl, tt, tt), (refl, tt, tt)))

three-Sorted : Sorted (inorder three)
three-Sorted = ((refl, (refl, tt)), ((refl, tt), (tt, tt)))

insert_five :
    insert three 5 50
    ≡ some (
        node black
          (node black leaf 2 20 leaf)
          4
          40
          (node black (node red leaf 5 50 leaf) 6 60 leaf))
unfolding insert iotech_c_utils.RbTree.insert_balance
insert_five = refl

insert-IsRbRoot_example : (u : Tree ℕ ℕ) × (insert three 5 50 ≡ some u) × IsRbRoot u
insert-IsRbRoot_example = insert-IsRbRoot three 5 50 three-IsRbRoot

insert-find_node_example :
    (u : Tree ℕ ℕ) × (insert three 5 50 ≡ some u)
    × (2 ^ length (find_node u 6 []).1 ≤ (size u + 1) * (size u + 1))
insert-find_node_example = insert-find_node three 5 50 6 three-IsRbRoot

find_node-lookup_example : node_value (find_node three 6 []).0 ≡ lookup 6 (inorder three)
find_node-lookup_example = find_node-lookup three 6 [] three-Sorted

insert-inorder_example :
    (xs : List (ℕ × ℕ)) × (ys : List (ℕ × ℕ)) × (inorder three ≡ xs ++ ys)
    × (inorder (
          node black
            (node black leaf 2 20 leaf)
            4
            40
            (node black (node red leaf 5 50 leaf) 6 60 leaf))
        ≡ xs ++ ((5, 50) ∷ ys))
    × All (IsBelow 5) xs
    × All (IsAbove 5) ys
insert-inorder_example = insert-inorder three 5 50 three-Sorted refl insert_five

remove_lem_example :
    (u : Tree ℕ ℕ) × (found : Bool) × (remove three 4 ≡ some (u, found))
    × Removed 4 (inorder three) (inorder u) found
    × (colour u ≡ black)
remove_lem_example = remove_lem three 4 refl three-Sorted

find_two :
    find_node three 2 []
    ≡ (node black leaf 2 20 leaf, goes_left black 4 40 (node black leaf 6 60 leaf) ∷ [])
unfolding find_node
find_two = refl

-- What is left without the key 2.
abbrev without_two : Tree ℕ ℕ
without_two = node black leaf 4 40 (node black leaf 6 60 leaf)

remove_unbalanced_example : (remove three 2 ≡ some (without_two, true)) × (¬ IsRb without_two)
remove_unbalanced_example =
    remove_unbalanced three 2 2 20 (goes_left black 4 40 (node black leaf 6 60 leaf)) []
      three-IsRbRoot.1 find_two

-- ===== src/RbTree/Depth.antt =====
-- src/c/data.c, `iot_node_find`: the rounds of a search, which are the links it has followed.
use native.Mathlib.Nat.{le_trans, pow-le-pow_right}
use iotech_c_utils.Common.{◌+◌, ◌*◌, ◌^◌, ◌≤◌, ◌≡◌, arith, List, [], ◌∷◌, some, length, inl, inr}
use iotech_c_utils.Order.{KeyOrder, Sign-cases}
use iotech_c_utils.RbTree.{Tree, leaf, node, Frame, goes_left, goes_right, find_node, insert}
use iotech_c_utils.RbTree.Balance.{IsRbRoot}
use iotech_c_utils.RbTree.Insert.{insert-IsRbRoot}
use iotech_c_utils.RbTree.Height.{height, size, pow-height-le}

module _ {ℓ} {K V : Type ℓ} ⦃o : KeyOrder K⦄ where
  length-find_node :
      (t : Tree K V) (key : K) (path : List (Frame K V))
      → length (find_node t key path).1 ≤ length path + height t
  unfolding find_node
  length-find_node leaf key path = omega arith
  length-find_node (node c l k v r) key path = elim (Sign-cases (o.cmp k key)) [
    | inl e ↦
        rw (e, length, find_node)
          (omega (arith, length-find_node r key (goes_right c l k v ∷ path)))
    | inr (inl e) ↦ rw (e, length, find_node) (omega arith)
    | inr (inr e) ↦
        rw (e, length, find_node) (omega (arith, length-find_node l key (goes_left c k v r ∷ path)))
  ]

  -- Insertion into a valid tree with a black root leaves a tree in which `iot_node_find` of any key
  -- follows no more links than twice the logarithm to the base 2 of one more than the number of nodes.
  pub insert-find_node :
      (t : Tree K V) (key : K) (value : V) (sought : K)
      → IsRbRoot t
      → (u : Tree K V) × (insert t key value ≡ some u)
        × (2 ^ length (find_node u sought []).1 ≤ (size u + 1) * (size u + 1))
  insert-find_node t key value sought h =
      let (u, e, valid) = insert-IsRbRoot t key value h in
      let short : length (find_node u sought []).1 ≤ height u =
        omega (arith, length-find_node u sought []) in
      (u, e, le_trans (pow-le-pow_right (omega arith) short) (pow-height-le u valid))

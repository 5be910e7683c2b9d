-- ===== src/RbTree/Remove/Unbalanced.antt =====
-- src/c/data.c: `iot_node_remove` of a node without children.
use iotech_c_utils.Common.{◌≡◌, sym, ◌∙◌, arith, true, List, [], ◌∷◌, some}
use mathlib.Core.Path.{subst}
use iotech_c_utils.Order.{KeyOrder}
use iotech_c_utils.RbTree.{
  black, red, Tree, leaf, node, Frame, goes_left, goes_right, join, plug, find_node,
}
use iotech_c_utils.RbTree.Balance.{black_height, IsRb}
use iotech_c_utils.RbTree.Search.{find_node-plug}
use iotech_c_utils.RbTree.Remove.{unlink, rebalance, remove_node, remove}

module _ {ℓ} {K V : Type ℓ} where
  join-part : (t : Tree K V) (f : Frame K V) → IsRb (join t f) → IsRb t
  join-part t (goes_left black k v r) h = h.1
  join-part t (goes_left red k v r) h = h.3
  join-part t (goes_right black l k v) h = h.2
  join-part t (goes_right red l k v) h = h.4

  plug-part : (t : Tree K V) (path : List (Frame K V)) → IsRb (plug t path) → IsRb t
  plug-part t [] h = h
  plug-part t (f ∷ path) h = join-part t f (plug-part (join t f) path h)

  join_heights :
      (s t : Tree K V) (f : Frame K V)
      → IsRb (join s f)
      → IsRb (join t f)
      → black_height s ≡ black_height t
  join_heights s t (goes_left black k v r) h g = h.0 ∙ sym g.0
  join_heights s t (goes_left red k v r) h g = h.2 ∙ sym g.2
  join_heights s t (goes_right black l k v) h g = sym h.0 ∙ g.0
  join_heights s t (goes_right red l k v) h g = sym h.2 ∙ g.2

  plug_heights :
      (s t : Tree K V) (f : Frame K V) (path : List (Frame K V))
      → IsRb (plug s (f ∷ path))
      → IsRb (plug t (f ∷ path))
      → black_height s ≡ black_height t
  plug_heights s t f path h g =
      join_heights s t f (plug-part (join s f) path h) (plug-part (join t f) path g)

-- Wherever the search of a valid tree reaches a black node without children below the root,
-- removing its key succeeds and leaves a tree that breaks the red-black rules.
pub remove_unbalanced {ℓ} :
    {K V : Type ℓ} ⦃o : KeyOrder K⦄ (t : Tree K V) (key k : K) (v : V) (f : Frame K V)
    (path : List (Frame K V))
    → IsRb t
    → find_node t key [] ≡ (node black leaf k v leaf, f ∷ path)
    → (remove t key ≡ some (plug leaf (f ∷ path), true)) × (¬ IsRb (plug leaf (f ∷ path)))
unfolding remove remove_node unlink rebalance
remove_unbalanced t key k v f path h e =
    let whole : plug (node black leaf k v leaf) (f ∷ path) ≡ t =
      rw e at (find_node-plug t key []) in
    (
      rw e,
      λ g.
          ground (
            arith,
            plug_heights (node black leaf k v leaf) leaf f path (subst IsRb (sym whole) h) g,
          ),
    )

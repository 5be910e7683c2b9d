-- ===== src/RbTree/Insert.antt =====
-- src/c/data.c: `iot_node_insert` on a valid tree.
use iotech_c_utils.Common.{◌≡◌, refl, arith, List, [], ◌∷◌, Option, none, some, ◌⊎◌, inl, inr}
use iotech_c_utils.Order.{KeyOrder}
use iotech_c_utils.RbTree.{
  black, red, Tree, leaf, node, Frame, goes_left, goes_right, colour, descend, attach, insert,
}
use iotech_c_utils.RbTree.Balance.{
  black_height, IsRb, IsRbRoot, IsBlackAbove, IsRbPath, Ensures, plug-IsRb, insert_balance-IsRb,
}

module _ {ℓ} {K V : Type ℓ} ⦃o : KeyOrder K⦄ where
  -- A red node has a black parent.
  abbrev Hangs : Tree K V → List (Frame K V) → Type 0
  Hangs t path = (colour t ≡ black) ⊎ IsBlackAbove path

  descend-IsRbPath :
      (t : Tree K V) (key : K) (path : List (Frame K V))
      → IsRb t
      → IsRbPath (black_height t) path
      → Hangs t path
      → IsRbPath 0 (descend t key path)
  unfolding descend
  descend-IsRbPath leaf key path h p f = p
  descend-IsRbPath (node black l k v r) key path h p f = ground (
    arith,
    descend-IsRbPath l key (goes_left black k v r ∷ path),
    descend-IsRbPath r key (goes_right black l k v ∷ path),
  )
  descend-IsRbPath (node red l k v r) key path h p f = ground (
    arith,
    descend-IsRbPath l key (goes_left red k v r ∷ path),
    descend-IsRbPath r key (goes_right red l k v ∷ path),
  )

  attach-IsRb :
      (key : K) (value : V) (path : List (Frame K V))
      → IsRbPath 0 path
      → Ensures (attach key value path)
  unfolding attach
  attach-IsRb key value [] p = (refl, (refl, tt, tt))
  attach-IsRb key value (goes_left black k v r ∷ []) p = (
    refl,
    plug-IsRb (node red leaf key value leaf) (goes_left black k v r ∷ []) (refl, refl, refl, tt, tt)
        p (inr refl),
  )
  attach-IsRb key value (goes_right black l k v ∷ []) p = (
    refl,
    plug-IsRb (node red leaf key value leaf) (goes_right black l k v ∷ [])
        (refl, refl, refl, tt, tt) p (inr refl),
  )
  attach-IsRb key value (goes_left red k v r ∷ []) p = absurd p.3
  attach-IsRb key value (goes_right red l k v ∷ []) p = absurd p.3
  attach-IsRb key value (f ∷ g ∷ up) p =
      insert_balance-IsRb leaf key value leaf (f ∷ g ∷ up) (refl, refl, refl, tt, tt) p

  Ensures-some : (r : Option (Tree K V)) → Ensures r → (t : Tree K V) × (r ≡ some t) × IsRbRoot t
  Ensures-some none h = absurd h
  Ensures-some (some t) h = (t, refl, h)

  -- On a valid tree with a black root insertion follows no NULL link and gives such a tree again.
  pub insert-IsRbRoot :
      (t : Tree K V) (key : K) (value : V)
      → IsRbRoot t
      → (u : Tree K V) × (insert t key value ≡ some u) × IsRbRoot u
  unfolding insert
  insert-IsRbRoot t key value h =
      Ensures-some (insert t key value)
        (attach-IsRb key value (descend t key []) (descend-IsRbPath t key [] h.1 tt (inl h.0)))

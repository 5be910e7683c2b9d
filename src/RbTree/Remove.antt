-- ===== src/RbTree/Remove.antt =====
-- src/c/data.c, removal from the red-black tree: `iot_node_remove`, `iot_node_transplant`,
-- `iot_node_minimum` and `iot_node_remove_balance`, over a subtree and its path as in the parent.
pub mod Entries
pub mod Removal
pub mod Unbalanced
use iotech_c_utils.Common.{
  ℕ, zero, suc, ◌+◌, Bool, true, false, not, ◌&&◌, List, [], ◌∷◌, ◌++◌, Option, none, some,
  if◌then◌else◌, length,
}
use iotech_c_utils.Order.{KeyOrder}
use iotech_c_utils.RbTree.{
  Colour, black, red, Tree, leaf, node, Frame, goes_left, goes_right, is_red, colour, set_colour,
  join, plug, ror, rol, find_node, ◌>>=◌,
}

module _ {ℓ} {K V : Type ℓ} where
  abbrev pub is_black : Tree K V → Bool
  is_black t = not (is_red (colour t))

  -- IS_LEFT_BLACK and IS_RIGHT_BLACK: true of NULL too.
  abbrev pub left_black : Tree K V → Bool
  left_black leaf = true
  left_black (node c l k v r) = is_black l

  abbrev pub right_black : Tree K V → Bool
  right_black leaf = true
  right_black (node c l k v r) = is_black r

  abbrev pub set_left_colour : Tree K V → Colour → Tree K V
  set_left_colour leaf d = leaf
  set_left_colour (node c l k v r) d = node c (set_colour l d) k v r

  abbrev pub set_right_colour : Tree K V → Colour → Tree K V
  set_right_colour leaf d = leaf
  set_right_colour (node c l k v r) d = node c l k v (set_colour r d)

  -- Case 3.1 seen from the child: the red sibling turns black, the parent red, and the parent is
  -- rotated, so the child's path grows by the old sibling.
  abbrev pub red_sibling_left : Colour → K → V → Tree K V → List (Frame K V) → List (Frame K V)
  red_sibling_left c k v (node red a j w b) up = goes_left red k v a ∷ goes_left black j w b ∷ up
  red_sibling_left c k v s up = goes_left c k v s ∷ up

  abbrev pub red_sibling_right : Colour → Tree K V → K → V → List (Frame K V) → List (Frame K V)
  red_sibling_right c (node red a j w b) k v up = goes_right red b k v ∷ goes_right black a j w ∷ up
  red_sibling_right c s k v up = goes_right c s k v ∷ up

  -- Case 3.3, where it applies: the sibling is rotated.
  abbrev pub turn_sibling_left : Tree K V → Option (Tree K V)
  turn_sibling_left s =
      if right_black s then ror (set_colour (set_left_colour s black) red) else some s

  abbrev pub turn_sibling_right : Tree K V → Option (Tree K V)
  turn_sibling_right s =
      if left_black s then rol (set_colour (set_right_colour s black) red) else some s

  -- Cases 3.2 to 3.4 for a child on either side: the next `x` and its path. The empty path is the
  -- root, where cases 3.3 and 3.4 leave `x`.
  unfoldable pub black_sibling : Tree K V → List (Frame K V) → Option (Tree K V × List (Frame K V))
  unfolding rol ror
  black_sibling x [] = some (x, [])
  black_sibling x (goes_left c k v s ∷ up) =
      if left_black s && right_black s then some (node c x k v (set_colour s red), up) else (do
        s' ← turn_sibling_left s
        t ← rol (node black x k v (set_right_colour (set_colour s' c) black))
        some (plug t up, []))
  black_sibling x (goes_right c s k v ∷ up) =
      if right_black s && left_black s then some (node c (set_colour s red) k v x, up) else (do
        s' ← turn_sibling_right s
        t ← ror (node black (set_left_colour (set_colour s' c) black) k v x)
        some (plug t up, []))

  -- One round of the loop.
  unfoldable pub remove_step :
      Tree K V → Frame K V → List (Frame K V) → Option (Tree K V × List (Frame K V))
  unfolding black_sibling
  remove_step x (goes_left c k v s) up = black_sibling x (red_sibling_left c k v s up)
  remove_step x (goes_right c s k v) up = black_sibling x (red_sibling_right c s k v up)

  -- `iot_node_remove_balance`, with fuel for its rounds.
  pub remove_balance : ℕ → Tree K V → List (Frame K V) → Option (Tree K V)
  remove_balance zero x path = none
  remove_balance (suc n) x [] = some (set_colour x black)
  remove_balance (suc n) x (f ∷ up) =
      if is_red (colour x)
      then some (plug (set_colour x black) (f ∷ up))
      else (remove_step x f up >>= λ p. remove_balance n p.0 p.1)

  -- `iot_node_minimum`, with the parts of the node it reaches and its path.
  pub minimum : Tree K V → List (Frame K V) → Option (Colour × K × V × Tree K V × List (Frame K V))
  minimum leaf path = none
  minimum (node c leaf k v r) path = some (c, k, v, r, path)
  minimum (node c (node d a j w b) k v r) path = minimum (node d a j w b) (goes_left c k v r ∷ path)

  -- The node is unlinked: what takes the removed place, `x`, its path, and the colour `col`. With two
  -- children the successor `y` takes the place and the colour of the node.
  pub unlink :
      Colour
      → Tree K V
      → K
      → V
      → Tree K V
      → List (Frame K V)
      → Option (Tree K V × List (Frame K V) × Colour)
  unfolding minimum
  unlink c leaf k v r path = some (r, path, c)
  unlink c (node d a j w b) k v leaf path = some (node d a j w b, path, c)
  unlink c (node d a j w b) k v (node e l i u r) path = do
    (col, yk, yv, x, down) ← minimum (node e l i u r) []
    some (x, down ++ (goes_right c (node d a j w b) yk yv ∷ path), col)

  -- Only a node that is there is balanced: `if (x && (col == IOT_NODE_BLACK))`.
  pub rebalance : Tree K V → List (Frame K V) → Colour → Option (Tree K V)
  unfolding remove_balance
  rebalance leaf path col = some (plug leaf path)
  rebalance (node c l k v r) path col =
      if is_red col
      then some (plug (node c l k v r) path)
      else remove_balance (length path + 2) (node c l k v r) path

  pub remove_node : Tree K V → List (Frame K V) → Option (Tree K V)
  unfolding unlink rebalance
  remove_node leaf path = some (plug leaf path)
  remove_node (node c l k v r) path = do
    (x, place, col) ← unlink c l k v r path
    rebalance x place col

  -- `z != NULL`.
  abbrev pub is_node : Tree K V → Bool
  is_node leaf = false
  is_node (node c l k v r) = true

module _ {ℓ} {K V : Type ℓ} ⦃o : KeyOrder K⦄ where
  -- The tree that is left, and whether the key was there.
  unfoldable pub remove : Tree K V → K → Option (Tree K V × Bool)
  unfolding find_node remove_node
  remove t key = do
    let found = find_node t key []
    u ← remove_node found.0 found.1
    some (u, is_node found.0)

-- ===== src/RbTree.antt =====
-- src/c/data.c, the red-black tree behind `iot_data_map_t`: nodes, rotations, search, insertion.
-- A node with its parent link is a subtree and the path of frames up to the root, so following
-- `parent` takes a frame off and `map->tree` is the whole put together. `none` stands for the read
-- of a field through NULL.
pub mod Inorder
pub mod Search
pub mod Balance
pub mod Insert
pub mod Height
pub mod Depth
pub mod Remove
pub mod Root
mod Tests
use iotech_c_utils.Common.{
  Bool, true, false, List, [], ◌∷◌, ◌++◌, Option, none, some, if◌then◌else◌,
}
use iotech_c_utils.Order.{KeyOrder, lt, eq, gt}

pub data Colour : Type 0 where
  black red : Colour

pub data Tree {ℓ} (K V : Type ℓ) : Type ℓ where
  leaf : Tree K V
  node : Colour → Tree K V → K → V → Tree K V → Tree K V

-- A parent seen from its child: `goes_left` if the child is the left one, with the right child.
pub data Frame {ℓ} (K V : Type ℓ) : Type ℓ where
  goes_left : Colour → K → V → Tree K V → Frame K V
  goes_right : Colour → Tree K V → K → V → Frame K V

abbrev pub is_red : Colour → Bool
is_red black = false
is_red red = true

infixl 5 ◌>>=◌
abbrev pub ◌>>=◌ {ℓ κ} : {A : Type ℓ} {B : Type κ} → Option A → (A → Option B) → Option B
none >>= f = none
some a >>= f = f a

module _ {ℓ} {K V : Type ℓ} where
  -- `iot_node_colour`: NULL is black.
  abbrev pub colour : Tree K V → Colour
  colour leaf = black
  colour (node c l k v r) = c

  abbrev pub set_colour : Tree K V → Colour → Tree K V
  set_colour leaf c = leaf
  set_colour (node _ l k v r) c = node c l k v r

  abbrev pub frame_colour : Frame K V → Colour
  frame_colour (goes_left c k v r) = c
  frame_colour (goes_right c l k v) = c

  abbrev pub join : Tree K V → Frame K V → Tree K V
  join t (goes_left c k v r) = node c t k v r
  join t (goes_right c l k v) = node c l k v t

  abbrev pub plug : Tree K V → List (Frame K V) → Tree K V
  plug t [] = t
  plug t (f ∷ path) = plug (join t f) path

  -- The entries in key order.
  abbrev pub inorder : Tree K V → List (K × V)
  inorder leaf = []
  inorder (node c l k v r) = inorder l ++ ((k, v) ∷ inorder r)

  unfoldable pub ror : Tree K V → Option (Tree K V)
  ror leaf = none
  ror (node c leaf k v r) = none
  ror (node c (node d a j w b) k v r) = some (node d a j w (node c b k v r))

  unfoldable pub rol : Tree K V → Option (Tree K V)
  rol leaf = none
  rol (node c l k v leaf) = none
  rol (node c l k v (node d a j w b)) = some (node d (node c l k v a) j w b)

  -- IS_LEFT (k) with the rotation of case 3.2.2 under it, and its mirror.
  unfoldable pub straighten_right : Tree K V → Frame K V → Option (Tree K V)
  unfolding ror
  straighten_right k (goes_left c j w r) = ror (node c k j w r)
  straighten_right k (goes_right c l j w) = some (node c l j w k)

  unfoldable pub straighten_left : Tree K V → Frame K V → Option (Tree K V)
  unfolding rol
  straighten_left k (goes_right c l j w) = rol (node c l j w k)
  straighten_left k (goes_left c j w r) = some (node c k j w r)

  -- Case 3.2 under a grandparent: the parent turns black, the grandparent red, and it is rotated.
  unfoldable pub rotate_up : Tree K V → Frame K V → Frame K V → Option (Tree K V)
  unfolding straighten_right straighten_left rol ror
  rotate_up k f (goes_right c u j w) = do
    p ← straighten_right k f
    rol (node red u j w (set_colour p black))
  rotate_up k f (goes_left c j w u) = do
    p ← straighten_left k f
    ror (node red (set_colour p black) j w u)

  abbrev pub uncle : Frame K V → Tree K V
  uncle (goes_right c u j w) = u
  uncle (goes_left c j w u) = u

  -- Case 3.1: parent and uncle turn black, the grandparent red.
  abbrev pub recolour : Tree K V → Frame K V → Frame K V → Tree K V
  recolour k f (goes_right c u j w) =
      node red (set_colour u black) j w (set_colour (join k f) black)
  recolour k f (goes_left c j w u) = node red (set_colour (join k f) black) j w (set_colour u black)

  -- The root turns black where the loop ends.
  abbrev pub finish : Tree K V → List (Frame K V) → Option (Tree K V)
  finish k path = some (set_colour (plug k path) black)

  -- The loop goes on from the grandparent after case 3.1; after a rotation the parent is black, and
  -- it ends. `k == map->tree` and a NULL parent are both the empty path.
  pub insert_balance : Tree K V → List (Frame K V) → Option (Tree K V)
  insert_balance k [] = finish k []
  insert_balance k (f ∷ []) = if is_red (frame_colour f) then none else finish k (f ∷ [])
  insert_balance k (f ∷ g ∷ up) =
      let again = insert_balance (recolour k f g) up in
      let turned = rotate_up k f g >>= (λ t. finish t up) in
      if is_red (frame_colour f)
      then (if is_red (colour (uncle g)) then again else turned)
      else finish k (f ∷ g ∷ up)

module _ {ℓ} {K V : Type ℓ} ⦃o : KeyOrder K⦄ where
  -- `iot_node_find`: the node reached, as a subtree and its path; a leaf if there is none.
  unfoldable pub find_node : Tree K V → K → List (Frame K V) → Tree K V × List (Frame K V)
  find_node leaf key path = (leaf, path)
  find_node (node c l k v r) key path =
      let here : Tree K V × List (Frame K V) = (node c l k v r, path) in
      let left = find_node l key (goes_left c k v r ∷ path) in
      let right = find_node r key (goes_right c l k v ∷ path) in
      elim (o.cmp k key) [ eq ↦ here | gt ↦ left | lt ↦ right ]

  -- The descent of `iot_node_insert`, to the place of the new node.
  pub descend : Tree K V → K → List (Frame K V) → List (Frame K V)
  descend leaf key path = path
  descend (node c l k v r) key path =
      let left = descend l key (goes_left c k v r ∷ path) in
      let right = descend r key (goes_right c l k v ∷ path) in
      elim (o.cmp key k) [ lt ↦ left | _ ↦ right ]

  -- What follows the descent: no balancing of a root or of a child of the root.
  pub attach : K → V → List (Frame K V) → Option (Tree K V)
  attach key value [] = some (node black leaf key value leaf)
  attach key value (f ∷ []) = some (plug (node red leaf key value leaf) (f ∷ []))
  attach key value (f ∷ g ∷ up) = insert_balance (node red leaf key value leaf) (f ∷ g ∷ up)

  unfoldable pub insert : Tree K V → K → V → Option (Tree K V)
  unfolding descend attach
  insert t key value = attach key value (descend t key [])

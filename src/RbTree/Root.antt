-- ===== src/RbTree/Root.antt =====
-- src/c/data.c: insertion and removal at the root, in a tree that is balanced or not.
use iotech_c_utils.Common.{
  ◌≡◌, refl, ap, ◌∙◌, arith, List, [], ◌∷◌, Option, some, Bool-cases, inl, inr,
}
use iotech_c_utils.Order.{KeyOrder}
use iotech_c_utils.RbTree.{
  Colour, black, red, Tree, leaf, node, Frame, goes_left, goes_right, is_red, colour, set_colour,
  frame_colour, join, plug, rotate_up, uncle, recolour, finish, insert_balance, descend, attach,
  insert,
}

module _ {ℓ} {K V : Type ℓ} where
  pub colour-set_black : (t : Tree K V) → colour (set_colour t black) ≡ black
  colour-set_black leaf = refl
  colour-set_black (node c l k v r) = refl

  -- Only the colour of a subtree can matter to that of the root.
  pub colour-plug :
      (path : List (Frame K V)) (s t : Tree K V)
      → colour s ≡ colour t
      → colour (plug s path) ≡ colour (plug t path)
  colour-plug [] s t e = e
  colour-plug (goes_left c k v r ∷ path) s t e =
      colour-plug path (node c s k v r) (node c t k v r) refl
  colour-plug (goes_right c l k v ∷ path) s t e =
      colour-plug path (node c l k v s) (node c l k v t) refl

  -- Above a first frame nothing of the subtree matters.
  pub colour-plug_above :
      (f : Frame K V) (path : List (Frame K V)) (s t : Tree K V)
      → colour (plug s (f ∷ path)) ≡ colour (plug t (f ∷ path))
  colour-plug_above (goes_left c k v r) path s t =
      colour-plug path (node c s k v r) (node c t k v r) refl
  colour-plug_above (goes_right c l k v) path s t =
      colour-plug path (node c l k v s) (node c l k v t) refl

  -- A black subtree leaves a black root as it is.
  pub colour-plug_black :
      (path : List (Frame K V)) (s t : Tree K V)
      → colour t ≡ black
      → colour (plug s path) ≡ black
      → colour (plug t path) ≡ black
  colour-plug_black [] s t e h = e
  colour-plug_black (f ∷ path) s t e h = colour-plug_above f path t s ∙ h

  abbrev pub EndsBlack : Option (Tree K V) → Type ℓ
  EndsBlack r = (u : Tree K V) × (r ≡ some u) × (colour u ≡ black)

  finish-EndsBlack : (t : Tree K V) (path : List (Frame K V)) → EndsBlack (finish t path)
  finish-EndsBlack t path = (set_colour (plug t path) black, refl, colour-set_black (plug t path))

  rotate_up-some :
      (c : Colour) (a : Tree K V) (x : K) (y : V) (b : Tree K V) (f g : Frame K V)
      → (t : Tree K V) × (rotate_up (node c a x y b) f g ≡ some t)
  unfolding rotate_up
  rotate_up-some c a x y b (goes_left d j w s) (goes_left e i u r) = (_, refl)
  rotate_up-some c a x y b (goes_left d j w s) (goes_right e l i u) = (_, refl)
  rotate_up-some c a x y b (goes_right d s j w) (goes_left e i u r) = (_, refl)
  rotate_up-some c a x y b (goes_right d s j w) (goes_right e l i u) = (_, refl)

  recolour-node :
      (k : Tree K V) (f g : Frame K V)
      → (a : Tree K V) × (x : K) × (y : V) × (b : Tree K V) × (recolour k f g ≡ node red a x y b)
  recolour-node k f (goes_left e i u r) =
      (set_colour (join k f) black, i, u, set_colour r black, refl)
  recolour-node k f (goes_right e l i u) =
      (set_colour l black, i, u, set_colour (join k f) black, refl)

  insert_balance-EndsBlack :
      (c : Colour) (a : Tree K V) (x : K) (y : V) (b : Tree K V) (path : List (Frame K V))
      → colour (plug leaf path) ≡ black
      → EndsBlack (insert_balance (node c a x y b) path)
  unfolding insert_balance
  insert_balance-EndsBlack c a x y b [] h = finish-EndsBlack (node c a x y b) []
  insert_balance-EndsBlack c a x y b (goes_left black k v r ∷ []) h =
      finish-EndsBlack (node c a x y b) (goes_left black k v r ∷ [])
  insert_balance-EndsBlack c a x y b (goes_right black l k v ∷ []) h =
      finish-EndsBlack (node c a x y b) (goes_right black l k v ∷ [])
  insert_balance-EndsBlack c a x y b (goes_left red k v r ∷ []) h = cc
  insert_balance-EndsBlack c a x y b (goes_right red l k v ∷ []) h = cc
  insert_balance-EndsBlack c a x y b (f ∷ g ∷ up) h = elim (Bool-cases (is_red (frame_colour f))) [
    | inr e ↦ rw e (finish-EndsBlack (node c a x y b) (f ∷ g ∷ up))
    | inl e ↦ elim (Bool-cases (is_red (colour (uncle g)))) [
      | inr d ↦ let (t, q) = rotate_up-some c a x y b f g in rw (e, d, q) (finish-EndsBlack t up)
      | inl d ↦
          let (a', x', y', b', q) = recolour-node (node c a x y b) f g in
          rw (e, d, q)
            (insert_balance-EndsBlack red a' x' y' b' up
              (colour-plug_black up (join (join leaf f) g) leaf refl h))
    ]
  ]

module _ {ℓ} {K V : Type ℓ} ⦃o : KeyOrder K⦄ where
  descend-plug :
      (t : Tree K V) (key : K) (path : List (Frame K V))
      → plug leaf (descend t key path) ≡ plug t path
  unfolding descend
  descend-plug leaf key path = refl
  descend-plug (node c l k v r) key path = ground (
    arith,
    descend-plug l key (goes_left c k v r ∷ path),
    descend-plug r key (goes_right c l k v ∷ path),
  )

  attach-EndsBlack :
      (key : K) (value : V) (path : List (Frame K V))
      → colour (plug leaf path) ≡ black
      → EndsBlack (attach key value path)
  unfolding attach
  attach-EndsBlack key value [] h = (node black leaf key value leaf, refl, refl)
  attach-EndsBlack key value (f ∷ []) h = (
    join (node red leaf key value leaf) f,
    refl,
    colour-plug_above f [] (node red leaf key value leaf) leaf ∙ h,
  )
  attach-EndsBlack key value (f ∷ g ∷ up) h =
      insert_balance-EndsBlack red leaf key value leaf (f ∷ g ∷ up) h

  -- On every tree with a black root, balanced or not, insertion follows no NULL link, and it leaves
  -- the root black.
  pub insert-EndsBlack :
      (t : Tree K V) (key : K) (value : V) → colour t ≡ black → EndsBlack (insert t key value)
  unfolding insert
  insert-EndsBlack t key value h =
      attach-EndsBlack key value (descend t key []) (ap colour (descend-plug t key []) ∙ h)

-- ===== src/RbTree/Inorder.antt =====
-- src/c/data.c: rotations and balancing, and the entries in order.
use iotech_c_utils.Common.{
  ◌≡◌, refl, ◌∙◌, arith, List, [], ◌∷◌, ◌++◌, some, append_assoc, append-nil, Option-cases, inl,
  inr,
}
use iotech_c_utils.RbTree.{
  Colour, black, red, Tree, leaf, node, Frame, goes_left, goes_right, set_colour, join, plug,
  inorder, ror, rol, straighten_right, straighten_left, rotate_up, recolour, finish, insert_balance,
  ◌>>=◌,
}

module _ {ℓ} {K V : Type ℓ} where
  -- The entries left and right of the subtree at the end of a path.
  abbrev pub before : List (Frame K V) → List (K × V)
  before [] = []
  before (goes_left c k v r ∷ path) = before path
  before (goes_right c l k v ∷ path) = before path ++ (inorder l ++ ((k, v) ∷ []))

  abbrev pub after : List (Frame K V) → List (K × V)
  after [] = []
  after (goes_left c k v r ∷ path) = (k, v) ∷ (inorder r ++ after path)
  after (goes_right c l k v ∷ path) = after path

  pub inorder-plug :
      (path : List (Frame K V)) (t : Tree K V)
      → inorder (plug t path) ≡ before path ++ (inorder t ++ after path)
  inorder-plug [] t = simp append-nil
  inorder-plug (goes_left c k v r ∷ path) t = simp (inorder-plug path, append_assoc)
  inorder-plug (goes_right c l k v ∷ path) t = simp (inorder-plug path, append_assoc)

  pub inorder-set_colour : (t : Tree K V) (c : Colour) → inorder (set_colour t c) ≡ inorder t
  inorder-set_colour leaf c = refl
  inorder-set_colour (node d l k v r) c = refl

  pub inorder-ror : (t : Tree K V) {u : Tree K V} → ror t ≡ some u → inorder u ≡ inorder t
  unfolding ror
  inorder-ror leaf e = cc
  inorder-ror (node c leaf k v r) e = cc
  inorder-ror (node c (node d a j w b) k v r) e =
      ground (arith, append_assoc (inorder a) ((j, w) ∷ inorder b) ((k, v) ∷ inorder r))

  pub inorder-rol : (t : Tree K V) {u : Tree K V} → rol t ≡ some u → inorder u ≡ inorder t
  unfolding rol
  inorder-rol leaf e = cc
  inorder-rol (node c l k v leaf) e = cc
  inorder-rol (node c l k v (node d a j w b)) e =
      ground (arith, append_assoc (inorder l) ((k, v) ∷ inorder a) ((j, w) ∷ inorder b))

  inorder-straighten_right :
      (k : Tree K V) (f : Frame K V) {t : Tree K V}
      → straighten_right k f ≡ some t
      → inorder t ≡ inorder (join k f)
  unfolding straighten_right
  inorder-straighten_right k (goes_left c j w r) e = inorder-ror (node c k j w r) e
  inorder-straighten_right k (goes_right c l j w) e = ground arith

  inorder-straighten_left :
      (k : Tree K V) (f : Frame K V) {t : Tree K V}
      → straighten_left k f ≡ some t
      → inorder t ≡ inorder (join k f)
  unfolding straighten_left
  inorder-straighten_left k (goes_right c l j w) e = inorder-rol (node c l j w k) e
  inorder-straighten_left k (goes_left c j w r) e = ground arith

  pub inorder-rotate_up :
      (k : Tree K V) (f g : Frame K V) {t : Tree K V}
      → rotate_up k f g ≡ some t
      → inorder t ≡ inorder (join (join k f) g)
  unfolding rotate_up
  inorder-rotate_up k f (goes_right c u j w) {t} e = elim (Option-cases (straighten_right k f)) [
    | inl q ↦ cc (q, e)
    | inr (p, q) ↦
        inorder-rol (node red u j w (set_colour p black)) (rw q at e)
        ∙ rw (inorder-set_colour p black, inorder-straighten_right k f q)
  ]
  inorder-rotate_up k f (goes_left c j w u) {t} e = elim (Option-cases (straighten_left k f)) [
    | inl q ↦ cc (q, e)
    | inr (p, q) ↦
        inorder-ror (node red (set_colour p black) j w u) (rw q at e)
        ∙ rw (inorder-set_colour p black, inorder-straighten_left k f q)
  ]

  inorder-recolour :
      (k : Tree K V) (f g : Frame K V) → inorder (recolour k f g) ≡ inorder (join (join k f) g)
  inorder-recolour k f (goes_right c u j w) =
      rw (inorder-set_colour u black, inorder-set_colour (join k f) black)
  inorder-recolour k f (goes_left c j w u) =
      rw (inorder-set_colour u black, inorder-set_colour (join k f) black)

  pub inorder-plug_congr :
      (path : List (Frame K V)) (s t : Tree K V)
      → inorder s ≡ inorder t
      → inorder (plug s path) ≡ inorder (plug t path)
  inorder-plug_congr path s t e = rw (inorder-plug path s, inorder-plug path t, e)

  inorder-turned :
      (k : Tree K V) (f g : Frame K V) (up : List (Frame K V)) {t : Tree K V}
      → (rotate_up k f g >>= (λ s. finish s up)) ≡ some t
      → inorder t ≡ inorder (plug k (f ∷ g ∷ up))
  inorder-turned k f g up {t} e = elim (Option-cases (rotate_up k f g)) [
    | inl q ↦ cc (q, e)
    | inr (p, q) ↦
        let e' : some (set_colour (plug p up) black) ≡ some t = rw q at e in
        let e'' : t ≡ set_colour (plug p up) black = cc in
        rw (e'', inorder-set_colour (plug p up) black)
          (inorder-plug_congr up p (join (join k f) g) (inorder-rotate_up k f g q))
  ]

  -- Balancing keeps the entries and their order.
  pub inorder-insert_balance :
      (k : Tree K V) (path : List (Frame K V)) {t : Tree K V}
      → insert_balance k path ≡ some t
      → inorder t ≡ inorder (plug k path)
  unfolding insert_balance
  inorder-insert_balance k [] e = ground (arith, inorder-set_colour k black)
  inorder-insert_balance k (f ∷ []) e = ground (arith, inorder-set_colour (join k f) black)
  inorder-insert_balance k (f ∷ g ∷ up) {t} e = ground (
    arith,
    inorder-insert_balance (recolour k f g) up {t = t},
    inorder-plug_congr up (recolour k f g) (join (join k f) g) (inorder-recolour k f g),
    inorder-turned k f g up {t = t},
    inorder-set_colour (plug (join (join k f) g) up) black,
  )

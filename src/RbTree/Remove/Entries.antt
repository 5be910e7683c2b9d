-- ===== src/RbTree/Remove/Entries.antt =====
-- src/c/data.c: the entries under removal and its balancing.
use mathlib.Core.Path.{subst}
use iotech_c_utils.Common.{
  ℕ, zero, suc, ◌<◌, ◌≤◌, ◌≡◌, refl, sym, ◌∙◌, arith, false, ◌&&◌, List, [], ◌∷◌, Option, some,
  length, append_assoc, Bool-cases, ◌⊎◌, inl, inr,
}
use iotech_c_utils.RbTree.{
  Colour, black, red, Tree, leaf, node, Frame, goes_left, goes_right, is_red, colour, set_colour,
  plug, inorder, ror, rol,
}
use iotech_c_utils.RbTree.Inorder.{inorder-plug_congr, inorder-set_colour}
use iotech_c_utils.RbTree.Root.{colour-plug_black, colour-plug_above, colour-set_black}
use iotech_c_utils.RbTree.Remove.{
  left_black, right_black, set_left_colour, set_right_colour, red_sibling_left, red_sibling_right,
  turn_sibling_left, turn_sibling_right, black_sibling, remove_step, remove_balance,
}

module _ {ℓ} {K V : Type ℓ} where
  plug-red_sibling_left :
      (x : Tree K V) (c : Colour) (k : K) (v : V) (s : Tree K V) (up : List (Frame K V))
      → inorder (plug x (red_sibling_left c k v s up)) ≡ inorder (plug x (goes_left c k v s ∷ up))
  plug-red_sibling_left x c k v leaf up = refl
  plug-red_sibling_left x c k v (node black a j w b) up = refl
  plug-red_sibling_left x c k v (node red a j w b) up =
      inorder-plug_congr up (node black (node red x k v a) j w b) (node c x k v (node red a j w b))
        (append_assoc (inorder x) ((k, v) ∷ inorder a) ((j, w) ∷ inorder b))

  plug-red_sibling_right :
      (x : Tree K V) (c : Colour) (s : Tree K V) (k : K) (v : V) (up : List (Frame K V))
      → inorder (plug x (red_sibling_right c s k v up)) ≡ inorder (plug x (goes_right c s k v ∷ up))
  plug-red_sibling_right x c leaf k v up = refl
  plug-red_sibling_right x c (node black a j w b) k v up = refl
  plug-red_sibling_right x c (node red a j w b) k v up =
      inorder-plug_congr up (node black a j w (node red b k v x)) (node c (node red a j w b) k v x)
        (sym (append_assoc (inorder a) ((j, w) ∷ inorder b) ((k, v) ∷ inorder x)))

  inorder-set_left_colour : (t : Tree K V) (c : Colour) → inorder (set_left_colour t c) ≡ inorder t
  inorder-set_left_colour leaf c = refl
  inorder-set_left_colour (node d l k v r) c = rw (inorder-set_colour l c)

  inorder-set_right_colour :
      (t : Tree K V) (c : Colour) → inorder (set_right_colour t c) ≡ inorder t
  inorder-set_right_colour leaf c = refl
  inorder-set_right_colour (node d l k v r) c = rw (inorder-set_colour r c)

  -- The sibling of case 3.4: it is there whenever case 3.2 does not apply.
  abbrev IsTurned : Tree K V → Option (Tree K V) → Type ℓ
  IsTurned s r =
      (c : Colour) × (a : Tree K V) × (j : K) × (w : V) × (b : Tree K V) × (r
        ≡ some (node c a j w b))
      × (inorder (node c a j w b) ≡ inorder s)

  turn_sibling_left_some :
      (s : Tree K V) → (left_black s && right_black s) ≡ false → IsTurned s (turn_sibling_left s)
  turn_sibling_left_some leaf h = cc
  turn_sibling_left_some (node c l k v (node red a j w b)) h =
      (c, l, k, v, node red a j w b, refl, refl)
  turn_sibling_left_some (node c (node red a j w b) k v leaf) h = (
    black,
    a,
    j,
    w,
    node red b k v leaf,
    unfold ror in refl,
    sym (append_assoc (inorder a) ((j, w) ∷ inorder b) ((k, v) ∷ [])),
  )
  turn_sibling_left_some (node c (node red a j w b) k v (node black d i u e)) h = (
    black,
    a,
    j,
    w,
    node red b k v (node black d i u e),
    unfold ror in refl,
    sym (append_assoc (inorder a) ((j, w) ∷ inorder b) ((k, v) ∷ inorder (node black d i u e))),
  )
  turn_sibling_left_some (node c leaf k v leaf) h = cc
  turn_sibling_left_some (node c leaf k v (node black d i u e)) h = cc
  turn_sibling_left_some (node c (node black a j w b) k v leaf) h = cc
  turn_sibling_left_some (node c (node black a j w b) k v (node black d i u e)) h = cc

  turn_sibling_right_some :
      (s : Tree K V) → (right_black s && left_black s) ≡ false → IsTurned s (turn_sibling_right s)
  turn_sibling_right_some leaf h = cc
  turn_sibling_right_some (node c (node red a j w b) k v r) h =
      (c, node red a j w b, k, v, r, refl, refl)
  turn_sibling_right_some (node c leaf k v (node red a j w b)) h =
      (black, node red leaf k v a, j, w, b, unfold rol in refl, refl)
  turn_sibling_right_some (node c (node black d i u e) k v (node red a j w b)) h = (
    black,
    node red (node black d i u e) k v a,
    j,
    w,
    b,
    unfold rol in refl,
    append_assoc (inorder (node black d i u e)) ((k, v) ∷ inorder a) ((j, w) ∷ inorder b),
  )
  turn_sibling_right_some (node c leaf k v leaf) h = cc
  turn_sibling_right_some (node c leaf k v (node black d i u e)) h = cc
  turn_sibling_right_some (node c (node black a j w b) k v leaf) h = cc
  turn_sibling_right_some (node c (node black a j w b) k v (node black d i u e)) h = cc

  -- A round gives a place with the same entries around it: the root, or the parent, whose colour
  -- is `c` and whose path is `above`.
  abbrev Moves :
      List (K × V) → Colour → List (Frame K V) → Option (Tree K V × List (Frame K V)) → Type ℓ
  Moves es c above r =
      (y : Tree K V) × (up : List (Frame K V)) × (r ≡ some (y, up))
      × (inorder (plug y up) ≡ es)
      × ((up ≡ []) ⊎ ((colour y ≡ c) × (up ≡ above)))

  black_sibling_left :
      (x : Tree K V) (c : Colour) (k : K) (v : V) (s : Tree K V) (up : List (Frame K V))
      → Moves
          (inorder (plug x (goes_left c k v s ∷ up)))
          c
          up
          (black_sibling x (goes_left c k v s ∷ up))
  unfolding black_sibling
  black_sibling_left x c k v s up = elim (Bool-cases (left_black s && right_black s)) [
    | inl e ↦ (
      node c x k v (set_colour s red),
      up,
      rw e,
      inorder-plug_congr up (node c x k v (set_colour s red)) (node c x k v s)
          (rw (inorder-set_colour s red)),
      inr (refl, refl),
    )
    | inr e ↦
        let (d, a, j, w, b, q, es) = turn_sibling_left_some s e in
        let t : Tree K V = node c (node black x k v a) j w (set_colour b black) in
        (
          plug t up,
          [],
          rw (e, q),
          inorder-plug_congr up t (node c x k v s) (
              rw (inorder-set_colour b black, ← es)
                (append_assoc (inorder x) ((k, v) ∷ inorder a) ((j, w) ∷ inorder b))),
          inl refl,
        )
  ]

  black_sibling_right :
      (x : Tree K V) (c : Colour) (s : Tree K V) (k : K) (v : V) (up : List (Frame K V))
      → Moves
          (inorder (plug x (goes_right c s k v ∷ up)))
          c
          up
          (black_sibling x (goes_right c s k v ∷ up))
  unfolding black_sibling
  black_sibling_right x c s k v up = elim (Bool-cases (right_black s && left_black s)) [
    | inl e ↦ (
      node c (set_colour s red) k v x,
      up,
      rw e,
      inorder-plug_congr up (node c (set_colour s red) k v x) (node c s k v x)
          (rw (inorder-set_colour s red)),
      inr (refl, refl),
    )
    | inr e ↦
        let (d, a, j, w, b, q, es) = turn_sibling_right_some s e in
        let t : Tree K V = node c (set_colour a black) j w (node black b k v x) in
        (
          plug t up,
          [],
          rw (e, q),
          inorder-plug_congr up t (node c s k v x) (
              rw (inorder-set_colour a black, ← es)
                (sym (append_assoc (inorder a) ((j, w) ∷ inorder b) ((k, v) ∷ inorder x)))),
          inl refl,
        )
  ]

  -- A round of the loop keeps the entries and the black root, and ends at a red node or at a
  -- shorter path.
  abbrev Steps : List (K × V) → ℕ → Option (Tree K V × List (Frame K V)) → Type ℓ
  Steps es n r =
      (y : Tree K V) × (up : List (Frame K V)) × (r ≡ some (y, up))
      × (inorder (plug y up) ≡ es)
      × ((colour y ≡ red) ⊎ (length up ≤ n))
      × (colour (plug leaf up) ≡ black)

  Moves-red :
      {es : List (K × V)} {above : List (Frame K V)} (n : ℕ)
      {r : Option (Tree K V × List (Frame K V))}
      → colour (plug leaf above) ≡ black
      → Moves es red above r
      → Steps es n r
  Moves-red n b (y, up, e, es, inl h) = (y, up, e, es, inr (rw h (omega arith)), rw h)
  Moves-red n b (y, up, e, es, inr h) = (y, up, e, es, inl h.0, rw (h.1) b)

  Moves-short :
      {es : List (K × V)} {c : Colour} (above : List (Frame K V))
      {r : Option (Tree K V × List (Frame K V))}
      → colour (plug leaf above) ≡ black
      → Moves es c above r
      → Steps es (length above) r
  Moves-short above b (y, up, e, es, inl h) = (y, up, e, es, inr (rw h (omega arith)), rw h)
  Moves-short above b (y, up, e, es, inr h) =
      (y, up, e, es, inr (rw (h.1) (omega arith)), rw (h.1) b)

  remove_step_lem :
      (x : Tree K V) (f : Frame K V) (up : List (Frame K V))
      → colour (plug leaf (f ∷ up)) ≡ black
      → Steps (inorder (plug x (f ∷ up))) (length up) (remove_step x f up)
  unfolding remove_step
  remove_step_lem x (goes_left c k v leaf) up h =
      Moves-short up (colour-plug_black up (node c leaf k v leaf) leaf refl h)
        (black_sibling_left x c k v leaf up)
  remove_step_lem x (goes_left c k v (node black a j w b)) up h =
      Moves-short up (colour-plug_black up (node c leaf k v (node black a j w b)) leaf refl h)
        (black_sibling_left x c k v (node black a j w b) up)
  remove_step_lem x (goes_left c k v (node red a j w b)) up h =
      subst
        (λ es.
          Steps es (length up) (black_sibling x (red_sibling_left c k v (node red a j w b) up)))
        (plug-red_sibling_left x c k v (node red a j w b) up)
        (Moves-red (length up)
          (colour-plug_black up (node c leaf k v (node red a j w b)) (node black leaf j w b) refl h)
          (black_sibling_left x red k v a (goes_left black j w b ∷ up)))
  remove_step_lem x (goes_right c leaf k v) up h =
      Moves-short up (colour-plug_black up (node c leaf k v leaf) leaf refl h)
        (black_sibling_right x c leaf k v up)
  remove_step_lem x (goes_right c (node black a j w b) k v) up h =
      Moves-short up (colour-plug_black up (node c (node black a j w b) k v leaf) leaf refl h)
        (black_sibling_right x c (node black a j w b) k v up)
  remove_step_lem x (goes_right c (node red a j w b) k v) up h =
      subst
        (λ es.
          Steps es (length up) (black_sibling x (red_sibling_right c (node red a j w b) k v up)))
        (plug-red_sibling_right x c (node red a j w b) k v up)
        (Moves-red (length up)
          (colour-plug_black up (node c (node red a j w b) k v leaf) (node black a j w leaf) refl h)
          (black_sibling_right x red b k v (goes_right black a j w ∷ up)))

  stop_at_red :
      (x : Tree K V) (f : Frame K V) (up : List (Frame K V))
      → colour (plug leaf (f ∷ up)) ≡ black
      → let u = plug (set_colour x black) (f ∷ up) in
        (inorder u ≡ inorder (plug x (f ∷ up))) × (colour u ≡ black)
  stop_at_red x f up b = (
    inorder-plug_congr (f ∷ up) (set_colour x black) x (inorder-set_colour x black),
    colour-plug_above f up (set_colour x black) leaf ∙ b,
  )

  -- With this much fuel the loop ends, the entries are those it started with, and the root is black.
  pub remove_balance_lem :
      (n : ℕ) (x : Tree K V) (path : List (Frame K V))
      → (colour x ≡ red) ⊎ (length path < n)
      → colour (plug leaf path) ≡ black
      → (u : Tree K V) × (remove_balance (suc n) x path ≡ some u)
        × (inorder u ≡ inorder (plug x path))
        × (colour u ≡ black)
  unfolding remove_balance
  remove_balance_lem n x [] h b =
      (set_colour x black, refl, inorder-set_colour x black, colour-set_black x)
  remove_balance_lem n x (f ∷ up) (inl h) b =
      let (es, b') = stop_at_red x f up b in (plug (set_colour x black) (f ∷ up), rw h, es, b')
  remove_balance_lem zero x (f ∷ up) (inr h) b = absurd (omega arith)
  remove_balance_lem (suc n) x (f ∷ up) (inr h) b = elim (Bool-cases (is_red (colour x))) [
    | inl e ↦
        let (es, b') = stop_at_red x f up b in (plug (set_colour x black) (f ∷ up), rw e, es, b')
    | inr e ↦
        let (y, up', q, es, m, b') = remove_step_lem x f up b in
        let (u, r, es', b'') = remove_balance_lem n y up' (next m) b' in
        (u, rw (e, q) r, es' ∙ es, b'')
  ]
    where
      next : {c : Colour} {l : ℕ} → (c ≡ red) ⊎ (l ≤ length up) → (c ≡ red) ⊎ (l < n)
      next (inl e) = inl e
      next (inr e) = inr (omega arith)

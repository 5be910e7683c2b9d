-- ===== src/RbTree/Remove/Removal.antt =====
-- src/c/data.c: `iot_node_remove` as a whole, on the sorted entries.
use mathlib.Core.Path.{subst}
use iotech_c_utils.Common.{
  suc, ◌+◌, ◌≡◌, refl, sym, ap, ◌∙◌, arith, Bool, true, false, List, [], ◌∷◌, ◌++◌, Option, none,
  some, length, append_assoc, append-nil, ◌⊎◌, inl, inr,
}
use iotech_c_utils.Order.{KeyOrder}
use iotech_c_utils.Sorted.{Sorted, lookup}
use iotech_c_utils.RbTree.{
  Colour, black, red, colour, join, Tree, leaf, node, Frame, goes_left, goes_right, plug, inorder,
  find_node,
}
use iotech_c_utils.RbTree.Inorder.{before, after, inorder-plug}
use iotech_c_utils.RbTree.Search.{
  node_value, find_node-lookup, find_node-plug, find_node-HasKey, HasKey,
}
use iotech_c_utils.RbTree.Root.{colour-plug_black, colour-plug_above, colour-plug}
use iotech_c_utils.RbTree.Remove.{minimum, unlink, rebalance, remove_node, remove, is_node}
use iotech_c_utils.RbTree.Remove.Entries.{remove_balance_lem}

regroup {ℓ} :
    {A : Type ℓ} (front left : List A) (y : A) (xs down back right : List A)
    → y ∷ (xs ++ down) ≡ right
    → (front ++ (left ++ (y ∷ []))) ++ (xs ++ (down ++ back)) ≡ front ++ ((left ++ right) ++ back)
regroup front left y xs down back right e = rw (← e) (simp append_assoc)

module _ {ℓ} {K V : Type ℓ} where
  before-append : (p q : List (Frame K V)) → before (p ++ q) ≡ before q ++ before p
  before-append [] q = sym (append-nil (before q))
  before-append (goes_left c k v r ∷ p) q = before-append p q
  before-append (goes_right c l k v ∷ p) q =
      rw (before-append p q) (append_assoc (before q) (before p) (inorder l ++ ((k, v) ∷ [])))

  after-append : (p q : List (Frame K V)) → after (p ++ q) ≡ after p ++ after q
  after-append [] q = refl
  after-append (goes_left c k v r ∷ p) q =
      rw (after-append p q)
        (ap (λ es. (k, v) ∷ es) (sym (append_assoc (inorder r) (after p) (after q))))
  after-append (goes_right c l k v ∷ p) q = after-append p q

  -- The successor is the first entry of the right subtree.
  abbrev First :
      List (K × V) → List (K × V) → Option (Colour × K × V × Tree K V × List (Frame K V)) → Type ℓ
  First es left m =
      (c : Colour) × (k : K) × (v : V) × (x : Tree K V) × (down : List (Frame K V)) × (m
        ≡ some (c, k, v, x, down))
      × (before down ≡ left)
      × ((k, v) ∷ (inorder x ++ after down) ≡ es)

  minimum_lem :
      (c : Colour) (l : Tree K V) (k : K) (v : V) (r : Tree K V) (path : List (Frame K V))
      → First (inorder (node c l k v r) ++ after path) (before path) (minimum (node c l k v r) path)
  unfolding minimum
  minimum_lem c leaf k v r path = (c, k, v, r, path, refl, refl, refl)
  minimum_lem c (node d a j w b) k v r path =
      subst (λ es. First es (before path) (minimum (node d a j w b) (goes_left c k v r ∷ path)))
        (sym (append_assoc (inorder (node d a j w b)) ((k, v) ∷ inorder r) (after path)))
        (minimum_lem d a j w b (goes_left c k v r ∷ path))

  -- What is left around a removed node.
  abbrev rest_of : Tree K V → List (K × V)
  rest_of leaf = []
  rest_of (node c l k v r) = inorder l ++ inorder r

  -- Where `x` becomes the root, a black node was unlinked, so that `x` is turned black.
  abbrev Keeps : Colour → List (Frame K V) → Type 0
  Keeps col [] = col ≡ black
  Keeps col (f ∷ path) = Unit

  plug-Keeps :
      (z : Tree K V) (path : List (Frame K V))
      → colour (plug z path) ≡ black
      → Keeps (colour z) path
  plug-Keeps z [] h = h
  plug-Keeps z (f ∷ path) h = tt

  append-Keeps :
      (col : Colour) (p : List (Frame K V)) (f : Frame K V) (path : List (Frame K V))
      → Keeps col (p ++ (f ∷ path))
  append-Keeps col [] f path = tt
  append-Keeps col (g ∷ p) f path = tt

  plug-append : (t : Tree K V) (p q : List (Frame K V)) → plug t (p ++ q) ≡ plug (plug t p) q
  plug-append t [] q = refl
  plug-append t (f ∷ p) q = plug-append (join t f) p q

  abbrev Unlinks : List (K × V) → Option (Tree K V × List (Frame K V) × Colour) → Type ℓ
  Unlinks es m =
      (x : Tree K V) × (place : List (Frame K V)) × (col : Colour) × (m ≡ some (x, place, col))
      × (inorder (plug x place) ≡ es)
      × Keeps col place
      × (colour (plug leaf place) ≡ black)

  unlink_lem :
      (c : Colour) (l : Tree K V) (k : K) (v : V) (r : Tree K V) (path : List (Frame K V))
      → colour (plug (node c l k v r) path) ≡ black
      → Unlinks (before path ++ ((inorder l ++ inorder r) ++ after path)) (unlink c l k v r path)
  unfolding unlink
  unlink_lem c leaf k v r path h = (
    r,
    path,
    c,
    refl,
    inorder-plug path r,
    plug-Keeps (node c leaf k v r) path h,
    colour-plug_black path (node c leaf k v r) leaf refl h,
  )
  unlink_lem c (node d a j w b) k v leaf path h =
      let l : Tree K V = node d a j w b in
      (
        l,
        path,
        c,
        refl,
        inorder-plug path l ∙ rw (append-nil (inorder l)),
        plug-Keeps (node c l k v leaf) path h,
        colour-plug_black path (node c l k v leaf) leaf refl h,
      )
  unlink_lem c (node d a j w b) k v (node e l i u r) path h =
      let (col, yk, yv, x, down, q, lo, es) = minimum_lem e l i u r [] in
      let low : Tree K V = node d a j w b in
      let high : Tree K V = node e l i u r in
      let f : Frame K V = goes_right c low yk yv in
      let up : List (Frame K V) = f ∷ path in
      let entries =
        inorder-plug (down ++ up) x
        ∙ rw (before-append down up, after-append down up, lo, append-nil (before up))
            (regroup (before path) (inorder low) (yk, yv) (inorder x) (after down) (after path)
              (inorder high) (es ∙ append-nil (inorder high))) in
      let top =
        ap colour (plug-append leaf down up)
        ∙ colour-plug path (node c low yk yv (plug leaf down)) (node c low k v high) refl
        ∙ h in
      (x, down ++ up, col, rw q, entries, append-Keeps col down f path, top)

  rebalance_lem :
      (x : Tree K V) (path : List (Frame K V)) (col : Colour)
      → Keeps col path
      → colour (plug leaf path) ≡ black
      → (u : Tree K V) × (rebalance x path col ≡ some u)
        × (inorder u ≡ inorder (plug x path))
        × (colour u ≡ black)
  unfolding rebalance
  rebalance_lem leaf path col h b = (plug leaf path, refl, refl, b)
  rebalance_lem (node c l k v r) [] red h b = cc
  rebalance_lem (node c l k v r) (f ∷ path) red h b = (
    plug (node c l k v r) (f ∷ path),
    refl,
    refl,
    colour-plug_above f path (node c l k v r) leaf ∙ b,
  )
  rebalance_lem (node c l k v r) path black h b =
      let e : length path + 2 ≡ suc (length path + 1) = omega arith in
      rw e (remove_balance_lem (length path + 1) (node c l k v r) path (inr (omega arith)) b)

  remove_node_lem :
      (t : Tree K V) (path : List (Frame K V))
      → colour (plug t path) ≡ black
      → (u : Tree K V) × (remove_node t path ≡ some u)
        × (inorder u ≡ before path ++ (rest_of t ++ after path))
        × (colour u ≡ black)
  unfolding remove_node
  remove_node_lem leaf path h = (plug leaf path, refl, inorder-plug path leaf, h)
  remove_node_lem (node c l k v r) path h =
      let (x, place, col, q, es, keeps, top) = unlink_lem c l k v r path h in
      let (u, p, es', b) = rebalance_lem x place col keeps top in (u, rw q p, es' ∙ es, b)

module _ {ℓ} {K V : Type ℓ} ⦃o : KeyOrder K⦄ where
  -- What removal of a key leaves of the entries: all of them if the key is not there, and else all
  -- but the one entry with the key.
  abbrev pub Removed : K → List (K × V) → List (K × V) → Bool → Type ℓ
  Removed key es us found =
      ((found ≡ false) × (lookup key es ≡ none) × (us ≡ es))
      ⊎ ((found ≡ true)
          × ((xs : List (K × V)) × (v : V) × (ys : List (K × V)) × (es ≡ xs ++ ((key, v) ∷ ys))
              × (us ≡ xs ++ ys)))

  reached :
      (t : Tree K V) (key : K) (z : Tree K V) (path : List (Frame K V)) (u : Tree K V)
      → (inorder t ≡ before path ++ (inorder z ++ after path))
      → (node_value z ≡ lookup key (inorder t))
      → HasKey key z
      → (inorder u ≡ before path ++ (rest_of z ++ after path))
      → Removed key (inorder t) (inorder u) (is_node z)
  reached t key leaf path u e n k es = inl (refl, sym n, es ∙ sym e)
  reached t key (node c l j v r) path u e n k es = inr (
    refl,
    (
      before path ++ inorder l,
      v,
      inorder r ++ after path,
      e ∙ rw k (simp append_assoc),
      es ∙ simp append_assoc,
    ),
  )

  -- In every search tree with a black root, balanced or not, removal follows no NULL link and leaves
  -- the root black. If the key is not there, the entries stay as they are and the result is false;
  -- if it is there, the result is true, and the entries left are those before and after the one with
  -- the key, in their order.
  pub remove_lem :
      (t : Tree K V) (key : K)
      → colour t ≡ black
      → Sorted (inorder t)
      → (u : Tree K V) × (found : Bool) × (remove t key ≡ some (u, found))
        × Removed key (inorder t) (inorder u) found
        × (colour u ≡ black)
  unfolding remove
  remove_lem t key b h =
      let z = (find_node t key []).0 in
      let path = (find_node t key []).1 in
      let e : plug z path ≡ t = find_node-plug t key [] in
      let (u, q, es, b') = remove_node_lem z path (ap colour e ∙ b) in
      (
        u,
        is_node z,
        rw q,
        reached t key z path u (ap inorder (sym e) ∙ inorder-plug path z)
            (find_node-lookup t key [] h) (find_node-HasKey t key []) es,
        b',
      )

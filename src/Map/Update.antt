-- ===== src/Map/Update.antt =====
-- src/c/data.c, adding, replacing and removing entries of a map.
use mathlib.Core.Path.{subst}
use iotech_c_utils.Common.{
  ◌≡◌, ◌⊎◌, refl, sym, ap, ◌∙◌, inl, inr, arith, Bool, true, false, List, [], ◌∷◌, ◌++◌, Option,
  some, length, length-append, if◌then◌else◌, append_assoc,
}
use iotech_c_utils.Order.{KeyOrder}
use iotech_c_utils.Sorted.{
  Sorted, lookup, written, lookup-insert, lookup-replace, Sorted-join, Sorted-replace,
  Sorted-append_parts,
}
use iotech_c_utils.RbTree.{Tree, leaf, node, Frame, colour, inorder, plug, find_node}
use iotech_c_utils.RbTree.Inorder.{before, after, inorder-plug}
use iotech_c_utils.RbTree.Search.{
  node_value, HasKey, find_node-plug, find_node-HasKey, find_node-lookup, insert-inorder,
}
use iotech_c_utils.RbTree.Root.{colour-plug, insert-EndsBlack}
use iotech_c_utils.RbTree.Remove.{is_node}
use iotech_c_utils.Common.Xor.{bit_xor_comm}
use iotech_c_utils.Map.{count_added, Hashed, Map, map_get, node_add_at, node_add, map_hash}
use iotech_c_utils.Map.Hash.{content_hash, content_hash-append, map_hash_lem, entry_hash}
use iotech_c_utils.Map.Invariant.{IsWf, map_get-lookup}

module _ {ℓ} {K V : Type ℓ} ⦃o : KeyOrder K⦄ where
  -- The map with one key written, seen through lookups.
  abbrev pub Writes : K → Option V → List (K × V) → List (K × V) → Type ℓ
  Writes key new es us = (j : K) → lookup j us ≡ written key j new (lookup j es)

module _ {ℓ} {K V : Type ℓ} ⦃o : KeyOrder K⦄ ⦃hk : Hashed K⦄ ⦃hv : Hashed V⦄ where
  hash_added :
      (m : Map K V) (key : K) (value : V) (xs ys : List (K × V))
      → inorder m.tree ≡ xs ++ ys
      → (m.rehash ≡ true) ⊎ (m.hash ≡ content_hash (inorder m.tree))
      → (m.rehash ≡ true) ⊎ (map_hash m.hash key value ≡ content_hash (xs ++ ((key, value) ∷ ys)))
  hash_added m key value xs ys e (inl h) = inl h
  hash_added m key value xs ys e (inr h) = inr (
      map_hash_lem m.hash key value
      ∙ rw (h, e, content_hash-append xs ys key value)
          (bit_xor_comm (content_hash (xs ++ ys)) (entry_hash key value)))

  -- What `iot_node_add` does with the node that the search reached.
  abbrev pub Adds : Map K V → K → V → Bool → Option (Map K V × Bool) → Type ℓ
  Adds m key value found r =
      (m' : Map K V) × (added : Bool) × (r ≡ some (m', added))
      × (IsWf (count_added (m', added)))
      × Writes key (some value) (inorder m.tree) (inorder m'.tree)
      × (m'.size ≡ m.size)
      × (added ≡ (if found then false else true))

  node_add_at-IsWf :
      (m : Map K V) (key : K) (value : V) (z : Tree K V) (path : List (Frame K V))
      → IsWf m
      → plug z path ≡ m.tree
      → HasKey key z
      → node_value z ≡ lookup key (inorder m.tree)
      → Adds m key value (is_node z) (node_add_at m key value z path)
  unfolding node_add_at
  node_add_at-IsWf m key value leaf path h e k n =
      let (u, q, b) = insert-EndsBlack m.tree key value h.root in
      let (xs, ys, es, us, lo, hi) = insert-inorder m.tree key value h.sorted (sym n) q in
      let (sx, sy) = Sorted-append_parts xs ys (subst Sorted es h.sorted) in
      let sorted : Sorted (xs ++ ((key, value) ∷ ys)) = Sorted-join xs ys key value sx lo sy hi in
      let m' : Map K V = record m { tree = u; hash = map_hash m.hash key value } in
      (
        m',
        true,
        rw q,
        record {
          root = b;
          sorted = subst Sorted (sym us) sorted;
          sized = omega (
            arith,
            h.sized,
            ap length es,
            ap length us,
            length-append xs ys,
            length-append xs ((key, value) ∷ ys),
          );
          hashed =
              subst (λ t. (m.rehash ≡ true) ⊎ (map_hash m.hash key value ≡ content_hash t)) (sym us)
                (hash_added m key value xs ys es h.hashed);
        },
        (λ j. rw (us, es) (lookup-insert j key value xs ys sorted)),
        refl,
        refl,
      )
  node_add_at-IsWf m key value (node c l j v r) path h e k n =
      let xs = before path ++ inorder l in
      let ys = inorder r ++ after path in
      let t : Tree K V = plug (node c l j value r) path in
      let es : inorder m.tree ≡ xs ++ ((j, v) ∷ ys) =
        ap inorder (sym e) ∙ inorder-plug path (node c l j v r) ∙ simp append_assoc in
      let us : inorder t ≡ xs ++ ((j, value) ∷ ys) =
        inorder-plug path (node c l j value r) ∙ simp append_assoc in
      let sorted : Sorted (xs ++ ((j, v) ∷ ys)) = subst Sorted es h.sorted in
      let m' : Map K V = record m { tree = t; rehash = true } in
      (
        m',
        false,
        refl,
        record {
          root = colour-plug path (node c l j value r) (node c l j v r) refl ∙ ap colour e ∙ h.root;
          sorted = subst Sorted (sym us) (Sorted-replace xs ys j v value sorted);
          sized = omega (
            arith,
            h.sized,
            ap length es,
            ap length us,
            length-append xs ((j, v) ∷ ys),
            length-append xs ((j, value) ∷ ys),
          );
          hashed = inl refl;
        },
        (λ i. rw (us, es, ← k) (lookup-replace i j v value xs ys sorted)),
        refl,
        refl,
      )

  pub node_add-IsWf :
      (m : Map K V) (key : K) (value : V)
      → IsWf m
      → Adds m key value (is_node (find_node m.tree key []).0) (node_add m key value)
  unfolding node_add
  node_add-IsWf m key value h =
      node_add_at-IsWf m key value (find_node m.tree key []).0 (find_node m.tree key []).1 h
        (find_node-plug m.tree key []) (find_node-HasKey m.tree key [])
        (find_node-lookup m.tree key [] h.sorted)

  pub map_get-Writes :
      (m m' : Map K V) (key j : K) (new : Option V)
      → IsWf m
      → IsWf m'
      → Writes key new (inorder m.tree) (inorder m'.tree)
      → map_get m' j ≡ written key j new (map_get m j)
  map_get-Writes m m' key j new h h' w =
      map_get-lookup m' j h'.sorted
      ∙ w j
      ∙ ap (written key j new) (sym (map_get-lookup m j h.sorted))

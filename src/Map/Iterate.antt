-- ===== src/Map/Iterate.antt =====
-- src/c/data.c, map iteration: the nodes that `iot_node_next` and `iot_node_prev` lead through.
use iotech_c_utils.Common.{
  ℕ, zero, suc, ◌≤◌, ◌≡◌, refl, sym, ap, ◌∙◌, arith, List, [], ◌∷◌, ◌++◌, Option, none, some,
  append_assoc, append-nil, length, length-append,
}
use mathlib.Core.List.{reverse, reverse-append}
use iotech_c_utils.RbTree.{Colour, Tree, leaf, node, Frame, goes_left, goes_right, inorder}
use iotech_c_utils.RbTree.Inorder.{before, after}
use iotech_c_utils.Map.{
  Map, Iter, iter_start, node_start, node_end, climb_right, climb_left, node_next, node_prev,
  iter_next, iter_prev, iter_entry, visit, visit_back, entries,
}

module _ {ℓ} {K V : Type ℓ} where
  -- The entries from a node on, in order, and those up to it.
  abbrev pub upcoming : Option (Tree K V × List (Frame K V)) → List (K × V)
  upcoming none = []
  upcoming (some (leaf, path)) = []
  upcoming (some (node c l k v r, path)) = (k, v) ∷ (inorder r ++ after path)

  abbrev pub passed : Option (Tree K V × List (Frame K V)) → List (K × V)
  passed none = []
  passed (some (leaf, path)) = []
  passed (some (node c l k v r, path)) = (before path ++ inorder l) ++ ((k, v) ∷ [])

  node_start-upcoming :
      (c : Colour) (l : Tree K V) (k : K) (v : V) (r : Tree K V) (path : List (Frame K V))
      → upcoming (node_start (node c l k v r) path) ≡ inorder (node c l k v r) ++ after path
  unfolding node_start
  node_start-upcoming c leaf k v r path = refl
  node_start-upcoming c (node d a j w b) k v r path =
      node_start-upcoming d a j w b (goes_left c k v r ∷ path)
      ∙ sym (append_assoc (inorder (node d a j w b)) ((k, v) ∷ inorder r) (after path))

  climb_right-upcoming :
      (t : Tree K V) (path : List (Frame K V)) → upcoming (climb_right t path) ≡ after path
  unfolding climb_right
  climb_right-upcoming t [] = refl
  climb_right-upcoming t (goes_left c k v r ∷ path) = refl
  climb_right-upcoming t (goes_right c l k v ∷ path) = climb_right-upcoming (node c l k v t) path

  -- The next node is the one whose entry follows in the order of the keys.
  node_next-upcoming :
      (c : Colour) (l : Tree K V) (k : K) (v : V) (r : Tree K V) (path : List (Frame K V))
      → (k, v) ∷ upcoming (node_next (node c l k v r) path) ≡ upcoming (some (node c l k v r, path))
  unfolding node_next
  node_next-upcoming c l k v leaf path =
      ap (λ es. (k, v) ∷ es) (climb_right-upcoming (node c l k v leaf) path)
  node_next-upcoming c l k v (node d a j w b) path =
      ap (λ es. (k, v) ∷ es) (node_start-upcoming d a j w b (goes_right c l k v ∷ path))

  node_end-passed :
      (c : Colour) (l : Tree K V) (k : K) (v : V) (r : Tree K V) (path : List (Frame K V))
      → passed (node_end (node c l k v r) path) ≡ before path ++ inorder (node c l k v r)
  unfolding node_end
  node_end-passed c l k v leaf path = append_assoc (before path) (inorder l) ((k, v) ∷ [])
  node_end-passed c l k v (node d a j w b) path =
      node_end-passed d a j w b (goes_right c l k v ∷ path) ∙ simp append_assoc

  climb_left-passed :
      (t : Tree K V) (path : List (Frame K V)) → passed (climb_left t path) ≡ before path
  unfolding climb_left
  climb_left-passed t [] = refl
  climb_left-passed t (goes_left c k v r ∷ path) = climb_left-passed (node c t k v r) path
  climb_left-passed t (goes_right c l k v ∷ path) =
      append_assoc (before path) (inorder l) ((k, v) ∷ [])

  -- The previous node is the one whose entry precedes in the order of the keys.
  node_prev-passed :
      (c : Colour) (l : Tree K V) (k : K) (v : V) (r : Tree K V) (path : List (Frame K V))
      → passed (node_prev (node c l k v r) path) ++ ((k, v) ∷ [])
        ≡ passed (some (node c l k v r, path))
  unfolding node_prev
  node_prev-passed c leaf k v r path =
      rw (climb_left-passed (node c leaf k v r) path, append-nil (before path))
  node_prev-passed c (node d a j w b) k v r path =
      rw (node_end-passed d a j w b (goes_left c k v r ∷ path))

  short : (xs : List (K × V)) → length xs ≤ 0 → xs ≡ []
  short [] h = refl
  short (x ∷ xs) h = absurd (omega arith)

  -- One round of the loop, once the iterator has moved.
  abbrev visit_at : ℕ → Map K V → Iter K V → List (K × V)
  visit_at fuel m it =
      let rest = visit fuel m it in elim (iter_entry it) [ none ↦ [] | some e ↦ e ∷ rest ]

  visit_at-upcoming :
      (fuel : ℕ) (m : Map K V) (p : Option (Tree K V × List (Frame K V))) (n : ℕ)
      → length (upcoming p) ≤ suc fuel
      → visit_at fuel m (record { at = p; count = n }) ≡ upcoming p
  unfolding visit iter_next
  visit_at-upcoming fuel m none n h = refl
  visit_at-upcoming fuel m (some (leaf, path)) n h = refl
  visit_at-upcoming zero m (some (node c l k v r, path)) n h =
      ap (λ es. (k, v) ∷ es) (sym (short (inorder r ++ after path) (omega arith)))
  visit_at-upcoming (suc fuel) m (some (node c l k v r, path)) n h =
      let next = node_next-upcoming c l k v r path in
      let fits : length (upcoming (node_next (node c l k v r) path)) ≤ suc fuel =
        omega (arith, ap length next) in
      ap (λ es. (k, v) ∷ es) (visit_at-upcoming fuel m (node_next (node c l k v r) path) _ fits)
      ∙ next

  abbrev visit_back_at : ℕ → Map K V → Iter K V → List (K × V)
  visit_back_at fuel m it =
      let rest = visit_back fuel m it in elim (iter_entry it) [ none ↦ [] | some e ↦ e ∷ rest ]

  visit_back_at-passed :
      (fuel : ℕ) (m : Map K V) (p : Option (Tree K V × List (Frame K V))) (n : ℕ)
      → length (passed p) ≤ suc fuel
      → visit_back_at fuel m (record { at = p; count = n }) ≡ reverse (passed p)
  unfolding visit_back iter_prev
  visit_back_at-passed fuel m none n h = refl
  visit_back_at-passed fuel m (some (leaf, path)) n h = refl
  visit_back_at-passed zero m (some (node c l k v r, path)) n h =
      let few : length (before path ++ inorder l) ≤ 0 =
        omega (arith, length-append (before path ++ inorder l) ((k, v) ∷ [])) in
      rw (short (before path ++ inorder l) few)
  visit_back_at-passed (suc fuel) m (some (node c l k v r, path)) n h =
      let prev = node_prev-passed c l k v r path in
      let back = node_prev (node c l k v r) path in
      let fits : length (passed back) ≤ suc fuel =
        omega (arith, ap length prev, length-append (passed back) ((k, v) ∷ [])) in
      ap (λ es. (k, v) ∷ es) (visit_back_at-passed fuel m back _ fits)
      ∙ sym (reverse-append (passed back) ((k, v) ∷ []))
      ∙ ap reverse prev

  first-upcoming : (t : Tree K V) → upcoming (node_start t []) ≡ inorder t
  first-upcoming leaf = unfold node_start in refl
  first-upcoming (node c l k v r) =
      node_start-upcoming c l k v r [] ∙ append-nil (inorder (node c l k v r))

  last-passed : (t : Tree K V) → passed (node_end t []) ≡ inorder t
  last-passed leaf = unfold node_end in refl
  last-passed (node c l k v r) = node_end-passed c l k v r []

  visit-inorder :
      (fuel : ℕ) (m : Map K V)
      → length (inorder m.tree) ≤ fuel
      → visit fuel m iter_start ≡ inorder m.tree
  unfolding visit iter_next
  visit-inorder zero m h = sym (short (inorder m.tree) h)
  visit-inorder (suc fuel) m h =
      let first = first-upcoming m.tree in
      visit_at-upcoming fuel m (node_start m.tree []) _ (omega (arith, ap length first)) ∙ first

  visit_back-inorder :
      (fuel : ℕ) (m : Map K V)
      → length (inorder m.tree) ≤ fuel
      → visit_back fuel m iter_start ≡ reverse (inorder m.tree)
  unfolding visit_back iter_prev
  visit_back-inorder zero m h = ap reverse (sym (short (inorder m.tree) h))
  visit_back-inorder (suc fuel) m h =
      let last = last-passed m.tree in
      visit_back_at-passed fuel m (node_end m.tree []) _ (omega (arith, ap length last))
      ∙ ap reverse last

  pub entries_lem : (m : Map K V) → entries m ≡ inorder m.tree
  unfolding entries
  entries_lem m = visit-inorder (length (inorder m.tree)) m (omega arith)

  -- On every map, a loop of `iot_data_map_iter_next` from the start, whatever number of rounds from
  -- the number of entries on it may take, visits the entries of the tree, each once and in order, and
  -- a loop of `iot_data_map_iter_prev` visits them in the reverse order.
  pub visit-visit_back :
      (m : Map K V) (fuel : ℕ)
      → length (inorder m.tree) ≤ fuel
      → (visit fuel m iter_start ≡ inorder m.tree)
        × (visit_back fuel m iter_start ≡ reverse (inorder m.tree))
  visit-visit_back m fuel h = (visit-inorder fuel m h, visit_back-inorder fuel m h)

-- ===== src/RbTree/Search.antt =====
-- src/c/data.c: what search finds, and where insertion puts a new entry.
use mathlib.Core.Path.{subst}
use iotech_c_utils.Common.{
  ◌≡◌, ◌⊎◌, refl, sym, ◌∙◌, arith, List, [], ◌∷◌, ◌++◌, Option, none, some, append_assoc,
  append-nil, inl, inr, All, All-append,
}
use iotech_c_utils.Order.{KeyOrder, Sign-cases, lt, eq, gt}
use iotech_c_utils.Sorted.{
  IsBelow, IsAbove, Sorted, lookup, lookup_split, Sorted-split, IsAbove-trans, IsBelow-trans,
}
use iotech_c_utils.RbTree.{
  Colour, red, Tree, leaf, node, Frame, goes_left, goes_right, plug, inorder, find_node, descend,
  attach, insert,
}
use iotech_c_utils.RbTree.Inorder.{before, after, inorder-plug, inorder-insert_balance}

module _ {ℓ} {K V : Type ℓ} where
  -- `node ? node->value : NULL`.
  abbrev pub node_value : Tree K V → Option V
  node_value leaf = none
  node_value (node c l k v r) = some v

  pub attach-inorder :
      ⦃o : KeyOrder K⦄ (key : K) (value : V) (path : List (Frame K V)) {t : Tree K V}
      → attach key value path ≡ some t
      → inorder t ≡ before path ++ ((key, value) ∷ after path)
  unfolding attach
  attach-inorder key value [] e = ground arith
  attach-inorder key value (f ∷ []) e =
      ground (arith, inorder-plug (f ∷ []) (node red leaf key value leaf))
  attach-inorder key value (f ∷ g ∷ up) e =
      inorder-insert_balance (node red leaf key value leaf) (f ∷ g ∷ up) e
      ∙ inorder-plug (f ∷ g ∷ up) (node red leaf key value leaf)

module _ {ℓ} {K V : Type ℓ} ⦃o : KeyOrder K⦄ where
  -- In a search tree the search finds what the sorted entries hold.
  pub find_node-lookup :
      (t : Tree K V) (key : K) (path : List (Frame K V))
      → Sorted (inorder t)
      → node_value (find_node t key path).0 ≡ lookup key (inorder t)
  unfolding find_node
  find_node-lookup leaf key path h = refl
  find_node-lookup (node c l k v r) key path h =
      let parts = Sorted-split (inorder l) (inorder r) k v h in
      ground (
        arith,
        lookup_split key (inorder l) (inorder r) k v h,
        find_node-lookup l key (goes_left c k v r ∷ path) parts.0,
        find_node-lookup r key (goes_right c l k v ∷ path) parts.2,
      )

  -- The search only moves through the tree.
  pub find_node-plug :
      (t : Tree K V) (key : K) (path : List (Frame K V))
      → plug (find_node t key path).0 (find_node t key path).1 ≡ plug t path
  unfolding find_node
  find_node-plug leaf key path = refl
  find_node-plug (node c l k v r) key path = ground (
    arith,
    find_node-plug l key (goes_left c k v r ∷ path),
    find_node-plug r key (goes_right c l k v ∷ path),
  )

  -- A node that is there has the key.
  abbrev pub HasKey : K → Tree K V → Type ℓ
  HasKey key leaf = Unit
  HasKey key (node c l k v r) = k ≡ key

  find_node_step :
      (c : Colour) (l : Tree K V) (k : K) (v : V) (r : Tree K V) (key : K) (path : List (Frame K V))
      → ((o.cmp k key ≡ lt)
          × (find_node (node c l k v r) key path ≡ find_node r key (goes_right c l k v ∷ path)))
        ⊎ (((o.cmp k key ≡ eq) × (find_node (node c l k v r) key path ≡ (node c l k v r, path)))
            ⊎ ((o.cmp k key ≡ gt)
                × (find_node (node c l k v r) key path
                    ≡ find_node l key (goes_left c k v r ∷ path))))
  unfolding find_node
  find_node_step c l k v r key path = ground arith

  pub find_node-HasKey :
      (t : Tree K V) (key : K) (path : List (Frame K V)) → HasKey key (find_node t key path).0
  find_node-HasKey leaf key path = unfold find_node in tt
  find_node-HasKey (node c l k v r) key path = elim (find_node_step c l k v r key path) [
    | inl (e, q) ↦
        subst (λ p. HasKey key p.0) (sym q) (find_node-HasKey r key (goes_right c l k v ∷ path))
    | inr (inl (e, q)) ↦ subst (λ p. HasKey key p.0) (sym q) (o.cmp_eq k key e)
    | inr (inr (e, q)) ↦
        subst (λ p. HasKey key p.0) (sym q) (find_node-HasKey l key (goes_left c k v r ∷ path))
  ]

  pub descend_entries :
      (t : Tree K V) (key : K) (path : List (Frame K V))
      → before (descend t key path) ++ after (descend t key path)
        ≡ before path ++ (inorder t ++ after path)
  unfolding descend
  descend_entries leaf key path = refl
  descend_entries (node c l k v r) key path = ground (
    arith,
    descend_entries l key (goes_left c k v r ∷ path),
    descend_entries r key (goes_right c l k v ∷ path),
    append_assoc (inorder l) ((k, v) ∷ inorder r) (after path),
    append_assoc (before path) (inorder l ++ ((k, v) ∷ [])) (inorder r ++ after path),
    append_assoc (inorder l) ((k, v) ∷ []) (inorder r ++ after path),
  )

  abbrev IsBetween : K → List (Frame K V) → Type 0
  IsBetween key path = All (IsBelow key) (before path) × All (IsAbove key) (after path)

  descend_left :
      (c : Colour) (l r : Tree K V) (k : K) (v : V) (key : K) (path : List (Frame K V))
      → o.cmp key k ≡ lt
      → descend (node c l k v r) key path ≡ descend l key (goes_left c k v r ∷ path)
  unfolding descend
  descend_left c l r k v key path e = ground arith

  descend_right :
      (c : Colour) (l r : Tree K V) (k : K) (v : V) (key : K) (path : List (Frame K V))
      → o.cmp key k ≡ gt
      → descend (node c l k v r) key path ≡ descend r key (goes_right c l k v ∷ path)
  unfolding descend
  descend_right c l r k v key path e = ground arith

  -- A key that the tree does not hold goes where what is left of it is smaller and what is right
  -- of it is greater.
  pub descend_sides :
      (t : Tree K V) (key : K) (path : List (Frame K V))
      → Sorted (inorder t)
      → lookup key (inorder t) ≡ none
      → All (IsBelow key) (before path)
      → All (IsAbove key) (after path)
      → IsBetween key (descend t key path)
  descend_sides leaf key path h n b a = unfold descend in (b, a)
  descend_sides (node c l k v r) key path h n b a =
      let parts = Sorted-split (inorder l) (inorder r) k v h in
      let split = lookup_split key (inorder l) (inorder r) k v h in
      elim (Sign-cases (o.cmp key k)) [
        | inl e ↦
            let below : o.cmp k key ≡ gt = o.cmp_unflip key k e in
            let above =
              All-append (IsAbove key) (inorder r) (after path)
                (IsAbove-trans key k (inorder r) e parts.3) a in
            let absent : lookup key (inorder l) ≡ none = ground (arith, split) in
            subst (IsBetween key) (sym (descend_left c l r k v key path e))
              (descend_sides l key (goes_left c k v r ∷ path) parts.0 absent b (e, above))
        | inr (inl e) ↦
            let same : o.cmp k key ≡ eq = rw (o.cmp_eq key k e) (o.cmp_refl k) in
            absurd (ground (arith, split))
        | inr (inr e) ↦
            let below : o.cmp k key ≡ lt = o.cmp_flip key k e in
            let absent : lookup key (inorder r) ≡ none = ground (arith, split) in
            let smaller = All-append (IsBelow key) (before path) (inorder l ++ ((k, v) ∷ [])) b (
              All-append (IsBelow key) (inorder l) ((k, v) ∷ [])
                (IsBelow-trans k key (inorder l) below parts.1) (below, tt)) in
            subst (IsBetween key) (sym (descend_right c l r k v key path e))
              (descend_sides r key (goes_right c l k v ∷ path) parts.2 absent smaller a)
      ]

  -- In a search tree, one whose entries are sorted by key, that does not have the key, where insertion
  -- succeeds: the entries are those before, with smaller keys, then the new one, and those with greater
  -- keys, in their order.
  pub insert-inorder :
      (t : Tree K V) (key : K) (value : V) {u : Tree K V}
      → Sorted (inorder t)
      → lookup key (inorder t) ≡ none
      → insert t key value ≡ some u
      → (xs : List (K × V)) × (ys : List (K × V)) × (inorder t ≡ xs ++ ys)
        × (inorder u ≡ xs ++ ((key, value) ∷ ys))
        × All (IsBelow key) xs
        × All (IsAbove key) ys
  unfolding insert
  insert-inorder t key value h n e =
      let path = descend t key [] in
      let (below, above) = descend_sides t key [] h n tt tt in
      (
        before path,
        after path,
        sym (descend_entries t key [] ∙ append-nil (inorder t)),
        attach-inorder key value path e,
        below,
        above,
      )

-- ===== src/Sorted.antt =====
-- Lists of entries sorted by key: what a map holds, as an abstract view.
use iotech_c_utils.Common.{
  ◌≡◌, refl, arith, List, [], ◌∷◌, ◌++◌, Option, none, some, All, All-append,
}
use mathlib.Core.Path.{subst}
use iotech_c_utils.Order.{KeyOrder, Sign, lt, eq, gt}

abbrev pub or_else {ℓ} : {A : Type ℓ} → Option A → Option A → Option A
or_else none b = b
or_else (some a) b = some a

module _ {ℓ} {K V : Type ℓ} ⦃o : KeyOrder K⦄ where
  abbrev pub IsBelow : K → K × V → Type 0
  IsBelow key (k, v) = o.cmp k key ≡ lt

  abbrev pub IsAbove : K → K × V → Type 0
  IsAbove key (k, v) = o.cmp key k ≡ lt

  abbrev pub Sorted : List (K × V) → Type 0
  Sorted [] = Unit
  Sorted ((k, v) ∷ es) = All (IsAbove k) es × Sorted es

  abbrev pub lookup : K → List (K × V) → Option V
  lookup key [] = none
  lookup key ((k, v) ∷ es) =
      let rest = lookup key es in elim (o.cmp k key) [ eq ↦ some v | _ ↦ rest ]

  pub lookup-append :
      (key : K) (xs ys : List (K × V))
      → lookup key (xs ++ ys) ≡ or_else (lookup key xs) (lookup key ys)
  lookup-append key [] ys = refl
  lookup-append key ((k, v) ∷ xs) ys = ground (arith, lookup-append key xs ys)

  pub lookup_above : (key : K) (xs : List (K × V)) → All (IsAbove key) xs → lookup key xs ≡ none
  lookup_above key [] h = refl
  lookup_above key ((k, v) ∷ xs) h = ground (arith, o.cmp_unflip key k, lookup_above key xs h.1)

  pub lookup_below : (key : K) (xs : List (K × V)) → All (IsBelow key) xs → lookup key xs ≡ none
  lookup_below key [] h = refl
  lookup_below key ((k, v) ∷ xs) h = ground (arith, lookup_below key xs h.1)

  pub All-append_parts {κ} :
      (P : K × V → Type κ) (xs ys : List (K × V)) → All P (xs ++ ys) → All P xs × All P ys
  All-append_parts P [] ys h = (tt, h)
  All-append_parts P (x ∷ xs) ys h = let (hx, hy) = All-append_parts P xs ys h.1 in ((h.0, hx), hy)

  -- Everything above a key that is above another.
  pub IsAbove-trans :
      (a b : K) (xs : List (K × V)) → o.cmp a b ≡ lt → All (IsAbove b) xs → All (IsAbove a) xs
  IsAbove-trans a b [] h k = tt
  IsAbove-trans a b ((x, v) ∷ xs) h k = (o.cmp_trans a b x h k.0, IsAbove-trans a b xs h k.1)

  pub IsBelow-trans :
      (a b : K) (xs : List (K × V)) → o.cmp a b ≡ lt → All (IsBelow a) xs → All (IsBelow b) xs
  IsBelow-trans a b [] h k = tt
  IsBelow-trans a b ((x, v) ∷ xs) h k = (o.cmp_trans x a b k.0 h, IsBelow-trans a b xs h k.1)

  -- A sorted list split at an entry.
  pub Sorted-split :
      (xs ys : List (K × V)) (k : K) (v : V)
      → Sorted (xs ++ ((k, v) ∷ ys))
      → Sorted xs × All (IsBelow k) xs × Sorted ys × All (IsAbove k) ys
  Sorted-split [] ys k v h = (tt, tt, h.1, h.0)
  Sorted-split ((j, w) ∷ xs) ys k v h =
      let (a, b, c, d) = Sorted-split xs ys k v h.1 in
      let (e, f) = All-append_parts (IsAbove j) xs ((k, v) ∷ ys) h.0 in ((e, a), (f.0, b), c, d)

  pub Sorted-join :
      (xs ys : List (K × V)) (k : K) (v : V)
      → Sorted xs
      → All (IsBelow k) xs
      → Sorted ys
      → All (IsAbove k) ys
      → Sorted (xs ++ ((k, v) ∷ ys))
  Sorted-join [] ys k v a b c d = (d, c)
  Sorted-join ((j, w) ∷ xs) ys k v a b c d = (
    All-append (IsAbove j) xs ((k, v) ∷ ys) a.0 (b.0, IsAbove-trans j k ys b.0 d),
    Sorted-join xs ys k v a.1 b.1 c d,
  )

  -- In a sorted list the entry decides which part holds a key.
  pub lookup_split :
      (key : K) (xs ys : List (K × V)) (k : K) (v : V)
      → Sorted (xs ++ ((k, v) ∷ ys))
      → lookup key (xs ++ ((k, v) ∷ ys))
        ≡ elim (o.cmp k key) [ eq ↦ some v | gt ↦ lookup key xs | lt ↦ lookup key ys ]
  lookup_split key xs ys k v h =
      rw (lookup-append key xs ((k, v) ∷ ys)) (by_sign (o.cmp k key) refl)
    where
      parts : Sorted xs × All (IsBelow k) xs × Sorted ys × All (IsAbove k) ys
      parts = Sorted-split xs ys k v h

      by_sign :
          (s : Sign)
          → o.cmp k key ≡ s
          → or_else (lookup key xs) (elim s [ eq ↦ some v | _ ↦ lookup key ys ])
            ≡ elim s [ eq ↦ some v | gt ↦ lookup key xs | lt ↦ lookup key ys ]
      by_sign lt e = rw (lookup_below key xs (IsBelow-trans k key xs e parts.1))
      by_sign eq e =
          let below = subst (λ a. All (IsBelow a) xs) (o.cmp_eq k key e) parts.1 in
          rw (lookup_below key xs below)
      by_sign gt e =
          let above = IsAbove-trans key k ys (o.cmp_flip k key e) parts.3 in
          ground (arith, lookup_above key ys above)

  -- The same split of the list without the entry.
  pub lookup_without :
      (key : K) (xs ys : List (K × V)) (k : K) (v : V)
      → Sorted (xs ++ ((k, v) ∷ ys))
      → lookup key (xs ++ ys)
        ≡ elim (o.cmp k key) [ eq ↦ none | gt ↦ lookup key xs | lt ↦ lookup key ys ]
  lookup_without key xs ys k v h = rw (lookup-append key xs ys) (by_sign (o.cmp k key) refl)
    where
      parts : Sorted xs × All (IsBelow k) xs × Sorted ys × All (IsAbove k) ys
      parts = Sorted-split xs ys k v h

      by_sign :
          (s : Sign)
          → o.cmp k key ≡ s
          → or_else (lookup key xs) (lookup key ys)
            ≡ elim s [ eq ↦ none | gt ↦ lookup key xs | lt ↦ lookup key ys ]
      by_sign lt e = rw (lookup_below key xs (IsBelow-trans k key xs e parts.1))
      by_sign eq e =
          let below = subst (λ a. All (IsBelow a) xs) (o.cmp_eq k key e) parts.1 in
          let above = subst (λ a. All (IsAbove a) ys) (o.cmp_eq k key e) parts.3 in
          rw (lookup_below key xs below, lookup_above key ys above)
      by_sign gt e =
          let above = IsAbove-trans key k ys (o.cmp_flip k key e) parts.3 in
          ground (arith, lookup_above key ys above)

  pub Sorted-replace :
      (xs ys : List (K × V)) (k : K) (v w : V)
      → Sorted (xs ++ ((k, v) ∷ ys))
      → Sorted (xs ++ ((k, w) ∷ ys))
  Sorted-replace xs ys k v w h =
      let (a, b, c, d) = Sorted-split xs ys k v h in Sorted-join xs ys k w a b c d

  pub Sorted-remove :
      (xs ys : List (K × V)) (k : K) (v : V) → Sorted (xs ++ ((k, v) ∷ ys)) → Sorted (xs ++ ys)
  Sorted-remove [] ys k v h = h.1
  Sorted-remove ((j, w) ∷ xs) ys k v h =
      let (a, b) = All-append_parts (IsAbove j) xs ((k, v) ∷ ys) h.0 in
      (All-append (IsAbove j) xs ys a b.1, Sorted-remove xs ys k v h.1)

  pub Sorted-append_parts : (xs ys : List (K × V)) → Sorted (xs ++ ys) → Sorted xs × Sorted ys
  Sorted-append_parts [] ys h = (tt, h)
  Sorted-append_parts ((j, w) ∷ xs) ys h =
      let (a, b) = Sorted-append_parts xs ys h.1 in
      (((All-append_parts (IsAbove j) xs ys h.0).0, a), b)

  -- What a lookup of `j` gives where the entry of `key` was written with `new`.
  abbrev pub written : K → K → Option V → Option V → Option V
  written key j new old = elim (o.cmp key j) [ eq ↦ new | _ ↦ old ]

  pub lookup-insert :
      (j key : K) (v : V) (xs ys : List (K × V))
      → Sorted (xs ++ ((key, v) ∷ ys))
      → lookup j (xs ++ ((key, v) ∷ ys)) ≡ written key j (some v) (lookup j (xs ++ ys))
  lookup-insert j key v xs ys h =
      ground (arith, lookup_split j xs ys key v h, lookup_without j xs ys key v h)

  pub lookup-replace :
      (j key : K) (v w : V) (xs ys : List (K × V))
      → Sorted (xs ++ ((key, v) ∷ ys))
      → lookup j (xs ++ ((key, w) ∷ ys)) ≡ written key j (some w) (lookup j (xs ++ ((key, v) ∷ ys)))
  lookup-replace j key v w xs ys h = ground (
    arith,
    lookup_split j xs ys key v h,
    lookup_split j xs ys key w (Sorted-replace xs ys key v w h),
  )

  pub lookup-remove :
      (j key : K) (v : V) (xs ys : List (K × V))
      → Sorted (xs ++ ((key, v) ∷ ys))
      → lookup j (xs ++ ys) ≡ written key j none (lookup j (xs ++ ((key, v) ∷ ys)))
  lookup-remove j key v xs ys h =
      ground (arith, lookup_split j xs ys key v h, lookup_without j xs ys key v h)

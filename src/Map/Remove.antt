-- ===== src/Map/Remove.antt =====
-- src/c/data.c, `iot_data_map_remove` as a whole.
use mathlib.Core.Path.{subst}
use iotech_c_utils.Common.{
  ◌≡◌, refl, sym, ap, inl, inr, arith, Bool, List, ◌∷◌, ◌++◌, none, some, length, length-append,
}
use iotech_c_utils.Order.{KeyOrder, Sign-cases}
use iotech_c_utils.Sorted.{Sorted, lookup, written, lookup_split, lookup-remove, Sorted-remove}
use iotech_c_utils.RbTree.{Tree, black, colour, inorder}
use iotech_c_utils.RbTree.Remove.Removal.{Removed, remove_lem}
use iotech_c_utils.Map.{settled, Hashed, Map, map_get, map_remove}
use iotech_c_utils.Map.Invariant.{IsWf, map_get-lookup}
use iotech_c_utils.Map.Update.{Writes, map_get-Writes}
use iotech_c_utils.Map.Add.{is_some}

module _ {ℓ} {K V : Type ℓ} ⦃o : KeyOrder K⦄ where
  written_absent :
      (key j : K) (es : List (K × V))
      → lookup key es ≡ none
      → lookup j es ≡ written key j none (lookup j es)
  written_absent key j es h = elim (Sign-cases (o.cmp key j)) [
    | inl e ↦ rw (written, e)
    | inr (inl e) ↦ rw (written, e) (subst (λ i. lookup i es ≡ none) (o.cmp_eq key j e) h)
    | inr (inr e) ↦ rw (written, e)
  ]

  lookup_present :
      (key : K) (v : V) (xs ys : List (K × V))
      → Sorted (xs ++ ((key, v) ∷ ys))
      → lookup key (xs ++ ((key, v) ∷ ys)) ≡ some v
  lookup_present key v xs ys h = ground (arith, lookup_split key xs ys key v h, o.cmp_refl key)

module _ {ℓ} {K V : Type ℓ} ⦃o : KeyOrder K⦄ ⦃hk : Hashed K⦄ ⦃hv : Hashed V⦄ where
  settled-IsWf :
      (m : Map K V) (key : K) (u : Tree K V) (found : Bool)
      → IsWf m
      → colour u ≡ black
      → Removed key (inorder m.tree) (inorder u) found
      → IsWf (settled m u found)
        × Writes key none (inorder m.tree) (inorder (settled m u found).tree)
        × (found ≡ is_some (lookup key (inorder m.tree)))
  settled-IsWf m key u found h b (inl (f, n, us)) = rw f (
    record {
      root = b;
      sorted = subst Sorted (sym us) h.sorted;
      sized = rw us h.sized;
      hashed = rw us h.hashed;
    },
    (λ j. rw us (written_absent key j (inorder m.tree) n)),
    rw n,
  )
  settled-IsWf m key u found h b (inr (f, (xs, v, ys, es, us))) =
      let sorted : Sorted (xs ++ ((key, v) ∷ ys)) = subst Sorted es h.sorted in
      rw f (
        record {
          root = b;
          sorted = subst Sorted (sym us) (Sorted-remove xs ys key v sorted);
          sized = omega (
            arith,
            h.sized,
            ap length es,
            ap length us,
            length-append xs ys,
            length-append xs ((key, v) ∷ ys),
          );
          hashed = inl refl;
        },
        (λ j. rw (us, es) (lookup-remove j key v xs ys sorted)),
        rw (es, lookup_present key v xs ys sorted),
      )

  -- On every well-formed map, removing a key ends, succeeds and gives a well-formed map, in which the
  -- key has no value and every other key what it had. The result says whether the key was there.
  pub map_remove-IsWf :
      (m : Map K V) (key j : K)
      → IsWf m
      → (m' : Map K V) × (map_remove m key ≡ some (m', is_some (map_get m key)))
        × IsWf m'
        × (map_get m' j ≡ written key j none (map_get m j))
  unfolding map_remove
  map_remove-IsWf m key j h =
      let (u, found, q, es, b) = remove_lem m.tree key h.root h.sorted in
      let (wf, w, f) = settled-IsWf m key u found h b es in
      (
        settled m u found,
        rw (q, map_get-lookup m key h.sorted) (rw f),
        wf,
        map_get-Writes m (settled m u found) key j none h wf w,
      )

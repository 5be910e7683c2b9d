-- ===== src/Map/Merge.antt =====
-- src/c/data.c, `iot_data_map_merge` as a whole.
use mathlib.Core.Path.{subst}
use iotech_c_utils.Common.{inl, inr, ◌≡◌, refl, ◌∙◌, arith, List, [], ◌∷◌, none, some}
use iotech_c_utils.Order.{KeyOrder, Sign-cases}
use iotech_c_utils.Sorted.{Sorted, lookup, lookup_above, or_else, written}
use iotech_c_utils.RbTree.{inorder}
use iotech_c_utils.Map.{Hashed, Map, map_get, merge_entries, map_merge}
use iotech_c_utils.Map.Iterate.{entries_lem}
use iotech_c_utils.Map.Invariant.{IsWf, map_get-lookup}
use iotech_c_utils.Map.Add.{map_add_lem}

module _ {ℓ} {K V : Type ℓ} ⦃o : KeyOrder K⦄ ⦃hk : Hashed K⦄ ⦃hv : Hashed V⦄ where
  -- The lookups after the entries were added, the added ones first.
  abbrev Merges : List (K × V) → List (K × V) → List (K × V) → Type ℓ
  Merges es old us = (j : K) → lookup j us ≡ or_else (lookup j es) (lookup j old)

  written-or_else :
      (key j : K) (v : V) (es old : List (K × V))
      → Sorted ((key, v) ∷ es)
      → or_else (lookup j es) (written key j (some v) (lookup j old))
        ≡ or_else (lookup j ((key, v) ∷ es)) (lookup j old)
  written-or_else key j v es old h = elim (Sign-cases (o.cmp key j)) [
    | inl e ↦ ground (arith, e)
    | inr (inl e) ↦
        let absent = subst (λ i. lookup i es ≡ none) (o.cmp_eq key j e) (lookup_above key es h.0) in
        ground (arith, e, absent)
    | inr (inr e) ↦ ground (arith, e)
  ]

  merge_entries-IsWf :
      (es : List (K × V)) (m : Map K V)
      → Sorted es
      → IsWf m
      → (m' : Map K V) × (merge_entries m es ≡ some m')
        × IsWf m'
        × Merges es (inorder m.tree) (inorder m'.tree)
  unfolding merge_entries
  merge_entries-IsWf [] m h wf = (m, refl, wf, λ j. refl)
  merge_entries-IsWf ((k, v) ∷ es) m h wf =
      let (m1, q, wf1, w, e) = map_add_lem m k v wf in
      let (m', q', wf', w') = merge_entries-IsWf es m1 h.1 wf1 in
      (m', rw q q', wf', λ j. w' j ∙ rw (w j) (written-or_else k j v es (inorder m.tree) h))

  -- Merging a well-formed map into another succeeds and gives a well-formed map, in which a key has
  -- the value of the added map where it has one there, and else what it had.
  pub map_merge-IsWf :
      (m add : Map K V) (j : K)
      → IsWf m
      → IsWf add
      → (m' : Map K V) × (map_merge m add ≡ some m')
        × IsWf m'
        × (map_get m' j ≡ or_else (map_get add j) (map_get m j))
  unfolding map_merge
  map_merge-IsWf m add j h ha =
      let (m', q, wf, w) = merge_entries-IsWf (inorder add.tree) m ha.sorted h in
      (
        m',
        rw (entries_lem add) q,
        wf,
        map_get-lookup m' j wf.sorted
            ∙ rw (map_get-lookup m j h.sorted, map_get-lookup add j ha.sorted) (w j),
      )

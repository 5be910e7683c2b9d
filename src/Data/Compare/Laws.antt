-- ===== src/Data/Compare/Laws.antt =====
-- src/c/data.c, `iot_data_cmp` on values without floats, as an order for the tree of a map.
use iotech_c_utils.Common.{
  ◌↔◌, sym, suc, ℕ, ◌≡◌, refl, ap, arith, Bool, true, false, ◌&&◌, List, [], ◌∷◌, length, inl, inr,
}
use iotech_c_utils.Order.{Sign, lt, eq, gt, cmp_ui64, cmp_ui64_eq, KeyOrder}
use iotech_c_utils.Data.{
  IntType, Floats, Value, Values, Entries, null_ptr, int, string, binary, array, vector, list, dict,
  nil, cons, done, entry, int_code, element_code, ElementType, count_values, count_entries, fresh,
}
use iotech_c_utils.Data.Compare.{
  Caches, part, compare_keys, or_else, cmp_bytes, cmp_sizes, data_cmp, cmp_values, cmp_entries,
  compare_data,
}
use std.HLevel.{Σ_prop_path}
use iotech_c_utils.Data.Compare.Lex.{
  cmp_ℤ_eq, lex_refl, lex_flip, lex_unflip, lex_trans, or_else_cases,
}
use iotech_c_utils.Data.Compare.Flat.{
  flat, flat_values, flat_entries, no_float, no_floats, no_float_entries, compare_data-flat, both,
}

-- Where a comparison of two parts gives equality, so do both.
or_else_eq : (a b : Sign) → or_else a b ≡ eq → (a ≡ eq) × (b ≡ eq)
or_else_eq a b h = elim (or_else_cases a b h) [ inl e ↦ (e, rw e at h) | inr (e, k) ↦ (e, k) ]

cmp_bytes_eq : (a b : List ℕ) → cmp_bytes a b ≡ eq → a ≡ b
cmp_bytes_eq [] [] h = refl
cmp_bytes_eq [] (b ∷ bs) h = cc
cmp_bytes_eq (a ∷ as') [] h = cc
cmp_bytes_eq (a ∷ as') (b ∷ bs) h =
    let e = or_else_eq (cmp_ui64 a b) (cmp_bytes as' bs) h in
    cc (cmp_ui64_eq a b e.0, cmp_bytes_eq as' bs e.1)

int_code_eq : (t u : IntType) → int_code t ≡ int_code u → t ≡ u
int_code_eq t u h = ground arith

element_code_eq : (t u : ElementType) → element_code t ≡ element_code u → t ≡ u
element_code_eq t u h = ground arith

cmp_sizes_eq : (m n h k : ℕ) (c : Sign) → cmp_sizes m n h k c ≡ eq → (m ≡ n) × (c ≡ eq)
cmp_sizes_eq m n h k c e =
    let p = or_else_eq (cmp_ui64 m n) _ e in
    (cmp_ui64_eq m n p.0, (or_else_eq (cmp_ui64 h k) c p.1).1)

cmp_sizes_kept : (m h k : ℕ) (c : Sign) → cmp_sizes m m h k c ≡ eq → (h ≡ k) × (c ≡ eq)
cmp_sizes_kept m h k c e =
    let p = or_else_eq (cmp_ui64 h k) c (or_else_eq (cmp_ui64 m m) _ e).1 in
    (cmp_ui64_eq h k p.0, p.1)

-- The same hash is kept on both sides for each vector, list and map of a value.
abbrev mutual
  pub SameHashes : Caches → Caches → Value → Type 0
  SameHashes a b (vector vs) = (a [] ≡ b []) × AllSame a b 0 vs
  SameHashes a b (list vs) = (a [] ≡ b []) × AllSame a b 0 vs
  SameHashes a b (dict es) = (a [] ≡ b []) × EntriesSame a b 0 es
  SameHashes a b _ = Unit

  AllSame : Caches → Caches → ℕ → Values → Type 0
  AllSame a b i nil = Unit
  AllSame a b i (cons v vs) = SameHashes (part a i) (part b i) v × AllSame a b (suc i) vs

  EntriesSame : Caches → Caches → ℕ → Entries → Type 0
  EntriesSame a b i done = Unit
  EntriesSame a b i (entry k v es) =
      SameHashes (part a i) (part b i) k
      × SameHashes (part a (suc i)) (part b (suc i)) v
      × EntriesSame a b (suc (suc i)) es

module _ ⦃fl : Floats⦄ where
  mutual
    unfolding data_cmp

    content_eq :
        (a b : Caches) (v w : Value)
        → no_float v ≡ true
        → no_float w ≡ true
        → data_cmp false a b v w ≡ eq
        → v ≡ w
    content_eq a b null_ptr null_ptr p q h = refl
    content_eq a b (int t x) (int u y) p q h = ground (arith, int_code_eq t u, cmp_ℤ_eq x y)
    content_eq a b (string x) (string y) p q h = ap string (cmp_bytes_eq x y h)
    content_eq a b (binary x) (binary y) p q h =
        ap binary (cmp_bytes_eq x y (or_else_eq (cmp_ui64 (length x) (length y)) _ h).1)
    content_eq a b (array t m x) (array u n y) p q h =
        let e = or_else_eq (cmp_ui64 m n) _ h in
        let d = or_else_eq (cmp_ui64 (element_code t) (element_code u)) _ e.1 in
        cc (cmp_ui64_eq m n e.0, element_code_eq t u (cmp_ui64_eq _ _ d.0), cmp_bytes_eq x y d.1)
    content_eq a b (vector vs) (vector ws) p q h =
        let e = cmp_sizes_eq _ _ (a []) (b []) (cmp_values false a b 0 vs ws) h in
        ap vector (values_eq a b 0 vs ws p q e.0 e.1)
    content_eq a b (list vs) (list ws) p q h =
        let e = cmp_sizes_eq _ _ (a []) (b []) (cmp_values false a b 0 vs ws) h in
        ap list (values_eq a b 0 vs ws p q e.0 e.1)
    content_eq a b (dict es) (dict fs) p q h =
        let e = cmp_sizes_eq _ _ (a []) (b []) (cmp_entries false a b 0 es fs) h in
        ap dict (entries_eq a b 0 es fs p q e.0 e.1)
    content_eq a b v w p q h = ground arith

    values_eq :
        (a b : Caches) (i : ℕ) (vs ws : Values)
        → no_floats vs ≡ true
        → no_floats ws ≡ true
        → count_values vs ≡ count_values ws
        → cmp_values false a b i vs ws ≡ eq
        → vs ≡ ws
    values_eq a b i nil nil p q e h = refl
    values_eq a b i nil (cons w ws) p q e h = absurd (omega arith)
    values_eq a b i (cons v vs) nil p q e h = cc
    values_eq a b i (cons v vs) (cons w ws) p q e h =
        let d =
          or_else_eq (data_cmp false (part a i) (part b i) v w) (cmp_values false a b (suc i) vs ws)
            h in
        let x = both (no_float v) (no_floats vs) p in
        let y = both (no_float w) (no_floats ws) q in
        cc (
          content_eq (part a i) (part b i) v w x.0 y.0 d.0,
          values_eq a b (suc i) vs ws x.1 y.1 (omega arith) d.1,
        )

    entries_eq :
        (a b : Caches) (i : ℕ) (es fs : Entries)
        → no_float_entries es ≡ true
        → no_float_entries fs ≡ true
        → count_entries es ≡ count_entries fs
        → cmp_entries false a b i es fs ≡ eq
        → es ≡ fs
    entries_eq a b i done done p q e h = refl
    entries_eq a b i done (entry l w fs) p q e h = absurd (omega arith)
    entries_eq a b i (entry k v es) done p q e h = cc
    entries_eq a b i (entry k v es) (entry l w fs) p q e h =
        let d = or_else_eq (data_cmp false (part a i) (part b i) k l) _ h in
        let c =
          or_else_eq (data_cmp false (part a (suc i)) (part b (suc i)) v w)
            (cmp_entries false a b (suc (suc i)) es fs) d.1 in
        let x = both (no_float k) (no_float v && no_float_entries es) p in
        let y = both (no_float l) (no_float w && no_float_entries fs) q in
        let x' = both (no_float v) (no_float_entries es) x.1 in
        let y' = both (no_float w) (no_float_entries fs) y.1 in
        cc (
          content_eq (part a i) (part b i) k l x.0 y.0 d.0,
          content_eq (part a (suc i)) (part b (suc i)) v w x'.0 y'.0 c.0,
          entries_eq a b (suc (suc i)) es fs x'.1 y'.1 (omega arith) c.1,
        )

  mutual
    unfolding data_cmp

    data_cmp-SameHashes :
        (a b : Caches) (v : Value) → data_cmp false a b v v ≡ eq → SameHashes a b v
    data_cmp-SameHashes a b (vector vs) h =
        let e = cmp_sizes_kept (count_values vs) (a []) (b []) (cmp_values false a b 0 vs vs) h in
        (e.0, cmp_values-AllSame a b 0 vs e.1)
    data_cmp-SameHashes a b (list vs) h =
        let e = cmp_sizes_kept (count_values vs) (a []) (b []) (cmp_values false a b 0 vs vs) h in
        (e.0, cmp_values-AllSame a b 0 vs e.1)
    data_cmp-SameHashes a b (dict es) h =
        let e = cmp_sizes_kept (count_entries es) (a []) (b []) (cmp_entries false a b 0 es es) h in
        (e.0, cmp_entries-EntriesSame a b 0 es e.1)
    data_cmp-SameHashes a b _ h = tt

    cmp_values-AllSame :
        (a b : Caches) (i : ℕ) (vs : Values) → cmp_values false a b i vs vs ≡ eq → AllSame a b i vs
    cmp_values-AllSame a b i nil h = tt
    cmp_values-AllSame a b i (cons v vs) h =
        let d =
          or_else_eq (data_cmp false (part a i) (part b i) v v) (cmp_values false a b (suc i) vs vs)
            h in
        (data_cmp-SameHashes (part a i) (part b i) v d.0, cmp_values-AllSame a b (suc i) vs d.1)

    cmp_entries-EntriesSame :
        (a b : Caches) (i : ℕ) (es : Entries)
        → cmp_entries false a b i es es ≡ eq
        → EntriesSame a b i es
    cmp_entries-EntriesSame a b i done h = tt
    cmp_entries-EntriesSame a b i (entry k v es) h =
        let d = or_else_eq (data_cmp false (part a i) (part b i) k k) _ h in
        let c =
          or_else_eq (data_cmp false (part a (suc i)) (part b (suc i)) v v)
            (cmp_entries false a b (suc (suc i)) es es) d.1 in
        (
          data_cmp-SameHashes (part a i) (part b i) k d.0,
          data_cmp-SameHashes (part a (suc i)) (part b (suc i)) v c.0,
          cmp_entries-EntriesSame a b (suc (suc i)) es c.1,
        )

  mutual
    unfolding flat

    flat-SameHashes : (a b : Caches) (v : Value) → SameHashes a b v → flat a v ≡ flat b v
    flat-SameHashes a b (vector vs) s = rw (s.0, flat_values-AllSame a b 0 vs s.1) refl
    flat-SameHashes a b (list vs) s = rw (s.0, flat_values-AllSame a b 0 vs s.1) refl
    flat-SameHashes a b (dict es) s = rw (s.0, flat_entries-EntriesSame a b 0 es s.1) refl
    flat-SameHashes a b _ s = refl

    flat_values-AllSame :
        (a b : Caches) (i : ℕ) (vs : Values)
        → AllSame a b i vs
        → flat_values a i vs ≡ flat_values b i vs
    flat_values-AllSame a b i nil s = refl
    flat_values-AllSame a b i (cons v vs) s =
        cc (flat-SameHashes (part a i) (part b i) v s.0, flat_values-AllSame a b (suc i) vs s.1)

    flat_entries-EntriesSame :
        (a b : Caches) (i : ℕ) (es : Entries)
        → EntriesSame a b i es
        → flat_entries a i es ≡ flat_entries b i es
    flat_entries-EntriesSame a b i done s = refl
    flat_entries-EntriesSame a b i (entry k v es) s = cc (
      flat-SameHashes (part a i) (part b i) k s.0,
      flat-SameHashes (part a (suc i)) (part b (suc i)) v s.1,
      flat_entries-EntriesSame a b (suc (suc i)) es s.2,
    )

  same_eq :
      (a b : Caches) (v : Value) → no_float v ≡ true → SameHashes a b v → compare_data a b v v ≡ eq
  same_eq a b v p s =
      rw (compare_data-flat a b v v p p, flat-SameHashes a b v s) (lex_refl (flat b v))

  -- For two values without floats, whatever hashes their objects keep, up to date or not,
  -- `iot_data_compare` gives 0 exactly where the values have one content and the objects keep the same
  -- hash for each vector, list and map in it; and a result below 0 exactly where the result is above 0
  -- with the values exchanged.
  pub compare_data_iff :
      (a b : Caches) (v w : Value)
      → no_float v ≡ true
      → no_float w ≡ true
      → ((compare_data a b v w ≡ eq) ↔ ((v ≡ w) × SameHashes a b v))
        × ((compare_data a b v w ≡ lt) ↔ (compare_data b a w v ≡ gt))
  compare_data_iff a b v w p q = (
    (
      (λ h.
          let e = content_eq a b v w p q (unfold compare_data in h) in
          (e, data_cmp-SameHashes a b v (unfold compare_data in (rw (sym e) at h)))),
      λ (e, s). rw (sym e) (same_eq a b v p s),
    ),
    (
      (λ h.
          rw (compare_data-flat b a w v q p)
            (lex_unflip (flat a v) (flat b w) (rw (compare_data-flat a b v w p q) at h))),
      (λ h.
          rw (compare_data-flat a b v w p q)
            (lex_flip (flat b w) (flat a v) (rw (compare_data-flat b a w v q p) at h))),
    ),
  )

  -- `iot_data_compare` is transitive on values without floats, whatever hashes their objects keep.
  pub compare_data_trans :
      (a b c : Caches) (u v w : Value)
      → no_float u ≡ true
      → no_float v ≡ true
      → no_float w ≡ true
      → compare_data a b u v ≡ lt
      → compare_data b c v w ≡ lt
      → compare_data a c u w ≡ lt
  compare_data_trans a b c u v w p q r h k = rw (compare_data-flat a c u w p r) (
      lex_trans (flat a u) (flat b v) (flat c w) (rw (compare_data-flat a b u v p q) at h)
        (rw (compare_data-flat b c v w q r) at k))

  -- The keys of a map: values without floats, under the order of `iot_data_compare`.
  abbrev pub Key : Type 0
  Key = (v : Value) × (no_float v ≡ true)

  IsTrue-prop : (b : Bool) → IsProp (b ≡ true)
  IsTrue-prop b = hlevel

  pub compare_key_eq : (k l : Key) → compare_keys k.0 l.0 ≡ eq → k ≡ l
  unfolding compare_keys
  compare_key_eq k l h =
      let e : k.0 ≡ l.0 = ((compare_data_iff _ _ k.0 l.0 k.1 l.1).0.0 h).0 in
      Σ_prop_path (λ v. IsTrue-prop (no_float v)) e

  pub compare_key_refl : (k : Key) → compare_keys k.0 k.0 ≡ eq
  unfolding compare_keys
  compare_key_refl k =
      rw (compare_data-flat (fresh k.0) (fresh k.0) k.0 k.0 k.1 k.1)
        (lex_refl (flat (fresh k.0) k.0))

  -- A map whose keys are values without floats has the order that its tree needs.
  instance abbrev pub key_order : KeyOrder Key
  unfolding compare_keys
  key_order = record {
    cmp = λ k l. compare_keys k.0 l.0;
    cmp_refl = compare_key_refl;
    cmp_eq = compare_key_eq;
    cmp_flip = λ k l. (compare_data_iff _ _ l.0 k.0 l.1 k.1).1.1;
    cmp_unflip = λ k l. (compare_data_iff _ _ k.0 l.0 k.1 l.1).1.0;
    cmp_trans = λ j k l. compare_data_trans _ _ _ j.0 k.0 l.0 j.1 k.1 l.1;
  }

-- ===== src/DataList/Removal.antt =====
-- src/c/data.c: `iot_data_list_remove` as a whole.
use iotech_c_utils.Common.{
  ◌+◌, ◌-◌, ◌^◌, ◌≡◌, ◌⊎◌, refl, sym, ap, ◌∙◌, inl, inr, arith, Bool, true, false, List, [], ◌∷◌,
  ◌++◌, Option, none, some, length, length-append, All, Bool-cases, append-nil,
}
use iotech_c_utils.Map.{Hashed}
use iotech_c_utils.DataList.{
  Element, DataList, head_length, values_of, values, tail_pop, find_element, remove_element,
  list_remove,
}
use iotech_c_utils.DataList.Laws.{
  IsWf, set_length-values_of, values_of-append, head_length-set, head_pop-Pops, tail_pop-Pops,
}

module _ {ℓ} {A : Type ℓ} where
  -- The last element whose value passes the test, with what is around it.
  abbrev Finds :
      (A → Bool)
      → List (Element A)
      → Option (List (Element A) × Element A × List (Element A))
      → Type ℓ
  Finds test es r =
      ((r ≡ none) × All (λ v. test v ≡ false) (values_of es))
      ⊎ ((before : List (Element A)) × (found : Element A) × (behind : List (Element A)) × (r
            ≡ some (before, found, behind))
          × (es ≡ before ++ (found ∷ behind))
          × (test found.value ≡ true)
          × All (λ v. test v ≡ false) (values_of behind))

  find_element-Finds :
      (test : A → Bool) (es : List (Element A)) → Finds test es (find_element test es)
  find_element-Finds test [] = inl (refl, tt)
  find_element-Finds test (e ∷ es) = elim (find_element-Finds test es) [
    | inr (before, found, behind, q, p, t, n) ↦
        inr (e ∷ before, found, behind, rw q, ap (λ xs. e ∷ xs) p, t, n)
    | inl (q, n) ↦ elim (Bool-cases (test e.value)) [
      | inl t ↦ inr ([], e, es, rw (q, t), refl, t, n)
      | inr t ↦ inl (rw (q, t), (t, n))
    ]
  ]

  snoc_inj : (xs ys : List A) (x y : A) → xs ++ (x ∷ []) ≡ ys ++ (y ∷ []) → xs ≡ ys
  snoc_inj [] [] x y e = refl
  snoc_inj [] (b ∷ []) x y e = ground arith
  snoc_inj [] (b ∷ c ∷ ys) x y e = ground arith
  snoc_inj (a ∷ []) [] x y e = ground arith
  snoc_inj (a ∷ c ∷ xs) [] x y e = ground arith
  snoc_inj (a ∷ xs) (b ∷ ys) x y e = ground (arith, snoc_inj xs ys x y)

module _ {ℓ} {A : Type ℓ} ⦃h : Hashed A⦄ where
  pub remove_element-IsWf :
      (l : DataList A) (before behind : List (Element A)) (found : Element A)
      → IsWf l
      → l.elements ≡ before ++ (found ∷ behind)
      → (values (remove_element l before behind) ≡ values_of before ++ values_of behind)
        × IsWf (remove_element l before behind)
  remove_element-IsWf l [] behind found wf e = elim (head_pop-Pops l wf) [
    | inl p ↦ absurd (ground (arith, ap values_of e, p))
    | inr p ↦ (ground (arith, ap values_of e, p), p.3)
  ]
  remove_element-IsWf l (b ∷ before) [] found wf e = elim (tail_pop-Pops l wf) [
    | inl p ↦ absurd (ground (arith, ap values_of e, p))
    | inr p ↦
        let same = sym p.2 ∙ ap values_of e ∙ values_of-append (b ∷ before) (found ∷ []) in
        (
          snoc_inj (values (tail_pop l).0) (values_of (b ∷ before)) p.0 found.value same
              ∙ sym (append-nil (values_of (b ∷ before))),
          p.3,
        )
  ]
  remove_element-IsWf l (b ∷ before) (c ∷ behind) found wf e =
      let n = head_length l.elements + 2 ^ 32 - 1 in
      let rest = set_length-values_of n ((b ∷ before) ++ (c ∷ behind)) in
      let whole = ap values_of e ∙ values_of-append (b ∷ before) (found ∷ c ∷ behind) in
      let parts = values_of-append (b ∷ before) (c ∷ behind) in
      (
        rest ∙ parts,
        record {
          sized =
              head_length-set n c (b ∷ before) behind
              ∙ omega (
                arith,
                wf.sized,
                ap length whole,
                ap length rest,
                ap length parts,
                length-append (values_of (b ∷ before)) (found.value ∷ c.value ∷ values_of behind),
                length-append (values_of (b ∷ before)) (c.value ∷ values_of behind),
              );
          hashed = inl refl;
        },
      )

  -- On a well-formed list, removal takes out the value nearest to the tail that passes the test, and
  -- keeps the list well-formed; if no value passes, the result is false and the list is as it was.
  pub list_remove_lem :
      (l : DataList A) (test : A → Bool)
      → IsWf l
      → (((list_remove l test).1 ≡ false)
          × ((list_remove l test).0 ≡ l)
          × All (λ v. test v ≡ false) (values l))
        ⊎ (((list_remove l test).1 ≡ true)
            × ((before : List A) × (v : A) × (behind : List A) × (values l ≡ before ++ (v ∷ behind))
                × (test v ≡ true)
                × All (λ v. test v ≡ false) behind
                × (values (list_remove l test).0 ≡ before ++ behind)
                × IsWf (list_remove l test).0))
  list_remove_lem l test wf = elim (find_element-Finds test l.elements) [
    | inl (q, n) ↦ inl (rw (list_remove, q), rw (list_remove, q), n)
    | inr (before, found, behind, q, p, t, n) ↦
        let (vs, wf') = remove_element-IsWf l before behind found wf p in
        inr (
          rw (list_remove, q),
          (
            values_of before,
            found.value,
            values_of behind,
            ap values_of p ∙ values_of-append before (found ∷ behind),
            t,
            n,
            rw (list_remove, q) vs,
            rw (list_remove, q) wf',
          ),
        )
  ]

-- ===== src/DataList/Sweep.antt =====
-- src/c/data.c: removal through an iterator while it goes over a list.
use iotech_c_utils.Common.{
  ℕ, zero, suc, ◌+◌, ◌≤◌, ◌≡◌, refl, sym, ap, ◌∙◌, inl, inr, arith, Bool, true, false, List, [],
  ◌∷◌, ◌++◌, none, some, length, length-append, Bool-cases, append-nil, append_assoc, if◌then◌else◌,
  ◌==◌,
}
use iotech_c_utils.Map.{Hashed}
use iotech_c_utils.DataList.{Element, DataList, values_of, values, remove_element}
use iotech_c_utils.DataList.Laws.{IsWf}
use iotech_c_utils.DataList.Removal.{remove_element-IsWf}
use iotech_c_utils.DataList.Iterator.{
  ListIter, split_behind, next_index, list_iter, list_iter_next, list_iter_prev, list_iter_value,
  list_iter_remove, remove_if, remove_all,
}

module _ {ℓ} {A : Type ℓ} where
  -- The values that fail the test, in order.
  abbrev pub without : (A → Bool) → List A → List A
  without test [] = []
  without test (v ∷ vs) = if test v then without test vs else v ∷ without test vs

  without-append :
      (test : A → Bool) (vs ws : List A)
      → without test (vs ++ ws) ≡ without test vs ++ without test ws
  without-append test [] ws = refl
  without-append test (v ∷ vs) ws = elim (Bool-cases (test v)) [
    | inl t ↦ rw t (without-append test vs ws)
    | inr t ↦ rw t (ap (◌∷◌ v) (without-append test vs ws))
  ]

  length-values_of : (es : List (Element A)) → length (values_of es) ≡ length es
  length-values_of [] = refl
  length-values_of (e ∷ es) = ap suc (length-values_of es)

  split_behind-none : (k : ℕ) (es : List (Element A)) → length es ≤ k → split_behind k es ≡ none
  unfolding split_behind
  split_behind-none k [] h = refl
  split_behind-none k (e ∷ es) h =
      let rest = split_behind-none k es (omega (arith, h)) in
      let other : (length es == k) ≡ false = ground (arith, h) in rw (other, rest) refl

  -- A value with so many behind it, and what is around it.
  split_behind-some :
      (es : List (Element A)) (vs : List A) (x : A) (ws : List A)
      → values_of es ≡ vs ++ (x ∷ ws)
      → (before : List (Element A)) × (found : Element A) × (behind : List (Element A))
        × (split_behind (length ws) es ≡ some (before, found, behind))
        × (es ≡ before ++ (found ∷ behind))
        × (values_of before ≡ vs)
        × (found.value ≡ x)
        × (values_of behind ≡ ws)
  unfolding split_behind
  split_behind-some [] [] x ws e = cc
  split_behind-some [] (v ∷ vs) x ws e = cc
  split_behind-some (f ∷ es) [] x ws e =
      let h : length es ≡ length ws = ground (arith, e, length-values_of es) in
      let same : (length es == length ws) ≡ true = ground (arith, h) in
      ([], f, es, rw same refl, refl, refl, cc, cc)
  split_behind-some (f ∷ es) (v ∷ vs) x ws e =
      let e' : values_of es ≡ vs ++ (x ∷ ws) = cc in
      let (before, found, behind, q, p, a, b, c) = split_behind-some es vs x ws e' in
      let n : length es ≡ length vs + suc (length ws) =
        sym (length-values_of es) ∙ ap length e' ∙ length-append vs (x ∷ ws) in
      let other : (length es == length ws) ≡ false = ground (arith, n) in
      (f ∷ before, found, behind, rw (other, q) refl, ap (◌∷◌ f) p, cc, b, c)

  last_of :
      (vs : List A) (n : ℕ)
      → length vs ≡ suc n
      → (init : List A) × (x : A) × (vs ≡ init ++ (x ∷ [])) × (length init ≡ n)
  last_of [] n h = absurd (omega (arith, h))
  last_of (v ∷ []) n h = ([], v, refl, omega (arith, h))
  last_of (v ∷ w ∷ vs) zero h = absurd (omega (arith, h))
  last_of (v ∷ w ∷ vs) (suc n) h =
      let (init, x, e, q) = last_of (w ∷ vs) n (omega (arith, h)) in
      (v ∷ init, x, ap (◌∷◌ v) e, omega (arith, q))

module _ {ℓ} {A : Type ℓ} ⦃h : Hashed A⦄ where
  next_of_prev : (l : DataList A) (k : ℕ) → next_index (list_iter_prev l (some k)).0 ≡ k
  unfolding list_iter_prev
  next_of_prev l zero = refl
  next_of_prev l (suc k) = refl

  next_ends :
      (l : DataList A) (it : ListIter)
      → length l.elements ≤ next_index it
      → list_iter_next l it ≡ (none, false)
  unfolding list_iter_next
  next_ends l it h = rw (split_behind-none (next_index it) l.elements h, list_iter_next) refl

  -- The next element, and the body of the loop at it.
  module _ (l : DataList A) (k : ℕ) (before : List (Element A)) (found : Element A)
      (behind : List (Element A))
      (s : split_behind k l.elements ≡ some (before, found, behind)) where
    next_there : (it : ListIter) → next_index it ≡ k → list_iter_next l it ≡ (some k, true)
    unfolding list_iter_next
    next_there it i =
        let s' : split_behind (next_index it) l.elements ≡ some (before, found, behind) = rw i s in
        rw (s', list_iter_next) (ap (λ j. (some j, true)) i)

    value_there : list_iter_value l (some k) ≡ some found.value
    unfolding list_iter_value
    value_there = rw (s, list_iter_value) refl

    removes :
        list_iter_remove l (some k)
        ≡ (remove_element l before behind, (list_iter_prev l (some k)).0, true)
    unfolding list_iter_remove
    removes = rw (s, list_iter_remove) refl

    body_removes :
        (test : A → Bool)
        → test found.value ≡ true
        → remove_if test l (some k)
          ≡ (remove_element l before behind, (list_iter_prev l (some k)).0)
    unfolding remove_if
    body_removes test t = rw (value_there, t, removes, remove_if) refl

    body_keeps :
        (test : A → Bool) → test found.value ≡ false → remove_if test l (some k) ≡ (l, some k)
    unfolding remove_if
    body_keeps test t = rw (value_there, t, remove_if) refl

  remove_all_lem :
      (n : ℕ) (test : A → Bool) (l : DataList A) (it : ListIter) (vs ws : List A)
      → IsWf l
      → values l ≡ vs ++ ws
      → length vs ≡ n
      → next_index it ≡ length ws
      → (l' : DataList A) × (remove_all (suc n) test l it ≡ some l')
        × (values l' ≡ without test vs ++ ws)
        × IsWf l'
  unfolding remove_all
  remove_all_lem zero test l it (v ∷ vs) ws wf e n i = absurd (omega (arith, n))
  remove_all_lem zero test l it [] ws wf e n i =
      let len : length l.elements ≡ length ws = sym (length-values_of l.elements) ∙ ap length e in
      let over = next_ends l it (omega (arith, len, i)) in (l, rw (over, remove_all) refl, e, wf)
  remove_all_lem (suc n) test l it vs ws wf e len i =
      let (init, x, p, q) = last_of vs n len in
      let e' : values l ≡ init ++ (x ∷ ws) =
        e ∙ ap (λ us. us ++ ws) p ∙ append_assoc init (x ∷ []) ws in
      let (before, found, behind, s, parts, a, b, c) = split_behind-some l.elements init x ws e' in
      let there = next_there l (length ws) before found behind s it i in
      let split = ap (without test) p ∙ without-append test init (x ∷ []) in
      elim (Bool-cases (test x)) [
        | inl t ↦
            let body = body_removes l (length ws) before found behind s test (rw b t) in
            let (vals, wf') = remove_element-IsWf l before behind found wf parts in
            let vals' : values (remove_element l before behind) ≡ init ++ ws =
              vals ∙ rw (a, c) refl in
            let (l', r, w, f) =
              remove_all_lem n test (remove_element l before behind)
                (list_iter_prev l (some (length ws))).0 init ws wf' vals' q
                (next_of_prev l (length ws)) in
            let one : without test (x ∷ []) ≡ [] = rw t refl in
            let all = split ∙ rw one (append-nil (without test init)) in
            (l', rw (there, body, remove_all) r, w ∙ ap (λ us. us ++ ws) (sym all), f)
        | inr t ↦
            let body = body_keeps l (length ws) before found behind s test (rw b t) in
            let (l', r, w, f) =
              remove_all_lem n test l (some (length ws)) init (x ∷ ws) wf e' q refl in
            let one : without test (x ∷ []) ≡ x ∷ [] = rw t refl in
            let all = split ∙ ap (λ us. without test init ++ us) one in
            (
              l',
              rw (there, body, remove_all) r,
              w
                  ∙ sym (append_assoc (without test init) (x ∷ []) ws)
                  ∙ ap (λ us. us ++ ws) (sym all),
              f,
            )
      ]

  -- A loop over `iot_data_list_iter_next` from a new iterator, which calls `iot_data_list_iter_remove`
  -- on each value that passes a test, ends after as many rounds as the list has elements: it leaves
  -- the other values in their order, and a well-formed list.
  pub remove_all-without :
      (test : A → Bool) (l : DataList A)
      → IsWf l
      → (l' : DataList A) × (remove_all (suc (length (values l))) test l (list_iter l) ≡ some l')
        × (values l' ≡ without test (values l))
        × IsWf l'
  remove_all-without test l wf =
      let (l', r, v, wf') =
        remove_all_lem (length (values l)) test l none (values l) [] wf
          (sym (append-nil (values l))) refl refl in
      (l', r, v ∙ append-nil (without test (values l)), wf')

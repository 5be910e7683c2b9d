-- ===== src/DataList/Laws.antt =====
-- src/c/data.c, `iot_data_list_t`: what pushing and popping do to the values, the length and the hash.
use iotech_c_utils.Common.{
  ℕ, suc, ◌+◌, ◌-◌, ◌%◌, ◌^◌, ◌≡◌, ◌⊎◌, refl, sym, ap, ◌∙◌, inl, inr, arith, bit_xor, Bool, true,
  List, [], ◌∷◌, ◌++◌, Option, none, some, length, length-append,
}
use iotech_c_utils.Common.Xor.{bit_xor_comm, bit_xor_left_comm}
use iotech_c_utils.Map.{Hashed}
use iotech_c_utils.DataList.{
  Element, DataList, head_length, values_of, values, set_length, split_tail, head_pop, tail_pop,
  head_push, tail_push,
}

module _ {ℓ} {A : Type ℓ} where
  pub set_length-values_of :
      (n : ℕ) (es : List (Element A)) → values_of (set_length n es) ≡ values_of es
  set_length-values_of n [] = refl
  set_length-values_of n (e ∷ es) = refl

  pub values_of-append :
      (xs ys : List (Element A)) → values_of (xs ++ ys) ≡ values_of xs ++ values_of ys
  values_of-append [] ys = refl
  values_of-append (e ∷ xs) ys = ap (λ vs. e.value ∷ vs) (values_of-append xs ys)

  pub split_tail_lem :
      (e : Element A) (es : List (Element A))
      → values_of (split_tail e es).0 ++ ((split_tail e es).1.value ∷ []) ≡ e.value ∷ values_of es
  split_tail_lem e [] = refl
  split_tail_lem e (f ∷ es) = ap (λ vs. e.value ∷ vs) (split_tail_lem f es)

module _ {ℓ} {A : Type ℓ} ⦃h : Hashed A⦄ where
  abbrev pub values_hash : List A → ℕ
  values_hash [] = 0
  values_hash (v ∷ vs) = bit_xor (h.hash_of v) (values_hash vs)

  pub values_hash-append :
      (vs : List A) (v : A) → values_hash (vs ++ (v ∷ [])) ≡ bit_xor (h.hash_of v) (values_hash vs)
  values_hash-append [] v = refl
  values_hash-append (w ∷ vs) v =
      rw (values_hash-append vs v) (bit_xor_left_comm (h.hash_of w) (h.hash_of v) (values_hash vs))

  -- The head carries the number of elements, and a hash that is not out of date is that of the values.
  pub record IsWf (l : DataList A) : Type ℓ where
    pub sized : head_length l.elements ≡ length (values l) % 2 ^ 32
    pub hashed : (l.rehash ≡ true) ⊎ (l.hash ≡ values_hash (values l))

  hash_pushed :
      (l : DataList A) (v : A)
      → IsWf l
      → (l.rehash ≡ true)
        ⊎ (bit_xor l.hash (h.hash_of v) ≡ bit_xor (h.hash_of v) (values_hash (values l)))
  hash_pushed l v wf = elim wf.hashed [
    | inl e ↦ inl e
    | inr e ↦ inr (bit_xor_comm l.hash (h.hash_of v) ∙ ap (bit_xor (h.hash_of v)) e)
  ]

  -- Pushing at the head puts a value in front, and keeps the length and the hash.
  pub head_push-IsWf :
      (l : DataList A) (v : A)
      → IsWf l
      → IsWf (head_push l v) × (values (head_push l v) ≡ v ∷ values l)
  head_push-IsWf l v wf =
      (record { sized = omega (arith, wf.sized); hashed = hash_pushed l v wf }, refl)

  pub head_length-set :
      (n : ℕ) (e : Element A) (xs ys : List (Element A))
      → head_length (set_length n (xs ++ (e ∷ ys))) ≡ n % 2 ^ 32
  head_length-set n e [] ys = refl
  head_length-set n e (x ∷ xs) ys = refl

  snoc_length :
      (es : List (Element A)) (n : ℕ) (e : Element A)
      → head_length (set_length n (es ++ (e ∷ []))) ≡ n % 2 ^ 32
  snoc_length es n e = head_length-set n e es []

  -- Pushing at the tail puts a value behind, and keeps the length and the hash.
  pub tail_push-IsWf :
      (l : DataList A) (v : A)
      → IsWf l
      → IsWf (tail_push l v) × (values (tail_push l v) ≡ values l ++ (v ∷ []))
  tail_push-IsWf l v wf =
      let new : Element A = record { value = v; length = 0 } in
      let grown =
        set_length-values_of (head_length l.elements + 1) (l.elements ++ (new ∷ []))
        ∙ values_of-append l.elements (new ∷ []) in
      (
        record {
          sized =
              snoc_length l.elements (head_length l.elements + 1) new
              ∙ omega (arith, wf.sized, ap length grown, length-append (values l) (v ∷ []));
          hashed = elim (hash_pushed l v wf) [
            | inl e ↦ inl e
            | inr e ↦ inr (e ∙ sym (values_hash-append (values l) v) ∙ ap values_hash (sym grown))
          ];
        },
        grown,
      )

  -- What a pop leaves: nothing to take and the list as it was, or one value `v`, with the values left
  -- joined to it in the way `joins` tells.
  abbrev pub Pops : (A → List A → List A) → DataList A → DataList A × Option A → Type ℓ
  Pops joins l r =
      ((r.1 ≡ none) × (values l ≡ []) × (r.0 ≡ l))
      ⊎ ((v : A) × (r.1 ≡ some v) × (values l ≡ joins v (values r.0)) × IsWf r.0)

  popped_length :
      (n : ℕ) (es : List (Element A))
      → n ≡ suc (length (values_of es)) % 2 ^ 32
      → head_length (set_length (n + 2 ^ 32 - 1) es)
        ≡ length (values_of (set_length (n + 2 ^ 32 - 1) es)) % 2 ^ 32
  popped_length n [] e = refl
  popped_length n (x ∷ es) e = omega (arith, e)

  head_pop_at :
      (es : List (Element A)) (hash : ℕ) (rehash : Bool)
      → IsWf (record { elements = es; hash = hash; rehash = rehash })
      → Pops
          (λ v vs. v ∷ vs)
          (record { elements = es; hash = hash; rehash = rehash })
          (head_pop (record { elements = es; hash = hash; rehash = rehash }))
  head_pop_at [] hash rehash wf = inl (refl, refl, refl)
  head_pop_at (e ∷ es) hash rehash wf = inr (
    e.value,
    refl,
    ap (λ vs. e.value ∷ vs) (sym (set_length-values_of (e.length + 2 ^ 32 - 1) es)),
    record { sized = popped_length e.length es wf.sized; hashed = inl refl },
  )

  -- On a well-formed list the pop at the head takes the first value, or says that there is none.
  pub head_pop-Pops : (l : DataList A) → IsWf l → Pops (λ v vs. v ∷ vs) l (head_pop l)
  head_pop-Pops l wf = head_pop_at l.elements l.hash l.rehash wf

  tail_pop_at :
      (es : List (Element A)) (hash : ℕ) (rehash : Bool)
      → IsWf (record { elements = es; hash = hash; rehash = rehash })
      → Pops
          (λ v vs. vs ++ (v ∷ []))
          (record { elements = es; hash = hash; rehash = rehash })
          (tail_pop (record { elements = es; hash = hash; rehash = rehash }))
  tail_pop_at [] hash rehash wf = inl (refl, refl, refl)
  tail_pop_at (e ∷ es) hash rehash wf =
      let front = (split_tail e es).0 in
      let last = (split_tail e es).1.value in
      let parts : values_of front ++ (last ∷ []) ≡ e.value ∷ values_of es = split_tail_lem e es in
      let counted : e.length ≡ suc (length (values_of front)) % 2 ^ 32 =
        omega (arith, wf.sized, ap length parts, length-append (values_of front) (last ∷ [])) in
      inr (
        last,
        refl,
        sym parts
            ∙ ap (λ vs. vs ++ (last ∷ []))
                (sym (set_length-values_of (e.length + 2 ^ 32 - 1) front)),
        record { sized = popped_length e.length front counted; hashed = inl refl },
      )

  -- On a well-formed list the pop at the tail takes the last value, or says that there is none.
  pub tail_pop-Pops : (l : DataList A) → IsWf l → Pops (λ v vs. vs ++ (v ∷ [])) l (tail_pop l)
  tail_pop-Pops l wf = tail_pop_at l.elements l.hash l.rehash wf

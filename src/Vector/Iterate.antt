-- ===== src/Vector/Iterate.antt =====
-- src/c/data.c: loops with the iterator of a vector, forwards and backwards.
use mathlib.Core.Path.{subst}
use mathlib.Core.List.{reverse, reverse_aux, reverse-reverse}
use iotech_c_utils.Common.{
  ℕ, zero, suc, ◌+◌, ◌-◌, ◌<◌, ◌≤◌, ltb, ◌==◌, ◌≡◌, refl, sym, ap, ◌∙◌, arith, true, false, List,
  [], ◌∷◌, ◌++◌, Option, some, length, length-append, append_assoc,
}
use iotech_c_utils.Vector.{Vector, size, slot_at, vector_visit, vector_visit_back, vector_iter}

module _ {ℓ} {A : Type ℓ} where
  slot_at-append :
      (pre : List (Option A)) (s : Option A) (rest : List (Option A))
      → slot_at (pre ++ (s ∷ rest)) (length pre) ≡ some s
  slot_at-append [] s rest = refl
  slot_at-append (p ∷ pre) s rest = slot_at-append pre s rest

  -- One round, forwards and backwards.
  visit_step :
      (v : Vector A) (i f : ℕ) (s : Option A)
      → i + 1 < size v
      → slot_at v.slots (i + 1) ≡ some s
      → vector_visit (suc f) v i ≡ s ∷ vector_visit f v (i + 1)
  unfolding vector_visit
  visit_step v i f s h e =
      let a : ltb i (size v) ≡ true = ground arith in
      let b : ltb (i + 1) (size v) ≡ true = ground arith in rw (a, b, e)

  visit_end : (v : Vector A) (i f : ℕ) → i + 1 ≡ size v → vector_visit (suc f) v i ≡ []
  unfolding vector_visit
  visit_end v i f h =
      let a : ltb i (size v) ≡ true = ground arith in
      let b : ltb (i + 1) (size v) ≡ false = ground arith in rw (a, b)

  back_step :
      (v : Vector A) (i f : ℕ) (s : Option A)
      → suc i ≤ size v
      → slot_at v.slots i ≡ some s
      → vector_visit_back (suc f) v (suc i) ≡ s ∷ vector_visit_back f v i
  unfolding vector_visit_back
  back_step v i f s h e =
      let a : ltb i (size v) ≡ true = ground arith in
      let b : (suc i == 0) ≡ false = ground arith in
      let c : suc i - 1 ≡ i = omega arith in rw (b, c, a, e)

  back_end : (v : Vector A) (f : ℕ) → vector_visit_back (suc f) v 0 ≡ []
  unfolding vector_visit_back
  back_end v f = let a : ltb (size v) (size v) ≡ false = ground arith in rw a

  visit_after :
      (v : Vector A) (pre : List (Option A)) (s : Option A) (rest : List (Option A)) (f : ℕ)
      → v.slots ≡ pre ++ (s ∷ rest)
      → length rest < f
      → vector_visit f v (length pre) ≡ rest
  visit_after v pre s rest zero e h = absurd (omega arith)
  visit_after v pre s [] (suc f) e h =
      visit_end v (length pre) f (omega (arith, ap length e, length-append pre (s ∷ [])))
  visit_after v pre s (t ∷ rest) (suc f) e h =
      let e' : v.slots ≡ (pre ++ (s ∷ [])) ++ (t ∷ rest) =
        e ∙ sym (append_assoc pre (s ∷ []) (t ∷ rest)) in
      let n : length (pre ++ (s ∷ [])) ≡ length pre + 1 = length-append pre (s ∷ []) in
      let at' = slot_at-append (pre ++ (s ∷ [])) t rest in
      let there : slot_at v.slots (length pre + 1) ≡ some t = rw (e', ← n) at' in
      let ih = visit_after v (pre ++ (s ∷ [])) t rest f e' (omega arith) in
      let room : length pre + 1 < size v =
        omega (arith, ap length e, length-append pre (s ∷ t ∷ rest)) in
      visit_step v (length pre) f t room there ∙ ap (λ xs. t ∷ xs) (rw (← n) ih)

  -- From `iot_data_vector_iter` on.
  pub visit_all : (v : Vector A) → vector_visit (suc (size v)) v (vector_iter v) ≡ v.slots
  unfolding vector_visit
  visit_all v = start v.slots refl
    where
      start :
          (ss : List (Option A))
          → v.slots ≡ ss
          → vector_visit (suc (size v)) v (vector_iter v) ≡ v.slots
      start [] e = rw e (ground arith)
      start (s ∷ ss) e =
          let rest = visit_after v [] s ss (size v) e (omega (arith, ap length e)) in
          let a : ltb (size v) (size v) ≡ false = ground arith in
          let b : ltb 0 (size v) ≡ true = ground (arith, ap length e) in rw (a, b, rest) (rw e)

  slot_at-reverse :
      (q rest : List (Option A)) (k : ℕ)
      → slot_at (reverse_aux q rest) (length q + k) ≡ slot_at rest k
  slot_at-reverse [] rest k = let e : 0 + k ≡ k = omega arith in rw e
  slot_at-reverse (s ∷ q) rest k =
      let e : suc (length q) + k ≡ length q + suc k = omega arith in
      rw e (slot_at-reverse q (s ∷ rest) (suc k))

  length-reverse_aux :
      (q rest : List (Option A)) → length (reverse_aux q rest) ≡ length q + length rest
  length-reverse_aux [] rest = omega arith
  length-reverse_aux (s ∷ q) rest = omega (arith, length-reverse_aux q (s ∷ rest))

  visit_before :
      (v : Vector A) (q rest : List (Option A)) (f : ℕ)
      → v.slots ≡ reverse_aux q rest
      → length q < f
      → vector_visit_back f v (length q) ≡ q
  visit_before v q rest zero e h = absurd (omega arith)
  visit_before v [] rest (suc f) e h = back_end v f
  visit_before v (s ∷ q) rest (suc f) e h =
      let z : length q + 0 ≡ length q = omega arith in
      let there : slot_at v.slots (length q) ≡ some s =
        rw e (rw z at (slot_at-reverse q (s ∷ rest) 0)) in
      let room : suc (length q) ≤ size v =
        omega (arith, ap length e, length-reverse_aux q (s ∷ rest)) in
      back_step v (length q) f s room there
      ∙ ap (λ xs. s ∷ xs) (visit_before v q (s ∷ rest) f e (omega arith))

  -- From `iot_data_vector_iter` on, for every vector: a loop with `iot_data_vector_iter_next` ends after
  -- as many rounds as the vector has slots and meets each slot once, empty ones included, in order; and
  -- one with `iot_data_vector_iter_prev` meets them in the reverse order.
  pub vector_visit-vector_visit_back :
      (v : Vector A)
      → (vector_visit (suc (size v)) v (vector_iter v) ≡ v.slots)
        × (vector_visit_back (suc (size v)) v (vector_iter v) ≡ reverse v.slots)
  vector_visit-vector_visit_back v =
      (visit_all v, subst (λ n. vector_visit_back (suc (size v)) v n ≡ reverse v.slots) same back)
    where
      same : length (reverse v.slots) ≡ size v
      same = omega (arith, length-reverse_aux v.slots [])

      whole : v.slots ≡ reverse_aux (reverse v.slots) []
      whole = sym (reverse-reverse v.slots)

      back : vector_visit_back (suc (size v)) v (length (reverse v.slots)) ≡ reverse v.slots
      back = visit_before v (reverse v.slots) [] (suc (size v)) whole (omega (arith, same))

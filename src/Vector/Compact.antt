-- ===== src/Vector/Compact.antt =====
-- src/c/data.c, `iot_data_vector_compact`: the values and the empty slots.
use iotech_c_utils.Common.{
  ℕ, zero, suc, ◌+◌, ◌-◌, ◌≤◌, ◌≡◌, refl, ap, arith, List, [], ◌∷◌, Option, none, some, length,
  Option-cases, inl, inr,
}
use iotech_c_utils.Vector.{Vector, size, resize_slots, take_next, compact_slots, vector_compact}

module _ {ℓ} {A : Type ℓ} where
  -- The values of the slots that are not empty.
  abbrev pub present : List (Option A) → List A
  present [] = []
  present (none ∷ ss) = present ss
  present (some a ∷ ss) = a ∷ present ss

  abbrev pub full : List A → List (Option A)
  full [] = []
  full (a ∷ xs) = some a ∷ full xs

  take_next-some :
      (ss : List (Option A)) {a : A} {ss' : List (Option A)}
      → take_next ss ≡ some (a, ss')
      → (present ss ≡ a ∷ present ss') × (length ss' ≡ length ss)
  unfolding take_next
  take_next-some [] e = cc
  take_next-some (some b ∷ ss) e = ground arith
  take_next-some (none ∷ ss) e = elim (Option-cases (take_next ss)) [
    | inl d ↦ cc
    | inr ((b, ss2), d) ↦ ground (arith, take_next-some ss d)
  ]

  take_next-none : (ss : List (Option A)) → take_next ss ≡ none → present ss ≡ []
  unfolding take_next
  take_next-none [] e = refl
  take_next-none (some b ∷ ss) e = cc
  take_next-none (none ∷ ss) e = elim (Option-cases (take_next ss)) [
    | inl d ↦ take_next-none ss d
    | inr (r, d) ↦ cc
  ]

  length-full : (xs : List A) → length (full xs) ≡ length xs
  length-full [] = refl
  length-full (a ∷ xs) = ap suc (length-full xs)

  compact_nothing :
      (n : ℕ) (ss : List (Option A))
      → take_next ss ≡ none
      → compact_slots (suc n) (none ∷ ss)
        ≡ (none ∷ (compact_slots n ss).0, (compact_slots n ss).1 + 1)
  unfolding compact_slots
  compact_nothing n ss e = rw (e, compact_slots)

  compact_moves :
      (n : ℕ) (ss : List (Option A)) {a : A} {ss' : List (Option A)}
      → take_next ss ≡ some (a, ss')
      → compact_slots (suc n) (none ∷ ss)
        ≡ (some a ∷ (compact_slots n ss').0, (compact_slots n ss').1)
  unfolding compact_slots
  compact_moves n ss e = rw (e, compact_slots)

  -- The slots after the loop: the values, then empty slots, as many as it counts.
  compact_slots_lem :
      (n : ℕ) (ss : List (Option A))
      → length ss ≤ n
      → (length (compact_slots n ss).0 ≡ length ss)
        × ((compact_slots n ss).1 + length (present ss) ≡ length ss)
        × (resize_slots (compact_slots n ss).0 (length (present ss)) ≡ full (present ss))
  unfolding compact_slots
  compact_slots_lem zero [] h = (refl, refl, refl)
  compact_slots_lem (suc n) [] h = (refl, refl, refl)
  compact_slots_lem zero (s ∷ ss) h = absurd (omega arith)
  compact_slots_lem (suc n) (some a ∷ ss) h =
      let ih = compact_slots_lem n ss (omega arith) in
      (omega (arith, ih.0), omega (arith, ih.1), ap (λ xs. some a ∷ xs) ih.2)
  compact_slots_lem (suc n) (none ∷ ss) h = elim (Option-cases (take_next ss)) [
    | inl d ↦
        let ih = compact_slots_lem n ss (omega arith) in
        let p = take_next-none ss d in
        rw (compact_nothing n ss d, p) (omega (arith, ih.0), omega (arith, ih.1, ap length p), refl)
    | inr ((a, ss'), d) ↦
        let t = take_next-some ss d in
        let ih = compact_slots_lem n ss' (omega (arith, t.1)) in
        rw (compact_moves n ss d, t.0)
          (omega (arith, ih.0, t.1), omega (arith, ih.1, t.1), ap (λ xs. some a ∷ xs) ih.2)
  ]

  -- `iot_data_vector_compact` leaves the values of the slots that were not empty, in their order and
  -- in full slots, and returns their number, which is the new size.
  pub vector_compact_lem :
      (v : Vector A)
      → ((vector_compact v).0.slots ≡ full (present v.slots))
        × ((vector_compact v).1 ≡ length (present v.slots))
        × (size (vector_compact v).0 ≡ (vector_compact v).1)
  unfolding vector_compact
  vector_compact_lem v =
      let l = compact_slots_lem (size v) v.slots (omega arith) in
      let n : size v - (compact_slots (size v) v.slots).1 ≡ length (present v.slots) =
        omega (arith, l.1) in
      rw (n, l.2) (refl, refl, length-full (present v.slots))

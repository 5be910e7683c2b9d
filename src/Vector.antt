-- ===== src/Vector.antt =====
-- src/c/data.c, `iot_data_vector_t`: slots, each empty or with a value, under a cached hash; and the
-- iterators of vectors and arrays. Freeing an old value is not modelled.
pub mod Iterate
pub mod Compact
pub mod Hash
mod Tests
use iotech_c_utils.Common.{
  ℕ, zero, suc, ◌+◌, ◌-◌, bit_xor, Bool, true, false, not, ◌||◌, List, [], ◌∷◌, ◌++◌, Option, none,
  some, if◌then◌else◌, ◌==◌, ltb, length,
}
use iotech_c_utils.RbTree.{◌>>=◌}
use iotech_c_utils.Map.{Hashed}

pub record Vector {ℓ} (A : Type ℓ) : Type ℓ where
  pub slots : List (Option A)
  pub hash : ℕ
  pub rehash : Bool

-- `iot_data_array_iter`, `_next`, `_has_next` and `_prev` of an index, for an array of this length.
abbrev pub array_iter : ℕ → ℕ
array_iter n = n

abbrev pub array_iter_next : ℕ → ℕ → ℕ × Bool
array_iter_next n i = let j = if ltb i n then i + 1 else 0 in (j, ltb j n)

abbrev pub array_iter_has_next : ℕ → ℕ → Bool
array_iter_has_next n i = i == n || ltb (i + 1) n

abbrev pub array_iter_prev : ℕ → ℕ → ℕ × Bool
array_iter_prev n i = let j = if i == 0 then n else i - 1 in (j, ltb j n)

module _ {ℓ} {A : Type ℓ} where
  -- `iot_data_vector_size`.
  abbrev pub size : Vector A → ℕ
  size v = length v.slots

  -- `iot_data_alloc_vector`.
  abbrev pub empty_slots : ℕ → List (Option A)
  empty_slots zero = []
  empty_slots (suc n) = none ∷ empty_slots n

  abbrev pub alloc_vector : ℕ → Vector A
  alloc_vector n = record { slots = empty_slots n; hash = 0; rehash = false }

  -- The slot at an index; `none` outside the array.
  abbrev pub slot_at : List (Option A) → ℕ → Option (Option A)
  slot_at [] i = none
  slot_at (s ∷ ss) zero = some s
  slot_at (s ∷ ss) (suc i) = slot_at ss i

  abbrev pub set_slot : List (Option A) → ℕ → Option A → List (Option A)
  set_slot [] i val = []
  set_slot (s ∷ ss) zero val = val ∷ ss
  set_slot (s ∷ ss) (suc i) val = s ∷ set_slot ss i val

  -- `iot_data_vector_get`.
  abbrev pub vector_get : Vector A → ℕ → Option (Option A)
  vector_get v i = slot_at v.slots i

  -- The first slots of a size that is smaller, or more that are empty.
  abbrev pub resize_slots : List (Option A) → ℕ → List (Option A)
  resize_slots ss zero = []
  resize_slots [] (suc n) = none ∷ resize_slots [] n
  resize_slots (s ∷ ss) (suc n) = s ∷ resize_slots ss n

  -- `iot_data_vector_resize`.
  unfoldable pub vector_resize : Vector A → ℕ → Vector A
  vector_resize v n = record v { slots = resize_slots v.slots n; rehash = not (size v == n) }

  -- The inner loop of `iot_data_vector_compact`: the first value among the slots is taken out.
  unfoldable pub take_next : List (Option A) → Option (A × List (Option A))
  take_next [] = none
  take_next (some a ∷ ss) = some (a, none ∷ ss)
  take_next (none ∷ ss) = take_next ss >>= λ r. some (r.0, none ∷ r.1)

  -- The outer loop, over the slots from `i` on, with the slots and the reduction of `new_size`.
  unfoldable pub compact_slots : ℕ → List (Option A) → List (Option A) × ℕ
  unfolding take_next
  compact_slots zero ss = (ss, 0)
  compact_slots (suc rounds) [] = ([], 0)
  compact_slots (suc rounds) (some a ∷ ss) =
      let rest = compact_slots rounds ss in (some a ∷ rest.0, rest.1)
  compact_slots (suc rounds) (none ∷ ss) = elim (take_next ss) [
    | none ↦ let rest = compact_slots rounds ss in (none ∷ rest.0, rest.1 + 1)
    | some (a, ss') ↦ let rest = compact_slots rounds ss' in (some a ∷ rest.0, rest.1)
  ]

  -- `iot_data_vector_compact`, with the new size that it returns.
  unfoldable pub vector_compact : Vector A → Vector A × ℕ
  unfolding compact_slots
  vector_compact v =
      let r = compact_slots (size v) v.slots in
      let new_size = size v - r.1 in (record v { slots = resize_slots r.0 new_size }, new_size)

  -- `iot_data_vector_iter` and its steps, by the index that the iterator holds.
  abbrev pub vector_iter : Vector A → ℕ
  vector_iter v = array_iter (size v)

  abbrev pub vector_iter_next : Vector A → ℕ → ℕ × Bool
  vector_iter_next v i = array_iter_next (size v) i

  abbrev pub vector_iter_has_next : Vector A → ℕ → Bool
  vector_iter_has_next v i = array_iter_has_next (size v) i

  abbrev pub vector_iter_prev : Vector A → ℕ → ℕ × Bool
  vector_iter_prev v i = array_iter_prev (size v) i

  -- `iot_data_vector_iter_value`, NULL at the end and for an empty slot.
  abbrev pub vector_iter_value : Vector A → ℕ → Option A
  vector_iter_value v i = slot_at v.slots i >>= λ s. s

  -- `while (iot_data_vector_iter_next (&iter))`, with fuel for its rounds: the values it meets.
  unfoldable pub vector_visit : ℕ → Vector A → ℕ → List (Option A)
  vector_visit zero v i = []
  vector_visit (suc fuel) v i =
      let step = vector_iter_next v i in
      let rest = vector_visit fuel v step.0 in
      if step.1 then vector_iter_value v step.0 ∷ rest else []

  unfoldable pub vector_visit_back : ℕ → Vector A → ℕ → List (Option A)
  vector_visit_back zero v i = []
  vector_visit_back (suc fuel) v i =
      let step = vector_iter_prev v i in
      let rest = vector_visit_back fuel v step.0 in
      if step.1 then vector_iter_value v step.0 ∷ rest else []

  -- The loop of `iot_data_vector_find` over the values that the iteration meets.
  unfoldable pub find_in : (Option A → Bool) → List (Option A) → Option A
  find_in cmp [] = none
  find_in cmp (s ∷ ss) = if cmp s then s else find_in cmp ss

  unfoldable pub vector_find : Vector A → (Option A → Bool) → Option A
  unfolding vector_visit find_in
  vector_find v cmp = find_in cmp (vector_visit (suc (size v)) v (vector_iter v))

module _ {ℓ} {A : Type ℓ} ⦃ha : Hashed A⦄ where
  -- `iot_data_hash` of a slot.
  abbrev pub slot_hash : Option A → ℕ
  slot_hash none = 0
  slot_hash (some a) = ha.hash_of a

  -- `iot_data_vector_add`, which asserts that the index is below the size.
  abbrev pub put : Vector A → ℕ → Option A → Option A → Vector A
  put v i val (some old) = record v { slots = set_slot v.slots i val; rehash = true }
  put v i val none = record v {
    slots = set_slot v.slots i val;
    hash = bit_xor v.hash (slot_hash val);
  }

  unfoldable pub vector_add : Vector A → ℕ → Option A → Option (Vector A)
  vector_add v i val = slot_at v.slots i >>= λ old. some (put v i val old)

  -- `iot_data_vector_iter_replace_value`, with the value that it returns.
  abbrev pub replace_at : Vector A → ℕ → A → Option (Option A) → Vector A × Option A
  replace_at v i val none = (v, none)
  replace_at v i val (some old) = (put v i (some val) old, old)

  unfoldable pub replace_value : Vector A → ℕ → A → Vector A × Option A
  replace_value v i val = replace_at v i val (slot_at v.slots i)

  -- The recomputation in `iot_data_hash`, and the hash of a vector.
  unfoldable pub xor_all : ℕ → List (Option A) → ℕ
  xor_all h [] = h
  xor_all h (s ∷ ss) = xor_all (bit_xor h (slot_hash s)) ss

  unfoldable pub vector_hash : Vector A → Vector A × ℕ
  unfolding xor_all vector_visit
  vector_hash v =
      let h = xor_all 0 (vector_visit (suc (size v)) v (vector_iter v)) in
      let v' = if v.rehash then record v { hash = h; rehash = false } else v in (v', v'.hash)

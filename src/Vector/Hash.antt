-- ===== src/Vector/Hash.antt =====
-- src/c/data.c: the cached hash of a vector under `iot_data_vector_add`, resizing and compaction.
use iotech_c_utils.Common.{
  ℕ, zero, suc, ◌≡◌, refl, sym, ap, ◌∙◌, arith, bit_xor, true, false, List, [], ◌∷◌, Option, none,
  some, Option-cases, ◌⊎◌, inl, inr, ==_self,
}
use iotech_c_utils.Common.Xor.{bit_xor_comm, bit_xor_assoc, bit_xor-zero, zero-bit_xor}
use iotech_c_utils.Map.{Hashed}
use iotech_c_utils.Vector.{
  Vector, size, slot_at, set_slot, slot_hash, vector_add, vector_resize, vector_compact, xor_all,
  vector_hash, vector_visit, vector_iter,
}
use iotech_c_utils.Vector.Iterate.{vector_visit-vector_visit_back}
use iotech_c_utils.Vector.Compact.{present, full, vector_compact_lem}

module _ {ℓ} {A : Type ℓ} ⦃ha : Hashed A⦄ where
  -- The hash that the slots call for.
  abbrev pub content_hash : List (Option A) → ℕ
  content_hash [] = 0
  content_hash (s ∷ ss) = bit_xor (slot_hash s) (content_hash ss)

  xor_all_lem : (h : ℕ) (ss : List (Option A)) → xor_all h ss ≡ bit_xor h (content_hash ss)
  unfolding xor_all
  xor_all_lem h [] = sym (bit_xor-zero h)
  xor_all_lem h (s ∷ ss) =
      xor_all_lem (bit_xor h (slot_hash s)) ss ∙ bit_xor_assoc h (slot_hash s) (content_hash ss)

  -- The cached hash is that of the slots, unless it is marked for recomputation.
  abbrev pub IsHashed : Vector A → Type 0
  IsHashed v = (v.rehash ≡ true) ⊎ (v.hash ≡ content_hash v.slots)

  fill_hash :
      (ss : List (Option A)) (i : ℕ) (val : Option A)
      → slot_at ss i ≡ some none
      → content_hash (set_slot ss i val) ≡ bit_xor (content_hash ss) (slot_hash val)
  fill_hash [] i val e = cc
  fill_hash (none ∷ ss) zero val e =
      rw (zero-bit_xor (content_hash ss)) (bit_xor_comm (slot_hash val) (content_hash ss))
  fill_hash (some a ∷ ss) zero val e = cc
  fill_hash (s ∷ ss) (suc i) val e =
      rw (fill_hash ss i val e)
        (sym (bit_xor_assoc (slot_hash s) (content_hash ss) (slot_hash val)))

  -- `iot_data_vector_add` at an index below the size keeps the cached hash right.
  pub vector_add-IsHashed :
      (v : Vector A) (i : ℕ) (val : Option A) {v' : Vector A}
      → IsHashed v
      → vector_add v i val ≡ some v'
      → IsHashed v'
  unfolding vector_add
  vector_add-IsHashed v i val h e = elim (Option-cases (slot_at v.slots i)) [
    | inl d ↦ cc
    | inr (none, d) ↦ ground (arith, fill_hash v.slots i val)
    | inr (some a, d) ↦ ground arith
  ]

  -- Where the hash of a vector is marked for recomputation, `iot_data_hash` ends, and returns the
  -- exclusive or over the hashes of its slots, an empty one counting as 0; it keeps that as the hash,
  -- without the mark, and changes no slot.
  pub vector_hash_lem :
      (v : Vector A)
      → v.rehash ≡ true
      → ((vector_hash v).1 ≡ content_hash v.slots)
        × ((vector_hash v).0.hash ≡ content_hash v.slots)
        × ((vector_hash v).0.rehash ≡ false)
        × ((vector_hash v).0.slots ≡ v.slots)
  unfolding vector_hash
  vector_hash_lem v h =
      let all : xor_all 0 (vector_visit (suc (size v)) v (vector_iter v)) ≡ content_hash v.slots =
        rw ((vector_visit-vector_visit_back v).0)
          (xor_all_lem 0 v.slots ∙ zero-bit_xor (content_hash v.slots)) in
      ground arith

  -- A vector that waits for the recomputation of its hash and is resized to the size it has keeps its
  -- old hash for good: `iot_data_hash` returns it, whatever the slots hold.
  pub vector_resize_stale :
      (v : Vector A)
      → v.rehash ≡ true
      → ((vector_hash (vector_resize v (size v))).1 ≡ v.hash)
        × ((vector_hash (vector_resize v (size v))).0.rehash ≡ false)
  unfolding vector_resize vector_hash
  vector_resize_stale v h = rw (==_self (size v)) (refl, refl)

  present_hash : (ss : List (Option A)) → content_hash (full (present ss)) ≡ content_hash ss
  present_hash [] = refl
  present_hash (none ∷ ss) = rw (present_hash ss) (sym (zero-bit_xor (content_hash ss)))
  present_hash (some a ∷ ss) = rw (present_hash ss)

  -- `iot_data_vector_compact` keeps the cached hash right.
  pub vector_compact-IsHashed : (v : Vector A) → IsHashed v → IsHashed (vector_compact v).0
  unfolding vector_compact
  vector_compact-IsHashed v (inl e) = inl e
  vector_compact-IsHashed v (inr e) =
      inr (e ∙ sym (ap content_hash (vector_compact_lem v).0 ∙ present_hash v.slots))

-- ===== src/Vector/Tests.antt =====
-- src/c/data.c: vectors of numbers, and the theorems on vectors at concrete vectors.
use iotech_c_utils.Common.{
  ℕ, suc, ◌%◌, ◌^◌, ◌≡◌, refl, true, false, [], ◌∷◌, none, some, inr, length,
}
use mathlib.Core.List.{reverse}
use iotech_c_utils.Map.{Hashed}
use iotech_c_utils.Vector.{
  Vector, size, vector_add, vector_compact, vector_hash, vector_visit, vector_visit_back,
  vector_iter,
}
use iotech_c_utils.Vector.Iterate.{vector_visit-vector_visit_back}
use iotech_c_utils.Vector.Compact.{present, full, vector_compact_lem}
use iotech_c_utils.Vector.Hash.{IsHashed, content_hash, vector_add-IsHashed, vector_hash_lem}

instance abbrev low_word : Hashed ℕ
low_word = record { hash_of = λ n. n % 2 ^ 32 }

-- Slots 5, empty, 7 under their hash.
abbrev sparse : Vector ℕ
sparse = record { slots = some 5 ∷ none ∷ some 7 ∷ []; hash = 2; rehash = false }

abbrev filled : Vector ℕ
filled = record { slots = some 5 ∷ some 6 ∷ some 7 ∷ []; hash = 4; rehash = false }

-- 9 in the place of 5, the hash not yet computed again.
abbrev replaced : Vector ℕ
replaced = record { slots = some 9 ∷ none ∷ some 7 ∷ []; hash = 2; rehash = true }

fills_slot : vector_add sparse 1 (some 6) ≡ some filled
unfolding vector_add
fills_slot = refl

replaces_slot : vector_add sparse 0 (some 9) ≡ some replaced
unfolding vector_add
replaces_slot = refl

past_the_end : vector_add sparse 3 (some 9) ≡ none
unfolding vector_add
past_the_end = refl

compacts : (vector_compact sparse).0.slots ≡ some 5 ∷ some 7 ∷ []
unfolding vector_compact
compacts = refl

vector_add-IsHashed_example : IsHashed filled
vector_add-IsHashed_example = vector_add-IsHashed sparse 1 (some 6) (inr refl) fills_slot

vector_hash_lem_example :
    ((vector_hash replaced).1 ≡ content_hash replaced.slots)
    × ((vector_hash replaced).0.hash ≡ content_hash replaced.slots)
    × ((vector_hash replaced).0.rehash ≡ false)
    × ((vector_hash replaced).0.slots ≡ replaced.slots)
vector_hash_lem_example = vector_hash_lem replaced refl

vector_compact_lem_example :
    ((vector_compact sparse).0.slots ≡ full (present sparse.slots))
    × ((vector_compact sparse).1 ≡ length (present sparse.slots))
    × (size (vector_compact sparse).0 ≡ (vector_compact sparse).1)
vector_compact_lem_example = vector_compact_lem sparse

vector_visit-vector_visit_back_example :
    (vector_visit (suc (size sparse)) sparse (vector_iter sparse) ≡ sparse.slots)
    × (vector_visit_back (suc (size sparse)) sparse (vector_iter sparse) ≡ reverse sparse.slots)
vector_visit-vector_visit_back_example = vector_visit-vector_visit_back sparse

-- ===== src/Component/Refs.antt =====
-- src/c/component.c: the reference count.
use iotech_c_utils.Common.{
  ℕ, zero, suc, ◌+◌, ◌<◌, ◌^◌, ◌%◌, ◌≡◌, refl, ap, ◌∙◌, arith, Bool, true, false, List, [], ◌∷◌,
  ◌++◌, leb, ◌-◌,
}
use mathlib.Core.Path.{ap₂}
use iotech_c_utils.Component.{add_refs, dec_refs}

-- `n` times false.
abbrev pub keeps : ℕ → List Bool
keeps zero = []
keeps (suc n) = false ∷ keeps n

add_refs_lem : (n refs : ℕ) → n + refs < 2 ^ 32 → add_refs n refs ≡ n + refs
unfolding add_refs
add_refs_lem zero refs h = omega arith
add_refs_lem (suc n) refs h =
    let e : (refs + 1) % 2 ^ 32 ≡ suc refs = omega arith in
    rw e (omega (arith, add_refs_lem n (suc refs) (omega arith)))

dec_refs_lem : (n : ℕ) → suc n < 2 ^ 32 → dec_refs (suc n) (suc n) ≡ keeps n ++ (true ∷ [])
unfolding dec_refs
dec_refs_lem zero h = refl
dec_refs_lem (suc n) h =
    let next : (suc (suc n) + 2 ^ 32 - 1) % 2 ^ 32 ≡ suc n = omega arith in
    let more : leb (suc (suc n)) 1 ≡ false = ground arith in
    ap₂ (λ b bs. b ∷ bs) more (ap (dec_refs (suc n)) next ∙ dec_refs_lem n (omega arith))

-- After fewer than `2 ^ 32 - 1` added references to a new component, each release but the last
-- says that references are left, and the last says that there are none.
pub dec_refs-add_refs :
    (n : ℕ) → suc n < 2 ^ 32 → dec_refs (suc n) (add_refs n 1) ≡ keeps n ++ (true ∷ [])
dec_refs-add_refs n h =
    ap (dec_refs (suc n)) (add_refs_lem n 1 (omega arith) ∙ omega arith) ∙ dec_refs_lem n h

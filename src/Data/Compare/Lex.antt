-- ===== src/Data/Compare/Lex.antt =====
-- The dictionary order on lists of integers, and its laws.
use iotech_c_utils.Common.{◌≡◌, refl, arith, List, [], ◌∷◌, ◌⊎◌, inl, inr}
use iotech_c_utils.Common.Int.{ℤ, pos, negsuc}
use iotech_c_utils.Order.{Sign, lt, eq, gt, Sign-cases}
use iotech_c_utils.Data.Compare.{or_else, cmp_ℤ}

-- The dictionary order on lists of integers.
unfoldable pub lex : List ℤ → List ℤ → Sign
lex [] [] = eq
lex [] (y ∷ ys) = lt
lex (x ∷ xs) [] = gt
lex (x ∷ xs) (y ∷ ys) = or_else (cmp_ℤ x y) (lex xs ys)

cmp_ℤ_refl : (a : ℤ) → cmp_ℤ a a ≡ eq
cmp_ℤ_refl (pos n) = ground arith
cmp_ℤ_refl (negsuc n) = ground arith

pub cmp_ℤ_eq : (a b : ℤ) → cmp_ℤ a b ≡ eq → a ≡ b
cmp_ℤ_eq a b h = ground arith

cmp_ℤ_flip : (a b : ℤ) → cmp_ℤ a b ≡ gt → cmp_ℤ b a ≡ lt
cmp_ℤ_flip a b h = ground arith

cmp_ℤ_unflip : (a b : ℤ) → cmp_ℤ a b ≡ lt → cmp_ℤ b a ≡ gt
cmp_ℤ_unflip a b h = ground arith

cmp_ℤ_trans : (a b c : ℤ) → cmp_ℤ a b ≡ lt → cmp_ℤ b c ≡ lt → cmp_ℤ a c ≡ lt
cmp_ℤ_trans (pos a) (pos b) (pos c) h k = ground arith
cmp_ℤ_trans a b c h k = ground arith

pub lex_refl : (xs : List ℤ) → lex xs xs ≡ eq
unfolding lex
lex_refl [] = refl
lex_refl (x ∷ xs) = rw (cmp_ℤ_refl x) (lex_refl xs)

pub lex_eq : (xs ys : List ℤ) → lex xs ys ≡ eq → xs ≡ ys
unfolding lex
lex_eq [] [] h = refl
lex_eq [] (y ∷ ys) h = cc
lex_eq (x ∷ xs) [] h = cc
lex_eq (x ∷ xs) (y ∷ ys) h = elim (Sign-cases (cmp_ℤ x y)) [
  | inl e ↦ cc
  | inr (inl e) ↦ cc (cmp_ℤ_eq x y e, lex_eq xs ys (rw e at h))
  | inr (inr e) ↦ cc
]

pub or_else_cases : (a b : Sign) {s : Sign} → or_else a b ≡ s → (a ≡ s) ⊎ ((a ≡ eq) × (b ≡ s))
or_else_cases lt b h = inl h
or_else_cases eq b h = inr (refl, h)
or_else_cases gt b h = inl h

pub lex_flip : (xs ys : List ℤ) → lex xs ys ≡ gt → lex ys xs ≡ lt
unfolding lex
lex_flip [] [] h = cc
lex_flip [] (y ∷ ys) h = cc
lex_flip (x ∷ xs) [] h = refl
lex_flip (x ∷ xs) (y ∷ ys) h = elim (or_else_cases (cmp_ℤ x y) (lex xs ys) h) [
  | inl e ↦ rw (cmp_ℤ_flip x y e)
  | inr (e, k) ↦ rw (cmp_ℤ_eq x y e, cmp_ℤ_refl y) (lex_flip xs ys k)
]

pub lex_unflip : (xs ys : List ℤ) → lex xs ys ≡ lt → lex ys xs ≡ gt
unfolding lex
lex_unflip [] [] h = cc
lex_unflip [] (y ∷ ys) h = refl
lex_unflip (x ∷ xs) [] h = cc
lex_unflip (x ∷ xs) (y ∷ ys) h = elim (or_else_cases (cmp_ℤ x y) (lex xs ys) h) [
  | inl e ↦ rw (cmp_ℤ_unflip x y e)
  | inr (e, k) ↦ rw (cmp_ℤ_eq x y e, cmp_ℤ_refl y) (lex_unflip xs ys k)
]

pub lex_trans : (xs ys zs : List ℤ) → lex xs ys ≡ lt → lex ys zs ≡ lt → lex xs zs ≡ lt
unfolding lex
lex_trans [] [] zs h k = cc
lex_trans [] (y ∷ ys) [] h k = cc
lex_trans [] (y ∷ ys) (z ∷ zs) h k = refl
lex_trans (x ∷ xs) [] zs h k = cc
lex_trans (x ∷ xs) (y ∷ ys) [] h k = cc
lex_trans (x ∷ xs) (y ∷ ys) (z ∷ zs) h k = elim (or_else_cases (cmp_ℤ x y) (lex xs ys) h) [
  | inl e ↦ elim (or_else_cases (cmp_ℤ y z) (lex ys zs) k) [
    | inl d ↦ rw (cmp_ℤ_trans x y z e d)
    | inr (d, l) ↦ rw (← cmp_ℤ_eq y z d) (rw e)
  ]
  | inr (e, l) ↦ rw (cmp_ℤ_eq x y e) (elim (or_else_cases (cmp_ℤ y z) (lex ys zs) k) [
    | inl d ↦ rw d
    | inr (d, m) ↦ rw d (lex_trans xs ys zs l m)
  ])
]

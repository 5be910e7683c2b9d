-- ===== src/RbTree/Height.antt =====
-- src/c/data.c: the height of a valid tree, which bounds the rounds of a search.
use native.Mathlib.Nat.{pow-suc, pow-le-pow_right, le_trans}
use iotech_c_utils.Common.{ℕ, suc, ◌+◌, ◌*◌, ◌^◌, ◌≤◌, max, ◌≡◌, refl, ap, arith, zero}
use iotech_c_utils.RbTree.{black, red, Tree, leaf, node, colour}
use iotech_c_utils.RbTree.Balance.{black_height, IsRb, IsRbRoot}

pow_double : (n : ℕ) → 2 ^ (2 * n) ≡ 2 ^ n * 2 ^ n
pow_double zero = refl
pow_double (suc n) =
    let e : 2 * suc n ≡ suc (suc (2 * n)) = omega arith in
    rw e (
      omega (
        arith,
        pow-suc 2 (suc (2 * n)),
        pow-suc 2 (2 * n),
        pow-suc 2 n,
        pow_double n,
        ap (λ (t : ℕ). t * 2 ^ suc n) (pow-suc 2 n),
        ap (λ (t : ℕ). t * 2 ^ n) (pow-suc 2 n),
      ))

square_mono : (a b : ℕ) → a ≤ b → a * a ≤ b * b
square_mono a b h = grind arith

module _ {ℓ} {K V : Type ℓ} where
  -- The most rounds that a search makes.
  abbrev pub height : Tree K V → ℕ
  height leaf = 0
  height (node c l k v r) = suc (max (height l) (height r))

  abbrev pub size : Tree K V → ℕ
  size leaf = 0
  size (node c l k v r) = suc (size l + size r)

  abbrev red_count : Tree K V → ℕ
  red_count leaf = 0
  red_count (node black l k v r) = 0
  red_count (node red l k v r) = 1

  pow-black_height-le : (t : Tree K V) → IsRb t → 2 ^ black_height t ≤ size t + 1
  pow-black_height-le leaf h = omega arith
  pow-black_height-le (node black l k v r) h = omega (
    arith,
    pow-suc 2 (black_height l),
    ap (λ (n : ℕ). 2 ^ n) h.0,
    pow-black_height-le l h.1,
    pow-black_height-le r h.2,
  )
  pow-black_height-le (node red l k v r) h = omega (arith, pow-black_height-le l h.3)

  red_count-black : (t : Tree K V) → colour t ≡ black → red_count t ≡ 0
  red_count-black leaf e = refl
  red_count-black (node black l k v r) e = refl
  red_count-black (node red l k v r) e = cc

  red_count-le : (t : Tree K V) → red_count t ≤ 1
  red_count-le leaf = omega arith
  red_count-le (node black l k v r) = omega arith
  red_count-le (node red l k v r) = omega arith

  height-le : (t : Tree K V) → IsRb t → height t ≤ 2 * black_height t + red_count t
  height-le leaf h = omega arith
  height-le (node black l k v r) h =
      omega (arith, height-le l h.1, height-le r h.2, red_count-le l, red_count-le r)
  height-le (node red l k v r) h =
      omega (arith, height-le l h.3, height-le r h.4, red_count-black l h.0, red_count-black r h.1)

  -- The height of a valid tree is at most twice the logarithm of one more than its size.
  pub pow-height-le : (t : Tree K V) → IsRbRoot t → 2 ^ height t ≤ (size t + 1) * (size t + 1)
  pow-height-le t h =
      let shallow : height t ≤ 2 * black_height t =
        omega (arith, height-le t h.1, red_count-black t h.0) in
      le_trans (pow-le-pow_right (omega arith) shallow) (
        rw (pow_double (black_height t))
          (square_mono (2 ^ black_height t) (size t + 1) (pow-black_height-le t h.1)))

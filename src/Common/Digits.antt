-- ===== src/Common/Digits.antt =====
-- One step of the recursion on binary digits that the native bit operations stand for.
use Prim.Native.Nat.{ℕ, zero, suc, ◌+◌, ◌*◌, ◌/◌, ◌%◌, ◌≤◌, ◌<◌, digits}
use mathlib.Core.Path.{◌≡◌, refl, sym, ap, ◌∙◌}
use native.Mathlib.Omega.{arith}

module _ (ends : ℕ → ℕ) (f : ℕ → ℕ → ℕ) where
  run_out : (k b : ℕ) → digits ends f k 0 b ≡ ends b
  run_out zero b = refl
  run_out (suc k) b = refl

  -- More digits than the first number has change nothing.
  more_digits : (k l x y : ℕ) → x ≤ k → k ≤ l → digits ends f l x y ≡ digits ends f k x y
  more_digits k l zero y h i = run_out l y ∙ sym (run_out k y)
  more_digits zero l (suc x) y h i = absurd (omega arith)
  more_digits (suc k) zero (suc x) y h i = absurd (omega arith)
  more_digits (suc k) (suc l) (suc x) y h i =
      ap (λ t. t * 2 + f (suc x % 2) (y % 2))
        (more_digits k l (suc x / 2) (y / 2) (omega arith) (omega arith))

  pub digits_step :
      (x y : ℕ)
      → 0 < x
      → digits ends f x x y ≡ digits ends f (x / 2) (x / 2) (y / 2) * 2 + f (x % 2) (y % 2)
  digits_step zero y h = absurd (omega arith)
  digits_step (suc x) y h =
      ap (λ t. t * 2 + f (suc x % 2) (y % 2))
        (more_digits (suc x / 2) x (suc x / 2) (y / 2) (omega arith) (omega arith))

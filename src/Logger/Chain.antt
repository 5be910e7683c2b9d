-- ===== src/Logger/Chain.antt =====
-- src/c/logger.c: messages along a chain of loggers, and the names of the levels.
use iotech_c_utils.Common.{
  ℕ, zero, suc, ◌≤◌, ◌<◌, ◌≡◌, refl, ap, arith, Bool, true, false, List, [], ◌∷◌, ◌++◌, none, some,
  length, if◌then◌else◌, leb,
}
use iotech_c_utils.Logger.{Loggers, level_to_string, level_loop, level_from_string, va_log}

-- The loggers from one on along `next`, which come to an end.
pub data Chain (s : Loggers) : ℕ → List ℕ → Type 0 where
  last : {i : ℕ} → (s.logger i).next ≡ none → (s.logger i).freed ≡ false → Chain s i (i ∷ [])
  link :
      {i j : ℕ} {is : List ℕ}
      → (s.logger i).next ≡ some j
      → (s.logger i).freed ≡ false
      → Chain s j is
      → Chain s i (i ∷ is)

-- The loggers whose level admits a message.
abbrev pub admitting : Loggers → ℕ → List ℕ → List ℕ
admitting s level [] = []
admitting s level (i ∷ is) =
    let rest = admitting s level is in if leb level (s.logger i).level then i ∷ rest else rest

here-append :
    (b : Bool) (i : ℕ) (is : List ℕ) → (if b then i ∷ [] else []) ++ is ≡ (if b then i ∷ is else is)
here-append true i is = refl
here-append false i is = refl

-- From a logger whose chain comes to an end, with no logger on it freed, a message goes to exactly the
-- loggers of the chain whose level admits it, in the order of the chain, and the recursion ends after as
-- many calls as the chain has loggers.
pub va_log-Chain :
    {s : Loggers} (fuel level : ℕ) {i : ℕ} {is : List ℕ}
    → Chain s i is
    → length is ≤ fuel
    → va_log fuel s i level ≡ some (admitting s level is)
unfolding va_log
va_log-Chain zero level (last n f) h = absurd (omega (arith, h))
va_log-Chain zero level (link n f c) h = absurd (omega (arith, h))
va_log-Chain {s} (suc fuel) level {i} (last n f) h = rw (n, f) refl
va_log-Chain {s} (suc fuel) level {i} (link {is} n f c) h =
    let rest = va_log-Chain fuel level c (omega (arith, h)) in
    rw (n, f, rest) (ap some (here-append (leb level (s.logger i).level) i (admitting s level is)))

-- Each level is read back from its name.
level_from_string-level_to_string :
    (toupper : ℕ → ℕ) (level : ℕ)
    → ((c : ℕ) → c < b'a' → toupper c ≡ c)
    → level < 6
    → level_from_string toupper (some (level_to_string level)) ≡ level
unfolding level_from_string level_loop
level_from_string-level_to_string toupper zero u h = rw (u 0 (omega arith)) refl
level_from_string-level_to_string toupper (suc zero) u h = rw (u b'E' (omega arith)) refl
level_from_string-level_to_string toupper (suc (suc zero)) u h = rw (u b'W' (omega arith)) refl
level_from_string-level_to_string toupper (suc (suc (suc zero))) u h =
    rw (u b'I' (omega arith)) refl
level_from_string-level_to_string toupper (suc (suc (suc (suc zero)))) u h =
    rw (u b'D' (omega arith)) refl
level_from_string-level_to_string toupper (suc (suc (suc (suc (suc zero))))) u h =
    rw (u b'T' (omega arith)) refl
level_from_string-level_to_string toupper (suc (suc (suc (suc (suc (suc level)))))) u h =
    absurd (omega (arith, h))

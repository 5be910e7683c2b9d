-- ===== src/Json/Decimal.antt =====
-- src/c/data-json.c: the decimal digits of a number, and `strtoull` of them.
use iotech_c_utils.Common.{
  ℕ, zero, suc, ◌+◌, ◌-◌, ◌*◌, ◌/◌, ◌%◌, ◌^◌, ◌≤◌, ◌<◌, ◌≡◌, ◌≢◌, refl, ap, ◌∙◌, arith, true, false,
  List, [], ◌∷◌, ◌++◌, some, length, length-append, All, All-append, if◌then◌else◌, ◌==◌, ltb, leb,
  Bool-cases, inl, inr,
}
use iotech_c_utils.Common.Int.{ℤ, pos, negsuc}
use iotech_c_utils.Data.{Value, int, int64, uint64}
use iotech_c_utils.Json.{digits, decimal}
use iotech_c_utils.Json.Reader.{
  contains, digits_value, strtoull, negated, tail, number_from_text, primitive_from_text,
}

abbrev IsDigit : ℕ → Type 0
IsDigit c = (48 ≤ c) × (c ≤ 57)

digits-IsDigit : (f n : ℕ) → All IsDigit (digits f n)
unfolding digits
digits-IsDigit zero n = tt
digits-IsDigit (suc f) n = elim (Bool-cases (ltb n 10)) [
  | inl e ↦ rw e ((omega arith, ground (arith, e)), tt)
  | inr e ↦ rw e (
      All-append IsDigit (digits f (n / 10)) _ (digits-IsDigit f (n / 10))
        ((omega arith, omega arith), tt))
]

digits_value-append :
    (s : List ℕ) (acc c : ℕ)
    → All IsDigit s
    → IsDigit c
    → digits_value acc (s ++ (c ∷ [])) ≡ digits_value acc s * 10 + (c - 48)
unfolding digits_value
digits_value-append [] acc c h k = ground arith
digits_value-append (d ∷ s) acc c h k =
    ground (arith, h.0, digits_value-append s (acc * 10 + (d - 48)) c h.1 k)

fewer : (f n : ℕ) → n < 10 ^ suc f → n / 10 < 10 ^ f
fewer f n h = grind arith

some_left : (f n : ℕ) → n < 10 ^ suc f → 10 ≤ n → 0 < f
some_left zero n h l = absurd (omega arith)
some_left (suc f) n h l = omega arith

digits_value-digits : (f n : ℕ) → n < 10 ^ f → 0 < f → digits_value 0 (digits f n) ≡ n
unfolding digits digits_value
digits_value-digits zero n h l = absurd (omega arith)
digits_value-digits (suc f) n h l = elim (Bool-cases (ltb n 10)) [
  | inl e ↦ rw e (ground (arith, e))
  | inr e ↦
      let ih = digits_value-digits f (n / 10) (fewer f n h) (some_left f n h (ground (arith, e))) in
      rw e (
        digits_value-append (digits f (n / 10)) 0 (48 + n % 10) (digits-IsDigit f (n / 10))
          (omega arith, omega arith)
        ∙ omega (arith, ih))
]

-- A digit among other characters.
not_in : (c : ℕ) (s : List ℕ) → ¬ IsDigit c → All IsDigit s → contains c s ≡ false
unfolding contains
not_in c [] d h = refl
not_in c (b ∷ s) d h = ground (arith, h.0, not_in c s d h.1)

pub digits_some : (f n : ℕ) → 0 < f → 0 < length (digits f n)
unfolding digits
digits_some zero n h = absurd (omega arith)
digits_some (suc f) n h = ground (arith, length-append (digits f (n / 10)) ((48 + n % 10) ∷ []))

-- A text with no point and no exponent, without a sign and with one.
module _ (strtod : List ℕ → ℕ) (s : List ℕ) where
  IsWhole : Type 0
  IsWhole = (contains b'.' s ≡ false) × (contains b'e' s ≡ false) × (contains b'E' s ≡ false)

  unsigned_number :
      {n : ℕ}
      → IsWhole
      → contains b'-' s ≡ false
      → strtoull s ≡ some n
      → number_from_text strtod s ≡ some (int (if ltb n (2 ^ 63) then int64 else uint64) (pos n))
  unfolding number_from_text IsWhole
  unsigned_number (p, e, x) m v = rw (p, e, x, m, v) refl

  negative_number :
      {n : ℕ}
      → IsWhole
      → contains b'-' s ≡ true
      → strtoull (tail s) ≡ some (n + 1)
      → n < 2 ^ 63
      → number_from_text strtod s ≡ some (int int64 (negsuc n))
  unfolding number_from_text IsWhole
  negative_number {n} (p, e, x) m v b =
      let l : leb (n + 1) (2 ^ 63) ≡ true = ground arith in
      rw (p, e, x, m, v, l) (ap some (ap (int int64) (minus n)))
    where
      minus : (n : ℕ) → negated (n + 1) ≡ negsuc n
      minus n = let e : n + 1 ≡ suc n = omega arith in rw e refl

strtoull-digits :
    (s : List ℕ) (n : ℕ)
    → All IsDigit s
    → 0 < length s
    → digits_value 0 s ≡ n
    → n < 2 ^ 64
    → strtoull s ≡ some n
unfolding strtoull
strtoull-digits [] n h l v b = absurd (omega arith)
strtoull-digits (c ∷ s) n h l v b =
    let m : (c == b'-') ≡ false = ground (arith, h.0) in
    let p : (c == b'+') ≡ false = ground (arith, h.0) in
    let r : ltb n (2 ^ 64) ≡ true = ground arith in rw (m, p, v, r) refl

digits_first :
    (strtod : List ℕ → ℕ) (s : List ℕ)
    → All IsDigit s
    → primitive_from_text strtod s ≡ number_from_text strtod s
unfolding primitive_from_text
digits_first strtod [] h = refl
digits_first strtod (c ∷ s) h =
    let t : (c == b't') ≡ false = ground (arith, h.0) in
    let f : (c == b'f') ≡ false = ground (arith, h.0) in
    let n : (c == b'n') ≡ false = ground (arith, h.0) in rw (t, f, n) refl

-- The type that the reader gives an integer.
abbrev pub json_int : ℤ → Value
json_int (pos n) = int (if ltb n (2 ^ 63) then int64 else uint64) (pos n)
json_int (negsuc n) = int int64 (negsuc n)

abbrev pub InRange64 : ℤ → Type 0
InRange64 (pos n) = n < 2 ^ 64
InRange64 (negsuc n) = n < 2 ^ 63

-- The decimal text of an integer is read as that integer, as an `int64_t` if it is one.
pub primitive_from_text-decimal :
    (strtod : List ℕ → ℕ) (z : ℤ)
    → InRange64 z
    → primitive_from_text strtod (decimal z) ≡ some (json_int z)
unfolding contains primitive_from_text IsWhole
primitive_from_text-decimal strtod (pos n) h =
    let d = digits-IsDigit 20 n in
    let v = digits_value-digits 20 n (omega arith) (omega arith) in
    digits_first strtod (digits 20 n) d
    ∙ unsigned_number strtod (digits 20 n)
        (
          not_in b'.' _ (λ x. omega (arith, x)) d,
          not_in b'e' _ (λ x. omega (arith, x)) d,
          not_in b'E' _ (λ x. omega (arith, x)) d,
        )
        (not_in b'-' _ (λ x. omega (arith, x)) d)
        (strtoull-digits (digits 20 n) n d (digits_some 20 n (omega arith)) v h)
primitive_from_text-decimal strtod (negsuc n) h =
    let d = digits-IsDigit 20 (n + 1) in
    let v = digits_value-digits 20 (n + 1) (omega arith) (omega arith) in
    negative_number strtod (b'-' ∷ digits 20 (n + 1))
      (
        not_in b'.' _ (λ x. omega (arith, x)) d,
        not_in b'e' _ (λ x. omega (arith, x)) d,
        not_in b'E' _ (λ x. omega (arith, x)) d,
      )
      refl
      (strtoull-digits (digits 20 (n + 1)) (n + 1) d (digits_some 20 (n + 1) (omega arith)) v
        (omega arith))
      h

digits-nonzero : (s : List ℕ) → All IsDigit s → All (λ c. c ≢ 0) s
digits-nonzero [] h = tt
digits-nonzero (c ∷ s) h = (λ e. omega (arith, h.0, e), digits-nonzero s h.1)

pub decimal-nonzero : (z : ℤ) → All (λ c. c ≢ 0) (decimal z)
decimal-nonzero (pos n) = digits-nonzero (digits 20 n) (digits-IsDigit 20 n)
decimal-nonzero (negsuc n) =
    (λ e. omega (arith, e), digits-nonzero (digits 20 (n + 1)) (digits-IsDigit 20 (n + 1)))

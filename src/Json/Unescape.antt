-- ===== src/Json/Unescape.antt =====
-- src/c/data-json.c, `iot_data_string_from_json_token`, on strings that `iot_data_strcat_escape` wrote.
use iotech_c_utils.Common.{
  ℕ, zero, suc, ◌≤◌, ◌<◌, ◌≡◌, ◌≢◌, ◌⊎◌, inl, inr, refl, sym, ap, ◌∙◌, arith, Bool, true, false,
  ◌&&◌, List, [], ◌∷◌, ◌++◌, Option, none, some, length, append_assoc, append-nil, if◌then◌else◌,
  ◌==◌, ltb, bit_and,
}
use iotech_c_utils.Json.{repr_size, escape_char, escape_text, hex_digit}
use iotech_c_utils.Json.Reader.{
  hex_value, unescape_unicode, unescape_char, unescape_step, unescape, contains,
}

-- The four digits of a character below 32.
abbrev unicode_digits : ℕ → List ℕ
unicode_digits c =
    b'0' ∷ b'0' ∷ (if bit_and c 16 == 0 then b'0' else b'1') ∷ hex_digit (bit_and c 15) ∷ []

unfoldable reads_back : ℕ → Bool
reads_back c = elim (hex_value 0 (unicode_digits c)) [ none ↦ false | some d ↦ d == c ]

abbrev all_below : (ℕ → Bool) → ℕ → Bool
all_below test zero = true
all_below test (suc n) = test n && all_below test n

all_below_lem : (test : ℕ → Bool) (n c : ℕ) → all_below test n ≡ true → c < n → test c ≡ true
all_below_lem test zero c e h = absurd (omega arith)
all_below_lem test (suc n) c e h = elim (last c n h) [
  | inl q ↦ rw q (ground (arith, e))
  | inr l ↦ all_below_lem test n c (ground (arith, e)) l
]
  where
    last : (c n : ℕ) → c < suc n → (c ≡ n) ⊎ (c < n)
    last c n h = ground arith

all_read_back : all_below reads_back 32 ≡ true
unfolding reads_back
all_read_back = refl

hex_value-unicode_digits : (c : ℕ) → c < 32 → hex_value 0 (unicode_digits c) ≡ some c
unfolding reads_back
hex_value-unicode_digits c h =
    found (hex_value 0 (unicode_digits c)) (all_below_lem reads_back 32 c all_read_back h)
  where
    found :
        (o : Option ℕ)
        → elim o as (λ x. Bool) [ none ↦ false | some d ↦ d == c ] ≡ true
        → o ≡ some c
    found none e = cc
    found (some d) e = ground arith

-- The characters with a short form.
abbrev IsShort : ℕ → Type 0
IsShort c = (c ≡ 8) ⊎ ((c ≡ 9) ⊎ ((c ≡ 10) ⊎ ((c ≡ 12) ⊎ ((c ≡ 13) ⊎ ((c ≡ b'"') ⊎ (c ≡ b'\\'))))))

kind :
    (c : ℕ)
    → ((escape_char c ≡ c ∷ []) × (c ≢ b'\\'))
      ⊎ (((escape_char c ≡ b'\\' ∷ b'u' ∷ unicode_digits c) × (c < 32)) ⊎ IsShort c)
unfolding escape_char repr_size
kind c = ground arith

module _ (c32rtomb : ℕ → Option (List ℕ)) where
  -- `c32rtomb` of an ASCII character.
  abbrev pub IsAscii : Type 0
  IsAscii = (c : ℕ) → c < 128 → c32rtomb c ≡ some (c ∷ [])

  -- A character that is not escaped, one with a short form, and one with four digits.
  unescape_plain :
      (c : ℕ) (dst rest : List ℕ) (f : ℕ)
      → c ≢ b'\\'
      → unescape c32rtomb (suc f) dst (c ∷ rest) ≡ unescape c32rtomb f (dst ++ (c ∷ [])) rest
  unfolding unescape unescape_step
  unescape_plain c dst rest f d = let e : (c == b'\\') ≡ false = ground arith in rw e refl

  unescape_digits :
      IsAscii
      → (c : ℕ) (dst rest : List ℕ) (f : ℕ) → c < 32
      → unescape c32rtomb (suc f) dst (b'\\' ∷ b'u' ∷ (unicode_digits c ++ rest))
        ≡ unescape c32rtomb f (dst ++ (c ∷ [])) rest
  unfolding unescape unescape_step unescape_char unescape_unicode
  unescape_digits a c dst rest f h =
      let n : ltb (length (unicode_digits c ++ rest)) 4 ≡ false = ground arith in
      rw (n, hex_value-unicode_digits c h, a c (omega arith)) refl

  unescape_short :
      (c : ℕ) (dst rest : List ℕ) (f : ℕ)
      → IsShort c
      → unescape c32rtomb (suc f) dst (escape_char c ++ rest)
        ≡ unescape c32rtomb f (dst ++ (c ∷ [])) rest
  unfolding unescape unescape_step unescape_char escape_char repr_size
  unescape_short c dst rest f (inl e) = rw e refl
  unescape_short c dst rest f (inr (inl e)) = rw e refl
  unescape_short c dst rest f (inr (inr (inl e))) = rw e refl
  unescape_short c dst rest f (inr (inr (inr (inl e)))) = rw e refl
  unescape_short c dst rest f (inr (inr (inr (inr (inl e))))) = rw e refl
  unescape_short c dst rest f (inr (inr (inr (inr (inr (inl e)))))) = rw e refl
  unescape_short c dst rest f (inr (inr (inr (inr (inr (inr e)))))) = rw e refl

  step-escape_char :
      IsAscii
      → (c : ℕ) (dst rest : List ℕ) (f : ℕ)
      → unescape c32rtomb (suc f) dst (escape_char c ++ rest)
        ≡ unescape c32rtomb f (dst ++ (c ∷ [])) rest
  unfolding unescape unescape_step unescape_char
  step-escape_char a c dst rest f = elim (kind c) [
    | inl (e, d) ↦ rw e (unescape_plain c dst rest f d)
    | inr (inl (e, l)) ↦ rw e (unescape_digits a c dst rest f l)
    | inr (inr s) ↦ unescape_short c dst rest f s
  ]

  pub unescape-escape_text :
      IsAscii
      → (s dst : List ℕ) (f : ℕ) → length s ≤ f
      → unescape c32rtomb f dst (escape_text s) ≡ some (dst ++ s)
  unfolding unescape
  unescape-escape_text a [] dst f h = ap some (sym (append-nil dst))
  unescape-escape_text a (c ∷ s) dst zero h = absurd (omega arith)
  unescape-escape_text a (c ∷ s) dst (suc f) h =
      step-escape_char a c dst (escape_text s) f
      ∙ unescape-escape_text a s (dst ++ (c ∷ [])) f (omega arith)
      ∙ ap some (append_assoc dst (c ∷ []) s)

contains-append :
    (c : ℕ) (s t : List ℕ)
    → contains c (s ++ t) ≡ false
    → (contains c s ≡ false) × (contains c t ≡ false)
unfolding contains
contains-append c [] t e = (refl, e)
contains-append c (d ∷ s) t e = ground (arith, contains-append c s t)

no_backslash : (c : ℕ) → contains b'\\' (escape_char c) ≡ false → escape_char c ≡ c ∷ []
unfolding contains escape_char repr_size
no_backslash c h = ground arith

-- A text without a backslash is not escaped.
pub escape_text_same : (s : List ℕ) → contains b'\\' (escape_text s) ≡ false → escape_text s ≡ s
escape_text_same [] e = refl
escape_text_same (c ∷ s) e =
    let (h, t) = contains-append b'\\' (escape_char c) (escape_text s) e in
    rw (no_backslash c h) (ap (◌∷◌ c) (escape_text_same s t))

-- ===== src/Json/Tokens.antt =====
-- src/c/json.c: the tokens of a text that src/c/data-json.c wrote, and the room that is made for them.
use iotech_c_utils.Common.{
  ℕ, suc, ◌+◌, ◌≤◌, ◌≡◌, ◌≢◌, arith, List, [], ◌∷◌, ◌++◌, length, length-append, All, if◌then◌else◌,
  max,
}
use iotech_c_utils.Data.{
  Value, Values, nil, cons, null, int, bool, string, vector, list, FloatType, count_values,
}
use iotech_c_utils.Json.{escape_text}
use iotech_c_utils.Json.Text.{json_text, values_text}
use iotech_c_utils.Json.Decimal.{json_int, InRange64}
use iotech_c_utils.Json.Reader.{
  Token, TokenType, array_token, string_token, string_esc, primitive, contains, weigh,
}

-- No map, array, binary, float or pointer stands in the value, no string has a 0 among its characters,
-- and integers are in the range of `int64_t` or `uint64_t`.
abbrev mutual
  pub IsPlain : Value → Type 0
  IsPlain null = Unit {0}
  IsPlain (int t z) = InRange64 z
  IsPlain (bool b) = Unit {0}
  IsPlain (string s) = All (λ c. c ≢ 0) s
  IsPlain (vector vs) = ArePlain vs
  IsPlain (list vs) = ArePlain vs
  IsPlain v = ⊥

  pub ArePlain : Values → Type 0
  ArePlain nil = Unit {0}
  ArePlain (cons v vs) = IsPlain v × ArePlain vs

-- The value that is read again.
abbrev mutual
  pub reread : Value → Value
  reread (int t z) = json_int z
  reread (vector vs) = vector (reread_values vs)
  reread (list vs) = vector (reread_values vs)
  reread v = v

  pub reread_values : Values → Values
  reread_values nil = nil
  reread_values (cons v vs) = cons (reread v) (reread_values vs)

abbrev mutual
  pub levels : Value → ℕ
  levels (vector vs) = suc (value_levels vs)
  levels (list vs) = suc (value_levels vs)
  levels v = 1

  pub value_levels : Values → ℕ
  value_levels nil = 0
  value_levels (cons v vs) = max (levels v) (value_levels vs)

abbrev pub token : TokenType → ℕ → ℕ → ℕ → Token
token type start len size = record { type = type; start = start; end = start + len; size = size }

weigh-append : (s t : List ℕ) → weigh (s ++ t) ≡ weigh s + weigh t
unfolding weigh
weigh-append [] t = omega arith
weigh-append (c ∷ s) t = omega (arith, weigh-append s t)

module _ (print_float : FloatType → ℕ → List ℕ) where
  -- The tokens of a value whose text starts at an offset: a token for each value, before those of its
  -- elements. The token of a string leaves the quotes out.
  abbrev mutual
    pub value_tokens : ℕ → Value → List Token
    value_tokens o (string s) =
        token (if contains b'\\' (escape_text s) then string_esc else string_token) (o + 1)
          (length (escape_text s)) 0
        ∷ []
    value_tokens o (vector vs) =
        token array_token o (length (json_text print_float (vector vs))) (count_values vs)
        ∷ values_tokens (o + 1) vs
    value_tokens o (list vs) =
        token array_token o (length (json_text print_float (list vs))) (count_values vs)
        ∷ values_tokens (o + 1) vs
    value_tokens o v = token primitive o (length (json_text print_float v)) 0 ∷ []

    pub values_tokens : ℕ → Values → List Token
    values_tokens o nil = []
    values_tokens o (cons v vs) =
        value_tokens o v ++ values_tokens (o + (length (json_text print_float v) + 1)) vs

  mutual
    unfolding weigh

    -- The room that is made is enough.
    pub weigh-value_tokens :
        (v : Value) (o : ℕ)
        → IsPlain v
        → length (value_tokens o v) ≤ 1 + weigh (json_text print_float v)
    weigh-value_tokens (vector vs) o p = omega (
      arith,
      weigh-append (values_text print_float vs) (b']' ∷ []),
      weigh-values_tokens vs (o + 1) p,
    )
    weigh-value_tokens (list vs) o p = omega (
      arith,
      weigh-append (values_text print_float vs) (b']' ∷ []),
      weigh-values_tokens vs (o + 1) p,
    )
    weigh-value_tokens v o p = omega arith

    weigh-values_tokens :
        (vs : Values) (o : ℕ)
        → ArePlain vs
        → length (values_tokens o vs) ≤ 1 + weigh (values_text print_float vs)
    weigh-values_tokens nil o p = omega arith
    weigh-values_tokens (cons v nil) o p =
        omega (arith, length-append (value_tokens o v) [], weigh-value_tokens v o p.0)
    weigh-values_tokens (cons v (cons w vs)) o p =
        let after = o + (length (json_text print_float v) + 1) in
        omega (
          arith,
          length-append (value_tokens o v) (values_tokens after (cons w vs)),
          weigh-append (json_text print_float v) (b',' ∷ values_text print_float (cons w vs)),
          weigh-value_tokens v o p.0,
          weigh-values_tokens (cons w vs) after p.1,
        )

-- ===== src/Json/Parts.antt =====
-- src/c/data-json.c: reading a token whose text stands at an offset of the whole text.
use iotech_c_utils.Common.{
  ℕ, suc, ◌+◌, ◌-◌, ◌<◌, ◌≡◌, ◌≢◌, refl, ap, ◌∙◌, arith, Bool, true, false, List, [], ◌∷◌, ◌++◌,
  Option, some, length, length-append, append_assoc, All, if◌then◌else◌, inl, inr, Bool-cases,
}
use iotech_c_utils.Data.{Floats, Value, Values, nil, cons, null, bool, string, vector, FloatType}
use iotech_c_utils.Cbor.{drop}
use iotech_c_utils.Cbor.Restored.{c_string_whole}
use iotech_c_utils.Json.{take, escape_text, true_text, false_text, null_text}
use iotech_c_utils.Json.Escape.{length-escape_text, total_repr_size_least}
use iotech_c_utils.Json.Unescape.{IsAscii, unescape-escape_text, escape_text_same}
use iotech_c_utils.Json.Tokens.{token, value_tokens}
use iotech_c_utils.Json.Reader.{
  Token, TokenType, array_token, string_token, string_esc, primitive, contains, token_text,
  string_from_token, primitive_from_text, read_elements, value_from_json,
}

drop-append : (s t : List ℕ) → drop (length s) (s ++ t) ≡ t
drop-append [] t = refl
drop-append (c ∷ s) t = drop-append s t

take-append : (s t : List ℕ) → take (length s) (s ++ t) ≡ s
take-append [] t = refl
take-append (c ∷ s) t = ap (◌∷◌ c) (take-append s t)

module _ ⦃fl : Floats⦄ (c32rtomb : ℕ → Option (List ℕ)) (strtod : List ℕ → ℕ) where
  -- The text of a token that stands for a Part of the text.
  token_text_part :
      (type : TokenType) (size : ℕ) (pre t post : List ℕ)
      → token_text c32rtomb (pre ++ (t ++ post)) (token type (length pre) (length t) size) ≡ t
  token_text_part type size pre t post =
      let e : length pre + length t - length pre ≡ length t = omega arith in
      rw (e, drop-append pre (t ++ post), take-append t post) refl

  string_from_token-escape_text :
      IsAscii c32rtomb
      → (pre s post : List ℕ) → All (λ c. c ≢ 0) s
      → string_from_token c32rtomb (pre ++ (escape_text s ++ post)) (
          token
            (if contains b'\\' (escape_text s) then string_esc else string_token)
            (length pre)
            (length (escape_text s))
            0)
        ≡ some s
  unfolding string_from_token
  string_from_token-escape_text a pre s post h =
      elim (Bool-cases (contains b'\\' (escape_text s))) [
        | inl e ↦
            let t = token_text_part string_esc 0 pre (escape_text s) post in
            let u =
              unescape-escape_text c32rtomb a s [] (length (escape_text s))
                (omega (arith, length-escape_text s, total_repr_size_least s)) in
            rw (e, t, u, c_string_whole s h) refl
        | inr e ↦
            let t = token_text_part string_token 0 pre (escape_text s) post in
            rw (e, t, escape_text_same s e, c_string_whole s h) refl
      ]

  module _ (json : List ℕ) (print_float : FloatType → ℕ → List ℕ) where
    -- A token whose text is read as a primitive, and one of a string.
    pub read_primitive :
        (f : ℕ) (pre t post : List ℕ) (v : Value) (ts : List Token)
        → json ≡ pre ++ (t ++ post)
        → All (λ c. c ≢ 0) t
        → primitive_from_text strtod t ≡ some v
        → value_from_json c32rtomb strtod json
            (suc f)
            (token primitive (length pre) (length t) 0 ∷ ts)
          ≡ some (some v, ts)
    unfolding value_from_json string_from_token
    read_primitive f pre t post v ts e h p =
        rw (e, token_text_part primitive 0 pre t post, c_string_whole t h, p) refl

    pub string_value :
        (b : Bool) (f start len : ℕ) (s : List ℕ) (ts : List Token)
        → string_from_token c32rtomb json
            (token (if b then string_esc else string_token) start len 0)
          ≡ some s
        → value_from_json c32rtomb strtod json
            (suc f)
            (token (if b then string_esc else string_token) start len 0 ∷ ts)
          ≡ some (some (string s), ts)
    unfolding value_from_json
    string_value true f start len s ts h = rw h refl
    string_value false f start len s ts h =
        let h' : string_from_token c32rtomb json (token string_token start len 0) ≡ some s = h in
        rw h' refl

    pub read_array :
        (f start len n : ℕ) (vs : Values) (more ts : List Token)
        → read_elements (value_from_json c32rtomb strtod json f) n 0 more ≡ some (vs, ts)
        → value_from_json c32rtomb strtod json (suc f) (token array_token start len n ∷ more)
          ≡ some (some (vector vs), ts)
    unfolding value_from_json
    read_array f start len n vs more ts h = rw h refl

    pub read_element :
        (f n : ℕ) (v : Value) (vs : Values) (before more ts : List Token)
        → value_from_json c32rtomb strtod json f before ≡ some (some v, more)
        → read_elements (value_from_json c32rtomb strtod json f) n 0 more ≡ some (vs, ts)
        → read_elements (value_from_json c32rtomb strtod json f) (suc n) 0 before
          ≡ some (cons v vs, ts)
    unfolding read_elements
    read_element f n v vs before more ts h k = rw (h, k) refl

    pub read_string :
        IsAscii c32rtomb
        → (f : ℕ) (pre s post : List ℕ) (ts : List Token) → json ≡ pre ++ (escape_text s ++ post)
        → All (λ c. c ≢ 0) s
        → value_from_json c32rtomb strtod json (suc f) (
            token
              (if contains b'\\' (escape_text s) then string_esc else string_token)
              (length pre)
              (length (escape_text s))
              0
            ∷ ts)
          ≡ some (some (string s), ts)
    read_string a f pre s post ts e h =
        string_value (contains b'\\' (escape_text s)) f (length pre) (length (escape_text s)) s ts
          (rw e (string_from_token-escape_text a pre s post h))

    -- A text stands at an offset.
    abbrev pub Part : ℕ → List ℕ → Type 0
    Part o t = (pre : List ℕ) × (post : List ℕ) × (json ≡ pre ++ (t ++ post)) × (o ≡ length pre)

    pub Part-inside : (o a : ℕ) (t rest : List ℕ) → Part o (a ∷ (t ++ rest)) → Part (o + 1) t
    Part-inside o a t rest (pre, post, e, q) = (
      pre ++ (a ∷ []),
      rest ++ post,
      e ∙ simp append_assoc,
      omega (arith, q, length-append pre (a ∷ [])),
    )

    pub Part-first : (o : ℕ) (s t : List ℕ) → Part o (s ++ t) → Part o s
    Part-first o s t (pre, post, e, q) = (pre, t ++ post, e ∙ simp append_assoc, q)

    pub Part-second : (o a : ℕ) (s t : List ℕ) → Part o (s ++ (a ∷ t)) → Part (o + (length s + 1)) t
    Part-second o a s t (pre, post, e, q) = (
      pre ++ (s ++ (a ∷ [])),
      post,
      e ∙ simp append_assoc,
      omega (arith, q, length-append pre (s ++ (a ∷ [])), length-append s (a ∷ [])),
    )

    pub read_primitive-Part :
        (f o : ℕ) (t : List ℕ) (v : Value) (ts : List Token)
        → Part o t
        → All (λ c. c ≢ 0) t
        → primitive_from_text strtod t ≡ some v
        → value_from_json c32rtomb strtod json (suc f) (token primitive o (length t) 0 ∷ ts)
          ≡ some (some v, ts)
    read_primitive-Part f o t v ts (pre, post, e, q) h p =
        rw q (read_primitive f pre t post v ts e h p)

    pub nonzero :
        (a b c d : ℕ) (s : List ℕ)
        → 0 < a
        → 0 < b
        → 0 < c
        → 0 < d
        → All (λ c. c ≢ 0) s
        → All (λ c. c ≢ 0) (a ∷ b ∷ c ∷ d ∷ s)
    nonzero a b c d s h i j k l = (
      λ e. omega (arith, h, e),
      (λ e. omega (arith, i, e), (λ e. omega (arith, j, e), (λ e. omega (arith, k, e), l))),
    )

    pub read_lem_null :
        (f o : ℕ) (ts : List Token)
        → Part o null_text
        → value_from_json c32rtomb strtod json (suc f) (token primitive o 4 0 ∷ ts)
          ≡ some (some null, ts)
    unfolding primitive_from_text
    read_lem_null f o ts m =
        read_primitive-Part f o null_text null ts m
          (nonzero _ _ _ _ [] (omega arith) (omega arith) (omega arith) (omega arith) tt) refl

    pub read_lem_bool :
        (b : Bool) (f o : ℕ) (ts : List Token)
        → Part o (if b then true_text else false_text)
        → value_from_json c32rtomb strtod json
            (suc f)
            (token primitive o (length (if b then true_text else false_text)) 0 ∷ ts)
          ≡ some (some (bool b), ts)
    unfolding primitive_from_text
    read_lem_bool true f o ts m =
        read_primitive-Part f o true_text (bool true) ts m
          (nonzero _ _ _ _ [] (omega arith) (omega arith) (omega arith) (omega arith) tt) refl
    read_lem_bool false f o ts m =
        read_primitive-Part f o false_text (bool false) ts m
          (nonzero _ _ _ _ (b'e' ∷ []) (omega arith) (omega arith) (omega arith) (omega arith)
            (λ e. omega (arith, e), tt))
          refl

    pub read_quoted :
        IsAscii c32rtomb
        → (s : List ℕ) (f o : ℕ) (ts : List Token) → All (λ c. c ≢ 0) s
        → Part (o + 1) (escape_text s)
        → value_from_json c32rtomb strtod json (suc f) (value_tokens print_float o (string s) ++ ts)
          ≡ some (some (string s), ts)
    read_quoted a s f o ts h (pre, post, e, q) = rw q (read_string a f pre s post ts e h)

    pub read_none :
        (f : ℕ) (ts : List Token)
        → read_elements (value_from_json c32rtomb strtod json f) 0 0 ts ≡ some (nil, ts)
    unfolding read_elements
    read_none f ts = refl

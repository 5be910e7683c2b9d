-- ===== src/Config/Expansion.antt =====
-- src/c/config.c, `iot_config_substitute_env`: the text that replaces a configuration, and the buffer.
use mathlib.Core.Path.{subst}
use iotech_c_utils.Common.{
  ℕ, zero, suc, ◌+◌, ◌≤◌, ◌<◌, ◌≡◌, ◌≢◌, refl, ap, sym, ◌∙◌, arith, List, [], ◌∷◌, ◌++◌, Option,
  none, some, length, length-append, append_assoc, All, Option-cases, if◌then◌else◌, inl, inr, ltb,
}
use iotech_c_utils.RbTree.{◌>>=◌}
use iotech_c_utils.Config.{
  Parsed, update_parsed, close, reference, resolve, max_env_len, substitute, substitute_env,
}

-- A name that can be substituted: not empty, and shorter than the buffer for it.
abbrev pub IsName : List ℕ → Type 0
IsName key = (0 < length key) × (length key < max_env_len)

-- A string that starts with `${` and has a `}`.
abbrev pub IsReference : List ℕ → Type 0
IsReference s = (key : List ℕ) × (after : List ℕ) × (s ≡ b'$' ∷ b'{' ∷ (key ++ (b'}' ∷ after)))

-- The text of a configuration, `none` where it is refused: from the left, `${name}` with the first `}`
-- after it is replaced by the value of the name, and any other character stands for itself.
pub data Expands (getenv : List ℕ → Option (List ℕ)) : List ℕ → Option (List ℕ) → Type 0 where
  nothing : Expands getenv [] (some [])
  keep :
      {c : ℕ} {s : List ℕ} {r : Option (List ℕ)}
      → ¬ IsReference (c ∷ s)
      → Expands getenv s r
      → Expands getenv (c ∷ s) (r >>= λ t. some (c ∷ t))
  replace :
      (key value after : List ℕ) {s : List ℕ} {r : Option (List ℕ)}
      → s ≡ b'$' ∷ b'{' ∷ (key ++ (b'}' ∷ after))
      → All (λ c. c ≢ b'}') key
      → IsName key
      → getenv key ≡ some value
      → Expands getenv after r
      → Expands getenv s (r >>= λ t. some (value ++ t))
  refuse :
      (key after : List ℕ) {s : List ℕ}
      → s ≡ b'$' ∷ b'{' ∷ (key ++ (b'}' ∷ after))
      → All (λ c. c ≢ b'}') key
      → (IsName key → getenv key ≡ none)
      → Expands getenv s none

close-some :
    (s : List ℕ) {key after : List ℕ}
    → close s ≡ some (key, after)
    → (s ≡ key ++ (b'}' ∷ after)) × All (λ c. c ≢ b'}') key
close-some [] e = cc
close-some (c ∷ s) e = elim (Option-cases (close s)) [
  | inl d ↦ ground (arith, d)
  | inr ((k, a), d) ↦ ground (arith, d, close-some s d)
]

close-none : (s key after : List ℕ) → close s ≡ none → s ≢ key ++ (b'}' ∷ after)
close-none [] [] after e d = cc
close-none [] (k ∷ key) after e d = cc
close-none (c ∷ s) [] after e d = ground arith
close-none (c ∷ s) (k ∷ key) after e d = ground (arith, close-none s key after)

reference-none : (s : List ℕ) → reference s ≡ none → ¬ IsReference s
unfolding reference
reference-none [] e r = cc
reference-none (c ∷ []) e r = cc
reference-none (c ∷ d ∷ s) e (key, after, q) = ground (arith, close-none s key after)

reference-some :
    (s : List ℕ) {key after : List ℕ}
    → reference s ≡ some (key, after)
    → (s ≡ b'$' ∷ b'{' ∷ (key ++ (b'}' ∷ after))) × All (λ c. c ≢ b'}') key
unfolding reference
reference-some [] e = cc
reference-some (c ∷ []) e = cc
reference-some (c ∷ d ∷ s) {key} {after} e =
    ground (arith, close-some s {key = key} {after = after})

record IsSound (h : Parsed) : Type 0 where
  counted : h.len ≡ length h.bytes
  within : h.len ≤ h.size

update_parsed-IsSound :
    (h : Parsed) (str : List ℕ)
    → IsSound h
    → (h' : Parsed) × (update_parsed h str ≡ some h') × (h'.bytes ≡ h.bytes ++ str) × IsSound h'
unfolding update_parsed
update_parsed-IsSound h str i = (
  record {
    bytes = h.bytes ++ str;
    size = if ltb h.size (h.len + length str) then h.len + length str else h.size;
    len = h.len + length str;
  },
  ground arith,
  refl,
  record { counted = omega (arith, length-append h.bytes str, i.counted); within = ground arith },
)

resolve-some :
    (getenv : List ℕ → Option (List ℕ)) (key : List ℕ) {value : List ℕ}
    → resolve getenv key ≡ some value
    → IsName key × (getenv key ≡ some value)
unfolding resolve
resolve-some getenv key e = ground arith

resolve-none :
    (getenv : List ℕ → Option (List ℕ)) (key : List ℕ)
    → resolve getenv key ≡ none
    → IsName key
    → getenv key ≡ none
unfolding resolve
resolve-none getenv key e n = ground arith

-- The text with what is in the buffer before it, and the terminator.
abbrev ended : List ℕ → Option (List ℕ) → Option (List ℕ)
ended before r = r >>= λ t. some (before ++ (t ++ (0 ∷ [])))

ended-append :
    (b v : List ℕ) (r : Option (List ℕ)) → ended (b ++ v) r ≡ ended b (r >>= λ t. some (v ++ t))
ended-append b v none = refl
ended-append b v (some t) =
    ap some (append_assoc b v (t ++ (0 ∷ [])) ∙ ap (λ x. b ++ x) (sym (append_assoc v t (0 ∷ []))))

-- One round that copies a character, and one that replaces a name.
module _ (fuel : ℕ) (getenv : List ℕ → Option (List ℕ)) (h : Parsed) (c : ℕ) (s : List ℕ) where
  copies :
      {h' : Parsed}
      → reference (c ∷ s) ≡ none
      → update_parsed h (c ∷ []) ≡ some h'
      → substitute (suc fuel) getenv h (c ∷ s) ≡ substitute fuel getenv h' s
  unfolding substitute
  copies n e = rw (n, substitute, e) refl

  refuses :
      {key after : List ℕ}
      → reference (c ∷ s) ≡ some (key, after)
      → resolve getenv key ≡ none
      → substitute (suc fuel) getenv h (c ∷ s) ≡ some none
  unfolding substitute
  refuses f n = rw (f, n, substitute) refl

  replaces :
      {key after value : List ℕ} {h' : Parsed}
      → reference (c ∷ s) ≡ some (key, after)
      → resolve getenv key ≡ some value
      → update_parsed h value ≡ some h'
      → substitute (suc fuel) getenv h (c ∷ s) ≡ substitute fuel getenv h' after
  unfolding substitute
  replaces f v e = rw (f, v, substitute, e) refl

abbrev Result : (List ℕ → Option (List ℕ)) → List ℕ → List ℕ → Option (Option (List ℕ)) → Type 0
Result getenv before s o = (r : Option (List ℕ)) × Expands getenv s r × (o ≡ some (ended before r))

substitute-Expands :
    (fuel : ℕ) (getenv : List ℕ → Option (List ℕ)) (h : Parsed) (s : List ℕ)
    → IsSound h
    → length s < fuel
    → Result getenv h.bytes s (substitute fuel getenv h s)
unfolding substitute
substitute-Expands zero getenv h s i l = absurd (omega arith)
substitute-Expands (suc fuel) getenv h [] i l =
    let (h', e, b, i') = update_parsed-IsSound h (0 ∷ []) i in (some [], nothing, rw (e, b) refl)
substitute-Expands (suc fuel) getenv h (c ∷ s) i l = elim (Option-cases (reference (c ∷ s))) [
  | inl n ↦
      let (h', e, b, i') = update_parsed-IsSound h (c ∷ []) i in
      let (r, x, q) = substitute-Expands fuel getenv h' s i' (omega arith) in
      (
        _,
        keep (reference-none (c ∷ s) n) x,
        copies fuel getenv h c s n e ∙ q ∙ rw b (ap some (ended-append h.bytes (c ∷ []) r)),
      )
  | inr ((key, after), f) ↦
      let (t, k) = reference-some (c ∷ s) f in
      elim (Option-cases (resolve getenv key)) [
        | inl n ↦
            (none, refuse key after t k (resolve-none getenv key n), refuses fuel getenv h c s f n)
        | inr (value, v) ↦
            let (name, found) = resolve-some getenv key v in
            let (h', e, b, i') = update_parsed-IsSound h value i in
            let shorter : length after < fuel =
              omega (arith, ap length t, length-append key (b'}' ∷ after)) in
            let (r, x, q) = substitute-Expands fuel getenv h' after i' shorter in
            (
              _,
              replace key value after t k name found x,
              replaces fuel getenv h c s f v e ∙ q ∙ rw b (ap some (ended-append h.bytes value r)),
            )
      ]
]

-- `iot_config_substitute_env` of any string stays inside its buffer, and its loop ends: the result is
-- the text of the string with its terminator, or NULL where the text is refused.
pub substitute_env-Expands :
    (getenv : List ℕ → Option (List ℕ)) (str : List ℕ)
    → (r : Option (List ℕ)) × Expands getenv str r
      × (substitute_env getenv str ≡ some (r >>= λ t. some (t ++ (0 ∷ []))))
unfolding substitute_env
substitute_env-Expands getenv str =
    substitute-Expands (suc (length str)) getenv (record { bytes = []; size = length str; len = 0 })
      str (record { counted = refl; within = omega arith }) (omega arith)

moved :
    (getenv : List ℕ → Option (List ℕ)) {a b : List ℕ} {r : Option (List ℕ)}
    → a ≡ b
    → Expands getenv b r
    → Expands getenv a r
moved getenv {r = r} e = subst (λ z. Expands getenv z r) (sym e)

one_key :
    (k l : List ℕ) {a b : List ℕ}
    → k ++ (b'}' ∷ a) ≡ l ++ (b'}' ∷ b)
    → All (λ c. c ≢ b'}') k
    → All (λ c. c ≢ b'}') l
    → (k ≡ l) × (a ≡ b)
one_key [] [] e p q = (refl, cc)
one_key [] (c ∷ l) e p q = ground (arith, q.0)
one_key (c ∷ k) [] e p q = ground (arith, p.0)
one_key (c ∷ k) (d ∷ l) {a} {b} e p q =
    let (same, rest) = one_key k l {a = a} {b = b} (cc e) p.1 q.1 in (cc (e, same), rest)

-- The text is the only one.
pub Expands-unique :
    (getenv : List ℕ → Option (List ℕ)) {s : List ℕ} {r r' : Option (List ℕ)}
    → Expands getenv s r
    → Expands getenv s r'
    → r ≡ r'
Expands-unique getenv nothing nothing = refl
Expands-unique getenv nothing (replace k v a e _ _ _ _) = cc
Expands-unique getenv nothing (refuse k a e _ _) = cc
Expands-unique getenv (keep {c} n x) (keep m y) =
    ap (λ r. r >>= λ t. some (c ∷ t)) (Expands-unique getenv x y)
Expands-unique getenv (keep n x) (replace k v a e _ _ _ y) = absurd (n (k, a, e))
Expands-unique getenv (keep n x) (refuse k a e _ _) = absurd (n (k, a, e))
Expands-unique getenv (replace k v a e p n f x) nothing = cc
Expands-unique getenv (replace k v a e p n f x) (keep m y) = absurd (m (k, a, e))
Expands-unique getenv (replace k v a e p n f x) (replace l w b d q m g y) =
    let (same, rest) = one_key k l {a = a} {b = b} (cc (e, d)) p q in
    let w' : v ≡ w = cc (same, f, g) in
    rw w' (ap (λ r. r >>= λ t. some (w ++ t)) (Expands-unique getenv x (moved getenv rest y)))
Expands-unique getenv (replace k v a e p n f x) (refuse l b d q m) =
    let (same, rest) = one_key k l {a = a} {b = b} (cc (e, d)) p q in
    let unset : getenv l ≡ none = m (rw (← same) n) in cc (same, f, unset)
Expands-unique getenv (refuse k a e p n) nothing = cc
Expands-unique getenv (refuse k a e p n) (keep m y) = absurd (m (k, a, e))
Expands-unique getenv (refuse k a e p n) (replace l w b d q m g y) =
    let (same, rest) = one_key k l {a = a} {b = b} (cc (e, d)) p q in
    let unset : getenv k ≡ none = n (rw same m) in cc (same, g, unset)
Expands-unique getenv (refuse k a e p n) (refuse l b d q m) = refl

-- ===== src/Data/Compare/Flat.antt =====
-- src/c/data.c, `iot_data_cmp`: a flat form of the values for the dictionary order.
use iotech_c_utils.Common.{
  ◌≢◌, ◌<◌, ℕ, suc, ◌≡◌, refl, arith, Bool, true, false, ◌&&◌, List, [], ◌∷◌, ◌++◌, length,
  append_assoc, append-nil, sym, ap, ◌∙◌, inl, inr,
}
use iotech_c_utils.Common.Int.{ℤ, pos, negsuc}
use iotech_c_utils.Order.{Sign, lt, eq, gt, cmp_ui64, cmp_ui64_eq, Sign-cases}
use iotech_c_utils.Data.{
  IntType, Floats, Value, Values, Entries, null_ptr, null, int, float, bool, pointer, string,
  binary, array, vector, list, dict, nil, cons, done, entry, int_code, float_code, element_code,
  type_code, count_values, count_entries,
}
use iotech_c_utils.Data.Compare.Lex.{lex}
use iotech_c_utils.Data.Compare.{
  Caches, part, or_else, cmp_bytes, cmp_sizes, data_cmp, cmp_values, cmp_entries, compare_data,
}

-- No float stands in the value, at any depth.
abbrev mutual
  pub no_float : Value → Bool
  no_float (float t bits) = false
  no_float (vector vs) = no_floats vs
  no_float (list vs) = no_floats vs
  no_float (dict es) = no_float_entries es
  no_float _ = true

  pub no_floats : Values → Bool
  no_floats nil = true
  no_floats (cons v vs) = no_float v && no_floats vs

  pub no_float_entries : Entries → Bool
  no_float_entries done = true
  no_float_entries (entry k v es) = no_float k && (no_float v && no_float_entries es)

-- Bytes, then an end mark below each of them.
flat_bytes : List ℕ → List ℤ
flat_bytes [] = negsuc 0 ∷ []
flat_bytes (b ∷ bs) = pos b ∷ flat_bytes bs

abbrev truth : Bool → ℕ
truth true = 1
truth false = 0

module _ ⦃fl : Floats⦄ where
  -- The type first, 0 for NULL; then what the comparison reads, in the order in which it reads it.
  unfoldable mutual
    unfolding flat_bytes

    pub flat : Caches → Value → List ℤ
    flat c null_ptr = pos 0 ∷ []
    flat c null = pos 14 ∷ []
    flat c (int t z) = pos (suc (int_code t)) ∷ z ∷ []
    flat c (float t bits) = pos (suc (float_code t)) ∷ pos bits ∷ []
    flat c (bool b) = pos 11 ∷ pos (truth b) ∷ []
    flat c (pointer p) = pos 12 ∷ pos p ∷ []
    flat c (string s) = pos 13 ∷ flat_bytes s
    flat c (binary bytes) = pos 15 ∷ pos (length bytes) ∷ flat_bytes bytes
    flat c (array t n bytes) = pos 16 ∷ pos n ∷ pos (element_code t) ∷ flat_bytes bytes
    flat c (vector vs) = pos 17 ∷ pos (count_values vs) ∷ pos (c []) ∷ flat_values c 0 vs
    flat c (list vs) = pos 18 ∷ pos (count_values vs) ∷ pos (c []) ∷ flat_values c 0 vs
    flat c (dict es) = pos 19 ∷ pos (count_entries es) ∷ pos (c []) ∷ flat_entries c 0 es

    pub flat_values : Caches → ℕ → Values → List ℤ
    flat_values c i nil = []
    flat_values c i (cons v vs) = flat (part c i) v ++ flat_values c (suc i) vs

    pub flat_entries : Caches → ℕ → Entries → List ℤ
    flat_entries c i done = []
    flat_entries c i (entry k v es) =
        flat (part c i) k ++ (flat (part c (suc i)) v ++ flat_entries c (suc (suc i)) es)

or_else_assoc : (a b c : Sign) → or_else (or_else a b) c ≡ or_else a (or_else b c)
or_else_assoc lt b c = refl
or_else_assoc eq b c = refl
or_else_assoc gt b c = refl

or_else_nothing : (a : Sign) → or_else a eq ≡ a
or_else_nothing lt = refl
or_else_nothing eq = refl
or_else_nothing gt = refl

lex-flat_bytes :
    (a b : List ℕ) (r s : List ℤ)
    → lex (flat_bytes a ++ r) (flat_bytes b ++ s) ≡ or_else (cmp_bytes a b) (lex r s)
unfolding flat_bytes lex
lex-flat_bytes [] [] r s = refl
lex-flat_bytes [] (b ∷ bs) r s = refl
lex-flat_bytes (a ∷ as') [] r s = refl
lex-flat_bytes (a ∷ as') (b ∷ bs) r s =
    ground
      (arith, lex-flat_bytes as' bs r s, or_else_assoc (cmp_ui64 a b) (cmp_bytes as' bs) (lex r s))

int_code_bound : (t : IntType) → int_code t < 8
int_code_bound t = ground arith

-- Two type codes that differ settle the comparison.
apart :
    (m n : ℕ) (l t : Sign) → m ≢ n → or_else (cmp_ui64 (suc m) (suc n)) l ≡ or_else (cmp_ui64 m n) t
apart m n l t h = ground arith

pub both : (a b : Bool) → (a && b) ≡ true → (a ≡ true) × (b ≡ true)
both true b h = (refl, h)
both false b h = cc

sized :
    (m n h k : ℕ) (c l t : Sign)
    → (m ≡ n → l ≡ or_else c t)
    → or_else (cmp_ui64 m n) (or_else (cmp_ui64 h k) l) ≡ or_else (cmp_sizes m n h k c) t
sized m n h k c l t e = elim (Sign-cases (cmp_ui64 m n)) [
  | inl below ↦ rw below
  | inr (inl same) ↦ rw (
    e (cmp_ui64_eq m n same),
    or_else_assoc (cmp_ui64 m n) (or_else (cmp_ui64 h k) c) t,
    or_else_assoc (cmp_ui64 h k) c t,
  )
  | inr (inr above) ↦ rw above
]

module _ ⦃fl : Floats⦄ where
  mutual
    unfolding data_cmp flat lex

    flat_lem :
        (c d : Caches) (v w : Value) (r s : List ℤ)
        → no_float v ≡ true
        → no_float w ≡ true
        → lex (flat c v ++ r) (flat d w ++ s) ≡ or_else (data_cmp false c d v w) (lex r s)
    flat_lem c d null_ptr null_ptr r s p q = refl
    flat_lem c d (float t a) w r s p q = cc
    flat_lem c d v (float u b) r s p q = cc
    flat_lem c d (int t a) (int u b) r s p q = ground arith
    flat_lem c d (int t a) null_ptr r s p q = ground arith
    flat_lem c d null_ptr (int u b) r s p q = ground arith
    flat_lem c d (int t a) w r s p q =
        apart (int_code t) (type_code w) _ (lex r s) (omega (arith, int_code_bound t))
    flat_lem c d v (int u b) r s p q =
        apart (type_code v) (int_code u) _ (lex r s) (omega (arith, int_code_bound u))
    flat_lem c d (string a) (string b) r s p q = lex-flat_bytes a b r s
    flat_lem c d (binary a) (binary b) r s p q =
        rw (lex-flat_bytes a b r s)
          (sym (or_else_assoc (cmp_ui64 (length a) (length b)) (cmp_bytes a b) (lex r s)))
    flat_lem c d (array t m a) (array u n b) r s p q = ground (
      arith,
      lex-flat_bytes a b r s,
      or_else_assoc (cmp_ui64 (element_code t) (element_code u)) (cmp_bytes a b) (lex r s),
    )
    flat_lem c d (vector vs) (vector ws) r s p q =
        sized (count_values vs) (count_values ws) (c []) (d []) (cmp_values false c d 0 vs ws) _
          (lex r s) (λ e. flat_values_lem c d 0 vs ws r s e p q)
    flat_lem c d (list vs) (list ws) r s p q =
        sized (count_values vs) (count_values ws) (c []) (d []) (cmp_values false c d 0 vs ws) _
          (lex r s) (λ e. flat_values_lem c d 0 vs ws r s e p q)
    flat_lem c d (dict es) (dict fs) r s p q =
        sized (count_entries es) (count_entries fs) (c []) (d []) (cmp_entries false c d 0 es fs) _
          (lex r s) (λ e. flat_entries_lem c d 0 es fs r s e p q)
    flat_lem c d v w r s p q = ground arith

    flat_values_lem :
        (c d : Caches) (i : ℕ) (vs ws : Values) (r s : List ℤ)
        → count_values vs ≡ count_values ws
        → no_floats vs ≡ true
        → no_floats ws ≡ true
        → lex (flat_values c i vs ++ r) (flat_values d i ws ++ s)
          ≡ or_else (cmp_values false c d i vs ws) (lex r s)
    flat_values_lem c d i nil nil r s e p q = refl
    flat_values_lem c d i nil (cons w ws) r s e p q = absurd (omega arith)
    flat_values_lem c d i (cons v vs) nil r s e p q = absurd (omega arith)
    flat_values_lem c d i (cons v vs) (cons w ws) r s e p q =
        let vs' = flat_values c (suc i) vs in
        let ws' = flat_values d (suc i) ws in
        rw
          (
            append_assoc (flat (part c i) v) vs' r,
            append_assoc (flat (part d i) w) ws' s,
            flat_lem (part c i) (part d i) v w (vs' ++ r) (ws' ++ s)
                (both (no_float v) (no_floats vs) p).0 (both (no_float w) (no_floats ws) q).0,
            flat_values_lem c d (suc i) vs ws r s (omega arith)
                (both (no_float v) (no_floats vs) p).1 (both (no_float w) (no_floats ws) q).1,
          )
          (sym (or_else_assoc _ (cmp_values false c d (suc i) vs ws) (lex r s)))

    flat_entries_lem :
        (c d : Caches) (i : ℕ) (es fs : Entries) (r s : List ℤ)
        → count_entries es ≡ count_entries fs
        → no_float_entries es ≡ true
        → no_float_entries fs ≡ true
        → lex (flat_entries c i es ++ r) (flat_entries d i fs ++ s)
          ≡ or_else (cmp_entries false c d i es fs) (lex r s)
    flat_entries_lem c d i done done r s e p q = refl
    flat_entries_lem c d i done (entry l w fs) r s e p q = absurd (omega arith)
    flat_entries_lem c d i (entry k v es) done r s e p q = absurd (omega arith)
    flat_entries_lem c d i (entry k v es) (entry l w fs) r s e p q =
        let es' = flat_entries c (suc (suc i)) es in
        let fs' = flat_entries d (suc (suc i)) fs in
        let v' = flat (part c (suc i)) v in
        let w' = flat (part d (suc i)) w in
        let p' = both (no_float k) (no_float v && no_float_entries es) p in
        let q' = both (no_float l) (no_float w && no_float_entries fs) q in
        let p'' = both (no_float v) (no_float_entries es) p'.1 in
        let q'' = both (no_float w) (no_float_entries fs) q'.1 in
        let cmp_v = data_cmp false (part c (suc i)) (part d (suc i)) v w in
        let cmp_es = cmp_entries false c d (suc (suc i)) es fs in
        let cmp_k = data_cmp false (part c i) (part d i) k l in
        rw
          (
            append_assoc (flat (part c i) k) (v' ++ es') r,
            append_assoc v' es' r,
            append_assoc (flat (part d i) l) (w' ++ fs') s,
            append_assoc w' fs' s,
            flat_lem (part c i) (part d i) k l (v' ++ (es' ++ r)) (w' ++ (fs' ++ s)) p'.0 q'.0,
            flat_lem (part c (suc i)) (part d (suc i)) v w (es' ++ r) (fs' ++ s) p''.0 q''.0,
            flat_entries_lem c d (suc (suc i)) es fs r s (omega arith) p''.1 q''.1,
          )
          (sym (
            or_else_assoc cmp_k (or_else cmp_v cmp_es) (lex r s)
            ∙ ap (or_else cmp_k) (or_else_assoc cmp_v cmp_es (lex r s))))

  -- For values without floats, `iot_data_compare` is the dictionary order of the flat forms.
  pub compare_data-flat :
      (c d : Caches) (v w : Value)
      → no_float v ≡ true
      → no_float w ≡ true
      → compare_data c d v w ≡ lex (flat c v) (flat d w)
  unfolding compare_data lex
  compare_data-flat c d v w p q =
      let e = flat_lem c d v w [] [] p q in
      sym (or_else_nothing (data_cmp false c d v w))
      ∙ (sym e ∙ rw (append-nil (flat c v), append-nil (flat d w)))

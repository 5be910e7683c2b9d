-- ===== src/Map/Hash.antt =====
-- src/c/data.c, the hash of a map: the exclusive or over its entries, kept up to date or recomputed.
use mathlib.Core.List.{foldl}
use iotech_c_utils.Common.{
  ℕ, bit_xor, ◌≡◌, refl, sym, ◌∙◌, arith, List, [], ◌∷◌, ◌++◌, if◌then◌else◌, ◌==◌,
}
use iotech_c_utils.Common.Xor.{bit_xor_left_comm, bit_xor_assoc, bit_xor-zero}
use iotech_c_utils.Map.{Hashed, map_hash}

module _ {ℓ} {K V : Type ℓ} ⦃hk : Hashed K⦄ ⦃hv : Hashed V⦄ where
  abbrev pub entry_hash : K → V → ℕ
  entry_hash k v =
      if hv.hash_of v == hk.hash_of k then hk.hash_of k else bit_xor (hk.hash_of k) (hv.hash_of v)

  -- The hash that the entries call for.
  abbrev pub content_hash : List (K × V) → ℕ
  content_hash [] = 0
  content_hash ((k, v) ∷ es) = bit_xor (entry_hash k v) (content_hash es)

  pub map_hash_lem : (h : ℕ) (k : K) (v : V) → map_hash h k v ≡ bit_xor h (entry_hash k v)
  unfolding map_hash
  map_hash_lem h k v = ground (arith, bit_xor_assoc h (hk.hash_of k) (hv.hash_of v))

  pub foldl-map_hash :
      (es : List (K × V)) (h : ℕ)
      → foldl (λ a e. map_hash a e.0 e.1) h es ≡ bit_xor h (content_hash es)
  foldl-map_hash [] h = sym (bit_xor-zero h)
  foldl-map_hash ((k, v) ∷ es) h =
      foldl-map_hash es (map_hash h k v)
      ∙ rw (map_hash_lem h k v) (bit_xor_assoc h (entry_hash k v) (content_hash es))

  -- The place of an entry does not matter.
  pub content_hash-append :
      (xs ys : List (K × V)) (k : K) (v : V)
      → content_hash (xs ++ ((k, v) ∷ ys)) ≡ bit_xor (entry_hash k v) (content_hash (xs ++ ys))
  content_hash-append [] ys k v = refl
  content_hash-append ((j, w) ∷ xs) ys k v =
      rw (content_hash-append xs ys k v)
        (bit_xor_left_comm (entry_hash j w) (entry_hash k v) (content_hash (xs ++ ys)))

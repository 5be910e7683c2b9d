-- ===== src/RbTree/Balance.antt =====
-- src/c/data.c: insertion and the red-black rules.
use iotech_c_utils.Common.{
  ℕ, suc, ◌≡◌, refl, sym, arith, List, [], ◌∷◌, Option, none, some, ◌⊎◌, inl, inr,
}
use mathlib.Core.Path.{subst}
use iotech_c_utils.RbTree.{
  black, red, Tree, leaf, node, Frame, goes_left, goes_right, colour, set_colour, frame_colour,
  plug, rotate_up, finish, insert_balance,
}

module _ {ℓ} {K V : Type ℓ} where
  -- The black nodes on the way to the leftmost leaf.
  abbrev pub black_height : Tree K V → ℕ
  black_height leaf = 0
  black_height (node black l k v r) = suc (black_height l)
  black_height (node red l k v r) = black_height l

  -- No red node has a red child, and every way to a leaf has as many black nodes.
  abbrev pub IsRb : Tree K V → Type 0
  IsRb leaf = Unit
  IsRb (node black l k v r) = (black_height l ≡ black_height r) × IsRb l × IsRb r
  IsRb (node red l k v r) =
      (colour l ≡ black) × (colour r ≡ black) × (black_height l ≡ black_height r) × IsRb l × IsRb r

  -- A valid tree with a black root, as every map has between its operations.
  abbrev pub IsRbRoot : Tree K V → Type 0
  IsRbRoot t = (colour t ≡ black) × IsRb t

  abbrev pub IsBlackAbove : List (Frame K V) → Type 0
  IsBlackAbove [] = ⊥
  IsBlackAbove (f ∷ path) = frame_colour f ≡ black

  -- A path that makes a valid tree of a black subtree of black height `n`.
  abbrev pub IsRbPath : ℕ → List (Frame K V) → Type 0
  IsRbPath n [] = Unit
  IsRbPath n (goes_left black k v r ∷ up) = (black_height r ≡ n) × IsRb r × IsRbPath (suc n) up
  IsRbPath n (goes_right black l k v ∷ up) = (black_height l ≡ n) × IsRb l × IsRbPath (suc n) up
  IsRbPath n (goes_left red k v r ∷ up) =
      (black_height r ≡ n) × IsRb r × (colour r ≡ black) × IsBlackAbove up × IsRbPath n up
  IsRbPath n (goes_right red l k v ∷ up) =
      (black_height l ≡ n) × IsRb l × (colour l ≡ black) × IsBlackAbove up × IsRbPath n up

  abbrev pub FitsPath : Tree K V → List (Frame K V) → Type 0
  FitsPath t [] = Unit
  FitsPath t (f ∷ path) = (colour t ≡ black) ⊎ (frame_colour f ≡ black)

  pub set_black-IsRb : (t : Tree K V) → IsRb t → IsRbRoot (set_colour t black)
  set_black-IsRb leaf h = (refl, tt)
  set_black-IsRb (node black l k v r) h = (refl, h)
  set_black-IsRb (node red l k v r) h = (refl, (h.2, h.3, h.4))

  black-FitsPath : (t : Tree K V) (path : List (Frame K V)) → colour t ≡ black → FitsPath t path
  black-FitsPath t [] h = tt
  black-FitsPath t (f ∷ path) h = inl h

  above-FitsPath : (t : Tree K V) (path : List (Frame K V)) → IsBlackAbove path → FitsPath t path
  above-FitsPath t [] h = tt
  above-FitsPath t (f ∷ path) h = inr h

  pub plug-IsRb :
      (t : Tree K V) (path : List (Frame K V))
      → IsRb t
      → IsRbPath (black_height t) path
      → FitsPath t path
      → IsRb (plug t path)
  plug-IsRb t [] h p f = h
  plug-IsRb t (goes_left black k v r ∷ up) h p f =
      plug-IsRb (node black t k v r) up (sym p.0, h, p.1) p.2
        (black-FitsPath (node black t k v r) up refl)
  plug-IsRb t (goes_right black l k v ∷ up) h p f =
      plug-IsRb (node black l k v t) up (p.0, p.1, h)
        (subst (λ n. IsRbPath (suc n) up) (sym p.0) p.2)
        (black-FitsPath (node black l k v t) up refl)
  plug-IsRb t (goes_left red k v r ∷ up) h p f =
      plug-IsRb (node red t k v r) up (ground arith, p.2, sym p.0, h, p.1) p.4
        (above-FitsPath (node red t k v r) up p.3)
  plug-IsRb t (goes_right red l k v ∷ up) h p f =
      plug-IsRb (node red l k v t) up (p.2, ground arith, p.0, p.1, h)
        (subst (λ n. IsRbPath n up) (sym p.0) p.4) (above-FitsPath (node red l k v t) up p.3)

  -- The result is a valid tree with a black root; NULL is not followed.
  abbrev pub Ensures : Option (Tree K V) → Type 0
  Ensures none = ⊥
  Ensures (some t) = IsRbRoot t

  pub finish-IsRb :
      (t : Tree K V) (path : List (Frame K V))
      → IsRb t
      → IsRbPath (black_height t) path
      → FitsPath t path
      → Ensures (finish t path)
  finish-IsRb t path h p f = set_black-IsRb (plug t path) (plug-IsRb t path h p f)

  pub insert_balance-IsRb :
      (a : Tree K V) (x : K) (y : V) (b : Tree K V) (path : List (Frame K V))
      → IsRb (node red a x y b)
      → IsRbPath (black_height a) path
      → Ensures (insert_balance (node red a x y b) path)
  unfolding insert_balance rotate_up
  insert_balance-IsRb a x y b [] h p = finish-IsRb (node red a x y b) [] h p tt
  insert_balance-IsRb a x y b (goes_left black j w s ∷ []) h p =
      finish-IsRb (node red a x y b) (goes_left black j w s ∷ []) h p (inr refl)
  insert_balance-IsRb a x y b (goes_left black j w s ∷ g ∷ up) h p =
      finish-IsRb (node red a x y b) (goes_left black j w s ∷ g ∷ up) h p (inr refl)
  insert_balance-IsRb a x y b (goes_right black s j w ∷ []) h p =
      finish-IsRb (node red a x y b) (goes_right black s j w ∷ []) h p (inr refl)
  insert_balance-IsRb a x y b (goes_right black s j w ∷ g ∷ up) h p =
      finish-IsRb (node red a x y b) (goes_right black s j w ∷ g ∷ up) h p (inr refl)
  insert_balance-IsRb a x y b (goes_left red j w s ∷ []) h p = absurd p.3
  insert_balance-IsRb a x y b (goes_left red j w s ∷ goes_left red j' w' s' ∷ up) h p =
      absurd (cc (p.3))
  insert_balance-IsRb a x y b (goes_left red j w s ∷ goes_left black j' w' leaf ∷ up) h p =
      finish-IsRb (node black (node red a x y b) j w (node red s j' w' leaf)) up (ground arith)
        (ground arith)
        (black-FitsPath (node black (node red a x y b) j w (node red s j' w' leaf)) up refl)
  insert_balance-IsRb a x y b
        (goes_left red j w s ∷ goes_left black j' w' (node black c m n d) ∷ up) h p =
      finish-IsRb (node black (node red a x y b) j w (node red s j' w' (node black c m n d))) up
        (ground arith) (ground arith)
        (black-FitsPath (node black (node red a x y b) j w (node red s j' w' (node black c m n d)))
          up refl)
  insert_balance-IsRb a x y b (goes_left red j w s ∷ goes_left black j' w' (node red c m n d) ∷ up)
        h p =
      insert_balance-IsRb (node black (node red a x y b) j w s) j' w' (node black c m n d) up
        (ground arith) (ground arith)
  insert_balance-IsRb a x y b (goes_left red j w s ∷ goes_right red s' j' w' ∷ up) h p =
      absurd (cc (p.3))
  insert_balance-IsRb a x y b (goes_left red j w s ∷ goes_right black leaf j' w' ∷ up) h p =
      finish-IsRb (node black (node red leaf j' w' a) x y (node red b j w s)) up (ground arith)
        (ground arith)
        (black-FitsPath (node black (node red leaf j' w' a) x y (node red b j w s)) up refl)
  insert_balance-IsRb a x y b
        (goes_left red j w s ∷ goes_right black (node black c m n d) j' w' ∷ up) h p =
      finish-IsRb (node black (node red (node black c m n d) j' w' a) x y (node red b j w s)) up
        (ground arith) (ground arith)
        (black-FitsPath (node black (node red (node black c m n d) j' w' a) x y (node red b j w s))
          up refl)
  insert_balance-IsRb a x y b (goes_left red j w s ∷ goes_right black (node red c m n d) j' w' ∷ up)
        h p =
      insert_balance-IsRb (node black c m n d) j' w' (node black (node red a x y b) j w s) up
        (ground arith) (ground arith)
  insert_balance-IsRb a x y b (goes_right red s j w ∷ []) h p = absurd p.3
  insert_balance-IsRb a x y b (goes_right red s j w ∷ goes_left red j' w' s' ∷ up) h p =
      absurd (cc (p.3))
  insert_balance-IsRb a x y b (goes_right red s j w ∷ goes_left black j' w' leaf ∷ up) h p =
      finish-IsRb (node black (node red s j w a) x y (node red b j' w' leaf)) up (ground arith)
        (ground arith)
        (black-FitsPath (node black (node red s j w a) x y (node red b j' w' leaf)) up refl)
  insert_balance-IsRb a x y b
        (goes_right red s j w ∷ goes_left black j' w' (node black c m n d) ∷ up) h p =
      finish-IsRb (node black (node red s j w a) x y (node red b j' w' (node black c m n d))) up
        (ground arith) (ground arith)
        (black-FitsPath (node black (node red s j w a) x y (node red b j' w' (node black c m n d)))
          up refl)
  insert_balance-IsRb a x y b (goes_right red s j w ∷ goes_left black j' w' (node red c m n d) ∷ up)
        h p =
      insert_balance-IsRb (node black s j w (node red a x y b)) j' w' (node black c m n d) up
        (ground arith) (ground arith)
  insert_balance-IsRb a x y b (goes_right red s j w ∷ goes_right red s' j' w' ∷ up) h p =
      absurd (cc (p.3))
  insert_balance-IsRb a x y b (goes_right red s j w ∷ goes_right black leaf j' w' ∷ up) h p =
      finish-IsRb (node black (node red leaf j' w' s) j w (node red a x y b)) up (ground arith)
        (ground arith)
        (black-FitsPath (node black (node red leaf j' w' s) j w (node red a x y b)) up refl)
  insert_balance-IsRb a x y b
        (goes_right red s j w ∷ goes_right black (node black c m n d) j' w' ∷ up) h p =
      finish-IsRb (node black (node red (node black c m n d) j' w' s) j w (node red a x y b)) up
        (ground arith) (ground arith)
        (black-FitsPath (node black (node red (node black c m n d) j' w' s) j w (node red a x y b))
          up refl)
  insert_balance-IsRb a x y b
        (goes_right red s j w ∷ goes_right black (node red c m n d) j' w' ∷ up) h p =
      insert_balance-IsRb (node black c m n d) j' w' (node black s j w (node red a x y b)) up
        (ground arith) (ground arith)

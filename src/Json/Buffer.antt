-- ===== src/Json/Buffer.antt =====
-- src/c/data.c and src/c/data-json.c: what the operations on the string buffer append, whatever its size.
use iotech_c_utils.Common.{
  ℕ, zero, suc, ◌+◌, ◌-◌, ◌≤◌, ◌<◌, ◌≡◌, refl, sym, ap, ◌∙◌, arith, true, false, List, [], ◌∷◌,
  ◌++◌, Option, none, some, length, length-append, append_assoc, append-nil, if◌then◌else◌,
  Bool-cases, ◌==◌, leb, inl, inr,
}
use iotech_c_utils.RbTree.{◌>>=◌}
use iotech_c_utils.Base64.{encodesize, encode}
use iotech_c_utils.Base64.Bounds.{length-encode, encode_room}
use iotech_c_utils.Json.{
  StringHolder, holder_realloc, append_text, repr_size, escape_char, escape_text, total_repr_size,
  make_room, strcat_escape, strcat, add_base64, take, val_buff_size, add_value,
}
use iotech_c_utils.Json.Escape.{length-escape_text, escape_text_plain}

-- The string, its terminator and the free bytes make up the allocation.
pub record IsSound (h : StringHolder) : Type 0 where
  pub filled : length h.str + h.free + 1 ≡ h.size

-- The write succeeds, appends the text, and leaves a sound buffer.
abbrev pub Appends : (StringHolder → Option StringHolder) → List ℕ → Type 0
Appends f text =
    (h : StringHolder)
    → IsSound h
    → (h' : StringHolder) × (f h ≡ some h') × (h'.str ≡ h.str ++ text) × IsSound h'

pub Appends-nothing : Appends (λ h. some h) []
Appends-nothing h i = (h, refl, sym (append-nil h.str), i)

pub Appends-bind :
    (f g : StringHolder → Option StringHolder) (s t : List ℕ)
    → Appends f s
    → Appends g t
    → Appends (λ h. f h >>= g) (s ++ t)
Appends-bind f g s t a b h i =
    let (h', e, d, i') = a h i in
    let (h'', e', d', i'') = b h' i' in (h'', rw e e', d' ∙ rw d (append_assoc h.str s t), i'')

make_room_lem :
    (n : ℕ) (h : StringHolder)
    → IsSound h
    → IsSound (make_room n h) × (n ≤ (make_room n h).free) × ((make_room n h).str ≡ h.str)
unfolding make_room holder_realloc
make_room_lem n h i = (record { filled = ground (arith, i.filled) }, ground arith, ground arith)

append_text_lem :
    (text : List ℕ) (h : StringHolder)
    → IsSound h
    → length text ≤ h.free
    → (h' : StringHolder) × (append_text text (length text) h ≡ some h')
      × (h'.str ≡ h.str ++ text)
      × IsSound h'
unfolding append_text
append_text_lem text h i l = (
  record h { str = h.str ++ text; free = h.free - length text },
  ground arith,
  refl,
  record { filled = omega (arith, length-append h.str text, i.filled) },
)

-- Room for a text, and the text.
append_lem :
    (text : List ℕ) (n : ℕ)
    → length text ≤ n
    → Appends (λ h. append_text text (length text) (make_room n h)) text
append_lem text n l h i =
    let (i', r, s) = make_room_lem n h i in
    let (h', e, d, i'') = append_text_lem text (make_room n h) i' (omega (arith, l, r)) in
    (h', e, rw s at d, i'')

chosen : (s : List ℕ) → (if length s == total_repr_size s then s else escape_text s) ≡ escape_text s
chosen s = elim (Bool-cases (length s == total_repr_size s)) [
  | inl e ↦ rw e (sym (escape_text_plain s (ground (arith, e))))
  | inr e ↦ rw e refl
]

pub strcat_lem : (s : List ℕ) → Appends (strcat s) (escape_text s)
unfolding strcat_escape
strcat_lem s h i =
    rw (chosen s, ← length-escape_text s) (append_lem (escape_text s) _ (omega arith) h i)

pub strcat_plain : (s : List ℕ) → Appends (λ h. strcat_escape s false h) s
unfolding strcat_escape
strcat_plain s h i =
    let e : (length s == length s) ≡ true = ground arith in rw e (append_lem s _ (omega arith) h i)

take_short : (n : ℕ) (s : List ℕ) → length s ≤ n → take n s ≡ s
take_short zero [] h = refl
take_short zero (c ∷ s) h = absurd (omega arith)
take_short (suc n) [] h = refl
take_short (suc n) (c ∷ s) h = ap (◌∷◌ c) (take_short n s (omega arith))

pub add_value_lem : (text : List ℕ) → length text < val_buff_size → Appends (add_value text) text
unfolding add_value
add_value_lem text l h i =
    let (i', r, s) = make_room_lem val_buff_size h i in
    let e : leb
          ((make_room val_buff_size h).size - (make_room val_buff_size h).free - 1 + val_buff_size)
          (make_room val_buff_size h).size
        ≡ true =
      ground (arith, i'.filled) in
    rw (e, take_short 30 text (omega arith)) (append_lem text val_buff_size (omega arith) h i)

-- The base64 text of some bytes, without the terminator.
abbrev pub base64_text : List ℕ → List ℕ
base64_text [] = []
base64_text (b ∷ bytes) = elim (encode (b ∷ bytes) (encodesize (length (b ∷ bytes)))) [
  | none ↦ []
  | some s ↦ s
]

pub add_base64_lem : (bytes : List ℕ) → Appends (add_base64 bytes) (base64_text bytes)
unfolding add_base64
add_base64_lem [] h i = Appends-nothing h i
add_base64_lem (b ∷ bytes) h i = elim (length-encode (b ∷ bytes) n) [
  | inl (l, e) ↦ absurd (omega (arith, l))
  | inr (l, (s, e, c)) ↦
      let (i', r, q) = make_room_lem (n - 1) h i in
      let wide = encode_room (b ∷ bytes) ((make_room (n - 1) h).free + 1) (omega (arith, r)) in
      let len : n - 1 ≡ length s = omega (arith, c) in
      let r : (h' : StringHolder) × (add_base64 (b ∷ bytes) h ≡ some h')
          × (h'.str ≡ h.str ++ s)
          × IsSound h' =
        rw (wide, e, len) (append_lem s (length s) (omega arith) h i) in
      let same : base64_text (b ∷ bytes) ≡ s = rw (e, base64_text) refl in
      (r.0, r.1, r.2 ∙ ap (λ x. h.str ++ x) (sym same), r.3)
]
  where
    n : ℕ
    n = encodesize (length (b ∷ bytes))

-- A character that is not escaped.
pub strcat_mark : (c : ℕ) → repr_size c ≡ 1 → Appends (strcat (c ∷ [])) (c ∷ [])
unfolding escape_char
strcat_mark c e = rw e at (strcat_lem (c ∷ []))

pub as_text :
    {f : StringHolder → Option StringHolder} {s t : List ℕ} → s ≡ t → Appends f s → Appends f t
as_text e a h i = let (h', p, d, i') = a h i in (h', p, rw e at d, i')

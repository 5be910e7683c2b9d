-- ===== src/Cbor/Buffer.antt =====
-- src/c/data-cbor.c: the bytes that the writer appends, and its buffer, whatever the size at first.
use iotech_c_utils.Common.{
  ℕ, ◌+◌, ◌%◌, ◌≤◌, ◌≡◌, refl, arith, sym, Bool, true, false, List, [], ◌∷◌, ◌++◌, Option, none,
  some, length, length-append, append_assoc, append-nil, if◌then◌else◌, ◌==◌, ltb, leb,
}
use iotech_c_utils.Common.Int.{ℤ, pos, negsuc}
use iotech_c_utils.RbTree.{◌>>=◌}
use iotech_c_utils.Data.{
  ElementType, int_element, float_element, bool_element, Value, Values, Entries, null_ptr, null,
  int, float, bool, pointer, string, binary, array, vector, list, dict, nil, cons, done, entry,
  is_signed, element_size, count_values, count_entries,
}
use iotech_c_utils.Cbor.{
  Holder, check_size, store, write_bytes, be16, be32, be64, write_uint, write_int, write_simple,
  signed, elements, dump_ptr, dump_elements, or_null, dump, dump_values, dump_entries,
  to_cbor_with_size,
}

-- The bytes of a head, and of a value.
unfoldable pub head : ℕ → ℕ → List ℕ
head value tag =
    if ltb value 0x18
    then ((value + tag) % 256) ∷ []
    else if leb value 255
    then ((0x18 + tag) % 256) ∷ value ∷ []
    else if leb value 65535
    then ((0x19 + tag) % 256) ∷ be16 value
    else if leb value 4294967295
    then ((0x1a + tag) % 256) ∷ be32 value
    else ((0x1b + tag) % 256) ∷ be64 value

abbrev pub encode_int : ℤ → List ℕ
encode_int (pos n) = head n 0
encode_int (negsuc n) = head n 0x20

abbrev pub encode_word : ElementType → ℕ → List ℕ
encode_word (int_element t) w =
    if is_signed t then encode_int (signed (element_size (int_element t)) w) else head w 0
encode_word (float_element t) w = head w 0xe0
encode_word bool_element w = (if w == 0 then 0xf4 else 0xf5) ∷ []

abbrev pub encode_words : ElementType → List ℕ → List ℕ
encode_words t [] = []
encode_words t (w ∷ ws) = encode_word t w ++ encode_words t ws

unfoldable mutual
  unfolding head

  pub encoding : Value → List ℕ
  encoding null_ptr = 0xf6 ∷ []
  encoding null = 0xf6 ∷ []
  encoding (int t z) = encode_int z
  encoding (float t bits) = head bits 0xe0
  encoding (bool b) = (if b then 0xf5 else 0xf4) ∷ []
  encoding (pointer p) = []
  encoding (string s) = head (length s) 0x60 ++ s
  encoding (binary bytes) = head (length bytes) 0x40 ++ bytes
  encoding (array t n bytes) = head n 0x80 ++ encode_words t (elements (element_size t) n bytes)
  encoding (vector vs) = head (count_values vs) 0x80 ++ encode_values vs
  encoding (list vs) = head (count_values vs) 0x80 ++ encode_values vs
  encoding (dict es) = head (count_entries es) 0xa0 ++ encode_entries es

  pub encode_values : Values → List ℕ
  encode_values nil = []
  encode_values (cons v vs) = encoding v ++ encode_values vs

  pub encode_entries : Entries → List ℕ
  encode_entries done = []
  encode_entries (entry k v es) = encoding k ++ (encoding v ++ encode_entries es)

-- No pointer is NULL but the value of an entry.
abbrev mutual
  pub HasNoNull : Value → Type 0
  HasNoNull null_ptr = ⊥
  HasNoNull (vector vs) = HaveNoNull vs
  HasNoNull (list vs) = HaveNoNull vs
  HasNoNull (dict es) = EntriesHaveNoNull es
  HasNoNull _ = Unit {0}

  pub HaveNoNull : Values → Type 0
  HaveNoNull nil = Unit {0}
  HaveNoNull (cons v vs) = HasNoNull v × HaveNoNull vs

  pub MayBeNull : Value → Type 0
  MayBeNull null_ptr = Unit {0}
  MayBeNull (vector vs) = HaveNoNull vs
  MayBeNull (list vs) = HaveNoNull vs
  MayBeNull (dict es) = EntriesHaveNoNull es
  MayBeNull _ = Unit {0}

  pub EntriesHaveNoNull : Entries → Type 0
  EntriesHaveNoNull done = Unit {0}
  EntriesHaveNoNull (entry k v es) = HasNoNull k × MayBeNull v × EntriesHaveNoNull es

record IsSound (h : Holder) : Type 0 where
  counted : h.index ≡ length h.bytes
  within : h.index ≤ h.size

-- The write succeeds, appends the bytes, and leaves a sound buffer.
abbrev Appends : Option Holder → Holder → List ℕ → Type 0
Appends r h bs = (h' : Holder) × (r ≡ some h') × (h'.bytes ≡ h.bytes ++ bs) × IsSound h'

check_size_room :
    (n : ℕ) (h : Holder)
    → IsSound h
    → (h.index + n ≤ (check_size n h).size)
      × ((check_size n h).index ≡ h.index)
      × ((check_size n h).bytes ≡ h.bytes)
unfolding check_size
check_size_room n h s = ground arith

store_fits :
    (bs : List ℕ) (h : Holder)
    → IsSound h
    → h.index + length bs ≤ h.size
    → Appends (store bs h) h bs
unfolding store
store_fits bs h s r = (
  record h { bytes = h.bytes ++ bs; index = h.index + length bs },
  ground arith,
  refl,
  record { counted = omega (arith, length-append h.bytes bs, s.counted); within = r },
)

store_kept :
    (bs : List ℕ) (h : Holder) {h' : Holder}
    → store bs h ≡ some h'
    → (h'.size ≡ h.size) × (h'.index ≡ h.index + length bs)
unfolding store
store_kept bs h e = ground arith

check_size-IsSound : (n : ℕ) (h : Holder) → IsSound h → IsSound (check_size n h)
unfolding check_size
check_size-IsSound n h s = ground arith

write_bytes_lem : (bs : List ℕ) (h : Holder) → IsSound h → Appends (write_bytes bs h) h bs
unfolding write_bytes
write_bytes_lem bs h s =
    let room = check_size_room (length bs) h s in
    let (h', e, d, s') =
      store_fits bs (check_size (length bs) h) (check_size-IsSound (length bs) h s)
        (omega (arith, room)) in
    (h', e, rw room.2 at d, s')

-- One write after another.
Appends-bind :
    (r : Option Holder) (k : Holder → Option Holder) (h : Holder) (as' bs : List ℕ)
    → Appends r h as'
    → ((h' : Holder) → IsSound h' → Appends (k h') h' bs)
    → Appends (r >>= k) h (as' ++ bs)
Appends-bind r k h as' bs (h', e, d, s) next =
    let (h2, e2, d2, s2) = next h' s in (h2, rw e e2, rw (d2, d) (append_assoc h.bytes as' bs), s2)

Appends-if :
    (b : Bool) (r r' : Option Holder) (h : Holder) (bs bs' : List ℕ)
    → Appends r h bs
    → Appends r' h bs'
    → Appends (if b then r else r') h (if b then bs else bs')
Appends-if true r r' h bs bs' p q = p
Appends-if false r r' h bs bs' p q = q

store_checked :
    (n : ℕ) (bs : List ℕ) (h : Holder)
    → IsSound h
    → length bs ≤ n
    → Appends (store bs (check_size n h)) h bs
store_checked n bs h s l =
    let room = check_size_room n h s in
    let (h', e, d, s') =
      store_fits bs (check_size n h) (check_size-IsSound n h s) (omega (arith, room)) in
    (h', e, rw room.2 at d, s')

store_two :
    (n : ℕ) (as' bs : List ℕ) (h : Holder)
    → IsSound h
    → length as' + length bs ≤ n
    → Appends (store as' (check_size n h) >>= store bs) h (as' ++ bs)
store_two n as' bs h s l =
    let room = check_size_room n h s in
    let checked = check_size n h in
    let (h1, e1, d1, s1) =
      store_fits as' checked (check_size-IsSound n h s) (omega (arith, room)) in
    let kept = store_kept as' checked e1 in
    let (h2, e2, d2, s2) = store_fits bs h1 s1 (omega (arith, room, kept)) in
    (h2, rw e1 e2, rw (d2, d1, room.2) (append_assoc h.bytes as' bs), s2)

write_uint_lem : (v t : ℕ) (h : Holder) → IsSound h → Appends (write_uint v t h) h (head v t)
unfolding write_uint head
write_uint_lem v t h s =
    Appends-if (ltb v 0x18) _ _ h _ _ (store_checked 1 (((v + t) % 256) ∷ []) h s (omega arith)) (
      Appends-if (leb v 255) _ _ h _ _
        (store_two 2 (((0x18 + t) % 256) ∷ []) (v ∷ []) h s (omega arith))
        (Appends-if (leb v 65535) _ _ h _ _
          (store_two 3 (((0x19 + t) % 256) ∷ []) (be16 v) h s (omega arith))
          (Appends-if (leb v 4294967295) _ _ h _ _
            (store_two 5 (((0x1a + t) % 256) ∷ []) (be32 v) h s (omega arith))
            (store_two 9 (((0x1b + t) % 256) ∷ []) (be64 v) h s (omega arith)))))

write_int_lem : (z : ℤ) (h : Holder) → IsSound h → Appends (write_int z h) h (encode_int z)
unfolding write_int
write_int_lem (pos n) h s = write_uint_lem n 0 h s
write_int_lem (negsuc n) h s = write_uint_lem n 0x20 h s

write_simple_lem : (b : ℕ) (h : Holder) → IsSound h → Appends (write_simple b h) h (b ∷ [])
unfolding write_simple
write_simple_lem b h s = store_checked 1 (b ∷ []) h s (omega arith)

dump_ptr_lem :
    (t : ElementType) (w : ℕ) (h : Holder)
    → IsSound h
    → Appends (dump_ptr t w h) h (encode_word t w)
unfolding dump_ptr
dump_ptr_lem (int_element t) w h s =
    Appends-if (is_signed t) _ _ h _ _ (write_int_lem (signed (element_size (int_element t)) w) h s)
      (write_uint_lem w 0 h s)
dump_ptr_lem (float_element t) w h s = write_uint_lem w 0xe0 h s
dump_ptr_lem bool_element w h s = write_simple_lem (if w == 0 then 0xf4 else 0xf5) h s

dump_elements_lem :
    (t : ElementType) (ws : List ℕ) (h : Holder)
    → IsSound h
    → Appends (dump_elements t ws h) h (encode_words t ws)
unfolding dump_elements
dump_elements_lem t [] h s = (h, refl, sym (append-nil h.bytes), s)
dump_elements_lem t (w ∷ ws) h s =
    Appends-bind (dump_ptr t w h) (dump_elements t ws) h _ _ (dump_ptr_lem t w h s)
      (dump_elements_lem t ws)

or_null_lem :
    (v : Value) (h : Holder)
    → MayBeNull v
    → IsSound h
    → (HasNoNull v → Appends (dump v h) h (encoding v))
    → Appends (or_null v (dump v h) h) h (encoding v)
unfolding or_null dump encoding
or_null_lem null_ptr h m s rec = write_simple_lem 0xf6 h s
or_null_lem v h m s rec = rec m

mutual
  unfolding dump encoding

  dump_lem : (v : Value) (h : Holder) → HasNoNull v → IsSound h → Appends (dump v h) h (encoding v)
  dump_lem null_ptr h n s = absurd n
  dump_lem null h n s = write_simple_lem 0xf6 h s
  dump_lem (int t z) h n s = write_int_lem z h s
  dump_lem (float t bits) h n s = write_uint_lem bits 0xe0 h s
  dump_lem (bool b) h n s = write_simple_lem (if b then 0xf5 else 0xf4) h s
  dump_lem (pointer p) h n s = (h, refl, sym (append-nil h.bytes), s)
  dump_lem (string a) h n s =
      Appends-bind _ _ h _ _ (write_uint_lem (length a) 0x60 h s) (write_bytes_lem a)
  dump_lem (binary a) h n s =
      Appends-bind _ _ h _ _ (write_uint_lem (length a) 0x40 h s) (write_bytes_lem a)
  dump_lem (array t n a) h m s =
      Appends-bind _ _ h _ _ (write_uint_lem n 0x80 h s)
        (dump_elements_lem t (elements (element_size t) n a))
  dump_lem (vector vs) h n s =
      Appends-bind _ _ h _ _ (write_uint_lem (count_values vs) 0x80 h s)
        (λ h'. dump_values_lem vs h' n)
  dump_lem (list vs) h n s =
      Appends-bind _ _ h _ _ (write_uint_lem (count_values vs) 0x80 h s)
        (λ h'. dump_values_lem vs h' n)
  dump_lem (dict es) h n s =
      Appends-bind _ _ h _ _ (write_uint_lem (count_entries es) 0xa0 h s)
        (λ h'. dump_entries_lem es h' n)

  dump_values_lem :
      (vs : Values) (h : Holder)
      → HaveNoNull vs
      → IsSound h
      → Appends (dump_values vs h) h (encode_values vs)
  dump_values_lem nil h n s = (h, refl, sym (append-nil h.bytes), s)
  dump_values_lem (cons v vs) h n s =
      Appends-bind _ _ h _ _ (dump_lem v h n.0 s) (λ h'. dump_values_lem vs h' n.1)

  dump_entries_lem :
      (es : Entries) (h : Holder)
      → EntriesHaveNoNull es
      → IsSound h
      → Appends (dump_entries es h) h (encode_entries es)
  dump_entries_lem done h n s = (h, refl, sym (append-nil h.bytes), s)
  dump_entries_lem (entry k v es) h n s = Appends-bind _ _ h _ _ (dump_lem k h n.0 s) (λ h' s'.
      Appends-bind _ _ h' _ _ (or_null_lem v h' n.1 s' (λ m. dump_lem v h' m s'))
        (λ h2. dump_entries_lem es h2 n.2))

-- For a value with no NULL pointer but the values of map entries, and a buffer of any first size,
-- `iot_data_to_cbor_with_size` writes inside the buffer only and returns the bytes that the writer
-- appends, or NULL where there are more than `UINT32_MAX`.
pub to_cbor_with_size-encoding :
    (v : Value) (size : ℕ)
    → HasNoNull v
    → to_cbor_with_size v size
      ≡ some (if leb (length (encoding v)) 4294967295 then some (encoding v) else none)
unfolding to_cbor_with_size
to_cbor_with_size-encoding v size n =
    let start : Holder = record { bytes = []; size = size; index = 0 } in
    let (h, e, d, s) = dump_lem v start n (record { counted = refl; within = omega arith }) in
    rw (e, s.counted, d)

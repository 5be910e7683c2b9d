-- ===== src/Json/Text.antt =====
-- src/c/data-json.c, `iot_data_to_json`: the text of a value.
use iotech_c_utils.Common.{
  ℕ, zero, suc, ◌+◌, ◌-◌, ◌/◌, ◌%◌, ◌≤◌, ◌<◌, ◌≡◌, refl, sym, ap, arith, Bool, true, false, List,
  [], ◌∷◌, ◌++◌, Option, some, length, length-append, append_assoc, append-nil, if◌then◌else◌,
}
use iotech_c_utils.Common.Int.{ℤ, pos, negsuc}
use iotech_c_utils.RbTree.{◌>>=◌}
use iotech_c_utils.Data.{
  Value, Values, Entries, done, entry, nil, cons, null_ptr, null, int, float, bool, pointer, string,
  binary, array, vector, list, dict, FloatType, ElementType, int_element, float_element,
  bool_element, element_size,
}
use iotech_c_utils.Cbor.{elements}
use iotech_c_utils.Cbor.Buffer.{HasNoNull, HaveNoNull, EntriesHaveNoNull}
use iotech_c_utils.Json.{
  StringHolder, repr_size, escape_text, strcat, add_quote, digits, decimal, val_buff_size,
  true_text, false_text, null_text, element_text, dump_elements, quote_unless_string, comma_unless,
  dump, dump_values, dump_entries, to_json,
}
use iotech_c_utils.Json.Buffer.{
  Appends, Appends-nothing, Appends-bind, strcat_lem, strcat_plain, strcat_mark, add_value_lem,
  add_base64_lem, base64_text, as_text,
}

length-digits : (f n : ℕ) → length (digits f n) ≤ f
unfolding digits
length-digits zero n = omega arith
length-digits (suc f) n =
    ground
      (arith, length-digits f (n / 10), length-append (digits f (n / 10)) ((b'0' + n % 10) ∷ []))

decimal_short : (z : ℤ) → length (decimal z) < val_buff_size
decimal_short (pos n) = omega (arith, length-digits 20 n)
decimal_short (negsuc n) = omega (arith, length-digits 20 (n + 1))

abbrev pub quoted : List ℕ → List ℕ
quoted s = b'"' ∷ (s ++ (b'"' ∷ []))

-- The text of a key, quoted if it is no string.
abbrev pub quoted_key : Value → List ℕ → List ℕ
quoted_key (string s) text = text
quoted_key k text = quoted text

abbrev pub separator : Bool → List ℕ
separator first = if first then [] else b',' ∷ []

module _ (print_float : FloatType → ℕ → List ℕ) where
  -- The elements with commas between them.
  abbrev pub elements_text : ElementType → List ℕ → List ℕ
  elements_text t [] = []
  elements_text t (w ∷ []) = element_text print_float t w
  elements_text t (w ∷ v ∷ ws) = element_text print_float t w ++ (b',' ∷ elements_text t (v ∷ ws))

  abbrev mutual
    pub json_text : Value → List ℕ
    json_text null_ptr = []
    json_text null = null_text
    json_text (int t z) = decimal z
    json_text (float t bits) = print_float t bits
    json_text (bool b) = if b then true_text else false_text
    json_text (pointer p) = []
    json_text (string s) = quoted (escape_text s)
    json_text (binary bytes) = quoted (base64_text bytes)
    json_text (array t n bytes) =
        b'[' ∷ (elements_text t (elements (element_size t) n bytes) ++ (b']' ∷ []))
    json_text (vector vs) = b'[' ∷ (values_text vs ++ (b']' ∷ []))
    json_text (list vs) = b'[' ∷ (values_text vs ++ (b']' ∷ []))
    json_text (dict es) = b'{' ∷ (entries_text true es ++ (b'}' ∷ []))

    pub values_text : Values → List ℕ
    values_text nil = []
    values_text (cons v nil) = json_text v
    values_text (cons v (cons w vs)) = json_text v ++ (b',' ∷ values_text (cons w vs))

    -- An entry without a value is left out.
    pub entries_text : Bool → Entries → List ℕ
    entries_text first done = []
    entries_text first (entry k null_ptr es) = entries_text first es
    entries_text first (entry k v es) =
        separator first
        ++ (quoted_key k (json_text k) ++ (b':' ∷ (json_text v ++ entries_text false es)))

  -- The text of a float fits where it is printed.
  abbrev pub IsShort : Type 0
  IsShort = (t : FloatType) (bits : ℕ) → length (print_float t bits) < val_buff_size

  element_short :
      IsShort → (t : ElementType) (w : ℕ) → length (element_text print_float t w) < val_buff_size
  unfolding element_text
  element_short f (int_element t) w = decimal_short _
  element_short f (float_element t) w = f t w
  element_short f bool_element w = ground arith

  dump_elements_lem :
      IsShort
      → (t : ElementType) (ws : List ℕ)
      → Appends (dump_elements print_float t ws) (elements_text t ws)
  unfolding dump_elements repr_size
  dump_elements_lem f t [] = Appends-nothing
  dump_elements_lem f t (w ∷ []) = add_value_lem _ (element_short f t w)
  dump_elements_lem f t (w ∷ v ∷ ws) =
      as_text (append_assoc (element_text print_float t w) (b',' ∷ []) _) (
        Appends-bind _ _ _ _
          (Appends-bind _ _ _ _ (add_value_lem _ (element_short f t w)) (strcat_mark b',' refl))
          (dump_elements_lem f t (v ∷ ws)))

  quote_lem : Appends add_quote (b'"' ∷ [])
  quote_lem = strcat_plain (b'"' ∷ [])

  -- A text in quotes.
  quoted_lem :
      (f : StringHolder → Option StringHolder) (s : List ℕ)
      → Appends f s
      → Appends (λ h. add_quote h >>= f >>= add_quote) (quoted s)
  quoted_lem f s a = Appends-bind _ _ _ _ (Appends-bind _ _ _ _ quote_lem a) quote_lem

  -- A text between two marks.
  between :
      (a b : ℕ) (f : StringHolder → Option StringHolder) (s : List ℕ)
      → repr_size a ≡ 1
      → repr_size b ≡ 1
      → Appends f s
      → Appends (λ h. strcat (a ∷ []) h >>= f >>= strcat (b ∷ [])) (a ∷ (s ++ (b ∷ [])))
  between a b f s p q l =
      Appends-bind _ _ _ _ (Appends-bind _ _ _ _ (strcat_mark a p) l) (strcat_mark b q)

  abbrev key_quote : Value → List ℕ
  key_quote (string s) = []
  key_quote k = b'"' ∷ []

  quoted_key_lem : (k : Value) (t : List ℕ) → quoted_key k t ≡ key_quote k ++ (t ++ key_quote k)
  quoted_key_lem (string s) t = sym (append-nil t)
  quoted_key_lem _ t = refl

  quote_unless_string_lem : (k : Value) → Appends (quote_unless_string print_float k) (key_quote k)
  quote_unless_string_lem (string s) = Appends-nothing
  quote_unless_string_lem _ = quote_lem

  comma_lem : (first : Bool) → Appends (comma_unless print_float first) (separator first)
  unfolding repr_size
  comma_lem true = Appends-nothing
  comma_lem false = strcat_mark b',' refl

  entry_lem :
      (first : Bool) (k v : Value) (es : Entries)
      → Appends (dump print_float k) (json_text k)
      → Appends (dump print_float v) (json_text v)
      → Appends (dump_entries print_float false es) (entries_text false es)
      → Appends
          (λ h.
            comma_unless print_float first h
            >>= quote_unless_string print_float k
            >>= dump print_float k
            >>= quote_unless_string print_float k
            >>= strcat (b':' ∷ [])
            >>= dump print_float v
            >>= dump_entries print_float false es)
          (separator first
            ++ (quoted_key k (json_text k) ++ (b':' ∷ (json_text v ++ entries_text false es))))
  unfolding repr_size
  entry_lem first k v es a b c = as_text (rw (quoted_key_lem k (json_text k)) (simp append_assoc)) (
      Appends-bind _ _ _ _
        (Appends-bind _ _ _ _
          (Appends-bind _ _ _ _
            (Appends-bind _ _ _ _
              (Appends-bind _ _ _ _
                (Appends-bind _ _ _ _ (comma_lem first) (quote_unless_string_lem k)) a)
              (quote_unless_string_lem k))
            (strcat_mark b':' refl))
          b)
        c)

  mutual
    unfolding dump repr_size

    dump_lem : IsShort → (v : Value) → HasNoNull v → Appends (dump print_float v) (json_text v)
    dump_lem f null_ptr n = absurd n
    dump_lem f null n = add_value_lem null_text (omega arith)
    dump_lem f (int t z) n = add_value_lem _ (decimal_short z)
    dump_lem f (float t bits) n = add_value_lem _ (f t bits)
    dump_lem f (bool true) n = add_value_lem true_text (omega arith)
    dump_lem f (bool false) n = add_value_lem false_text (omega arith)
    dump_lem f (pointer p) n = Appends-nothing
    dump_lem f (string s) n = quoted_lem (strcat s) (escape_text s) (strcat_lem s)
    dump_lem f (binary bytes) n = quoted_lem _ _ (add_base64_lem bytes)
    dump_lem f (array t m bytes) n =
        between b'[' b']' _ _ refl refl (dump_elements_lem f t (elements (element_size t) m bytes))
    dump_lem f (vector vs) n = between b'[' b']' _ _ refl refl (dump_values_lem f vs n)
    dump_lem f (list vs) n = between b'[' b']' _ _ refl refl (dump_values_lem f vs n)
    dump_lem f (dict es) n = between b'{' b'}' _ _ refl refl (dump_entries_lem f true es n)

    dump_values_lem :
        IsShort
        → (vs : Values) → HaveNoNull vs
        → Appends (dump_values print_float vs) (values_text vs)
    dump_values_lem f nil n = Appends-nothing
    dump_values_lem f (cons v nil) n = dump_lem f v n.0
    dump_values_lem f (cons v (cons w vs)) n = as_text (append_assoc (json_text v) (b',' ∷ []) _) (
        Appends-bind _ _ _ _ (Appends-bind _ _ _ _ (dump_lem f v n.0) (strcat_mark b',' refl))
          (dump_values_lem f (cons w vs) n.1))

    dump_entries_lem :
        IsShort
        → (first : Bool) (es : Entries) → EntriesHaveNoNull es
        → Appends (dump_entries print_float first es) (entries_text first es)
    dump_entries_lem f first done n = Appends-nothing
    dump_entries_lem f first (entry k null_ptr es) n = dump_entries_lem f first es n.2
    dump_entries_lem f first (entry k v es) n =
        entry_lem first k v es (dump_lem f k n.0) (dump_lem f v n.1)
          (dump_entries_lem f false es n.2)

  -- The text above, for a value without NULL pointers but for the values of entries and where the text of
  -- a float fits where it is printed.
  pub to_json-json_text :
      (v : Value) (size : ℕ)
      → IsShort
      → HasNoNull v
      → 0 < size
      → to_json print_float v size ≡ some (json_text v)
  unfolding to_json
  to_json-json_text v size f n s =
      let (h', e, d, i) =
        dump_lem f v n (record { str = []; size = size; free = size - 1 })
          (record { filled = omega arith }) in
      rw e (ap some d)

  -- Where the text of each float is shorter than the buffer of 31 bytes it is printed in, and for a value
  -- without NULL pointers but for the values of entries, `iot_data_to_json` never writes outside its
  -- buffer, and returns the same text from every first buffer size but 0, however often it grows. Nothing
  -- is stated here of the text being JSON: for a pointer nothing is written.
  pub to_json_lem :
      (v : Value)
      → IsShort
      → HasNoNull v
      → (s : List ℕ) × ((size : ℕ) → 0 < size → to_json print_float v size ≡ some s)
  to_json_lem v f n = (json_text v, λ size p. to_json-json_text v size f n p)

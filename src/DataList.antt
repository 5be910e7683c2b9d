-- ===== src/DataList.antt =====
-- src/c/data.c, `iot_data_list_t`: a doubly linked list whose head element carries the length. The
-- elements stand in the order from the head over `prev` to the tail; `next` is the same chain read
-- backwards, and `tail` its last element. Freeing is not modelled.
pub mod Laws
pub mod Removal
pub mod Iterator
pub mod Sweep
mod Tests
use iotech_c_utils.Common.{
  ℕ, ◌+◌, ◌-◌, ◌%◌, ◌^◌, bit_xor, Bool, true, false, List, [], ◌∷◌, ◌++◌, Option, none, some,
  if◌then◌else◌,
}
use iotech_c_utils.Map.{Hashed}

-- `iot_element_t`: only the head's `length` means anything.
pub record Element {ℓ} (A : Type ℓ) : Type ℓ where
  pub value : A
  pub length : ℕ

pub record DataList {ℓ} (A : Type ℓ) : Type ℓ where
  pub elements : List (Element A)
  pub hash : ℕ
  pub rehash : Bool

module _ {ℓ} {A : Type ℓ} where
  abbrev pub empty_list : DataList A
  empty_list = record { elements = []; hash = 0; rehash = false }

  abbrev pub head_length : List (Element A) → ℕ
  head_length [] = 0
  head_length (e ∷ es) = e.length

  -- `iot_data_list_length`.
  abbrev pub list_length : DataList A → ℕ
  list_length l = head_length l.elements

  -- The elements in the order from head to tail with their values.
  abbrev pub values_of : List (Element A) → List A
  values_of [] = []
  values_of (e ∷ es) = e.value ∷ values_of es

  abbrev pub values : DataList A → List A
  values l = values_of l.elements

  -- `impl->head->length` set to a number; lengths are `uint32_t`.
  abbrev pub set_length : ℕ → List (Element A) → List (Element A)
  set_length n [] = []
  set_length n (e ∷ es) = record e { length = n % 2 ^ 32 } ∷ es

  -- What `tail->next` leaves: all elements but the last, and the last.
  abbrev pub split_tail : Element A → List (Element A) → List (Element A) × Element A
  split_tail e [] = ([], e)
  split_tail e (f ∷ es) = let rest = split_tail f es in (e ∷ rest.0, rest.1)

  -- `iot_data_list_head_pop`.
  abbrev pub head_pop : DataList A → DataList A × Option A
  head_pop l = elim l.elements [
    | [] ↦ (l, none)
    | e ∷ es ↦
        (record l { elements = set_length (e.length + 2 ^ 32 - 1) es; rehash = true }, some e.value)
  ]

  -- `iot_data_list_tail_pop`.
  abbrev pub tail_pop : DataList A → DataList A × Option A
  tail_pop l = elim l.elements [
    | [] ↦ (l, none)
    | e ∷ es ↦
        let split = split_tail e es in
        (
          record l { elements = set_length (e.length + 2 ^ 32 - 1) split.0; rehash = true },
          some split.1.value,
        )
  ]

  -- `iot_data_list_find_element`, from the tail to the head: the elements before, the one found, and
  -- those behind it.
  abbrev pub find_element :
      (A → Bool) → List (Element A) → Option (List (Element A) × Element A × List (Element A))
  find_element test [] = none
  find_element test (e ∷ es) =
      let rest = find_element test es in
      elim rest [
        | some (before, found, behind) ↦ some (e ∷ before, found, behind)
        | none ↦ if test e.value then some ([], e, es) else none
      ]

  -- `iot_data_list_remove_element`: at the head, at the tail, or in the middle.
  abbrev pub remove_element : DataList A → List (Element A) → List (Element A) → DataList A
  remove_element l [] behind = (head_pop l).0
  remove_element l (e ∷ before) [] = (tail_pop l).0
  remove_element l (e ∷ before) (f ∷ behind) = record l {
    elements = set_length (head_length l.elements + 2 ^ 32 - 1) ((e ∷ before) ++ (f ∷ behind));
    rehash = true;
  }

  -- `iot_data_list_remove`.
  abbrev pub list_remove : DataList A → (A → Bool) → DataList A × Bool
  list_remove l test = elim (find_element test l.elements) [
    | none ↦ (l, false)
    | some (before, found, behind) ↦ (remove_element l before behind, true)
  ]

module _ {ℓ} {A : Type ℓ} ⦃h : Hashed A⦄ where
  -- `iot_data_list_head_push`.
  abbrev pub head_push : DataList A → A → DataList A
  head_push l v = record l {
    elements = record { value = v; length = (head_length l.elements + 1) % 2 ^ 32 } ∷ l.elements;
    hash = bit_xor l.hash (h.hash_of v);
  }

  -- `iot_data_list_tail_push`; a new element has the length 0.
  abbrev pub tail_push : DataList A → A → DataList A
  tail_push l v = record l {
    elements =
        set_length (head_length l.elements + 1)
          (l.elements ++ (record { value = v; length = 0 } ∷ []));
    hash = bit_xor l.hash (h.hash_of v);
  }

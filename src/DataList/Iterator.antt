-- ===== src/DataList/Iterator.antt =====
-- src/c/data.c, `iot_data_list_iter_t`: an iterator points at an element or, before the first call, at
-- none. An element is known by the number of elements behind it, towards the tail, which only the
-- removal of one of those changes.
use iotech_c_utils.Common.{
  ℕ, zero, suc, Bool, true, false, List, [], ◌∷◌, ◌++◌, Option, none, some, length, if◌then◌else◌,
  ◌==◌, ltb,
}
use iotech_c_utils.RbTree.{◌>>=◌}
use iotech_c_utils.DataList.{Element, DataList, remove_element, find_element}

abbrev pub ListIter : Type 0
ListIter = Option ℕ

-- The element that `next` leads to, or the tail.
abbrev pub next_index : ListIter → ℕ
next_index none = 0
next_index (some k) = suc k

module _ {ℓ} {A : Type ℓ} where
  -- The element with so many behind it: those before it, itself, and those behind it.
  unfoldable pub split_behind :
      ℕ → List (Element A) → Option (List (Element A) × Element A × List (Element A))
  split_behind k [] = none
  split_behind k (e ∷ es) =
      let rest = split_behind k es >>= λ r. some (e ∷ r.0, r.1, r.2) in
      if length es == k then some ([], e, es) else rest

  -- `iot_data_list_iter`.
  abbrev pub list_iter : DataList A → ListIter
  list_iter l = none

  -- `iot_data_list_iter_next`.
  unfoldable pub list_iter_next : DataList A → ListIter → ListIter × Bool
  list_iter_next l it = elim (split_behind (next_index it) l.elements) [
    | none ↦ (none, false)
    | some r ↦ (some (next_index it), true)
  ]

  -- `iot_data_list_iter_has_next`.
  abbrev pub list_iter_has_next : DataList A → ListIter → Bool
  list_iter_has_next l none = true
  list_iter_has_next l (some k) = ltb (suc k) (length l.elements)

  -- `iot_data_list_iter_prev`.
  unfoldable pub list_iter_prev : DataList A → ListIter → ListIter × Bool
  list_iter_prev l none = elim l.elements [ [] ↦ (none, false) | e ∷ es ↦ (some (length es), true) ]
  list_iter_prev l (some zero) = (none, false)
  list_iter_prev l (some (suc k)) = (some k, true)

  -- `iot_data_list_iter_value`, `none` for NULL.
  unfoldable pub list_iter_value : DataList A → ListIter → Option A
  list_iter_value l it = it >>= λ k. split_behind k l.elements >>= λ r. some r.1.value

  -- `iot_data_list_iter_replace`, with the value that was there.
  unfoldable pub list_iter_replace : DataList A → ListIter → A → DataList A × Option A
  list_iter_replace l it v = elim (it >>= λ k. split_behind k l.elements) [
    | none ↦ (l, none)
    | some (before, found, behind) ↦ (
      record l { elements = before ++ (record found { value = v } ∷ behind); rehash = true },
      some found.value,
    )
  ]

  -- `iot_data_list_iter_remove`.
  unfoldable pub list_iter_remove : DataList A → ListIter → DataList A × ListIter × Bool
  list_iter_remove l it = elim (it >>= λ k. split_behind k l.elements) [
    | none ↦ (l, it, false)
    | some (before, found, behind) ↦ (remove_element l before behind, (list_iter_prev l it).0, true)
  ]

  -- `iot_data_list_find`.
  unfoldable pub list_find : DataList A → (A → Bool) → Option A
  list_find l test = find_element test l.elements >>= λ r. some r.1.value

  -- The body of a loop that removes each value that passes a test, and the loop over
  -- `iot_data_list_iter_next`.
  unfoldable pub remove_if : (A → Bool) → DataList A → ListIter → DataList A × ListIter
  remove_if test l it =
      let removed = list_iter_remove l it in
      elim (list_iter_value l it) [
        | none ↦ (l, it)
        | some v ↦ if test v then (removed.0, removed.1) else (l, it)
      ]

  unfoldable pub remove_all : ℕ → (A → Bool) → DataList A → ListIter → Option (DataList A)
  unfolding remove_if
  remove_all zero test l it = none
  remove_all (suc fuel) test l it =
      let moved = list_iter_next l it in
      let s = remove_if test l moved.0 in
      let rest = remove_all fuel test s.0 s.1 in if moved.1 then rest else some l

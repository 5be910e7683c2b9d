-- ===== src/DataList/Tests.antt =====
-- src/c/data.c, `iot_data_list_t` at concrete inputs.
use iotech_c_utils.Common.{
  ℕ, ◌%◌, ◌^◌, ◌≡◌, ◌⊎◌, refl, inr, Bool, true, false, List, [], ◌∷◌, ◌++◌, All, ◌==◌, suc, not,
  ltb, none, some, length,
}
use iotech_c_utils.Map.{Hashed}
use iotech_c_utils.DataList.{DataList, empty_list, values, head_push, list_remove}
use iotech_c_utils.DataList.Laws.{IsWf}
use iotech_c_utils.DataList.Removal.{list_remove_lem}
use iotech_c_utils.DataList.Iterator.{
  list_iter, list_iter_has_next, list_iter_next, list_iter_prev, list_iter_value, list_iter_remove,
  split_behind, remove_if, remove_all,
}
use iotech_c_utils.DataList.Sweep.{without, remove_all-without}

instance abbrev low_word : Hashed ℕ
low_word = record { hash_of = λ n. n % 2 ^ 32 }

-- 4, 5 and 6 from the head on.
abbrev three : DataList ℕ
three = head_push (head_push (head_push empty_list 6) 5) 4

three-IsWf : IsWf three
three-IsWf = record { sized = refl; hashed = inr refl }

-- The test for 5.
abbrev is_five : ℕ → Bool
is_five n = n == 5

list_remove_lem_example :
    (((list_remove three is_five).1 ≡ false)
      × ((list_remove three is_five).0 ≡ three)
      × All (λ v. is_five v ≡ false) (values three))
    ⊎ (((list_remove three is_five).1 ≡ true)
        × ((before : List ℕ) × (v : ℕ) × (behind : List ℕ) × (values three ≡ before ++ (v ∷ behind))
            × (is_five v ≡ true)
            × All (λ v. is_five v ≡ false) behind
            × (values (list_remove three is_five).0 ≡ before ++ behind)
            × IsWf (list_remove three is_five).0))
list_remove_lem_example = list_remove_lem three is_five three-IsWf

abbrev at_least_five : ℕ → Bool
at_least_five n = not (ltb n 5)

-- From the tail: 6, then 5, and then 4, which stays.
leaves_four :
    remove_all 4 at_least_five three (list_iter three)
    ≡ some (record { elements = record { value = 4; length = 1 } ∷ []; hash = 7; rehash = true })
unfolding remove_all remove_if list_iter_next list_iter_prev list_iter_value list_iter_remove
    split_behind
leaves_four = refl

remove_all-without_example :
    (l' : DataList ℕ) × (remove_all
        (suc (length (values three)))
        at_least_five
        three
        (list_iter three)
      ≡ some l')
    × (values l' ≡ without at_least_five (values three))
    × IsWf l'
remove_all-without_example = remove_all-without at_least_five three three-IsWf

-- An iterator that has not moved has a next element in the empty list too, it says.
has_next_in_empty : list_iter_has_next (empty_list {A = ℕ}) none ≡ true
has_next_in_empty = refl

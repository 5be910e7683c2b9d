-- ===== src/Data/Dimensions.antt =====
-- src/c/data.c, the shape of nested vectors: `iot_data_vector_element_count`, the depth, and
-- `iot_data_vector_dimensions` with the array of dimensions that it allocates.
pub mod Grid
use iotech_c_utils.Common.{
  ℕ, zero, suc, ◌+◌, ◌*◌, ◌%◌, ◌^◌, Bool, true, false, not, ◌&&◌, ◌||◌, List, [], ◌∷◌, Option, none,
  some, if◌then◌else◌, ◌==◌, ltb, leb, length,
}
use iotech_c_utils.RbTree.{◌>>=◌}
use iotech_c_utils.Data.{Value, Values, null_ptr, vector, nil, cons, type_code, count_values}

abbrev pub vector_code : ℕ
vector_code = 16

abbrev pub multi_code : ℕ
multi_code = 19

abbrev pub bool_code : ℕ
bool_code = 10

-- Whether an element that is not a nested vector counts, by its type.
abbrev pub counts : ℕ → Bool → ℕ → Bool
counts type castable etype =
    etype == type || ((not castable && type == multi_code) || (castable && leb etype bool_code))

-- `iot_data_vector_elements`; the sum is a `uint32_t`.
unfoldable mutual
  pub vector_elements : ℕ → Bool → Bool → Values → ℕ
  vector_elements type recurse castable nil = 0
  vector_elements type recurse castable (cons v vs) =
      (element_count type recurse castable v + vector_elements type recurse castable vs) % 2 ^ 32

  pub element_count : ℕ → Bool → Bool → Value → ℕ
  element_count type recurse castable null_ptr = 0
  element_count type recurse castable (vector ws) =
      if recurse
      then vector_elements type recurse castable ws
      else if counts type castable vector_code
      then 1
      else 0
  element_count type recurse castable v = if counts type castable (type_code v) then 1 else 0

-- `iot_data_vector_dimension`: the size, if all elements are vectors.
unfoldable pub dimension : Values → ℕ
unfolding vector_elements
dimension vs =
    if count_values vs == vector_elements vector_code false false vs then count_values vs else 0

-- `iot_data_vector_depth`; the loop over the elements goes on from the depth so far.
abbrev depth_result : Values → ℕ → ℕ
unfolding dimension
depth_result vs d = (if dimension vs == 0 then 0 else d) + 1

unfoldable mutual
  unfolding depth_result

  pub depth_loop : ℕ → Values → ℕ
  depth_loop depth nil = depth
  depth_loop depth (cons v vs) =
      let dp = element_depth v in
      let rest = depth_loop dp vs in if depth == 0 || dp == depth then rest else 0

  pub element_depth : Value → ℕ
  element_depth (vector ws) = depth_result ws (depth_loop 0 ws)
  element_depth v = 0

unfoldable pub vector_depth : Values → ℕ
unfolding depth_result depth_loop
vector_depth vs = depth_result vs (depth_loop 0 vs)

-- The array `dims` and `*total`.
pub record Shape : Type 0 where
  pub dims : List ℕ
  pub total : ℕ

abbrev pub dim_at : List ℕ → ℕ → Option ℕ
dim_at [] i = none
dim_at (d ∷ ds) zero = some d
dim_at (d ∷ ds) (suc i) = dim_at ds i

abbrev pub set_dim : List ℕ → ℕ → ℕ → List ℕ
set_dim [] i n = []
set_dim (d ∷ ds) zero n = n ∷ ds
set_dim (d ∷ ds) (suc i) n = d ∷ set_dim ds i n

-- `if (*dims == 0)`, for the dimension `d` there.
abbrev pub fill : Shape → ℕ → ℕ → ℕ → Shape
fill s pos n d =
    if d == 0
    then record {
      dims = set_dim s.dims pos n;
      total = if s.total == 0 then n else s.total * n % 2 ^ 32;
    }
    else s

-- `iot_data_vector_dims` up to its loop: `ok`, whether the loop runs, and the shape. `none` is an
-- access outside the array.
abbrev pub open_dims : ℕ → Shape → Values → Option (Bool × Bool × Shape)
unfolding vector_elements
open_dims pos s vs =
    let n = count_values vs in
    dim_at s.dims pos >>= λ d.
    some ((d == 0 || d == n), n == vector_elements vector_code false false vs, fill s pos n d)

abbrev pub nested : Bool × Bool × Shape → Option (Bool × Shape) → Option (Bool × Shape)
nested (ok, all, s) loop = if ok && all then loop else some (ok, s)

-- The loop over the elements, `ok` so far.
unfoldable mutual
  unfolding open_dims

  pub dims_loop : ℕ → Shape → Values → Option (Bool × Shape)
  dims_loop pos s nil = some (true, s)
  dims_loop pos s (cons v vs) = element_dims pos s v >>= λ r. elim r.0 [
    | true ↦ dims_loop pos r.1 vs
    | false ↦ some (false, r.1)
  ]

  pub element_dims : ℕ → Shape → Value → Option (Bool × Shape)
  element_dims pos s (vector ws) = open_dims pos s ws >>= λ o. nested o (dims_loop (suc pos) o.2 ws)
  element_dims pos s v = none

abbrev pub zeros : ℕ → List ℕ
zeros zero = []
zeros (suc n) = 0 ∷ zeros n

-- The array that is returned, NULL where the shape is not regular, and `*total`.
abbrev pub shape_result : Bool × Shape → Option (List ℕ) × ℕ
shape_result (true, s) = (some s.dims, s.total)
shape_result (false, s) = (none, 0)

-- `iot_data_vector_dimensions`.
unfoldable pub vector_dimensions : Values → Option (Option (List ℕ) × ℕ)
unfolding dims_loop vector_depth
vector_dimensions vs =
    element_dims 0 (record { dims = zeros (vector_depth vs); total = 0 }) (vector vs) >>= λ r.
    some (shape_result r)

-- ===== src/Data/Dimensions/Grid.antt =====
-- src/c/data.c, `iot_data_vector_dimensions` of vectors whose elements are not nested equally deep.
use iotech_c_utils.Common.{◌≡◌, ◌≢◌, arith, false, none, ◌==◌}
use iotech_c_utils.Data.{Values, vector, nil, cons, count_values}
use iotech_c_utils.Data.Dimensions.{vector_elements, vector_depth, vector_dimensions, vector_code}

-- A vector of two vectors, of which the first holds one vector and the second is not all vectors, and
-- neither innermost one is empty: the array that `iot_data_vector_dimensions` allocates has one place,
-- and the recursion accesses the place after it.
pub ragged :
    (ws us : Values)
    → vector_elements vector_code false false ws ≢ count_values ws
    → vector_elements vector_code false false us ≢ count_values us
    → vector_dimensions (cons (vector (cons (vector ws) nil)) (cons (vector us) nil)) ≡ none
unfolding vector_dimensions vector_depth
ragged ws us h k =
    let a : (count_values ws == vector_elements vector_code false false ws) ≡ false =
      ground arith in
    let b : (count_values us == vector_elements vector_code false false us) ≡ false =
      ground arith in
    rw (a, b)

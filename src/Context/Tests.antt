-- ===== src/Context/Tests.antt =====
-- An array in an array.
use nest_batch.Prelude.{◌≤◌, ◌≡◌, ◌↔◌, ok}
use nest_batch.Context.{Json, array, number, nil, cons, assert_json_serializable}
use nest_batch.Context.Depth.{height, assert_json_serializable_iff}

abbrev nested : Json
nested = array (cons (array (cons (number 1) nil)) nil)

assert_json_serializable_iff_example :
    (assert_json_serializable 0 nested ≡ ok tt) ↔ (height nested ≤ 101)
assert_json_serializable_iff_example = assert_json_serializable_iff nested

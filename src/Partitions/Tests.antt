-- ===== src/Partitions/Tests.antt =====
-- The even split of ten items over four partitions.
use nest_batch.Prelude.{ℕ, ◌+◌, ◌/◌, ◌≤◌, ◌≡◌, refl, ok, err, arith}
use nest_batch.Errors.{invalid_partitions_error}
use nest_batch.Partitions.{default_range}
use nest_batch.Partitions.Coverage.{
  Owns, default_range_covers, default_range_disjoint, default_range_balanced,
}

default_range-ten :
    (default_range 0 4 10 ≡ ok (0, 2))
    × (default_range 1 4 10 ≡ ok (2, 5))
    × (default_range 3 4 10 ≡ ok (7, 10))
    × (default_range 4 4 10 ≡ err invalid_partitions_error)
unfolding default_range
default_range-ten = (refl, refl, refl, refl)

default_range_covers_example : (i : ℕ) × Owns 4 10 i 6
default_range_covers_example = default_range_covers 4 10 6 (omega arith) (omega arith)

owner_of_six : Owns 4 10 2 6
unfolding default_range
owner_of_six = record {
  index_lt = omega arith;
  first = 5;
  last = 7;
  split = refl;
  first_le = omega arith;
  lt_last = omega arith;
}

default_range_disjoint_example : ◌≡◌ {A = ℕ} 2 2
default_range_disjoint_example = default_range_disjoint 4 10 6 2 2 owner_of_six owner_of_six

third_of_four : (2 + 10 / 4 ≤ 5) × (5 ≤ 2 + 10 / 4 + 1)
third_of_four = default_range_balanced 4 10 1 default_range-ten.1

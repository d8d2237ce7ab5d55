-- ===== src/Partitions.antt =====
-- packages/core/src/partition-helpers.ts: the checks of a partition's count and index, and the
-- even split of an input. A range is a pair of natural numbers.
pub mod Coverage
mod Tests
use nest_batch.Prelude.{
  ℕ, ◌+◌, ◌*◌, ◌/◌, Option, none, some, ok, err, ltb, leb, ◌==◌, if◌then◌else◌, ◌>>=◌, ◌>>◌,
}
use nest_batch.Errors.{invalid_partitions_error, Throws}

abbrev pub Range : Type 0
Range = ℕ × ℕ

-- `ChunkPartitionConfig` of core/ir/step-definition.ts
pub record ChunkPartitionConfig : Type 0 where
  pub count : ℕ
  pub range : Option (ℕ → ℕ → Range)

unfoldable pub validate_partitions : Option ChunkPartitionConfig → Throws (Unit {0})
validate_partitions none = ok tt
validate_partitions (some partitions) =
    if partitions.count == 0 then err invalid_partitions_error else ok tt

unfoldable pub default_range : ℕ → ℕ → ℕ → Throws Range
default_range i n total =
    if leb n i
    then err invalid_partitions_error
    else if n == 0
    then err invalid_partitions_error
    else ok ((i * total) / n, ((i + 1) * total) / n)

unfoldable pub enforce_partition_index : Option ℕ → ℕ → Throws (Unit {0})
enforce_partition_index none count = err invalid_partitions_error
enforce_partition_index (some index) count =
    if leb count index then err invalid_partitions_error else ok tt

pub record ResolvedPartition : Type 0 where
  pub count : ℕ
  pub index : ℕ
  pub range : Option Range

-- `partitionIndex as number`, behind the check
index_of : Option ℕ → ℕ
index_of none = 0
index_of (some index) = index

unfoldable pub resolve_partition : ChunkPartitionConfig → Option ℕ → Throws ResolvedPartition
unfolding enforce_partition_index index_of
resolve_partition partitions partition_index = do
  enforce_partition_index partition_index partitions.count
  let index = index_of partition_index
  ok (record {
    count = partitions.count;
    index = index;
    range = elim partitions.range [ none ↦ none | some f ↦ some (f index partitions.count) ];
  })

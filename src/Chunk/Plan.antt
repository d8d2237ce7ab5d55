-- ===== src/Chunk/Plan.antt =====
-- What `execute` of packages/core/src/execution/chunk-step-executor.ts settles before its first
-- listener: the compiled policies and the range of the partition. An error here is thrown on.
use nest_batch.Prelude.{ℕ, Option, none, some, ok, err, ltb, if◌then◌else◌, ◌>>=◌, ◌>>◌}
use nest_batch.Errors.{plain_error, Throws}
use nest_batch.Policies.{SkipPolicyConfig, RetryPolicyConfig}
use nest_batch.Policies.Skip
use nest_batch.Policies.Retry
use nest_batch.Partitions.{Range, ChunkPartitionConfig, enforce_partition_index}
use nest_batch.Chunk.Decision.{Rules}

unfoldable pub compile_skip : Option SkipPolicyConfig → Throws (Option Skip.Policy)
compile_skip none = ok none
compile_skip (some config) = do policy ← Skip.compile_skip_policy config; ok (some policy)

unfoldable pub compile_retry : Option RetryPolicyConfig → Throws (Option Retry.Policy)
compile_retry none = ok none
compile_retry (some config) = do policy ← Retry.compile_retry_policy config; ok (some policy)

-- `step.skipPolicy?.limit ?? 0`
unfoldable pub skip_limit_of : Option SkipPolicyConfig → ℕ
skip_limit_of none = 0
skip_limit_of (some config) = config.limit

unfoldable pub retry_limit_of : Option RetryPolicyConfig → ℕ
retry_limit_of none = 0
retry_limit_of (some config) = config.limit

unfoldable pub compile_rules : Option SkipPolicyConfig → Option RetryPolicyConfig → Throws Rules
unfolding compile_skip compile_retry skip_limit_of retry_limit_of
compile_rules skip_config retry_config = do
  skip ← compile_skip skip_config
  retry ← compile_retry retry_config
  ok (record {
    skip_policy = skip;
    retry_policy = retry;
    skip_limit = skip_limit_of skip_config;
    retry_limit = retry_limit_of retry_config;
  })

-- `step.partitions?.range`
unfoldable pub range_resolver : Option ChunkPartitionConfig → Option (ℕ → ℕ → Range)
range_resolver none = none
range_resolver (some partitions) = partitions.range

unfoldable pub check_range : Range → Throws (Option Range)
check_range (first, last) =
    if ltb last first
    then err (plain_error "[ChunkStepExecutor] partitions.range returned invalid range")
    else ok (some (first, last))

unfoldable pub partition_of :
    Option ChunkPartitionConfig → Option ℕ → Option ℕ → Throws (Option Range)
unfolding range_resolver check_range
partition_of partitions (some index) (some count) = do
  enforce_partition_index (some index) count
  elim (range_resolver partitions) [ none ↦ ok none | some range ↦ check_range (range index count) ]
partition_of partitions _ _ = ok none

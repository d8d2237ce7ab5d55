-- ===== src/Chunk/Decision.antt =====
-- What `runPhase` of packages/core/src/execution/chunk-step-executor.ts does about an error.
use nest_batch.Prelude.{ℕ, ◌+◌, Option, none, some, ok, err, ltb, if◌then◌else◌, ◌>>=◌}
use nest_batch.Errors.{BatchError, skip_limit_exceeded, retry_limit_exceeded, Throws}
use nest_batch.Policies.Skip
use nest_batch.Policies.Retry

-- What is done about an error that is not thrown on.
pub data Decision : Type 0 where
  skip_it : Decision
  retry_after : (ms : ℕ) → Decision

-- The policies of a step and their limits.
pub record Rules : Type 0 where
  pub skip_policy : Option Skip.Policy
  pub retry_policy : Option Retry.Policy
  pub skip_limit : ℕ
  pub retry_limit : ℕ

-- The re-check of the error behind `attempt > retryLimit`
unfoldable pub exhausted : Retry.Policy → ℕ → BatchError → Throws Decision
exhausted p retry_limit e = do
  retryable ← p.can_retry e (record { attempt = 1; retry_limit = none })
  err (if retryable then retry_limit_exceeded retry_limit else e)

-- The second consultation: retry, or throw the error or RetryLimitExceededError.
unfoldable pub retry_or_throw : Retry.Policy → ℕ → ℕ → BatchError → Throws Decision
unfolding exhausted
retry_or_throw p retry_limit attempt e = do
  again ← p.can_retry e (record { attempt = attempt; retry_limit = some retry_limit })
  if again
      then ok (retry_after (p.backoff_ms attempt))
      else if ltb retry_limit attempt
      then exhausted p retry_limit e
      else err e

unfoldable pub consult_retry : Rules → ℕ → BatchError → Throws Decision
unfolding retry_or_throw
consult_retry rules attempt e = elim rules.retry_policy [
  | none ↦ err e
  | some p ↦ retry_or_throw p rules.retry_limit attempt e
]

-- The first consultation, with the caller's count: skip within the budget.
unfoldable pub skip_or_retry : Skip.Policy → Rules → ℕ → ℕ → BatchError → Throws Decision
unfolding consult_retry
skip_or_retry p rules skip_count attempt e = do
  skippable ← p.should_skip e (record { skip_count = 0; skip_limit = rules.skip_limit })
  if skippable
      then (if ltb rules.skip_limit (skip_count + 1)
          then err (skip_limit_exceeded rules.skip_limit)
          else ok skip_it)
      else consult_retry rules attempt e

-- The `catch` block behind the error listener.
unfoldable pub consult : Rules → ℕ → ℕ → BatchError → Throws Decision
unfolding skip_or_retry
consult rules skip_count attempt e = elim rules.skip_policy [
  | none ↦ consult_retry rules attempt e
  | some p ↦ skip_or_retry p rules skip_count attempt e
]

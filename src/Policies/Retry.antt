-- ===== src/Policies/Retry.antt =====
-- packages/core/src/policies/retry-policy.ts
use nest_batch.Prelude.{
  ℕ, ◌-◌, ◌*◌, ◌^◌, min, Bool, true, false, Option, none, some, List, [], ◌∷◌, ok, err, ltb, ◌==◌,
  if◌then◌else◌, ◌>>=◌,
}
use nest_batch.Errors.{BatchError, plain_error, Throws}
use nest_batch.Policies.{
  Skippable, BackoffConfig, fixed, exponential, no_backoff, RetryPolicyConfig, try_call,
  instance_check,
}

pub record Context : Type 0 where
  pub attempt : ℕ
  -- `none` stands for `Number.POSITIVE_INFINITY`
  pub retry_limit : Option ℕ

-- `matchesSkippable` of retry-policy.ts
unfoldable pub matches_skippable : BatchError → Skippable → Throws Bool
unfolding try_call instance_check
matches_skippable e f = if f.arity == 1 then ok (try_call f e) else instance_check f e

unfoldable pub some_matches : BatchError → List Skippable → Throws Bool
unfolding matches_skippable
some_matches e [] = ok false
some_matches e (f ∷ fs) =
    let rest = some_matches e fs in do b ← matches_skippable e f; if b then ok true else rest

unfoldable pub backoff_ms : BackoffConfig → ℕ → ℕ
backoff_ms no_backoff attempt = 0
backoff_ms (fixed ms) attempt = ms
backoff_ms (exponential initial_ms max_ms factor) attempt =
    let base : ℕ = elim factor [ none ↦ 2 | some f ↦ f ] in
    let ms : ℕ = initial_ms * base ^ (attempt - 1) in
    elim max_ms [ none ↦ ms | some top ↦ min ms top ]

pub record Policy : Type 0 where
  pub can_retry : BatchError → Context → Throws Bool
  pub backoff_ms : ℕ → ℕ

-- `attempt > retryLimit`
unfoldable pub is_over : ℕ → Option ℕ → Bool
is_over attempt none = false
is_over attempt (some limit) = ltb limit attempt

unfoldable pub can_retry : RetryPolicyConfig → BatchError → Context → Throws Bool
unfolding is_over
can_retry config e context =
    if is_over context.attempt context.retry_limit
    then ok false
    else some_matches e config.retryable

unfoldable pub compile_retry_policy : RetryPolicyConfig → Throws Policy
unfolding can_retry backoff_ms
compile_retry_policy config =
    if config.limit == 0
    then err (plain_error "RetryPolicyConfig.limit must be > 0")
    else ok (record { can_retry = can_retry config; backoff_ms = backoff_ms config.backoff })

-- ===== src/Policies.antt =====
-- packages/core/src/policies/{skip,retry}-policy.ts and core/ir/policy-config.ts. Limits, delays and
-- factors are natural numbers here; a JavaScript number could also be negative or fractional.

pub mod Skip
pub mod Retry
pub mod Delays
mod Tests
use nest_batch.Prelude.{ℕ, Bool, false, Option, none, some, List, ok, err}
use nest_batch.Errors.{BatchError, plain_error, Throws}

-- A function value, as the two policies look at it. An error class cannot be called without `new`,
-- so its `call` throws; an arrow function has no prototype, so `instanceof` throws.
pub record Skippable : Type 0 where
  -- `f.length`
  pub arity : ℕ
  -- `f.prototype !== undefined && f.prototype instanceof Error`
  pub is_error_class : Bool
  -- `err instanceof f`, with `none` for the TypeError
  pub instance_of : BatchError → Option Bool
  -- whether `f(err)` is truthy, with `none` if the call throws
  pub call : BatchError → Option Bool

pub record SkipPolicyConfig : Type 0 where
  pub limit : ℕ
  pub skippable : List Skippable

pub data BackoffConfig : Type 0 where
  fixed : (ms : ℕ) → BackoffConfig
  exponential : (initial_ms : ℕ) (max_ms factor : Option ℕ) → BackoffConfig
  no_backoff : BackoffConfig

pub record RetryPolicyConfig : Type 0 where
  pub limit : ℕ
  pub retryable : List Skippable
  pub backoff : BackoffConfig

-- A value that was thrown by `instanceof`.
abbrev pub not_callable : BatchError
not_callable = plain_error "Function has non-object prototype in instanceof check"

-- `try { return f(err) } catch { return false }`
unfoldable pub try_call : Skippable → BatchError → Bool
try_call f e = elim (f.call e) [ none ↦ false | some b ↦ b ]

unfoldable pub instance_check : Skippable → BatchError → Throws Bool
instance_check f e = elim (f.instance_of e) [ none ↦ err not_callable | some b ↦ ok b ]

-- ===== src/Chunk/Phase.antt =====
-- `runPhase` of packages/core/src/execution/chunk-step-executor.ts: one read, process or write under
-- the skip and the retry policy.
use nest_batch.Prelude.{ℕ, zero, suc, ◌+◌, none, some, Result, ok, err, ltb, if◌then◌else◌}
use nest_batch.Prelude.Effects.{pure, throw, lift, gets, attempt, modify, ◌>>=◌, ◌>>◌}
use nest_batch.Errors.{BatchError, plain_error}
use nest_batch.Chunk.Handlers.{Act, Task, call, add_skips}
use nest_batch.Chunk.Decision.{Decision, skip_it, retry_after, Rules, consult}

pub data PhaseResult (A : Type 0) : Type 0 where
  done : A → PhaseResult A
  skipped : PhaseResult A

-- The callbacks of `RunPhaseOptions`. `on_skip` is the listener that runs behind `skipCount += 1`,
-- and `sleep` the timer of the backoff.
pub record Hooks (W A : Type 0) : Type 0 where
  pub before : Act W (Unit {0})
  pub after : A → Act W (Unit {0})
  pub on_error : BatchError → Act W (Unit {0})
  pub on_skip : BatchError → Act W (Unit {0})
  pub sleep : ℕ → Act W (Unit {0})

-- `options.retryPolicy ? 999 : 1`
unfoldable pub outer_cap : Rules → ℕ
outer_cap rules = elim rules.retry_policy [ none ↦ 1 | some p ↦ 999 ]

abbrev pub no_attempt_left : BatchError
no_attempt_left = plain_error "ChunkStepExecutor: phase exhausted attempts without a retry policy"

module _ {W A : Type 0} (rules : Rules) (hooks : Hooks W A) (op : Act W A) where
  -- `if (ms > 0) await new Promise(...)`
  unfoldable pub wait : ℕ → Task W (Unit {0})
  unfolding call
  wait ms = if ltb 0 ms then call (hooks.sleep ms) else pure tt

  unfoldable pub skip_step : BatchError → Task W (PhaseResult A)
  unfolding call
  skip_step e = do modify (add_skips 1); call (hooks.on_skip e); pure skipped

  -- What follows the consultation of the policies.
  unfoldable pub act_on : Task W (PhaseResult A) → BatchError → Decision → Task W (PhaseResult A)
  unfolding wait skip_step
  act_on again e skip_it = skip_step e
  act_on again e (retry_after ms) = do wait ms; again

  -- The `catch` block; `again` is the next round.
  unfoldable pub recover : Task W (PhaseResult A) → ℕ → BatchError → Task W (PhaseResult A)
  unfolding act_on call
  recover again n e = do
    call (hooks.on_error e)
    count ← gets (λ r. r.skip_count)
    decision ← lift (consult rules count n e)
    act_on again e decision

  unfoldable pub settle : Task W (PhaseResult A) → ℕ → Result BatchError A → Task W (PhaseResult A)
  unfolding recover call
  settle again n (ok value) = do call (hooks.after value); pure (done value)
  settle again n (err e) = recover again n e

  -- `while (attempt <= outerCap)`, by recursion on the rounds left.
  unfoldable pub attempts : ℕ → ℕ → Task W (PhaseResult A)
  unfolding settle call
  attempts zero n = throw no_attempt_left
  attempts (suc rounds) n = do
    call hooks.before
    outcome ← attempt (call op)
    settle (λ r. attempts rounds (n + 1) r) n outcome

  unfoldable pub run_phase : Task W (PhaseResult A)
  unfolding attempts outer_cap
  run_phase = attempts (outer_cap rules) 1

-- ===== src/Chunk/Budget.antt =====
-- The skip accounting of `runPhase` in packages/core/src/execution/chunk-step-executor.ts.
use nest_batch.Prelude.{ℕ, zero, suc, ◌+◌, ◌≤◌, ◌≡◌, refl, Result, ok, err, arith}
use nest_batch.Prelude.Effects.{lift, Ensures, bind_rule}
use nest_batch.Errors.{BatchError}
use nest_batch.Chunk.Handlers.{Act, Run, Task, call}
use nest_batch.Chunk.Decision.{Decision, skip_it, retry_after, Rules, consult, consult_retry}
use nest_batch.Chunk.Phase.{
  PhaseResult, done, skipped, Hooks, outer_cap, wait, skip_step, act_on, recover, settle, attempts,
  run_phase,
}

-- What stays as it is: all counts but that of the skips.
abbrev pub Keeps : {W : Type 0} → Run W → Run W → Type 0
Keeps r s =
    (s.read_count ≡ r.read_count)
    × (s.write_count ≡ r.write_count)
    × (s.commit_count ≡ r.commit_count)
    × (s.chunk_index ≡ r.chunk_index)

-- What a phase did to the count of skips.
abbrev pub Counted :
    {W A : Type 0} → Rules → Run W → Result BatchError (PhaseResult A) → Run W → Type 0
Counted rules r (ok skipped) s =
    (s.skip_count ≡ r.skip_count + 1) × (s.skip_count ≤ rules.skip_limit)
Counted rules r (ok (done _)) s = s.skip_count ≡ r.skip_count
Counted rules r (err _) s = (r.skip_count ≤ s.skip_count) × (s.skip_count ≤ r.skip_count + 1)

consult_retry-ne-skip :
    (rules : Rules) (n : ℕ) (e : BatchError) → consult_retry rules n e ≡ ok skip_it → ⊥
unfolding consult_retry
consult_retry-ne-skip rules n e h = ground arith

-- A skip is decided only within the budget.
consult-skip :
    (rules : Rules) (count n : ℕ) (e : BatchError)
    → consult rules count n e ≡ ok skip_it
    → count + 1 ≤ rules.skip_limit
unfolding consult
consult-skip rules count n e h = ground (arith, consult_retry-ne-skip rules n e)

module _ {W A : Type 0} (rules : Rules) (hooks : Hooks W A) (op : Act W A) where
  -- From a state that agrees with `r`.
  abbrev Effect : Run W → Result BatchError (PhaseResult A) → Run W → Type 0
  Effect r result s = Keeps r s × Counted rules r result s

  -- Agreement with `r` in every count.
  abbrev Level : Run W → Run W → Type 0
  Level r s = Keeps r s × (s.skip_count ≡ r.skip_count)

  wait-Level : (ms : ℕ) (r s : Run W) → Level r s → Level r (wait rules hooks op ms s).1
  unfolding wait call
  wait-Level ms r s h = ground arith

  act_on-Effect :
      (again : Task W (PhaseResult A)) (e : BatchError) (d : Decision) (r s : Run W)
      → Level r s
      → (d ≡ skip_it → r.skip_count + 1 ≤ rules.skip_limit)
      → ((t : Run W) → Level r t → Ensures (Effect r) again t)
      → Ensures (Effect r) (act_on rules hooks op again e d) s
  unfolding act_on skip_step call
  act_on-Effect again e skip_it r s same budget next = ground (arith, budget refl)
  act_on-Effect again e (retry_after ms) r s same budget next =
      bind_rule (Effect r) (wait rules hooks op ms) (λ _. again) s
        (λ _ _. next _ (wait-Level ms r s same)) (λ _ _. ground (arith, wait-Level ms r s same))

  recover-Effect :
      (again : Task W (PhaseResult A)) (n : ℕ) (e : BatchError) (r s : Run W)
      → Level r s
      → ((t : Run W) → Level r t → Ensures (Effect r) again t)
      → Ensures (Effect r) (recover rules hooks op again n e) s
  unfolding recover call
  recover-Effect again n e r s same next =
      bind_rule (Effect r) (call (hooks.on_error e)) _ s
        (λ _ _.
          bind_rule (Effect r) (lift (consult rules s.skip_count n e))
            (act_on rules hooks op again e) (call (hooks.on_error e) s).1
            (λ d decided.
              act_on-Effect again e d r (call (hooks.on_error e) s).1 same
                (λ skip. ground (arith, consult-skip rules s.skip_count n e)) next)
            (λ _ _. ground arith))
        (λ _ _. ground arith)

  settle-Effect :
      (again : Task W (PhaseResult A)) (n : ℕ) (outcome : Result BatchError A) (r s : Run W)
      → Level r s
      → ((t : Run W) → Level r t → Ensures (Effect r) again t)
      → Ensures (Effect r) (settle rules hooks op again n outcome) s
  unfolding settle call
  settle-Effect again n (ok value) r s same next = ground arith
  settle-Effect again n (err e) r s same next = recover-Effect again n e r s same next

  attempts-Effect :
      (rounds n : ℕ) (r s : Run W)
      → Level r s
      → Ensures (Effect r) (attempts rules hooks op rounds n) s
  unfolding attempts call
  attempts-Effect zero n r s same = ground arith
  attempts-Effect (suc rounds) n r s same =
      bind_rule (Effect r) (call hooks.before) _ s
        (λ _ _.
          settle-Effect (λ t. attempts rules hooks op rounds (n + 1) t) n
            (op (hooks.before s.world).1).0 r (call op (call hooks.before s).1).1 same
            (λ t same'. attempts-Effect rounds (n + 1) r t same'))
        (λ _ _. ground arith)

  -- A phase under the skip and the retry policy leaves all counts but that of the skips alone. It
  -- adds one skip exactly when it reports one, and the count then fits the skip limit. If it
  -- throws, it leaves at most one skip more.
  pub run_phase-Effect :
      (r : Run W)
      → Keeps r (run_phase rules hooks op r).1
        × Counted rules r (run_phase rules hooks op r).0 (run_phase rules hooks op r).1
  unfolding run_phase
  run_phase-Effect r = attempts-Effect (outer_cap rules) 1 r r ((refl, refl, refl, refl), refl)

-- ===== src/Repository/State.antt =====
-- The state and the keys of packages/core/src/repository/in-memory/in-memory-job-repository.ts. Values do not
-- change here, so the deep clones leave no trace (a key `__proto__`, which they lose, is left out), and an operation runs as a whole, as it does under
-- the lock. The identifiers are those of a generator `gen`.
use Prim.Native.String.{◌++◌ as ◌<>◌}
use nest_batch.Prelude.{ℕ, ◌+◌, String, Option, none, some, ok}
use nest_batch.Prelude.Table.{Table}
use nest_batch.Prelude.Effects.{Exec}
use nest_batch.Errors.{BatchError}
use nest_batch.Context.{ExecutionContext}
use nest_batch.Repository.{
  JobInstance, JobExecution, StepExecution, ExecutionScope, job_scope, step_scope,
}

-- `InMemoryState`, and how often the generator was asked.
pub record State : Type 0 where
  pub instances : Table JobInstance
  pub instances_by_key : Table JobInstance
  pub executions : Table JobExecution
  pub step_executions : Table StepExecution
  pub contexts : Table ExecutionContext
  pub next_id : ℕ

abbrev pub Repo : Type 0 → Type 0
Repo A = Exec BatchError State A

-- `${name}::${jobKey}`
unfoldable pub instance_key : String → String → String
instance_key name job_key = name <> ("::" <> job_key)

-- `scopeKey`
unfoldable pub scope_key : ExecutionScope → String
scope_key (job_scope id) = "job::" <> id
scope_key (step_scope id) = "step::" <> id

-- `patch.field === undefined ? current : patch.field`. A spread does the same for an absent field, but
-- writes an undefined one that is there, which a patch here cannot hold.
unfoldable pub patched {ℓ} : {A : Type ℓ} → Option A → A → A
patched none current = current
patched (some value) current = value

module _ (gen : ℕ → String) where
  -- `this.idGen.next()`
  unfoldable pub take_id : Repo String
  take_id s = (ok (gen s.next_id), record s { next_id = s.next_id + 1 })

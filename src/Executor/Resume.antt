-- ===== src/Executor/Resume.antt =====
-- From the checkpoint of packages/core/src/execution/chunk-step-executor.ts through the repository to
-- the restart in packages/core/src/execution/job-executor.ts.
use nest_batch.Prelude.{ℕ, String, ◌≡◌, Option, none, some, ok}
use nest_batch.Status.{StepStatus}
use nest_batch.Context.{ExecutionContext, read_last_checkpoint}
use nest_batch.Repository.{JobExecution, StepExecution, step_scope}
use nest_batch.Repository.State.{State}
use nest_batch.Repository.Contexts.{get_execution_context, save_execution_context}
use nest_batch.Repository.Steps.{find_latest_step_execution}
use nest_batch.Chunk.Handlers.{Stream}
use nest_batch.Chunk.Loop.{Setting}
use nest_batch.Executor.Definitions.{ChunkStep, Env, Services, JobDefinition, in_repo}

module _ {W Item : Type 0} (setting : Setting (Env W) Item) (id : String) where
  -- The chunk executor saves into the scope of a step execution of the repository, and reads from it.
  pub record OnRepository : Type 0 where
    pub saves :
        (ctx : ExecutionContext)
        → setting.save_execution_context ctx
          ≡ in_repo (save_execution_context (step_scope id) ctx none)
    pub reads : setting.get_execution_context ≡ in_repo (get_execution_context (step_scope id))

  -- A stream whose context keeps the chunk index of the one that it was given
  abbrev pub KeepsIndex : Stream (Env W) → Type 0
  KeepsIndex stream =
      (ctx next : ExecutionContext) (w : Env W)
      → (stream.update ctx w).0 ≡ ok (some next)
      → read_last_checkpoint next ≡ read_last_checkpoint ctx

  -- The chunk index that the scope holds
  abbrev pub Holds : ℕ → State → Type 0
  Holds index s =
      (ctx : ExecutionContext) × ((get_execution_context (step_scope id) s).0 ≡ ok ctx)
      × (read_last_checkpoint ctx ≡ some index)

  module _ (services : Services W) (e : JobExecution) (job : JobDefinition W)
      (partition : Option (ℕ × ℕ)) (step : ChunkStep) where
    -- The latest run of the step in the execution is the one that FAILED, under the id.
    pub record FailedRun (env : Env W) : Type 0 where
      pub run : StepExecution
      pub is_latest : (find_latest_step_execution e.id step.id env.repo).0 ≡ ok (some run)
      pub is_failed : run.status ≡ StepStatus.failed
      pub has_id : run.id ≡ id

-- ===== src/Launcher/Worker.antt =====
-- packages/core/src/execution/batch-worker-runner.ts: a worker process, which runs an execution that is
-- there already, or one that it creates.
use nest_batch.Prelude.{ℕ, String, Option, none, some, if◌then◌else◌}
use nest_batch.Prelude.Effects.{pure, throw, lift, ◌>>=◌}
use nest_batch.Errors.{job_execution_not_found, job_instance_not_found, invalid_job_operation}
use nest_batch.Status.{JobStatus, job_status_eq}
use nest_batch.Context.{end}
use nest_batch.Repository.{JobInstance, JobParameters, JobExecution}
use nest_batch.Repository.Store.{get_job_execution, get_job_instance}
use nest_batch.Executor.Definitions.{Job, in_repo}
use nest_batch.Executor.Flow.{execute}
use nest_batch.Launcher.{Collaborators, create, or_else}
use nest_batch.Launcher.Key.{of_fields, canonical_job_key}
use nest_batch.Launcher.Registry.{get_definition}

pub record BatchWorkerRunOptions : Type 0 where
  pub job_execution_id : Option String
  pub execution_id : Option String
  pub job_id : Option String
  pub params : Option JobParameters
  pub partition_index : Option ℕ
  pub partition_count : Option ℕ

pub record BatchWorkerRunResult : Type 0 where
  pub job_execution : JobExecution
  pub status : JobStatus
  pub process_exit_code : ℕ

-- The execution to run, with the name of its job
pub record Claimed : Type 0 where
  pub execution : JobExecution
  pub job_id : String

-- `options.jobExecutionId ?? options.executionId`
unfoldable pub either_id : Option String → Option String → Option String
either_id none execution_id = execution_id
either_id (some job_execution_id) execution_id = some job_execution_id

-- What the executor reads of the two: a partition has both.
unfoldable pub partition_of : Option ℕ → Option ℕ → Option (ℕ × ℕ)
partition_of (some index) (some count) = some (index, count)
partition_of index count = none

unfoldable pub result_of : JobExecution → BatchWorkerRunResult
result_of execution = record {
  job_execution = execution;
  status = execution.status;
  process_exit_code = if job_status_eq execution.status JobStatus.completed then 0 else 1;
}

-- The result of a run, which `none` says is out of fuel, or has no row any more.
unfoldable pub results_of : Option (Option JobExecution) → Option (Option BatchWorkerRunResult)
unfolding result_of
results_of none = none
results_of (some none) = some none
results_of (some (some execution)) = some (some (result_of execution))

module _ {W : Type 0} (launcher : Collaborators W) where
  unfoldable pub named_by : JobExecution → Option JobInstance → Job W Claimed
  named_by existing none = throw (job_instance_not_found existing.job_instance_id)
  named_by existing (some instance) =
      pure (record { execution = existing; job_id = instance.job_name })

  unfoldable pub claimed : Option String → JobExecution → Job W Claimed
  unfolding named_by in_repo get_job_instance
  claimed (some job_id) existing = pure (record { execution = existing; job_id = job_id })
  claimed none existing = do
    instance ← in_repo (get_job_instance existing.job_instance_id)
    named_by existing instance

  unfoldable pub claim_found : String → Option String → Option JobExecution → Job W Claimed
  unfolding claimed
  claim_found execution_id job_id none = throw (job_execution_not_found execution_id)
  claim_found execution_id job_id (some existing) = claimed job_id existing

  unfoldable pub create_claimed : Option String → JobParameters → Job W Claimed
  unfolding get_definition canonical_job_key create
  create_claimed none params = throw (invalid_job_operation "worker-run")
  create_claimed (some job_id) params = do
    job ← lift (get_definition job_id launcher.registry)
    canonical ← lift (canonical_job_key launcher.digest (of_fields params))
    execution ← create launcher job job_id params canonical
    pure (record { execution = execution; job_id = job_id })

  unfoldable pub claim : Option String → Option String → JobParameters → Job W Claimed
  unfolding in_repo get_job_execution claim_found create_claimed
  claim (some execution_id) job_id params = do
    existing ← in_repo (get_job_execution execution_id)
    claim_found execution_id job_id existing
  claim none job_id params = create_claimed job_id params

  -- `run`
  unfoldable pub run_worker :
      ℕ → BatchWorkerRunOptions → Job W (Option (Option BatchWorkerRunResult))
  unfolding either_id or_else claim get_definition execute partition_of results_of
  run_worker fuel options = do
    taken ←
        claim (either_id options.job_execution_id options.execution_id) options.job_id
          (or_else options.params end)
    job ← lift (get_definition taken.job_id launcher.registry)
    outcome ←
        execute launcher.services taken.execution job
          (partition_of options.partition_index options.partition_count) fuel
    pure (results_of outcome)

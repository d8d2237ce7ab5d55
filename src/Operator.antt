-- ===== src/Operator.antt =====
-- packages/core/src/execution/job-operator.ts on the in-memory repository, and the details of an
-- execution that it reads through packages/core/src/execution/job-explorer.ts.
pub mod Lifecycle
pub mod Commands
mod Tests
use nest_batch.Prelude.{
  ℕ, String, Bool, ◌||◌, Option, none, some, List, Result, ok, err, map, filter, if◌then◌else◌,
  ◌===◌, ◌&&◌, not,
}
use nest_batch.Prelude.Text.{text}
use nest_batch.Prelude.Table.{get, values}
use nest_batch.Prelude.Effects.{pure, throw, lift, ◌>>=◌, ◌>>◌}
use nest_batch.Errors.{
  job_execution_not_found, job_instance_not_found, invalid_job_operation, message, Throws,
}
use nest_batch.Status.{JobStatus, job_status_eq}
use nest_batch.Context.{ExecutionContext}
use nest_batch.Repository.{
  JobInstance, JobExecution, JobExecutionPatch, StepExecution, ExecutionScope, job_scope,
  step_scope,
}
use nest_batch.Repository.Contexts.{context_or_empty}
use nest_batch.Repository.State.{State, Repo, scope_key}
use nest_batch.Repository.Store.{update_job_execution}

pub record StepExecutionContextEntry : Type 0 where
  pub step_execution_id : String
  pub context : ExecutionContext

pub record JobExecutionDetails : Type 0 where
  pub job_instance : JobInstance
  pub job_execution : JobExecution
  pub step_executions : List StepExecution
  pub job_context : ExecutionContext
  pub step_contexts : List StepExecutionContextEntry

unfoldable pub context_of : ExecutionScope → State → ExecutionContext
unfolding scope_key context_or_empty
context_of scope s = context_or_empty (get (scope_key scope) s.contexts)

unfoldable pub details : JobExecution → JobInstance → State → JobExecutionDetails
unfolding context_of
details e inst s =
    let steps : List StepExecution =
      filter (λ x. x.job_execution_id === e.id) (values s.step_executions) in
    record {
      job_instance = inst;
      job_execution = e;
      step_executions = steps;
      job_context = context_of (job_scope e.id) s;
      step_contexts =
          map (λ x. record { step_execution_id = x.id; context = context_of (step_scope x.id) s })
            steps;
    }

unfoldable pub with_instance :
    JobExecution → Option JobInstance → State → Throws JobExecutionDetails
unfolding details
with_instance e none s = err (job_instance_not_found e.job_instance_id)
with_instance e (some inst) s = ok (details e inst s)

unfoldable pub with_execution : String → Option JobExecution → State → Throws JobExecutionDetails
unfolding with_instance
with_execution id none s = err (job_execution_not_found id)
with_execution id (some e) s = with_instance e (get e.job_instance_id s.instances) s

-- `getJobExecutionDetails`: it only reads.
unfoldable pub get_job_execution_details : String → Repo JobExecutionDetails
unfolding with_execution
get_job_execution_details id s = (with_execution id (get id s.executions) s, s)

unfoldable pub is_active : JobStatus → Bool
is_active status =
    job_status_eq status JobStatus.starting
    || (job_status_eq status JobStatus.started || job_status_eq status JobStatus.stopping)

abbrev pub stop_patch : ℕ → JobExecutionPatch
stop_patch now = record {
  status = some JobStatus.stopped;
  start_time = none;
  end_time = some (some now);
  exit_code = some (text "STOPPED");
  exit_message = some (message "Stopped by JobOperator");
}

unfoldable pub stop_from : String → ℕ → JobExecutionDetails → Repo JobExecutionDetails
unfolding is_active get_job_execution_details
stop_from id now found =
    let status = found.job_execution.status in
    if job_status_eq status JobStatus.stopped
    then pure found
    else if not (is_active status)
    then throw (invalid_job_operation "stop")
    else do update_job_execution id (stop_patch now); get_job_execution_details id

unfoldable pub stop : String → ℕ → Repo JobExecutionDetails
unfolding stop_from get_job_execution_details
stop id now = do found ← get_job_execution_details id; stop_from id now found

-- `details.jobExecution.endTime ?? new Date()`
unfoldable pub end_time_or : ℕ → Option ℕ → ℕ
end_time_or now none = now
end_time_or now (some t) = t

unfoldable pub abandon_patch : ℕ → JobExecution → JobExecutionPatch
unfolding end_time_or
abandon_patch now e = record {
  status = some JobStatus.abandoned;
  start_time = none;
  end_time = some (some (end_time_or now e.end_time));
  exit_code = some (text "ABANDONED");
  exit_message = some (message "Abandoned by JobOperator");
}

unfoldable pub abandon_from : String → ℕ → JobExecutionDetails → Repo JobExecutionDetails
unfolding is_active abandon_patch get_job_execution_details
abandon_from id now found =
    let status = found.job_execution.status in
    if job_status_eq status JobStatus.abandoned
    then pure found
    else if is_active status || job_status_eq status JobStatus.completed
    then throw (invalid_job_operation "abandon")
    else do
      update_job_execution id (abandon_patch now found.job_execution)
      get_job_execution_details id

unfoldable pub abandon : String → ℕ → Repo JobExecutionDetails
unfolding abandon_from get_job_execution_details
abandon id now = do found ← get_job_execution_details id; abandon_from id now found

-- `restart`: the registry's lookup and `JobLauncher.run` are parameters.
module _ {Definition : Type 0} (lookup : String → Throws Definition)
    (run : JobExecution → Definition → Repo JobExecution) where
  unfoldable pub restart_from : JobExecutionDetails → Repo JobExecutionDetails
  unfolding get_job_execution_details
  restart_from found =
      let status = found.job_execution.status in
      if not (job_status_eq status JobStatus.failed) && not (job_status_eq status JobStatus.stopped)
      then throw (invalid_job_operation "restart")
      else do
        job_def ← lift (lookup found.job_instance.job_name)
        execution ← run found.job_execution job_def
        get_job_execution_details execution.id

  unfoldable pub restart : String → Repo JobExecutionDetails
  unfolding restart_from get_job_execution_details
  restart id = do found ← get_job_execution_details id; restart_from found

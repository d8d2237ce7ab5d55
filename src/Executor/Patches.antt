-- ===== src/Executor/Patches.antt =====
-- The patches, events and moves of packages/core/src/execution/job-executor.ts that no call decides.
use nest_batch.Prelude.{ℕ, String, Bool, ◌||◌, Option, none, some, List, if◌then◌else◌}
use nest_batch.Prelude.Text.{text}
use nest_batch.Errors.{BatchError, message_of}
use nest_batch.Status.{JobStatus, StepStatus, job_status_eq, step_status_eq}
use nest_batch.Repository.{JobExecution, JobExecutionPatch, StepExecutionPatch}
use nest_batch.Executor.Definitions.{
  StepResult, Event, job_completed, job_failed, step_completed, step_failed,
}
use nest_batch.Executor.Routing.{linear_next}

abbrev pub no_job_patch : JobExecutionPatch
no_job_patch = record {
  status = none;
  start_time = none;
  end_time = none;
  exit_code = none;
  exit_message = none;
}

abbrev pub no_step_patch : StepExecutionPatch
no_step_patch = record {
  status = none;
  read_count = none;
  write_count = none;
  skip_count = none;
  rollback_count = none;
  commit_count = none;
  start_time = none;
  end_time = none;
  exit_code = none;
  exit_message = none;
}

unfoldable pub is_restart : JobExecution → Bool
is_restart e = job_status_eq e.status JobStatus.failed || job_status_eq e.status JobStatus.stopped

-- The `updateStepExecution` behind a step's end
abbrev pub result_patch : StepResult → ℕ → StepExecutionPatch
result_patch result now = record no_step_patch {
  status = some result.status;
  read_count = some result.read_count;
  write_count = some result.write_count;
  skip_count = some result.skip_count;
  commit_count = result.commit_count;
  exit_code = some result.exit_code;
  exit_message = some result.exit_message;
  end_time = some (some now);
}

abbrev pub failure_patch : BatchError → ℕ → StepExecutionPatch
failure_patch e now = record no_step_patch {
  status = some StepStatus.failed;
  exit_code = some (text "FAILED");
  exit_message = some (message_of e);
  end_time = some (some now);
}

unfoldable pub end_event : StepStatus → String → Event
end_event StepStatus.failed id = step_failed id
end_event _ id = step_completed id

unfoldable pub job_end_event : JobStatus → Event
job_end_event JobStatus.completed = job_completed
job_end_event _ = job_failed

-- Where the loop goes from a finished step: on, or out with the job FAILED.
pub data Next : Type 0 where
  go_to : Option String → Next
  fail_job : Next

-- `target` is `none` where no transition matches.
unfoldable pub next_step : Option (Option String) → StepStatus → String → List String → Next
next_step (some target) status current order = go_to target
next_step none status current order =
    if step_status_eq status StepStatus.failed then fail_job else go_to (linear_next current order)

-- ===== src/Repository.antt =====
-- packages/core/src/core/repository/types.ts: the rows of a job repository. A date is its number of
-- milliseconds, and a field of a patch is `none` where the patch leaves it out.
pub mod State
pub mod Store
pub mod Steps
pub mod Contexts
pub mod Running
pub mod Busy
pub mod Reading
pub mod Updating
mod Tests
use nest_batch.Prelude.{ℕ, String, Option, List}
use nest_batch.Prelude.Text.{Text}
use nest_batch.Errors.{Message}
use nest_batch.Status.{JobStatus, StepStatus}
use nest_batch.Context.{Fields}

abbrev pub JobParameters : Type 0
JobParameters = Fields

pub record JobInstance : Type 0 where
  pub id : String
  pub job_name : String
  pub job_key : String
  pub created_at : ℕ

pub record JobExecution : Type 0 where
  pub id : String
  pub job_instance_id : String
  pub status : JobStatus
  pub start_time : Option ℕ
  pub end_time : Option ℕ
  pub exit_code : Text
  pub exit_message : Message
  pub params : JobParameters

-- `startTime` and `endTime` may be set to null.
pub record JobExecutionPatch : Type 0 where
  pub status : Option JobStatus
  pub start_time : Option (Option ℕ)
  pub end_time : Option (Option ℕ)
  pub exit_code : Option Text
  pub exit_message : Option Message

pub record StepExecution : Type 0 where
  pub id : String
  pub job_execution_id : String
  pub step_name : String
  pub status : StepStatus
  pub read_count : ℕ
  pub write_count : ℕ
  pub skip_count : ℕ
  pub rollback_count : ℕ
  pub commit_count : ℕ
  pub start_time : Option ℕ
  pub end_time : Option ℕ
  pub exit_code : Text
  pub exit_message : Message

pub record StepExecutionPatch : Type 0 where
  pub status : Option StepStatus
  pub read_count : Option ℕ
  pub write_count : Option ℕ
  pub skip_count : Option ℕ
  pub rollback_count : Option ℕ
  pub commit_count : Option ℕ
  pub start_time : Option (Option ℕ)
  pub end_time : Option (Option ℕ)
  pub exit_code : Option Text
  pub exit_message : Option Message

pub data ExecutionScope : Type 0 where
  job_scope : (job_execution_id : String) → ExecutionScope
  step_scope : (step_execution_id : String) → ExecutionScope

pub record JobInstanceFilter : Type 0 where
  pub job_name : Option String
  pub job_key : Option String

-- A single status is the list of it.
pub record JobExecutionFilter : Type 0 where
  pub job_instance_id : Option String
  pub status : Option (List JobStatus)
  pub started_after : Option ℕ
  pub started_before : Option ℕ

-- ===== src/Executor/Definitions.antt =====
-- packages/core/src/core/ir: the definition of a job, and what the job executor is handed.
use nest_batch.Prelude.{ℕ, String, Bool, Option, List}
use nest_batch.Prelude.Text.{Text}
use nest_batch.Prelude.Table.{Table}
use nest_batch.Prelude.Effects.{Exec}
use nest_batch.Errors.{BatchError, Message}
use nest_batch.Status.{JobStatus, StepStatus}
use nest_batch.Flow.{TransitionDefinition}
use nest_batch.Policies.{SkipPolicyConfig, RetryPolicyConfig}
use nest_batch.Partitions.{ChunkPartitionConfig}
use nest_batch.Repository.{JobParameters, JobExecution}
use nest_batch.Repository.State.{State, Repo}

-- `ChunkStepDefinition`; the references of its reader, processor, writer and listeners are left to
-- the executor of the step.
pub record ChunkStep : Type 0 where
  pub id : String
  pub chunk_size : ℕ
  pub skip_policy : Option SkipPolicyConfig
  pub retry_policy : Option RetryPolicyConfig
  pub partitions : Option ChunkPartitionConfig

pub data StepDefinition : Type 0 where
  chunk : ChunkStep → StepDefinition
  tasklet : (id : String) → StepDefinition

unfoldable pub step_id : StepDefinition → String
step_id (chunk step) = step.id
step_id (tasklet id) = id

-- The repository, and the rest of the world.
pub record Env (W : Type 0) : Type 0 where
  pub repo : State
  pub world : W

abbrev pub Job : Type 0 → Type 0 → Type 0
Job W A = Exec BatchError (Env W) A

-- `StepResult`; a tasklet's has no `commitCount`.
pub record StepResult : Type 0 where
  pub status : StepStatus
  pub exit_code : Text
  pub exit_message : Message
  pub read_count : ℕ
  pub write_count : ℕ
  pub skip_count : ℕ
  pub commit_count : Option ℕ

pub record DeciderContext : Type 0 where
  pub job_execution : JobExecution
  pub step_id : String
  pub step_execution_id : String
  pub step_status : StepStatus
  pub exit_code : Text
  pub exit_message : Message

pub record DeciderDefinition (W : Type 0) : Type 0 where
  pub after_step_id : String
  pub decide : DeciderContext → Job W Text

pub record JobDefinition (W : Type 0) : Type 0 where
  pub id : String
  pub steps : Table StepDefinition
  pub start_step_id : String
  pub transitions : List TransitionDefinition
  pub deciders : List (DeciderDefinition W)
  pub restartable : Bool
  pub allow_duplicate_instances : Bool

-- The `type` of a `BatchEvent`, and the step execution that it is about.
pub data Event : Type 0 where
  job_started job_completed job_failed : Event
  step_started step_completed step_failed : (step_execution_id : String) → Event

-- The collaborators of the executor. `new_date` is what `new Date()` yields.
pub record Services (W : Type 0) : Type 0 where
  pub gen : ℕ → String
  pub new_date : W → ℕ
  pub on_event : Event → Job W (Unit {0})
  pub before_job : JobExecution → Job W (Unit {0})
  pub after_job : JobExecution → JobStatus → Job W (Unit {0})
  pub run_tasklet : String → String → JobParameters → Job W StepResult
  pub run_chunk :
      ChunkStep
      → String
      → JobParameters
      → (resume_from : Option ℕ) → Option (ℕ × ℕ)
      → Job W StepResult

module _ {W : Type 0} where
  -- A call of the repository.
  unfoldable pub in_repo : {A : Type 0} → Repo A → Job W A
  in_repo m env = let (result, s) = m env.repo in (result, record env { repo = s })

-- ===== src/Executor/ResumeTests.antt =====
-- A chunk step that checkpoints in the repository, fails, and is run again.
use nest_batch.Prelude.{ℕ, none, some, [], ◌∷◌, true, false}
use nest_batch.Prelude.Text.{text}
use nest_batch.Prelude.Effects.{pure}
use nest_batch.Errors.{message}
use nest_batch.Status.{JobStatus, StepStatus}
use nest_batch.Context.{Json, end}
use nest_batch.Repository.{JobExecution, StepExecution, step_scope}
use nest_batch.Repository.State.{State}
use nest_batch.Repository.Contexts.{get_execution_context, save_execution_context}
use nest_batch.Chunk.Handlers.{Listeners, Run, Stream}
use nest_batch.Chunk.Loop.{Setting, checkpoint}
use nest_batch.Executor.Definitions.{
  ChunkStep, chunk, Env, StepResult, JobDefinition, Services, in_repo,
}

abbrev World : Type 0
World = Env (Unit {0})

abbrev listeners : Listeners World ℕ
listeners = record {
  before_step = pure tt;
  after_step = pure;
  on_step_error = λ _. pure tt;
  before_chunk = λ _. pure tt;
  after_chunk = λ _ _. pure tt;
  on_chunk_error = λ _ _. pure tt;
  before_read = λ _. pure tt;
  after_read = λ _ _. pure tt;
  on_read_error = λ _ _. pure tt;
  before_process = λ _ _. pure tt;
  after_process = λ _ _ _. pure tt;
  on_process_error = λ _ _ _. pure tt;
  before_write = λ _ _. pure tt;
  after_write = λ _ _ _. pure tt;
  on_write_error = λ _ _ _. pure tt;
  on_skip_read = λ _. pure tt;
  on_skip_process = λ _ _. pure tt;
  on_skip_write = λ _ _. pure tt;
}

abbrev setting : Setting World ℕ
setting = record {
  handlers = record {
    read = λ _. pure none;
    process = none;
    write = λ _ _. pure none;
    reader_is_stream = true;
    streams = [];
  };
  listeners = listeners;
  rules = record { skip_policy = none; retry_policy = none; skip_limit = 0; retry_limit = 0 };
  sleep = λ _. pure tt;
  with_transaction = λ m. m;
  get_execution_context = in_repo (get_execution_context (step_scope "s1"));
  save_execution_context = λ ctx. in_repo (save_execution_context (step_scope "s1") ctx none);
  chunk_size = 2;
  partition = none;
  resume_from = none;
}

-- A stream that hands its context back
abbrev stream : Stream World
stream = record { open_stream = λ _. pure tt; update = λ ctx. pure (some ctx); close = pure tt }

abbrev failed_run : StepExecution
failed_run = record {
  id = "s1";
  job_execution_id = "e1";
  step_name = "load";
  status = StepStatus.failed;
  read_count = 0;
  write_count = 0;
  skip_count = 0;
  rollback_count = 0;
  commit_count = 0;
  start_time = none;
  end_time = none;
  exit_code = text "";
  exit_message = message "";
}

abbrev state : State
state = record {
  instances = [];
  instances_by_key = [];
  executions = [];
  step_executions = ("s1", failed_run) ∷ [];
  contexts = [];
  next_id = 0;
}

abbrev running : Run World
running = record {
  read_count = 2;
  write_count = 2;
  skip_count = 0;
  commit_count = 0;
  chunk_index = 4;
  context = record { content = Json.null; version = 0 };
  opened = stream ∷ [];
  world = record { repo = state; world = tt };
}

abbrev execution : JobExecution
execution = record {
  id = "e1";
  job_instance_id = "i";
  status = JobStatus.failed;
  start_time = none;
  end_time = none;
  exit_code = text "";
  exit_message = message "";
  params = end;
}

abbrev step : ChunkStep
step = record {
  id = "load";
  chunk_size = 2;
  skip_policy = none;
  retry_policy = none;
  partitions = none;
}

abbrev result : StepResult
result = record {
  status = StepStatus.completed;
  exit_code = text "COMPLETED";
  exit_message = message "";
  read_count = 0;
  write_count = 0;
  skip_count = 0;
  commit_count = none;
}

abbrev services : Services (Unit {0})
services = record {
  gen = λ _. "row";
  new_date = λ _. 5;
  on_event = λ _. pure tt;
  before_job = λ _. pure tt;
  after_job = λ _ _. pure tt;
  run_tasklet = λ _ _ _. pure result;
  run_chunk = λ _ _ _ _ _. pure result;
}

abbrev job : JobDefinition (Unit {0})
job = record {
  id = "import";
  steps = ("load", chunk step) ∷ [];
  start_step_id = "load";
  transitions = [];
  deciders = [];
  restartable = true;
  allow_duplicate_instances = false;
}

-- The environment behind the checkpoint
abbrev left : World
left = (checkpoint setting 4 running).1.world

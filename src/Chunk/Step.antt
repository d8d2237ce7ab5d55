-- ===== src/Chunk/Step.antt =====
-- `execute` of packages/core/src/execution/chunk-step-executor.ts around its loop: policies and
-- partition first, then the streams, the loop and the result, and the error path.
use nest_batch.Prelude.{
  ℕ, ◌+◌, Bool, Option, none, some, List, [], ◌∷◌, ◌++◌, Result, ok, err, reverse, if◌then◌else◌,
}
use nest_batch.Prelude.Text.{text}
use nest_batch.Prelude.Effects.{pure, lift, gets, attempt, modify, ◌>>=◌, ◌>>◌}
use nest_batch.Errors.{BatchError, Message, message, message_of}
use nest_batch.Status.{StepStatus}
use nest_batch.Context.{Json, ExecutionContext}
use nest_batch.Policies.{SkipPolicyConfig, RetryPolicyConfig}
use nest_batch.Partitions.{Range, ChunkPartitionConfig}
use nest_batch.Chunk.Handlers.{
  Act, Run, Task, Stream, WriterResult, Handlers, Listeners, ExecutionResult, call,
}
use nest_batch.Chunk.Decision.{Rules}
use nest_batch.Chunk.Loop.{Setting, loop}
use nest_batch.Chunk.Plan.{compile_rules, partition_of}

-- The step, the context and what the executor is given to call.
pub record Job (W Item : Type 0) : Type 0 where
  pub chunk_size : ℕ
  pub skip_policy : Option SkipPolicyConfig
  pub retry_policy : Option RetryPolicyConfig
  pub partitions : Option ChunkPartitionConfig
  pub partition_index : Option ℕ
  pub partition_count : Option ℕ
  pub resume_from : Option ℕ
  -- `resolveReader`, `resolveProcessor` and `resolveWriter`
  pub resolve : Act W (Handlers W Item)
  pub listeners : Listeners W Item
  pub sleep : ℕ → Act W (Unit {0})
  pub with_transaction : Act W (Option WriterResult) → Act W (Option WriterResult)
  pub get_execution_context : Act W ExecutionContext
  pub save_execution_context : ExecutionContext → Act W (Unit {0})

-- With a stream as reader a restart starts counting behind the last chunk.
unfoldable pub first_index : Bool → Option ℕ → ℕ
first_index reader_is_stream none = 0
first_index reader_is_stream (some last) = if reader_is_stream then last + 1 else 0

-- An error of closing takes the place of the error that led here.
unfoldable pub final_error : BatchError → Result BatchError (Unit {0}) → BatchError
final_error e (ok _) = e
final_error e (err close_error) = close_error

module _ {W : Type 0} where
  unfoldable pub open_streams : ExecutionContext → List (Stream W) → Task W (Unit {0})
  unfolding call
  open_streams ctx [] = pure tt
  open_streams ctx (stream ∷ streams) = do
    call (stream.open_stream ctx)
    modify (λ r. record r { opened = r.opened ++ stream ∷ [] })
    open_streams ctx streams

  unfoldable pub close_all : List (Stream W) → Task W (Unit {0})
  unfolding call
  close_all [] = pure tt
  close_all (stream ∷ streams) = do call stream.close; close_all streams

  -- `closeStreams` on what is open, from the last; the list is emptied first.
  unfoldable pub close_streams : Task W (Unit {0})
  unfolding close_all
  close_streams = do
    r ← gets (λ r. r)
    modify (λ r'. record r' { opened = [] })
    close_all (reverse r.opened)

  abbrev pub result_of : StepStatus → Message → Run W → ExecutionResult
  result_of status exit_message r = record {
    status = status;
    exit_code = elim status [ StepStatus.completed ↦ text "COMPLETED" | _ ↦ text "FAILED" ];
    exit_message = exit_message;
    read_count = r.read_count;
    write_count = r.write_count;
    skip_count = r.skip_count;
    commit_count = r.commit_count;
  }

  abbrev pub start : W → Run W
  start w = record {
    read_count = 0;
    write_count = 0;
    skip_count = 0;
    commit_count = 0;
    chunk_index = 0;
    context = record { content = Json.null; version = 0 };
    opened = [];
    world = w;
  }

module _ {W Item : Type 0} where
  abbrev setting : Job W Item → Handlers W Item → Rules → Option Range → Setting W Item
  setting job handlers rules partition = record {
    handlers = handlers;
    listeners = job.listeners;
    rules = rules;
    sleep = job.sleep;
    with_transaction = job.with_transaction;
    get_execution_context = job.get_execution_context;
    save_execution_context = job.save_execution_context;
    chunk_size = job.chunk_size;
    partition = partition;
    resume_from = job.resume_from;
  }

  -- The end of the `try` block.
  unfoldable pub finish : Job W Item → Task W ExecutionResult
  unfolding close_streams call
  finish job = do
    close_streams
    r ← gets (λ r. r)
    call (job.listeners.after_step (result_of StepStatus.completed (message "") r))

  -- The `try` block; `none` when the fuel of the loop runs out.
  unfoldable pub try_block : Job W Item → Rules → Option Range → ℕ → Task W (Option ExecutionResult)
  unfolding open_streams first_index finish call
  try_block job rules partition fuel = do
    handlers ← call job.resolve
    ctx ← call job.get_execution_context
    modify (λ r. record r { context = ctx })
    open_streams ctx handlers.streams
    modify (λ r. record r { chunk_index = first_index handlers.reader_is_stream job.resume_from })
    ended ← loop (setting job handlers rules partition) fuel
    elim ended [ none ↦ pure none | some _ ↦ do result ← finish job; pure (some result) ]

  -- The `catch` block
  unfoldable pub catch_block : Job W Item → BatchError → Task W ExecutionResult
  unfolding close_streams final_error call
  catch_block job e = do
    closed ← attempt close_streams
    let final = final_error e closed
    r ← gets (λ r. r)
    call (job.listeners.on_chunk_error r.chunk_index final)
    r' ← gets (λ r. r)
    call (job.listeners.on_step_error final)
    call (job.listeners.after_step (result_of StepStatus.failed (message_of final) r'))

  -- `execute` behind the policies and the partition.
  unfoldable pub run_step : Job W Item → Rules → Option Range → ℕ → Task W (Option ExecutionResult)
  unfolding try_block catch_block call
  run_step job rules partition fuel = do
    call job.listeners.before_step
    outcome ← attempt (try_block job rules partition fuel)
    elim outcome [
      | ok result ↦ pure result
      | err e ↦ do result ← catch_block job e; pure (some result)
    ]

  -- `ChunkStepExecutor.execute`
  unfoldable pub execute : Job W Item → ℕ → Task W (Option ExecutionResult)
  unfolding compile_rules partition_of run_step
  execute job fuel = do
    rules ← lift (compile_rules job.skip_policy job.retry_policy)
    partition ← lift (partition_of job.partitions job.partition_index job.partition_count)
    run_step job rules partition fuel

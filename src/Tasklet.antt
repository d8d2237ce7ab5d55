-- ===== src/Tasklet.antt =====
-- packages/core/src/execution/tasklet-step-executor.ts and ref-resolver.ts.
pub mod Outcome
mod Tests
use nest_batch.Prelude.{
  String, Bool, Option, none, some, List, [], ◌∷◌, Result, ok, err, ◌===◌, if◌then◌else◌,
}
use nest_batch.Prelude.Text.{text}
use nest_batch.Prelude.Table.{Table, get}
use nest_batch.Prelude.Effects.{Exec, pure, throw, gets, modify, attempt, ◌>>=◌, ◌>>◌}
use nest_batch.Errors.{
  BatchError, plain_error, provider_token_not_found, Message, message, message_of,
}
use nest_batch.Status.{StepStatus}
use nest_batch.Context.{end}
use nest_batch.Repository.{JobParameters}
use nest_batch.Executor.Definitions.{StepResult}
use nest_batch.Listeners.{ListenerFn, invoke_before_step, invoke_after_step, invoke_on_error_step}

-- What the listeners of a step, and the tasklet itself, are told.
pub record StepListenerContext : Type 0 where
  pub job_execution_id : String
  pub step_execution_id : String
  pub step_name : String
  pub job_parameters : JobParameters

-- A listener is called with the context, with what was thrown, or with the result, which is the
-- object that `execute` returns: a listener can write into it.
pub data Argument : Type 0 where
  context : StepListenerContext → Argument
  thrown : BatchError → Argument
  live_result : Argument

-- The world, and the variable `result`.
pub record TaskletState (W : Type 0) : Type 0 where
  pub world : W
  pub result : StepResult

abbrev pub Run : Type 0 → Type 0 → Type 0
Run W A = Exec BatchError (TaskletState W) A

-- `Tasklet`; `none` is a return of undefined.
abbrev pub Tasklet : Type 0 → Type 0
Tasklet W = StepListenerContext → Run W (Option String)

-- What the call `taskletRef.fn()` returns: a function or an object with `execute`, or else.
pub data Returned (W : Type 0) : Type 0 where
  a_tasklet : Tasklet W → Returned W
  something_else : Returned W

-- A function as a reference carries it: called without arguments, and with a context.
pub record Lambda (W : Type 0) : Type 0 where
  pub call : Run W (Returned W)
  pub call_with : Tasklet W

pub data TaskletRef (W : Type 0) : Type 0 where
  builder_lambda : Option (Lambda W) → TaskletRef W
  provider_token : Option String → TaskletRef W
  method : TaskletRef W

pub record TaskletContext (W : Type 0) : Type 0 where
  pub job_execution_id : String
  pub step_execution_id : Option String
  pub step_name : Option String
  pub job_parameters : Option JobParameters
  pub with_transaction : Run W (Option String) → Run W (Option String)
  pub listener_resolvers : Table (ListenerFn Argument (TaskletState W))
  pub provider_resolvers : Option (Table (Tasklet W))

module _ {W : Type 0} where
  unfoldable pub find_provider : String → Option (Tasklet W) → Run W (Tasklet W)
  find_provider token none = throw (provider_token_not_found token)
  find_provider token (some instance) = pure instance

  unfoldable pub provider_of : String → Option (Table (Tasklet W)) → Run W (Tasklet W)
  unfolding find_provider
  provider_of token none = throw (plain_error "No provider resolvers available for tasklet ref")
  provider_of token (some resolvers) = find_provider token (get token resolvers)

  unfoldable pub missing_token : Run W (Tasklet W)
  missing_token = throw (plain_error "Missing token on tasklet ref")

  -- `resolveProviderToken`; an empty token counts as none.
  unfoldable pub resolve_provider_token :
      Option String → Option (Table (Tasklet W)) → Run W (Tasklet W)
  unfolding provider_of missing_token
  resolve_provider_token none resolvers = missing_token
  resolve_provider_token (some token) resolvers =
      if token === "" then missing_token else provider_of token resolvers

  unfoldable pub tasklet_of : Lambda W → Returned W → Tasklet W
  tasklet_of lambda (a_tasklet t) = t
  tasklet_of lambda something_else = lambda.call_with

  unfoldable pub unsupported : Run W (Tasklet W)
  unsupported = throw (plain_error "Tasklet resolution not supported for ref kind")

  unfoldable pub resolve_tasklet : TaskletRef W → Option (Table (Tasklet W)) → Run W (Tasklet W)
  unfolding tasklet_of resolve_provider_token unsupported
  resolve_tasklet (builder_lambda (some lambda)) resolvers = do
    returned ← lambda.call
    pure (tasklet_of lambda returned)
  resolve_tasklet (builder_lambda none) resolvers = unsupported
  resolve_tasklet (provider_token token) resolvers = resolve_provider_token token resolvers
  resolve_tasklet method resolvers = unsupported

unfoldable pub or_text : Option String → String → String
or_text none default = default
or_text (some s) default = s

unfoldable pub or_params : Option JobParameters → JobParameters
or_params none = end
or_params (some params) = params

-- `txResult === undefined ? '' : String(txResult)`
unfoldable pub completed_result : Option String → StepResult
unfolding or_text
completed_result returned = record {
  status = StepStatus.completed;
  exit_code = text "COMPLETED";
  exit_message = message (or_text returned "");
  read_count = 0;
  write_count = 0;
  skip_count = 0;
  commit_count = none;
}

unfoldable pub failed_result : BatchError → StepResult
failed_result error = record {
  status = StepStatus.failed;
  exit_code = text "FAILED";
  exit_message = message_of error;
  read_count = 0;
  write_count = 0;
  skip_count = 0;
  commit_count = none;
}

module _ {W : Type 0} (step_id : String) (ref : TaskletRef W)
    (tasklet_context : TaskletContext W) where
  unfoldable pub told : StepListenerContext
  unfolding or_text or_params
  told = record {
    job_execution_id = tasklet_context.job_execution_id;
    step_execution_id = or_text tasklet_context.step_execution_id "<pending>";
    step_name = or_text tasklet_context.step_name step_id;
    job_parameters = or_params tasklet_context.job_parameters;
  }

  -- The `try` block, up to its result
  unfoldable pub body : Run W (Option String)
  unfolding resolve_tasklet told
  body = do
    tasklet ← resolve_tasklet ref tasklet_context.provider_resolvers
    tasklet_context.with_transaction (tasklet told)

  unfoldable pub set_result : StepResult → Run W (Unit {0})
  set_result result = modify (λ s. record s { result = result })

  -- The end of the `try` block, and the `catch` block
  unfoldable pub settle : Result BatchError (Option String) → Run W (Unit {0})
  unfolding set_result completed_result failed_result told invoke_on_error_step
  settle (ok returned) = set_result (completed_result returned)
  settle (err error) = do
    invoke_on_error_step tasklet_context.listener_resolvers (context told) (thrown error)
    set_result (failed_result error)

  unfoldable pub finish : Run W StepResult
  unfolding told invoke_after_step
  finish = do
    invoke_after_step tasklet_context.listener_resolvers (context told) live_result
    gets (λ s. s.result)

  unfoldable pub guarded : Run W StepResult
  unfolding body settle finish
  guarded = do outcome ← attempt body; settle outcome; finish

  unfoldable pub execute : Run W StepResult
  unfolding told invoke_before_step guarded
  execute = do invoke_before_step tasklet_context.listener_resolvers (context told); guarded

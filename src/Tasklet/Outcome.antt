-- ===== src/Tasklet/Outcome.antt =====
-- The result of packages/core/src/execution/tasklet-step-executor.ts, by what the tasklet did.
use nest_batch.Prelude.{String, ◌≡◌, Option, none, some, List, Result, ok, err, Has}
use nest_batch.Prelude.Table.{Table}
use nest_batch.Prelude.Effects.{Exec}
use nest_batch.Errors.{BatchError, Message, message, message_of}
use nest_batch.Prelude.Text.{Text, text}
use nest_batch.Status.{StepStatus}
use nest_batch.Executor.Definitions.{StepResult}
use nest_batch.Listeners.{ListenerFn, invoke_before_step}
use nest_batch.Tasklet.{Argument, context, TaskletState, TaskletRef, TaskletContext, told}

-- A listener that returns, and leaves the result alone
abbrev pub Calm : {W : Type 0} → ListenerFn Argument (TaskletState W) → Type 0
Calm {W} fn =
    (args : List Argument) (s : TaskletState W)
    → ((fn args s).0 ≡ ok tt) × ((fn args s).1.result ≡ s.result)

module _ {W : Type 0} where
  -- A computation that went well and left the result alone
  abbrev Fine : Exec BatchError (TaskletState W) (Unit {0}) → Type 0
  Fine m = (s : TaskletState W) → ((m s).0 ≡ ok tt) × ((m s).1.result ≡ s.result)

-- A result without counts
abbrev pub reported : StepStatus → Text → Message → StepResult
reported status exit_code exit_message = record {
  status = status;
  exit_code = exit_code;
  exit_message = exit_message;
  read_count = 0;
  write_count = 0;
  skip_count = 0;
  commit_count = none;
}

-- The result that belongs to what the tasklet did
abbrev pub expected : Result BatchError (Option String) → StepResult
expected (ok none) = reported StepStatus.completed (text "COMPLETED") (message "")
expected (ok (some said)) = reported StepStatus.completed (text "COMPLETED") (message said)
expected (err error) = reported StepStatus.failed (text "FAILED") (message_of error)

module _ {W : Type 0} (step_id : String) (ref : TaskletRef W)
    (tasklet_context : TaskletContext W) where
  abbrev pub CalmListeners : Type 0
  CalmListeners =
      (k : String) (fn : ListenerFn Argument (TaskletState W))
      → Has (k, fn) tasklet_context.listener_resolvers
      → Calm fn

  -- The state in which the tasklet is run
  abbrev pub started : TaskletState W → TaskletState W
  started s =
      (invoke_before_step tasklet_context.listener_resolvers
        (context (told step_id ref tasklet_context)) s).1

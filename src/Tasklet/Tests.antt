-- ===== src/Tasklet/Tests.antt =====
-- A tasklet that throws in a transaction that only passes on, and the theorem about it.
use nest_batch.Prelude.{ℕ, ◌+◌, ◌≡◌, refl, none, some, [], ◌∷◌}
use nest_batch.Prelude.Effects.{pure, throw, modify, ◌>>◌}
use nest_batch.Prelude.Table.{set}
use nest_batch.Errors.{plain_error}
use nest_batch.Listeners.{ListenerFn}
use nest_batch.Tasklet.{
  Argument, TaskletState, TaskletRef, builder_lambda, TaskletContext, something_else,
  completed_result, execute,
}

-- The world counts the calls of the tasklet.
abbrev counting : TaskletRef ℕ
counting = builder_lambda (
    some (record {
      call = modify (λ s. record s { world = s.world + 1 }) >> pure something_else;
      call_with = λ _. modify (λ s. record s { world = s.world + 1 }) >> pure none;
    }))

abbrev failing : TaskletRef ℕ
failing =
    builder_lambda
      (some (record { call = pure something_else; call_with = λ _. throw (plain_error "no") }))

abbrev quiet : ListenerFn Argument (TaskletState ℕ)
quiet args = pure tt

abbrev context : TaskletContext ℕ
context = record {
  job_execution_id = "e";
  step_execution_id = some "s";
  step_name = none;
  job_parameters = none;
  with_transaction = λ m. m;
  listener_resolvers = ("after-step:lambda-0", quiet) ∷ [];
  provider_resolvers = none;
}

abbrev start : TaskletState ℕ
start = record { world = 0; result = completed_result none }

-- A function that is itself the tasklet runs twice.
twice : (execute "cleanup" counting context start).1.world ≡ 2
unfolding execute set
twice = refl

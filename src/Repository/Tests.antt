-- ===== src/Repository/Tests.antt =====
-- A repository with three identifiers, two launches of one job, and the theorems at such states.
use nest_batch.Prelude.{ℕ, zero, suc, ◌+◌, String, ◌≡◌, ◌≢◌, refl, Option, none, some, [], ok, err}
use nest_batch.Prelude.Text.{text}
use nest_batch.Prelude.Table.{get, set, values}
use nest_batch.Prelude.Effects.{◌>>◌}
use nest_batch.Errors.{job_execution_already_running, message}
use nest_batch.Status.{JobStatus}
use nest_batch.Context.{Json, end, ExecutionContext, assert_json_serializable}
use nest_batch.Repository.{JobExecution, JobExecutionPatch, StepExecution, job_scope, step_scope}
use nest_batch.Repository.Contexts.{get_execution_context, save_execution_context}
use nest_batch.Repository.State.{State}
use nest_batch.Repository.Steps.{create_step_execution, find_latest_step_execution}
use nest_batch.Repository.Store.{
  find_running, create_execution_atomic, update_job_execution, runs_for, create_job_execution,
}
use nest_batch.Repository.Running.{
  OneRunning, Launched, create_execution_atomic-Launched, create_execution_atomic-OneRunning,
}
use nest_batch.Repository.Updating.{Updated, update_job_execution-Updated}
use nest_batch.Repository.Reading.{
  get_execution_context-save_execution_context, save_execution_context-other, Latest,
  find_latest_step_execution-Latest,
}

abbrev gen : ℕ → String
gen zero = "instance"
gen (suc zero) = "first"
gen (suc (suc n)) = "second"

abbrev empty : State
empty = record {
  instances = [];
  instances_by_key = [];
  executions = [];
  step_executions = [];
  contexts = [];
  next_id = 0;
}

empty-OneRunning : OneRunning empty.executions
unfolding get
empty-OneRunning k i j (e, at_i, _) at_j = cc

abbrev launched : State
launched = (create_execution_atomic gen "import" "{}" end 7 empty).1

launched-OneRunning : OneRunning launched.executions
launched-OneRunning =
    create_execution_atomic-OneRunning gen "import" "{}" end 7 empty empty-OneRunning

-- The second launch finds the first one running.
second_launch :
    (create_execution_atomic gen "import" "{}" end 8 launched).0
    ≡ err (job_execution_already_running "first")
unfolding create_execution_atomic get set find_running runs_for
second_launch = refl

-- A second execution of the instance, created or restarted past the check, runs beside the first.
unchecked_launch : ¬ (OneRunning (create_job_execution gen "instance" end launched).1.executions)
unfolding create_execution_atomic create_job_execution get set find_running runs_for
unchecked_launch one =
    let same : ◌≡◌ {A = String} "first" "second" =
      one "instance" "first" "second" (_, refl, refl) (_, refl, refl) in
    absurd cc

create_execution_atomic-Launched_example :
    Launched gen "import" "{}" end 8 launched
      (create_execution_atomic gen "import" "{}" end 8 launched).0
      (create_execution_atomic gen "import" "{}" end 8 launched).1
create_execution_atomic-Launched_example =
    create_execution_atomic-Launched gen "import" "{}" end 8 launched

create_execution_atomic-OneRunning_example :
    OneRunning (create_execution_atomic gen "import" "{}" end 8 launched).1.executions
create_execution_atomic-OneRunning_example =
    create_execution_atomic-OneRunning gen "import" "{}" end 8 launched launched-OneRunning

abbrev to_failed : JobExecutionPatch
to_failed = record {
  status = some JobStatus.failed;
  start_time = none;
  end_time = some (some 9);
  exit_code = some (text "FAILED");
  exit_message = none;
}

abbrev to_started : JobExecutionPatch
to_started = record {
  status = some JobStatus.started;
  start_time = some (some 8);
  end_time = none;
  exit_code = none;
  exit_message = none;
}

abbrev first : JobExecution
first = record {
  id = "first";
  job_instance_id = "instance";
  status = JobStatus.starting;
  start_time = none;
  end_time = none;
  exit_code = text "";
  exit_message = message "";
  params = end;
}

update_job_execution-Updated_example :
    (t : State) × ((update_job_execution "first" to_started
          >> update_job_execution "first" to_failed)
        launched
      ≡ (ok tt, t))
    × ((row : JobExecution) × (get "first" t.executions ≡ some row)
        × Updated first to_started to_failed row)
    × ((j : String) → "first" ≢ j → get j t.executions ≡ get j launched.executions)
    × (record t { executions = launched.executions } ≡ launched)
unfolding create_execution_atomic get set find_running
update_job_execution-Updated_example =
    update_job_execution-Updated "first" to_started to_failed launched first refl

abbrev five : ExecutionContext
five = record { content = Json.number 5; version = 0 }

get_execution_context-save_execution_context_example :
    (get_execution_context
      (step_scope "s")
      (save_execution_context (step_scope "s") five none empty).1).0
    ≡ ok (record { content = Json.number 5; version = 0 + 1 })
unfolding get_execution_context assert_json_serializable get
get_execution_context-save_execution_context_example =
    get_execution_context-save_execution_context (step_scope "s") five
      (record { content = Json.null; version = 0 }) empty refl refl

scopes_differ : job_scope "s" ≢ step_scope "s"
scopes_differ h = absurd cc

save_execution_context-other_example :
    (get_execution_context
      (job_scope "s")
      (save_execution_context (step_scope "s") five none empty).1).0
    ≡ (get_execution_context (job_scope "s") empty).0
save_execution_context-other_example =
    save_execution_context-other (step_scope "s") (job_scope "s") five none empty scopes_differ

abbrev stepped : State
stepped =
    (create_step_execution gen "first" "load"
      (create_step_execution gen "first" "load" launched).1).1

find_latest_step_execution-Latest_example :
    (o : Option StepExecution) × ((find_latest_step_execution "first" "load" stepped).0 ≡ ok o)
    × Latest "first" "load" (values stepped.step_executions) o
find_latest_step_execution-Latest_example = find_latest_step_execution-Latest "first" "load" stepped

-- ===== src/Operator/Tests.antt =====
-- An execution that runs, one that is done, and the theorems about them.
use nest_batch.Prelude.{String, ◌≡◌, refl, none, some, [], ◌∷◌, ok}
use nest_batch.Prelude.Text.{text}
use nest_batch.Prelude.Table.{get}
use nest_batch.Errors.{message}
use nest_batch.Status.{JobStatus}
use nest_batch.Context.{end}
use nest_batch.Repository.{JobInstance, JobExecution}
use nest_batch.Repository.State.{State}
use nest_batch.Operator.{JobExecutionDetails, stop, abandon}
use nest_batch.Operator.Commands.{stop-abandon}
use nest_batch.Operator.Lifecycle.{
  stop_execution, abandon_execution, run_commands, run_commands-completed, started, stopped_at,
  abandoned_with,
}

abbrev inst : JobInstance
inst = record { id = "i"; job_name = "import"; job_key = "{}"; created_at = 1 }

abbrev execution : String → JobStatus → JobExecution
execution id status = record {
  id = id;
  job_instance_id = "i";
  status = status;
  start_time = some 2;
  end_time = none;
  exit_code = text "";
  exit_message = message "";
  params = end;
}

abbrev running : JobExecution
running = execution "e1" JobStatus.started

abbrev finished : JobExecution
finished = execution "e2" JobStatus.completed

abbrev state : State
state = record {
  instances = ("i", inst) ∷ [];
  instances_by_key = [];
  executions = ("e1", running) ∷ ("e2", finished) ∷ [];
  step_executions = [];
  contexts = [];
  next_id = 3;
}

run_commands-completed_example :
    get "e2"
      (run_commands (stop_execution "e2" 9 ∷ abandon_execution "e2" 10 ∷ []) state).executions
    ≡ some finished
unfolding get
run_commands-completed_example =
    run_commands-completed (stop_execution "e2" 9 ∷ abandon_execution "e2" 10 ∷ []) "e2" finished
      state refl refl

stop-abandon_example :
    (d d' : JobExecutionDetails) × (t t' : State) × (stop "e1" 9 state ≡ (ok d, t))
    × (d.job_execution ≡ stopped_at 9 running)
    × (get "e1" t.executions ≡ some (stopped_at 9 running))
    × (stop "e1" 12 t ≡ (ok d, t))
    × (abandon "e1" 12 t ≡ (ok d', t'))
    × (d'.job_execution ≡ abandoned_with 9 running)
    × (get "e1" t'.executions ≡ some (abandoned_with 9 running))
unfolding get
stop-abandon_example = stop-abandon "e1" 9 12 running inst state refl refl started

-- ===== src/Executor/Tests.antt =====
-- A job of two steps, run by collaborators that do nothing, and the theorems about it.
use nest_batch.Prelude.{
  ℕ, ◌<◌, String, ◌≡◌, ◌≢◌, refl, subst, false, Option, none, some, [], ◌∷◌, ok, some_inj, arith,
  filter, Has, here, there, ◌===◌, if◌then◌else◌, Bool-cases, inl, inr,
}
use nest_batch.Prelude.Text.{text}
use nest_batch.Prelude.Table.{get, set}
use nest_batch.Prelude.Effects.{pure}
use nest_batch.Errors.{message}
use nest_batch.Status.{JobStatus, StepStatus}
use nest_batch.Context.{end}
use nest_batch.Flow.{
  TransitionDefinition, evaluate, choose, transition_matches, matches_pattern, specificity,
  pattern_specificity, literal_score, max_specificity,
}
use nest_batch.Repository.{JobExecution}
use nest_batch.Executor.Definitions.{tasklet, Env, StepResult, JobDefinition, Services}
use nest_batch.Executor.Routing.{linear_next, next_index}
use nest_batch.Executor.Flow.{flow, execute}
use nest_batch.Executor.Frames.{Respectful}
use nest_batch.Executor.Rows.{Settled}
use nest_batch.Executor.Settled.{execute-Settled}
use nest_batch.Executor.Progress.{Descends, flow_terminates}

abbrev World : Type 0
World = Unit {0}

abbrev success : StepResult
success = record {
  status = StepStatus.completed;
  exit_code = text "COMPLETED";
  exit_message = message "";
  read_count = 0;
  write_count = 0;
  skip_count = 0;
  commit_count = none;
}

abbrev services : Services World
services = record {
  gen = λ _. "row";
  new_date = λ _. 5;
  on_event = λ _. pure tt;
  before_job = λ _. pure tt;
  after_job = λ _ _. pure tt;
  run_tasklet = λ _ _ _. pure success;
  run_chunk = λ _ _ _ _ _. pure success;
}

abbrev to_report : TransitionDefinition
to_report = record {
  from_step_id = "load";
  on_status = text "COMPLETED";
  to_step_id = some "report";
}

abbrev job : JobDefinition World
job = record {
  id = "import";
  steps = ("load", tasklet "load") ∷ ("report", tasklet "report") ∷ [];
  start_step_id = "load";
  transitions = to_report ∷ [];
  deciders = [];
  restartable = false;
  allow_duplicate_instances = false;
}

abbrev execution : JobExecution
execution = record {
  id = "e";
  job_instance_id = "i";
  status = JobStatus.starting;
  start_time = none;
  end_time = none;
  exit_code = text "";
  exit_message = message "";
  params = end;
}

abbrev env : Env World
env = record {
  repo = record {
    instances = [];
    instances_by_key = [];
    executions = ("e", execution) ∷ [];
    step_executions = [];
    contexts = [];
    next_id = 0;
  };
  world = tt;
}

calm : Respectful services execution job
calm = record {
  on_event = λ _. record { keeps = λ _. refl };
  before_job = record { keeps = λ _. refl };
  after_job = λ _. record { keeps = λ _. refl };
  run_tasklet = λ _ _ _. record { keeps = λ _. refl };
  run_chunk = λ _ _ _ _ _. record { keeps = λ _. refl };
  decide = λ d m context. elim m [ ];
}

execute-Settled_example :
    Settled execution
      (execute services execution job none 2 env).0
      (execute services execution job none 2 env).1
unfolding get
execute-Settled_example = execute-Settled execution services job none calm 2 env (execution, refl)

-- The run itself
executed :
    (row : JobExecution) × ((execute services execution job none 3 env).0 ≡ ok (some (some row)))
    × (row.status ≡ JobStatus.completed)
unfolding get execute set evaluate choose filter transition_matches matches_pattern specificity
    pattern_specificity literal_score max_specificity linear_next
executed = (_, refl, refl)

rank : String → ℕ
rank s = if "load" === s then 1 else (if "report" === s then 0 else 2)

along :
    (current next : String) (t : TransitionDefinition)
    → Has t job.transitions
    → t.from_step_id ≡ current
    → t.to_step_id ≡ some next
    → rank next < rank current
unfolding rank
along current next _ here q r =
    subst (λ c. rank next < rank c) q (subst (λ n. rank n < rank "load") (some_inj r) (omega arith))
along current next _ (there m) q r = elim m [ ]

in_order :
    (current next : String)
    → linear_next current ("load" ∷ "report" ∷ []) ≡ some next
    → rank next < rank current
unfolding rank linear_next next_index
in_order current next h = elim (Bool-cases ("load" === current)) [
  | inl at_load ↦
      let r : "report" ≡ next = ground (arith, h, at_load) in
      subst (λ n. rank n < rank current) r (rw at_load (omega arith))
  | inr not_load ↦ elim (Bool-cases ("report" === current)) [
    | inl at_report ↦
        let k : ◌≡◌ {A = Option String} none (some next) = ground (arith, h, not_load, at_report) in
        absurd cc
    | inr elsewhere ↦
        let r : "load" ≡ next = ground (arith, h, not_load, elsewhere) in
        subst (λ n. rank n < rank current) r (rw (not_load, elsewhere) (omega arith))
  ]
]

down : Descends job rank
down = record {
  along_transition = λ current next (t, m, q, r). along current next t m q r;
  in_order = in_order;
}

flow_terminates_example : (flow services execution job none 2 (some "load") env).0 ≢ ok none
unfolding rank
flow_terminates_example =
    flow_terminates services execution job none rank down 2 "load" env (omega arith)

-- ===== src/Builder/Tests.antt =====
-- A job put together by the builders, with a step that nothing leads to.
use nest_batch.Prelude.{◌≡◌, refl, none, some, List, [], ◌∷◌, ok, err, false, ◌>>=◌}
use nest_batch.Prelude.Text.{text}
use nest_batch.Prelude.Table.{get, set, has}
use nest_batch.Prelude.Sets.{member}
use nest_batch.Errors.{invalid_flow_graph, unreachable_step}
use nest_batch.Validator.{
  validate, require, is_empty, in_steps, check_steps, check_step, check_chunk, check_partitions,
  validate_transition, check_deciders, check_reached, collect_reachable, collect, pushed,
}
use nest_batch.Builder.{plain, Step, chunk_step, tasklet_step, Ref, builder_lambda, given}
use nest_batch.Builder.StepBuilder
use nest_batch.Builder.FlowBuilder
use nest_batch.Builder.JobBuilder.{JobBuilder, JobBuilderConfig, Call, create, calls, build}
use nest_batch.Builder.Compiler.{compile_from_builder_config}
use nest_batch.Builder.Fluent.Compiled.{GraphFault, compile-Fluent-GraphFault}

abbrev ref : Ref
ref = record {
  kind = builder_lambda;
  token = none;
  fn = some (given 1);
  class_token = none;
  method_name = none;
  factory = false;
}

abbrev a_chunk : StepBuilder.Call
a_chunk = StepBuilder.Call.chunk "load" 10 (
    some (record {
      reader = ref;
      processor = none;
      writer = ref;
      skip_policy = none;
      retry_policy = none;
    }))

abbrev fluent : List (Call (Unit {0}))
fluent =
    Call.add_step_with (a_chunk ∷ [])
    ∷ Call.add_step_with (StepBuilder.Call.tasklet "report" ref ∷ [])
    ∷ []

abbrev load : Step
load = chunk_step (record {
  step = record {
    id = "load";
    chunk_size = 10;
    skip_policy = none;
    retry_policy = none;
    partitions = none;
  };
  reader = ref;
  processor = none;
  writer = ref;
  listeners = [];
})

abbrev report : Step
report = tasklet_step (record { id = "report"; task = ref; listeners = [] })

abbrev built : JobBuilder (Unit {0})
built = record {
  id = "import";
  restartable = false;
  allow_duplicate_instances = false;
  steps = ("load", load) ∷ ("report", report) ∷ [];
  step_order = "load" ∷ "report" ∷ [];
  transitions = [];
  deciders = [];
  listeners = [];
  current_transition = none;
}

abbrev config : JobBuilderConfig (Unit {0})
config = record {
  id = "import";
  restartable = false;
  allow_duplicate_instances = false;
  steps = load ∷ report ∷ [];
  start_step_id = "load";
  transitions = [];
  deciders = [];
  listeners = [];
}

made : calls fluent (create "import") ≡ ok built
unfolding calls StepBuilder.new create set
made = refl

configured : build built ≡ ok config
unfolding build get
configured = refl

refused : compile_from_builder_config config ≡ err (invalid_flow_graph unreachable_step)
unfolding compile_from_builder_config validate require is_empty set in_steps has check_steps
    check_step check_chunk check_partitions plain validate_transition check_deciders check_reached
    member collect_reachable collect pushed
refused = refl

compile-Fluent-GraphFault_example : GraphFault (invalid_flow_graph unreachable_step)
compile-Fluent-GraphFault_example =
    compile-Fluent-GraphFault "import" fluent built config (invalid_flow_graph unreachable_step)
      (tt, (tt, tt)) made configured refused

-- A status that is set before a second `from` is kept by one builder and lost by the other.
abbrev kept : List FlowBuilder.Call
kept =
    FlowBuilder.Call.from "a"
    ∷ FlowBuilder.Call.on (text "X")
    ∷ FlowBuilder.Call.from "b"
    ∷ FlowBuilder.Call.to "c"
    ∷ []

flow_keeps :
    (FlowBuilder.calls kept FlowBuilder.new >>= FlowBuilder.build)
    ≡ ok (record { from_step_id = "b"; on_status = text "X"; to_step_id = some "c" })
unfolding FlowBuilder.calls FlowBuilder.new FlowBuilder.build
flow_keeps = refl

abbrev lost : List (Call (Unit {0}))
lost = Call.from "a" ∷ Call.on (text "X") ∷ Call.from "b" ∷ Call.to "c" ∷ []

job_loses : calls lost (create "import") ≡ ok (create "import")
unfolding calls create
job_loses = refl

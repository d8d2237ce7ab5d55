-- ===== src/Explorer/Discovered.antt =====
-- packages/core/src/compiler/definition-compiler.ts: `compileFromDiscovered`.
use nest_batch.Prelude.{
  ℕ, String, Bool, true, false, Option, none, some, List, [], ◌∷◌, ok, err, ◌===◌, find?, map,
  if◌then◌else◌, ◌>>=◌, ◌>>◌,
}
use nest_batch.Prelude.Table.{Table, set}
use nest_batch.Prelude.Sets.{member}
use nest_batch.Errors.{invalid_flow_graph, invalid_partitions, provider_not_found, Throws}
use nest_batch.Status.{FlowExecutionStatus, flow_text}
use nest_batch.Flow.{TransitionDefinition}
use nest_batch.Partitions.{ChunkPartitionConfig, validate_partitions}
use nest_batch.Executor.Definitions.{JobDefinition}
use nest_batch.Validator.{validate}
use nest_batch.Builder.{
  builder_lambda, method, Callable, bound, returns_bound, Ref, ListenerDefinition, Step, chunk_step,
  tasklet_step, plain_steps,
}
use nest_batch.Builder.Compiler.{Compiled}
use nest_batch.Explorer.{
  DiscoveredStep, DiscoveredItemKind, reader, processor, writer, DiscoveredItemMethod,
  DiscoveredListener, DiscoveredTransition, DiscoveredJob,
}

-- `instance?.[methodName]`
unfoldable pub has_method : Option (List String) → String → Bool
has_method none name = false
has_method (some methods) name = member name methods

-- The reference to a method: bound if the instance has it, else by its name.
unfoldable pub method_ref : (String → Callable) → DiscoveredJob → String → Ref
unfolding has_method
method_ref callable discovered name =
    if has_method discovered.instance name
    then record {
      kind = builder_lambda;
      token = none;
      fn = some (callable name);
      class_token = none;
      method_name = none;
      factory = false;
    }
    else record {
      kind = method;
      token = none;
      fn = none;
      class_token = some discovered.class_name;
      method_name = some name;
      factory = false;
    }

unfoldable pub build_listener_ref : DiscoveredJob → String → Ref
unfolding method_ref
build_listener_ref discovered name = method_ref bound discovered name

-- `buildItemMethodRef`, and the reference of `buildTaskletStep`
unfoldable pub build_item_method_ref : DiscoveredJob → String → Ref
unfolding method_ref
build_item_method_ref discovered name = method_ref returns_bound discovered name

unfoldable pub build_tasklet_step : DiscoveredJob → DiscoveredStep → Step
unfolding build_item_method_ref
build_tasklet_step discovered step = tasklet_step (record {
  id = step.options.id;
  task = build_item_method_ref discovered step.method_name;
  listeners = [];
})

unfoldable pub is_kind : DiscoveredItemKind → DiscoveredItemKind → Bool
is_kind reader reader = true
is_kind processor processor = true
is_kind writer writer = true
is_kind _ _ = false

unfoldable pub find_item_method : DiscoveredJob → DiscoveredItemKind → Option DiscoveredItemMethod
unfolding is_kind
find_item_method discovered kind = find? (λ m. is_kind m.kind kind) discovered.item_methods

unfoldable pub required :
    (what : String) → Option DiscoveredItemMethod → Throws DiscoveredItemMethod
required what none = err (provider_not_found what)
required what (some m) = ok m

unfoldable pub build_reader_method_ref : DiscoveredJob → DiscoveredItemMethod → Ref
unfolding build_item_method_ref
build_reader_method_ref discovered m = record (build_item_method_ref discovered m.method_name) {
  factory = m.factory;
}

unfoldable pub processor_ref : DiscoveredJob → Option DiscoveredItemMethod → Option Ref
unfolding build_item_method_ref
processor_ref discovered none = none
processor_ref discovered (some m) = some (build_item_method_ref discovered m.method_name)

-- `validatePartitions` throws `InvalidPartitionsError` alone.
unfoldable pub check_partitions : Option ChunkPartitionConfig → Throws (Unit {0})
unfolding validate_partitions
check_partitions partitions = elim (validate_partitions partitions) [
  | ok _ ↦ ok tt
  | err _ ↦ err (invalid_flow_graph invalid_partitions)
]

unfoldable pub or_hundred : Option ℕ → ℕ
or_hundred none = 100
or_hundred (some n) = n

unfoldable pub build_chunk_step : DiscoveredJob → DiscoveredStep → Throws Step
unfolding find_item_method required build_reader_method_ref build_item_method_ref processor_ref
    check_partitions or_hundred
build_chunk_step discovered step = do
  r ← required "@ItemReader" (find_item_method discovered reader)
  w ← required "@ItemWriter" (find_item_method discovered writer)
  check_partitions step.options.partitions
  ok (
      chunk_step (record {
        step = record {
          id = step.options.id;
          chunk_size = or_hundred step.options.chunk_size;
          skip_policy = step.options.skip_policy;
          retry_policy = step.options.retry_policy;
          partitions = step.options.partitions;
        };
        reader = build_reader_method_ref discovered r;
        processor = processor_ref discovered (find_item_method discovered processor);
        writer = build_item_method_ref discovered w.method_name;
        listeners = [];
      }))

unfoldable pub build_step : DiscoveredJob → DiscoveredStep → Throws Step
unfolding build_tasklet_step build_chunk_step
build_step discovered step =
    if step.is_tasklet
    then ok (build_tasklet_step discovered step)
    else build_chunk_step discovered step

-- `for (const step of discovered.stepMethods)`
unfoldable pub build_steps :
    DiscoveredJob → List DiscoveredStep → (steps : Table Step) → Throws (Table Step)
unfolding build_step
build_steps discovered [] steps = ok steps
build_steps discovered (step ∷ step_methods) steps = build_step discovered step >>= λ built.
    build_steps discovered step_methods (set step.options.id built steps)

unfoldable pub start_of : List DiscoveredStep → String
start_of [] = ""
start_of (step ∷ step_methods) = step.options.id

unfoldable pub listener_def : DiscoveredJob → DiscoveredListener → ListenerDefinition
unfolding build_listener_ref
listener_def discovered l = record {
  kind = l.metadata.kind;
  ref = build_listener_ref discovered l.method_name;
  phase = l.metadata.phase;
  skip_kind = l.metadata.skip_kind;
  non_critical = l.metadata.non_critical;
}

-- The enum, read by a name of it or by anything else
unfoldable pub status_named : String → FlowExecutionStatus
status_named name =
    if name === "COMPLETED"
    then FlowExecutionStatus.completed
    else if name === "FAILED"
    then FlowExecutionStatus.failed
    else if name === "STOPPED"
    then FlowExecutionStatus.stopped
    else FlowExecutionStatus.unknown

unfoldable pub transition_def : DiscoveredTransition → TransitionDefinition
unfolding status_named
transition_def t = record {
  from_step_id = t.options.from_step;
  on_status = flow_text (status_named t.options.on_status);
  to_step_id = t.options.to_step;
}

unfoldable pub or_no : Option Bool → Bool
or_no none = false
or_no (some b) = b

module _ {W : Type 0} where
  unfoldable pub definition_from : DiscoveredJob → Table Step → JobDefinition W
  unfolding plain_steps start_of transition_def or_no
  definition_from discovered steps = record {
    id = discovered.job_options.id;
    steps = plain_steps steps;
    start_step_id = start_of discovered.step_methods;
    transitions = map transition_def discovered.transition_methods;
    deciders = [];
    restartable = or_no discovered.job_options.restartable;
    allow_duplicate_instances = or_no discovered.job_options.allow_duplicate_instances;
  }

  unfoldable pub compile_from_discovered : DiscoveredJob → Throws (Compiled W)
  unfolding build_steps definition_from listener_def validate
  compile_from_discovered discovered = do
    steps ← build_steps discovered discovered.step_methods []
    validate (definition_from discovered steps)
    ok (record {
      definition = definition_from discovered steps;
      steps = steps;
      listeners = map (listener_def discovered) discovered.listener_methods;
    })

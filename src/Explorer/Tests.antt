-- ===== src/Explorer/Tests.antt =====
-- A decorated class with a parent, discovered and compiled.
use nest_batch.Prelude.{ℕ, String, true, false, none, some, [], ◌∷◌, err, ◌≡◌, refl, All, find?}
use nest_batch.Prelude.Sets.{member, delete}
use nest_batch.Prelude.Table.{get, set, has}
use nest_batch.Validator.Checks.{Violation}
use nest_batch.Errors.{FlowCode, provider_not_found}
use nest_batch.Validator
use nest_batch.Validator.{
  validate, require, is_empty, in_steps, check_steps, check_step, check_chunk, validate_transition,
  check_deciders, check_reached, collect_reachable, collect, pushed, assert_acyclic, detect_cycle,
  each_successor, enter, leave,
}
use nest_batch.Builder.Compiler.{Compiled}
use nest_batch.Explorer.{
  StepableOptions, Metadata, a_function, another_value, Chain, DiscoveredStep, DiscoveredJob,
  Metatype, reader, writer, all_method_names, discover_from_providers,
}
use nest_batch.Explorer.Discovered.{
  compile_from_discovered, definition_from, build_reader_method_ref, build_item_method_ref,
}
use nest_batch.Builder.{Step, chunk_step, plain}
use nest_batch.Explorer.Handlers.{IsRow, compile_from_discovered-Built}

abbrev undecorated : Metadata
undecorated = record {
  step = none;
  is_tasklet = false;
  reader = none;
  is_processor = false;
  is_writer = false;
  listener = none;
  transition = none;
}

abbrev options : String → StepableOptions
options id = record {
  id = id;
  chunk_size = some 10;
  skip_policy = none;
  retry_policy = none;
  partitions = none;
}

abbrev prototype : Chain
prototype =
    (("constructor", a_function undecorated)
      ∷ ("load", a_function (record undecorated { step = some (options "load") }))
      ∷ ("size", another_value)
      ∷ [])
    ∷ (("read", a_function (record undecorated { reader = some true }))
        ∷ ("write", a_function (record undecorated { is_writer = true }))
        ∷ ("load", a_function undecorated)
        ∷ [])
    ∷ []

names : all_method_names prototype ≡ "load" ∷ "size" ∷ "read" ∷ "write" ∷ []
unfolding all_method_names member
names = refl

abbrev load_job : Metatype
load_job = record {
  name = "LoadJob";
  job_options =
      some (record { id = "load-job"; restartable = some true; allow_duplicate_instances = none });
  prototype = prototype;
}

abbrev discovered : DiscoveredJob
discovered = record {
  class_name = "LoadJob";
  instance = some ("read" ∷ "write" ∷ []);
  job_options = record {
    id = "load-job";
    restartable = some true;
    allow_duplicate_instances = none;
  };
  step_methods = record { method_name = "load"; options = options "load"; is_tasklet = false } ∷ [];
  item_methods =
      record { method_name = "read"; kind = reader; factory = true }
      ∷ record { method_name = "write"; kind = writer; factory = false }
      ∷ [];
  listener_methods = [];
  transition_methods = [];
}

discovers :
    discover_from_providers (
      record { metatype = none; instance = none }
      ∷ record { metatype = some load_job; instance = some ("read" ∷ "write" ∷ []) }
      ∷ [])
    ≡ discovered ∷ []
unfolding discover_from_providers member get
discovers = refl

no_writer :
    compile_from_discovered {W = ℕ} (record discovered {
      item_methods = record { method_name = "read"; kind = reader; factory = true } ∷ [];
    })
    ≡ err (provider_not_found "@ItemWriter")
unfolding compile_from_discovered find?
no_writer = refl

abbrev built : Step
built = chunk_step (record {
  step = record {
    id = "load";
    chunk_size = 10;
    skip_policy = none;
    retry_policy = none;
    partitions = none;
  };
  reader =
      build_reader_method_ref discovered
        (record { method_name = "read"; kind = reader; factory = true });
  processor = none;
  writer = build_item_method_ref discovered "write";
  listeners = [];
})

abbrev compiled : Compiled ℕ
compiled = record {
  definition = definition_from discovered (("load", built) ∷ []);
  steps = ("load", built) ∷ [];
  listeners = [];
}

compile_from_discovered-Built_example :
    ((code : FlowCode) → Violation compiled.definition code → ⊥)
    × All (IsRow discovered discovered.step_methods) compiled.steps
    × All
        (λ (step : DiscoveredStep). has step.options.id compiled.steps ≡ true)
        discovered.step_methods
unfolding compile_from_discovered find? definition_from build_reader_method_ref
    build_item_method_ref require is_empty set in_steps has check_steps check_step check_chunk
    Validator.check_partitions validate_transition check_deciders check_reached member
    collect_reachable collect pushed validate assert_acyclic detect_cycle each_successor enter leave
    delete plain
compile_from_discovered-Built_example = compile_from_discovered-Built discovered compiled refl

-- ===== src/Builder.antt =====
-- packages/core/src/builder and packages/core/src/compiler: the types of core/ir that the builders
-- and the compiler fill in, beside those that the job executor reads.
pub mod StepBuilder
pub mod FlowBuilder
pub mod JobBuilder
pub mod Compiler
pub mod Fluent
mod Tests
use nest_batch.Prelude.{ℕ, String, Bool, Option, List, [], ◌∷◌}
use nest_batch.Prelude.Table.{Table}
use nest_batch.Flow.{TransitionDefinition}
use nest_batch.Executor.Definitions.{ChunkStep, StepDefinition, chunk, tasklet, DeciderDefinition}

pub data RefKind : Type 0 where
  provider_token builder_lambda method : RefKind

-- A function that a reference carries: one that the caller gave, a method bound to its instance,
-- or a function that returns such a method.
pub data Callable : Type 0 where
  given : ℕ → Callable
  bound returns_bound : (method_name : String) → Callable

-- `ReaderRef` and the other interfaces of references, which differ in `factory` alone.
pub record Ref : Type 0 where
  pub kind : RefKind
  pub token : Option String
  pub fn : Option Callable
  pub class_token : Option String
  pub method_name : Option String
  pub factory : Bool

pub data ListenerKind : Type 0 where
  job_kind step_kind chunk_kind item_read_kind item_process_kind item_write_kind skip_kind
        transition_kind :
      ListenerKind

pub data ListenerPhase : Type 0 where
  before after on_error : ListenerPhase

pub data SkipSubKind : Type 0 where
  read_skip process_skip write_skip : SkipSubKind

pub record ListenerDefinition : Type 0 where
  pub kind : ListenerKind
  pub ref : Ref
  pub phase : ListenerPhase
  pub skip_kind : Option SkipSubKind
  pub non_critical : Option Bool

-- `ChunkStepDefinition` and `TaskletStepDefinition`, with what the executor of the job does not read.
pub record ChunkDefinition : Type 0 where
  pub step : ChunkStep
  pub reader : Ref
  pub processor : Option Ref
  pub writer : Ref
  pub listeners : List Ref

pub record TaskletDefinition : Type 0 where
  pub id : String
  pub task : Ref
  pub listeners : List Ref

pub data Step : Type 0 where
  chunk_step : ChunkDefinition → Step
  tasklet_step : TaskletDefinition → Step

unfoldable pub id_of : Step → String
id_of (chunk_step c) = c.step.id
id_of (tasklet_step t) = t.id

-- What the executor of the job reads of a step
unfoldable pub plain : Step → StepDefinition
plain (chunk_step c) = chunk c.step
plain (tasklet_step t) = tasklet t.id

unfoldable pub plain_steps : Table Step → Table StepDefinition
plain_steps [] = []
plain_steps ((step_id, s) ∷ steps) = (step_id, plain s) ∷ plain_steps steps

-- `ReusableFlowDefinition`; absent deciders are an empty list.
pub record ReusableFlow (W : Type 0) : Type 0 where
  pub transitions : List TransitionDefinition
  pub deciders : List (DeciderDefinition W)

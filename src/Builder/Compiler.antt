-- ===== src/Builder/Compiler.antt =====
-- packages/core/src/compiler/definition-compiler.ts: `compileFromBuilderConfig`.
use nest_batch.Prelude.{List, [], ◌∷◌, ok, ◌>>◌}
use nest_batch.Prelude.Table.{Table, set}
use nest_batch.Errors.{Throws}
use nest_batch.Executor.Definitions.{JobDefinition}
use nest_batch.Validator.{validate}
use nest_batch.Builder.{Step, id_of, plain_steps, ListenerDefinition}
use nest_batch.Builder.JobBuilder.{JobBuilderConfig}

-- A job definition, with the parts of it that the executor of the job does not read.
pub record Compiled (W : Type 0) : Type 0 where
  pub definition : JobDefinition W
  pub steps : Table Step
  pub listeners : List ListenerDefinition

-- `for (const s of config.steps) steps[s.id] = s`
unfoldable pub step_table : List Step → Table Step → Table Step
unfolding id_of
step_table [] steps = steps
step_table (s ∷ rest) steps = step_table rest (set (id_of s) s steps)

module _ {W : Type 0} where
  unfoldable pub definition_of : JobBuilderConfig W → JobDefinition W
  unfolding step_table plain_steps
  definition_of config = record {
    id = config.id;
    steps = plain_steps (step_table config.steps []);
    start_step_id = config.start_step_id;
    transitions = config.transitions;
    deciders = config.deciders;
    restartable = config.restartable;
    allow_duplicate_instances = config.allow_duplicate_instances;
  }

  unfoldable pub compile_from_builder_config : JobBuilderConfig W → Throws (Compiled W)
  unfolding definition_of step_table
  compile_from_builder_config config = do
    validate (definition_of config)
    ok (record {
      definition = definition_of config;
      steps = step_table config.steps [];
      listeners = config.listeners;
    })

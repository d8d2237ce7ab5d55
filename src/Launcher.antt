-- ===== src/Launcher.antt =====
-- packages/core/src/execution/job-launcher.ts: a launch, from the registry to the executor or the
-- strategy.
pub mod Key
pub mod Registry
pub mod Again
pub mod Worker
mod Tests
use Prim.Native.String.{◌++◌ as ◌<>◌}
use nest_batch.Prelude.{ℕ, String, Option, none, some, Result, ok, err, if◌then◌else◌}
use nest_batch.Prelude.Effects.{pure, lift, ◌>>=◌, ◌>>◌}
use nest_batch.Context.{string, set_field}
use nest_batch.Repository.{JobParameters, JobExecution}
use nest_batch.Repository.Store.{create_execution_atomic, get_job_execution}
use nest_batch.Executor.Definitions.{Job, JobDefinition, Services, in_repo}
use nest_batch.Executor.Flow.{date, execute}
use nest_batch.Launcher.Key.{Value, of_fields, canonical_job_key}
use nest_batch.Launcher.Registry.{Definitions, get_definition}

-- `a ?? b`
unfoldable pub or_else {ℓ} : {A : Type ℓ} → Option A → A → A
or_else none b = b
or_else (some a) b = a

-- The collaborators of the launcher. `strategy.launch` gets the execution's id.
pub record Collaborators (W : Type 0) : Type 0 where
  pub services : Services W
  pub registry : Definitions W
  pub digest : Value → String
  pub random_uuid : Job W String
  pub strategy : Option (JobDefinition W → JobParameters → String → Job W (Unit {0}))

module _ {W : Type 0} (launcher : Collaborators W) where
  -- `run`
  unfoldable pub run : ℕ → JobExecution → JobDefinition W → Job W (Option (Option JobExecution))
  unfolding execute
  run fuel execution job = execute launcher.services execution job none fuel

  unfoldable pub job_key_of : JobDefinition W → String → Job W String
  job_key_of job canonical =
      if job.allow_duplicate_instances
      then (do uuid ← launcher.random_uuid; pure (canonical <> ("::" <> uuid)))
      else pure canonical

  -- What follows the creation of the execution
  unfoldable pub dispatch :
      ℕ
      → JobExecution
      → JobDefinition W
      → JobParameters
      → Option (JobDefinition W → JobParameters → String → Job W (Unit {0}))
      → Job W (Option (Option JobExecution))
  unfolding run in_repo get_job_execution or_else
  dispatch fuel execution job params none = run fuel execution job
  dispatch fuel execution job params (some launch) = do
    launch job params execution.id
    latest ← in_repo (get_job_execution execution.id)
    pure (some (some (or_else latest execution)))

  unfoldable pub create : JobDefinition W → String → JobParameters → String → Job W JobExecution
  unfolding job_key_of in_repo create_execution_atomic date
  create job job_id params canonical = do
    job_key ← job_key_of job canonical
    now ← date launcher.services
    in_repo (create_execution_atomic launcher.services.gen job_id job_key params now)

  unfoldable pub launch :
      ℕ
      → String
      → JobParameters
      → (identifying_params : Option JobParameters) → Job W (Option (Option JobExecution))
  unfolding get_definition canonical_job_key or_else create dispatch
  launch fuel job_id params identifying_params = do
    job ← lift (get_definition job_id launcher.registry)
    canonical ←
        lift (canonical_job_key launcher.digest (of_fields (or_else identifying_params params)))
    execution ← create job job_id params canonical
    dispatch fuel execution job params launcher.strategy

  -- `startNextInstance` of job-operator.ts
  unfoldable pub start_next_instance :
      ℕ → String → JobParameters → Job W (Option (Option JobExecution))
  unfolding launch set_field
  start_next_instance fuel job_id params = do
    uuid ← launcher.random_uuid
    launch fuel job_id (set_field "_nestBatchRunId" (string uuid) params) none

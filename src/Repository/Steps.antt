-- ===== src/Repository/Steps.antt =====
-- The step executions of packages/core/src/repository/in-memory/in-memory-job-repository.ts.
use nest_batch.Prelude.{
  ℕ, String, ◌&&◌, Option, none, some, List, [], ◌∷◌, ◌===◌, filter, if◌then◌else◌,
}
use nest_batch.Prelude.Text.{text}
use nest_batch.Prelude.Table.{get, set, values}
use nest_batch.Prelude.Effects.{pure, throw, gets, modify, ◌>>=◌, ◌>>◌}
use nest_batch.Errors.{plain_error, message}
use nest_batch.Status.{StepStatus}
use nest_batch.Repository.{StepExecution, StepExecutionPatch}
use nest_batch.Repository.State.{Repo, patched, take_id}

unfoldable pub patch_step : StepExecutionPatch → StepExecution → StepExecution
unfolding patched
patch_step patch cur = record cur {
  status = patched patch.status cur.status;
  read_count = patched patch.read_count cur.read_count;
  write_count = patched patch.write_count cur.write_count;
  skip_count = patched patch.skip_count cur.skip_count;
  rollback_count = patched patch.rollback_count cur.rollback_count;
  commit_count = patched patch.commit_count cur.commit_count;
  start_time = patched patch.start_time cur.start_time;
  end_time = patched patch.end_time cur.end_time;
  exit_code = patched patch.exit_code cur.exit_code;
  exit_message = patched patch.exit_message cur.exit_message;
}

unfoldable pub write_step_patch :
    String → StepExecutionPatch → Option StepExecution → Repo (Unit {0})
unfolding patch_step
write_step_patch id patch none = throw (plain_error "StepExecution not found")
write_step_patch id patch (some cur) =
    modify (λ s. record s { step_executions = set id (patch_step patch cur) s.step_executions })

unfoldable pub update_step_execution : String → StepExecutionPatch → Repo (Unit {0})
unfolding write_step_patch
update_step_execution id patch = do
  cur ← gets (λ s. get id s.step_executions)
  write_step_patch id patch cur

unfoldable pub get_step_execution : String → Repo (Option StepExecution)
get_step_execution id = gets (λ s. get id s.step_executions)

unfoldable pub find_step_executions : String → Repo (List StepExecution)
find_step_executions job_execution_id =
    gets (λ s. filter (λ x. x.job_execution_id === job_execution_id) (values s.step_executions))

-- The loop of `findLatestStepExecution`: a later match takes the place of an earlier one.
unfoldable pub latest_of :
    String → String → Option StepExecution → List StepExecution → Option StepExecution
latest_of job_execution_id step_name latest [] = latest
latest_of job_execution_id step_name latest (x ∷ xs) =
    latest_of job_execution_id step_name
      (if x.job_execution_id === job_execution_id && x.step_name === step_name
        then some x
        else latest)
      xs

unfoldable pub find_latest_step_execution : String → String → Repo (Option StepExecution)
unfolding latest_of
find_latest_step_execution job_execution_id step_name =
    gets (λ s. latest_of job_execution_id step_name none (values s.step_executions))

module _ (gen : ℕ → String) where
  unfoldable pub create_step_execution : String → String → Repo StepExecution
  unfolding take_id
  create_step_execution job_execution_id step_name = do
    id ← take_id gen
    let x : StepExecution = record {
      id = id;
      job_execution_id = job_execution_id;
      step_name = step_name;
      status = StepStatus.starting;
      read_count = 0;
      write_count = 0;
      skip_count = 0;
      rollback_count = 0;
      commit_count = 0;
      start_time = none;
      end_time = none;
      exit_code = text "";
      exit_message = message "";
    }
    modify (λ s. record s { step_executions = set id x s.step_executions })
    pure x

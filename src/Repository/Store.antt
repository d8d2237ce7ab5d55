-- ===== src/Repository/Store.antt =====
-- The job instances and job executions of
-- packages/core/src/repository/in-memory/in-memory-job-repository.ts; `now` is the date at the call.
use nest_batch.Prelude.{
  ℕ, String, Bool, true, false, not, ◌&&◌, ◌||◌, Option, none, some, List, [], ◌∷◌, ltb, ◌===◌,
  filter, any, if◌then◌else◌,
}
use nest_batch.Prelude.Text.{text}
use nest_batch.Prelude.Table.{get, set, values}
use nest_batch.Prelude.Effects.{pure, throw, gets, modify, ◌>>=◌, ◌>>◌}
use nest_batch.Errors.{plain_error, job_execution_already_running, message}
use nest_batch.Status.{JobStatus, job_status_eq}
use nest_batch.Repository.{
  JobParameters, JobInstance, JobExecution, JobExecutionPatch, JobInstanceFilter,
  JobExecutionFilter,
}
use nest_batch.Repository.State.{Repo, instance_key, patched, take_id}

-- `exec.status === STARTING || exec.status === STARTED`
unfoldable pub is_running : JobExecution → Bool
is_running e = job_status_eq e.status JobStatus.starting || job_status_eq e.status JobStatus.started

unfoldable pub runs_for : String → JobExecution → Bool
unfolding is_running
runs_for instance_id e = e.job_instance_id === instance_id && is_running e

-- The loop over the executions: the first one that runs.
unfoldable pub find_running : String → List JobExecution → Option JobExecution
find_running instance_id [] = none
find_running instance_id (e ∷ es) =
    let rest = find_running instance_id es in if runs_for instance_id e then some e else rest

unfoldable pub get_running_job_execution : String → Repo (Option JobExecution)
get_running_job_execution instance_id = gets (λ s. find_running instance_id (values s.executions))

unfoldable pub patch_execution : JobExecutionPatch → JobExecution → JobExecution
unfolding patched
patch_execution patch cur = record cur {
  status = patched patch.status cur.status;
  start_time = patched patch.start_time cur.start_time;
  end_time = patched patch.end_time cur.end_time;
  exit_code = patched patch.exit_code cur.exit_code;
  exit_message = patched patch.exit_message cur.exit_message;
}

unfoldable pub write_job_patch : String → JobExecutionPatch → Option JobExecution → Repo (Unit {0})
unfolding patch_execution
write_job_patch id patch none = throw (plain_error "JobExecution not found")
write_job_patch id patch (some cur) =
    modify (λ s. record s { executions = set id (patch_execution patch cur) s.executions })

unfoldable pub update_job_execution : String → JobExecutionPatch → Repo (Unit {0})
unfolding write_job_patch
update_job_execution id patch = do
  cur ← gets (λ s. get id s.executions)
  write_job_patch id patch cur

unfoldable pub get_job_execution : String → Repo (Option JobExecution)
get_job_execution id = gets (λ s. get id s.executions)

unfoldable pub get_job_instance : String → Repo (Option JobInstance)
get_job_instance id = gets (λ s. get id s.instances)

-- `wanted !== undefined && value !== wanted` is no reason to pass over the row.
unfoldable pub admits : Option String → String → Bool
admits none value = true
admits (some wanted) value = value === wanted

unfoldable pub find_job_instances : JobInstanceFilter → Repo (List JobInstance)
unfolding admits
find_job_instances wanted = gets (λ s.
    filter (λ i. admits wanted.job_name i.job_name && admits wanted.job_key i.job_key)
      (values s.instances))

unfoldable pub admits_status : Option (List JobStatus) → JobStatus → Bool
admits_status none status = true
admits_status (some statuses) status = any (job_status_eq status) statuses

unfoldable pub started_since : Option ℕ → Option ℕ → Bool
started_since none start_time = true
started_since (some t) none = false
started_since (some t) (some start_time) = not (ltb start_time t)

unfoldable pub started_until : Option ℕ → Option ℕ → Bool
started_until none start_time = true
started_until (some t) none = false
started_until (some t) (some start_time) = not (ltb t start_time)

unfoldable pub selects : JobExecutionFilter → JobExecution → Bool
unfolding admits admits_status started_since started_until
selects wanted e =
    admits wanted.job_instance_id e.job_instance_id
    && (admits_status wanted.status e.status
        && (started_since wanted.started_after e.start_time
            && started_until wanted.started_before e.start_time))

unfoldable pub find_job_executions : JobExecutionFilter → Repo (List JobExecution)
unfolding selects
find_job_executions wanted = gets (λ s. filter (selects wanted) (values s.executions))

module _ (gen : ℕ → String) where
  unfoldable pub add_instance : String → String → ℕ → Repo JobInstance
  unfolding take_id instance_key
  add_instance name job_key now = do
    id ← take_id gen
    let inst : JobInstance = record {
      id = id;
      job_name = name;
      job_key = job_key;
      created_at = now;
    }
    modify (λ s. record s {
      instances = set id inst s.instances;
      instances_by_key = set (instance_key name job_key) inst s.instances_by_key;
    })
    pure inst

  unfoldable pub instance_or_new : String → String → ℕ → Option JobInstance → Repo JobInstance
  unfolding add_instance
  instance_or_new name job_key now (some existing) = pure existing
  instance_or_new name job_key now none = add_instance name job_key now

  unfoldable pub get_or_create_job_instance : String → String → ℕ → Repo JobInstance
  unfolding instance_or_new instance_key
  get_or_create_job_instance name job_key now = do
    existing ← gets (λ s. get (instance_key name job_key) s.instances_by_key)
    instance_or_new name job_key now existing

  abbrev pub fresh_execution : String → String → JobParameters → JobExecution
  fresh_execution id instance_id params = record {
    id = id;
    job_instance_id = instance_id;
    status = JobStatus.starting;
    start_time = none;
    end_time = none;
    exit_code = text "";
    exit_message = message "";
    params = params;
  }

  unfoldable pub create_job_execution : String → JobParameters → Repo JobExecution
  unfolding take_id
  create_job_execution instance_id params = do
    id ← take_id gen
    let e = fresh_execution id instance_id params
    modify (λ s. record s { executions = set id e s.executions })
    pure e

  -- The check for a running execution, and what follows it.
  unfoldable pub launch_on : JobParameters → JobInstance → Option JobExecution → Repo JobExecution
  unfolding create_job_execution
  launch_on params inst none = create_job_execution inst.id params
  launch_on params inst (some e) = throw (job_execution_already_running e.id)

  unfoldable pub create_execution_atomic : String → String → JobParameters → ℕ → Repo JobExecution
  unfolding get_or_create_job_instance launch_on get_running_job_execution
  create_execution_atomic name job_key params now = do
    inst ← get_or_create_job_instance name job_key now
    running ← get_running_job_execution inst.id
    launch_on params inst running

-- ===== src/Executor/Frames.antt =====
-- Which calls of packages/core/src/execution/job-executor.ts leave the rows of the job executions.
use nest_batch.Prelude.{
  ℕ, String, ◌≡◌, refl, ◌∙◌, Option, none, some, Result, ok, err, find?-Has, Has, Bool-cases, inl,
  inr, ◌===◌,
}
use nest_batch.Prelude.Effects.{pure, throw, lift, continue, attempt, ◌>>=◌, ◌>>◌}
use nest_batch.Prelude.Text.{Text}
use nest_batch.Errors.{BatchError}
use nest_batch.Status.{JobStatus, StepStatus, step_status_eq}
use nest_batch.Context.{ExecutionContext, assert_json_serializable}
use nest_batch.Repository.{
  JobParameters, JobExecution, StepExecution, StepExecutionPatch, step_scope,
}
use nest_batch.Repository.Contexts.{put_context, save_execution_context, get_execution_context}
use nest_batch.Repository.State.{take_id}
use nest_batch.Repository.Steps.{
  write_step_patch, update_step_execution, create_step_execution, find_latest_step_execution,
}
use nest_batch.Prelude.Table.{get, keys}
use nest_batch.Executor.Definitions.{
  ChunkStep, StepDefinition, chunk, tasklet, Env, Job, StepResult, DeciderContext,
  DeciderDefinition, JobDefinition, Event, Services, in_repo, step_id, step_started,
}
use nest_batch.Executor.Routing.{trim, non_empty, exit_status, flow_status_of, route}
use nest_batch.Executor.Patches.{is_restart, result_patch, failure_patch, end_event, next_step}
use nest_batch.Executor.Flow.{
  date, emit, routed, decider_context, ask_decider, decider_exit_status, failed_context,
  restart_context, copy_context, run_step, settle_step, perform, pick_next,
}

-- The call leaves the table of job executions.
pub record Frame {W A : Type 0} (m : Job W A) : Type 0 where
  pub keeps : (env : Env W) → (m env).1.repo.executions ≡ env.repo.executions

module _ {W A B : Type 0} where
  Frame-bind : (m : Job W A) (f : A → Job W B) → Frame m → ((a : A) → Frame (f a)) → Frame (m >>= f)
  Frame-bind m f h k = record { keeps = λ env. by_outcome env (m env).0 }
    where
      by_outcome :
          (env : Env W) (r : Result BatchError A)
          → (continue r f (m env).1).1.repo.executions ≡ env.repo.executions
      by_outcome env (ok a) = (k a).keeps (m env).1 ∙ h.keeps env
      by_outcome env (err x) = h.keeps env

update_step-Frame :
    {W : Type 0} (id : String) (patch : StepExecutionPatch)
    → Frame (in_repo {W = W} (update_step_execution id patch))
unfolding in_repo update_step_execution write_step_patch
update_step-Frame {W = W} id patch = record {
  keeps = λ env. by_row env (get id env.repo.step_executions);
}
  where
    by_row :
        (env : Env W) (o : Option StepExecution)
        → (write_step_patch id patch o env.repo).1.executions ≡ env.repo.executions
    by_row env none = refl
    by_row env (some row) = refl

save_context-Frame :
    {W : Type 0} (id : String) (ctx : ExecutionContext)
    → Frame (in_repo {W = W} (save_execution_context (step_scope id) ctx none))
unfolding in_repo save_execution_context put_context
save_context-Frame {W = W} id ctx = record {
  keeps = λ env. by_check env (assert_json_serializable 0 ctx.content);
}
  where
    by_check :
        (env : Env W) (r : Result BatchError (Unit {0}))
        → (continue r (λ _. put_context (step_scope id) ctx none) env.repo).1.executions
          ≡ env.repo.executions
    by_check env (ok u) = refl
    by_check env (err x) = refl

-- The collaborators that a job runs through leave the rows of the job executions.
pub record Respectful {W : Type 0} (services : Services W) (e : JobExecution)
    (job : JobDefinition W) : Type 0 where
  pub on_event : (event : Event) → Frame (services.on_event event)
  pub before_job : Frame (services.before_job e)
  pub after_job : (final : JobStatus) → Frame (services.after_job e final)
  pub run_tasklet :
      (id step_execution_id : String) (params : JobParameters)
      → Frame (services.run_tasklet id step_execution_id params)
  pub run_chunk :
      (step : ChunkStep) (id : String) (params : JobParameters) (resume : Option ℕ)
      (partition : Option (ℕ × ℕ))
      → Frame (services.run_chunk step id params resume partition)
  pub decide :
      (d : DeciderDefinition W)
      → Has d job.deciders
      → (context : DeciderContext) → Frame (d.decide context)

module _ {W : Type 0} (services : Services W) (e : JobExecution) (job : JobDefinition W)
    (partition : Option (ℕ × ℕ)) (calm : Respectful services e job) where
  leaf :
      {A : Type 0} (m : Job W A)
      → ((env : Env W) → (m env).1.repo.executions ≡ env.repo.executions)
      → Frame m
  leaf m h = record { keeps = h }

  -- An update of a step execution at the date of the call, and what follows
  written :
      {A : Type 0} (id : String) (patch : ℕ → StepExecutionPatch) (m : Job W A)
      → Frame m
      → Frame (date services >>= λ now. in_repo (update_step_execution id (patch now)) >> m)
  unfolding date
  written id patch m h =
      Frame-bind (date services) (λ now. in_repo (update_step_execution id (patch now)) >> m)
        (leaf (date services) (λ env. refl))
        (λ now.
          Frame-bind (in_repo (update_step_execution id (patch now))) (λ _. m)
            (update_step-Frame id (patch now)) (λ _. h))

  pub emit-Frame : (event : Event) → Frame (emit services event)
  unfolding emit
  emit-Frame event = record { keeps = λ env. (calm.on_event event).keeps env }

  run_step-Frame :
      (step : StepDefinition) (id : String) (ctx : Option ExecutionContext)
      → Frame (run_step services e job partition step id ctx)
  unfolding run_step
  run_step-Frame (tasklet name) id ctx = calm.run_tasklet name id e.params
  run_step-Frame (chunk step) id ctx = calm.run_chunk step id e.params _ partition

  settle_step-Frame :
      (id : String) (r : Result BatchError StepResult)
      → Frame (settle_step services e job partition id r)
  unfolding settle_step date
  settle_step-Frame id (ok result) =
      written id (result_patch result) (pure result) (leaf (pure result) (λ env. refl))
  settle_step-Frame id (err x) =
      written id (failure_patch x) (throw x) (leaf (throw x) (λ env. refl))

  failed_context-Frame :
      (o : Option StepExecution) → Frame (failed_context services e job partition o)
  unfolding failed_context get_execution_context
  failed_context-Frame none = record { keeps = λ env. refl }
  failed_context-Frame (some prior) =
      elim (Bool-cases (step_status_eq prior.status StepStatus.failed)) [
        | inl h ↦ rw h (record { keeps = λ env. refl })
        | inr h ↦ rw h (record { keeps = λ env. refl })
      ]

  restart_context-Frame :
      (step : StepDefinition) → Frame (restart_context services e job partition step)
  unfolding restart_context find_latest_step_execution
  restart_context-Frame (tasklet name) = record { keeps = λ env. refl }
  restart_context-Frame (chunk step) = elim (Bool-cases (is_restart e)) [
    | inl h ↦ rw h (
        Frame-bind (in_repo (find_latest_step_execution e.id step.id))
          (failed_context services e job partition) (record { keeps = λ env. refl })
          failed_context-Frame)
    | inr h ↦ rw h (record { keeps = λ env. refl })
  ]

  copy_context-Frame :
      (id : String) (o : Option ExecutionContext)
      → Frame (copy_context services e job partition id o)
  unfolding copy_context
  copy_context-Frame id none = record { keeps = λ env. refl }
  copy_context-Frame id (some ctx) = save_context-Frame id ctx

  pub perform-Frame : (step : StepDefinition) → Frame (perform services e job partition step)
  unfolding perform create_step_execution take_id
  perform-Frame step =
      Frame-bind (restart_context services e job partition step) _ (restart_context-Frame step)
        (λ ctx.
          Frame-bind (in_repo (create_step_execution services.gen e.id (step_id step))) _
            (record { keeps = λ env. refl })
            (λ row.
              Frame-bind (copy_context services e job partition row.id ctx) _
                (copy_context-Frame row.id ctx)
                (λ _.
                  Frame-bind (emit services (step_started row.id)) _
                    (emit-Frame (step_started row.id))
                    (λ _.
                      Frame-bind (attempt (run_step services e job partition step row.id ctx)) _
                        (record { keeps = λ env. (run_step-Frame step row.id ctx).keeps env })
                        (λ outcome.
                          Frame-bind (settle_step services e job partition row.id outcome) _
                            (settle_step-Frame row.id outcome)
                            (λ result.
                              Frame-bind (emit services (end_event result.status row.id))
                                (λ _. pure (row.id, result))
                                (emit-Frame (end_event result.status row.id))
                                (λ _. record { keeps = λ env. refl })))))))

  ask_decider-Frame :
      (o : Option (DeciderDefinition W)) (context : DeciderContext)
      → ((d : DeciderDefinition W) → o ≡ some d → Has d job.deciders)
      → Frame (ask_decider services e job partition o context)
  unfolding ask_decider
  ask_decider-Frame none context h = leaf (pure none) (λ env. refl)
  ask_decider-Frame (some d) context h =
      Frame-bind (d.decide context) (λ status. pure (non_empty (trim status)))
        (calm.decide d (h d refl) context)
        (λ status. leaf (pure (non_empty (trim status))) (λ env. refl))

  decider_exit_status-Frame :
      (after : String) (context : DeciderContext)
      → Frame (decider_exit_status services e job partition after context)
  unfolding decider_exit_status
  decider_exit_status-Frame after context =
      ask_decider-Frame _ context (λ d h. find?-Has (λ x. x.after_step_id === after) job.deciders h)

  routed-Frame :
      (current : String) (result : StepResult) (decided : Option Text)
      → Frame (routed services e job partition current result decided)
  unfolding routed
  routed-Frame current result decided =
      Frame-bind
        (lift (
          route job.transitions current
            (exit_status decided result.exit_code (flow_status_of result.status))
            (flow_status_of result.status)))
        (λ target. pure (next_step target result.status current (keys job.steps)))
        (leaf (lift _) (λ env. refl)) (λ target. leaf (pure _) (λ env. refl))

  pub pick_next-Frame :
      (current : String) (step : StepDefinition) (id : String) (result : StepResult)
      → Frame (pick_next services e job partition current step id result)
  unfolding pick_next
  pick_next-Frame current step id result =
      Frame-bind
        (decider_exit_status services e job partition current
          (decider_context services e job partition step id result))
        (routed services e job partition current result) (decider_exit_status-Frame current _)
        (routed-Frame current result)

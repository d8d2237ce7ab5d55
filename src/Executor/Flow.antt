-- ===== src/Executor/Flow.antt =====
-- `execute` of packages/core/src/execution/job-executor.ts.
use nest_batch.Prelude.{
  ℕ, zero, suc, String, not, ◌&&◌, Option, none, some, Result, ok, err, find?, ◌===◌, if◌then◌else◌,
}
use nest_batch.Prelude.Text.{Text, text}
use nest_batch.Prelude.Table.{get, keys}
use nest_batch.Prelude.Effects.{pure, throw, lift, gets, attempt, ◌>>=◌, ◌>>◌}
use nest_batch.Errors.{BatchError, job_not_restartable, Message, message, message_of}
use nest_batch.Status.{JobStatus, StepStatus, step_status_eq}
use nest_batch.Context.{ExecutionContext, read_last_checkpoint}
use nest_batch.Repository.{JobExecution, JobExecutionPatch, StepExecution, step_scope}
use nest_batch.Repository.Contexts.{get_execution_context, save_execution_context}
use nest_batch.Repository.Steps.{
  create_step_execution, update_step_execution, find_latest_step_execution,
}
use nest_batch.Repository.Store.{update_job_execution, get_job_execution}
use nest_batch.Executor.Definitions.{
  DeciderDefinition, StepDefinition, chunk, tasklet, step_id, Job, StepResult, DeciderContext,
  JobDefinition, Event, job_started, step_started, Services, in_repo,
}
use nest_batch.Executor.Routing.{trim, non_empty, flow_status_of, exit_status, route}
use nest_batch.Executor.Patches.{
  no_job_patch, is_restart, result_patch, failure_patch, end_event, job_end_event, Next, go_to,
  fail_job, next_step,
}

module _ {W : Type 0} (services : Services W) where
  unfoldable pub date : Job W ℕ
  date = gets (λ env. services.new_date env.world)

  -- `emit`: an observer's error is dropped.
  unfoldable pub emit : Event → Job W (Unit {0})
  emit event = do outcome ← attempt (services.on_event event); pure tt

  module _ (e : JobExecution) (job : JobDefinition W) (partition : Option (ℕ × ℕ)) where
    unfoldable pub ask_decider : Option (DeciderDefinition W) → DeciderContext → Job W (Option Text)
    unfolding trim non_empty
    ask_decider none context = pure none
    ask_decider (some d) context = do status ← d.decide context; pure (non_empty (trim status))

    unfoldable pub decider_exit_status : String → DeciderContext → Job W (Option Text)
    unfolding ask_decider find?
    decider_exit_status after context =
        ask_decider (find? (λ d. d.after_step_id === after) job.deciders) context

    -- The context of the latest FAILED run of a chunk step.
    unfoldable pub failed_context : Option StepExecution → Job W (Option ExecutionContext)
    unfolding in_repo get_execution_context
    failed_context none = pure none
    failed_context (some prior) =
        if step_status_eq prior.status StepStatus.failed
        then (do ctx ← in_repo (get_execution_context (step_scope prior.id)); pure (some ctx))
        else pure none

    unfoldable pub restart_context : StepDefinition → Job W (Option ExecutionContext)
    unfolding failed_context in_repo find_latest_step_execution is_restart
    restart_context (tasklet id) = pure none
    restart_context (chunk step) =
        if is_restart e
        then (do prior ← in_repo (find_latest_step_execution e.id step.id); failed_context prior)
        else pure none

    unfoldable pub copy_context : String → Option ExecutionContext → Job W (Unit {0})
    unfolding in_repo save_execution_context
    copy_context id none = pure tt
    copy_context id (some ctx) = in_repo (save_execution_context (step_scope id) ctx none)

    unfoldable pub resume_index : Option ExecutionContext → Option ℕ
    resume_index none = none
    resume_index (some ctx) = read_last_checkpoint ctx

    unfoldable pub run_step : StepDefinition → String → Option ExecutionContext → Job W StepResult
    unfolding resume_index
    run_step (tasklet id) step_execution_id ctx = services.run_tasklet id step_execution_id e.params
    run_step (chunk step) step_execution_id ctx =
        services.run_chunk step step_execution_id e.params (resume_index ctx) partition

    -- A step executor that throws leaves the step FAILED, and the error goes on.
    unfoldable pub settle_step : String → Result BatchError StepResult → Job W StepResult
    unfolding date in_repo update_step_execution
    settle_step id (err error) = do
      now ← date
      in_repo (update_step_execution id (failure_patch error now))
      throw error
    settle_step id (ok result) = do
      now ← date
      in_repo (update_step_execution id (result_patch result now))
      pure result

    -- From the start of a step to the event of its end.
    unfoldable pub perform : StepDefinition → Job W (String × StepResult)
    unfolding restart_context in_repo create_step_execution copy_context emit run_step settle_step
        end_event
    perform step = do
      ctx ← restart_context step
      row ← in_repo (create_step_execution services.gen e.id (step_id step))
      copy_context row.id ctx
      emit (step_started row.id)
      outcome ← attempt (run_step step row.id ctx)
      result ← settle_step row.id outcome
      emit (end_event result.status row.id)
      pure (row.id, result)

    -- The transitions behind a step, with what its decider said.
    unfoldable pub routed : String → StepResult → Option Text → Job W Next
    unfolding exit_status flow_status_of route next_step
    routed current result decided = do
      let flow_status = flow_status_of result.status
      target ← lift (
          route job.transitions current (exit_status decided result.exit_code flow_status)
            flow_status)
      pure (next_step target result.status current (keys job.steps))

    abbrev pub decider_context : StepDefinition → String → StepResult → DeciderContext
    decider_context step id result = record {
      job_execution = e;
      step_id = step_id step;
      step_execution_id = id;
      step_status = result.status;
      exit_code = result.exit_code;
      exit_message = result.exit_message;
    }

    unfoldable pub pick_next : String → StepDefinition → String → StepResult → Job W Next
    unfolding decider_exit_status routed
    pick_next current step id result = do
      decided ← decider_exit_status current (decider_context step id result)
      routed current result decided

    unfoldable pub update_job : (ℕ → JobExecutionPatch) → Job W (Unit {0})
    unfolding date in_repo update_job_execution
    update_job patch = do now ← date; in_repo (update_job_execution e.id (patch now))

    abbrev pub failed_patch : Text → Message → ℕ → JobExecutionPatch
    failed_patch exit_code exit_message now = record no_job_patch {
      status = some JobStatus.failed;
      end_time = some (some now);
      exit_code = some exit_code;
      exit_message = some exit_message;
    }

    unfoldable pub go_on :
        (Option String → Job W (Option JobStatus)) → StepResult → Next → Job W (Option JobStatus)
    unfolding update_job
    go_on again result (go_to target) = again target
    go_on again result fail_job = do
      update_job (failed_patch result.exit_code result.exit_message)
      pure (some JobStatus.failed)

    -- A round of the loop at step `current`. A name that every object inherits is no step here.
    unfoldable pub visit :
        (Option String → Job W (Option JobStatus))
        → String
        → Option StepDefinition
        → Job W (Option JobStatus)
    unfolding perform pick_next go_on update_job
    visit again current none = do
      update_job (failed_patch (text "NO_SUCH_STEP") (message "Step not found"))
      pure (some JobStatus.failed)
    visit again current (some step) = do
      done ← perform step
      next ← pick_next current step done.0 done.1
      go_on again done.1 next

    -- `while (currentStepId !== null)` on fuel: `none` means that the fuel ran out; else the result is
    -- `finalStatus`.
    unfoldable pub flow : ℕ → Option String → Job W (Option JobStatus)
    unfolding visit
    flow fuel none = pure (some JobStatus.completed)
    flow zero (some current) = pure none
    flow (suc fuel) (some current) =
        visit (λ target env. flow fuel target env) current (get current job.steps)

    abbrev pub completed_patch : ℕ → JobExecutionPatch
    completed_patch now = record no_job_patch {
      status = some JobStatus.completed;
      end_time = some (some now);
      exit_code = some (text "COMPLETED");
    }

    -- The end of the `try` block
    unfoldable pub close_flow : Option JobStatus → Job W (Option JobStatus)
    unfolding update_job
    close_flow (some JobStatus.completed) = do
      update_job completed_patch
      pure (some JobStatus.completed)
    close_flow final = pure final

    unfoldable pub try_flow : ℕ → Job W (Option JobStatus)
    unfolding flow close_flow
    try_flow fuel = do final ← flow fuel (some job.start_step_id); close_flow final

    abbrev pub error_patch : BatchError → ℕ → JobExecutionPatch
    error_patch error now = record no_job_patch {
      status = some JobStatus.failed;
      end_time = some (some now);
      exit_message = some (message_of error);
    }

    -- The `catch` block
    unfoldable pub catch_flow : Result BatchError (Option JobStatus) → Job W (Option JobStatus)
    unfolding update_job
    catch_flow (ok final) = pure final
    catch_flow (err error) = do update_job (error_patch error); pure (some JobStatus.failed)

    -- The listeners after the job, and the execution that is returned.
    unfoldable pub end_job : Option JobStatus → Job W (Option (Option JobExecution))
    unfolding emit job_end_event in_repo get_job_execution
    end_job none = pure none
    end_job (some final) = do
      services.after_job e final
      emit (job_end_event final)
      latest ← in_repo (get_job_execution e.id)
      pure (some latest)

    -- The `try`, the `catch` and what follows them
    unfoldable pub guarded : ℕ → Job W (Option (Option JobExecution))
    unfolding try_flow catch_flow end_job
    guarded fuel = do outcome ← attempt (try_flow fuel); final ← catch_flow outcome; end_job final

    abbrev pub started_patch : ℕ → JobExecutionPatch
    started_patch now = record no_job_patch {
      status = some JobStatus.started;
      start_time = some (some now);
    }

    unfoldable pub run_job : ℕ → Job W (Option (Option JobExecution))
    unfolding update_job emit guarded
    run_job fuel = do
      update_job started_patch
      emit job_started
      services.before_job e
      guarded fuel

    -- `JobExecutor.execute`
    unfoldable pub execute : ℕ → Job W (Option (Option JobExecution))
    unfolding run_job is_restart
    execute fuel =
        if is_restart e && not job.restartable
        then throw (job_not_restartable job.id)
        else run_job fuel

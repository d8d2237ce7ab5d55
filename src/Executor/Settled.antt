-- ===== src/Executor/Settled.antt =====
-- How packages/core/src/execution/job-executor.ts leaves the row of the execution that it ran.
use nest_batch.Prelude.{
  ℕ, zero, suc, String, ◌≡◌, refl, sym, subst, ◌⊎◌, inl, inr, not, ◌&&◌, Option, none, some, Result,
  ok, err, Bool-cases,
}
use nest_batch.Prelude.Table.{get}
use nest_batch.Prelude.Text.{text}
use nest_batch.Prelude.Effects.{pure, continue, Ensures, bind_rule, ◌>>=◌, ◌>>◌}
use nest_batch.Errors.{BatchError, message}
use nest_batch.Status.{JobStatus}
use nest_batch.Repository.{JobExecution}
use nest_batch.Repository.Store.{get_job_execution}
use nest_batch.Executor.Definitions.{
  StepDefinition, Env, Job, StepResult, JobDefinition, job_started, Services, in_repo,
}
use nest_batch.Executor.Patches.{Next, go_to, fail_job, job_end_event, is_restart}
use nest_batch.Executor.Flow.{
  emit, failed_patch, completed_patch, error_patch, started_patch, perform, pick_next, go_on, visit,
  flow, close_flow, try_flow, catch_flow, end_job, guarded, run_job, execute,
}
use nest_batch.Executor.Frames.{Respectful, emit-Frame, perform-Frame, pick_next-Frame}
use nest_batch.Executor.Rows.{
  FlowEnd, TryEnd, Settled, Present, HasStatus, Frame-Present, Frame-HasStatus, update_then,
  update-Present, update,
}

module _ {W : Type 0} (e : JobExecution) (services : Services W) (job : JobDefinition W)
    (partition : Option (ℕ × ℕ)) (calm : Respectful services e job) where
  go_on-FlowEnd :
      (again : Option String → Job W (Option JobStatus)) (result : StepResult) (next : Next)
      (env : Env W)
      → Present e env
      → ((target : Option String) (t : Env W) → Present e t → Ensures (FlowEnd e) (again target) t)
      → Ensures (FlowEnd e) (go_on services e job partition again result next) env
  unfolding go_on
  go_on-FlowEnd again result (go_to target) env there rec = rec target env there
  go_on-FlowEnd again result fail_job env there rec =
      let patch = failed_patch services e job partition result.exit_code result.exit_message in
      update_then e services job partition (FlowEnd e) patch JobStatus.failed
        (pure (some JobStatus.failed)) env (λ now. refl) there (λ t has. has)

  visit-FlowEnd :
      (again : Option String → Job W (Option JobStatus)) (current : String)
      (o : Option StepDefinition) (env : Env W)
      → Present e env
      → ((target : Option String) (t : Env W) → Present e t → Ensures (FlowEnd e) (again target) t)
      → Ensures (FlowEnd e) (visit services e job partition again current o) env
  unfolding visit
  visit-FlowEnd again current none env there rec =
      let patch =
        failed_patch services e job partition (text "NO_SUCH_STEP") (message "Step not found") in
      update_then e services job partition (FlowEnd e) patch JobStatus.failed
        (pure (some JobStatus.failed)) env (λ now. refl) there (λ t has. has)
  visit-FlowEnd again current (some step) env there rec =
      let m = perform services e job partition step in
      let ran = Frame-Present e env (perform-Frame services e job partition calm step) there in
      bind_rule (FlowEnd e) m _ env
        (λ done _.
          let pick = pick_next services e job partition current step done.0 done.1 in
          let picked =
            Frame-Present e (m env).1
              (pick_next-Frame services e job partition calm current step done.0 done.1) ran in
          bind_rule (FlowEnd e) pick (go_on services e job partition again done.1) (m env).1
            (λ next _. go_on-FlowEnd again done.1 next (pick (m env).1).1 picked rec)
            (λ _ _. picked))
        (λ _ _. ran)

  flow-FlowEnd :
      (fuel : ℕ) (target : Option String) (env : Env W)
      → Present e env
      → Ensures (FlowEnd e) (flow services e job partition fuel target) env
  unfolding flow
  flow-FlowEnd fuel none env there = there
  flow-FlowEnd zero (some current) env there = there
  flow-FlowEnd (suc fuel) (some current) env there =
      visit-FlowEnd (λ target t. flow services e job partition fuel target t) current
        (get current job.steps) env there (λ target t there'. flow-FlowEnd fuel target t there')

  close_flow-TryEnd :
      (final : Option JobStatus) (env : Env W)
      → (FlowEnd e) (ok final) env
      → Ensures (TryEnd e) (close_flow services e job partition final) env
  unfolding close_flow
  close_flow-TryEnd none env h = h
  close_flow-TryEnd (some JobStatus.completed) env h =
      update_then e services job partition (TryEnd e) (completed_patch services e job partition)
        JobStatus.completed (pure (some JobStatus.completed)) env (λ now. refl) h (λ t has. has)
  close_flow-TryEnd (some JobStatus.failed) env h = h
  close_flow-TryEnd (some JobStatus.starting) env h = absurd h
  close_flow-TryEnd (some JobStatus.started) env h = absurd h
  close_flow-TryEnd (some JobStatus.stopping) env h = absurd h
  close_flow-TryEnd (some JobStatus.stopped) env h = absurd h
  close_flow-TryEnd (some JobStatus.abandoned) env h = absurd h
  close_flow-TryEnd (some JobStatus.unknown) env h = absurd h

  try_flow-TryEnd :
      (fuel : ℕ) (env : Env W)
      → Present e env
      → Ensures (TryEnd e) (try_flow services e job partition fuel) env
  unfolding try_flow
  try_flow-TryEnd fuel env there =
      let m = flow services e job partition fuel (some job.start_step_id) in
      let ended = flow-FlowEnd fuel (some job.start_step_id) env there in
      bind_rule (TryEnd e) m (close_flow services e job partition) env
        (λ final q.
          close_flow-TryEnd final (m env).1 (subst (λ y. (FlowEnd e) y (m env).1) q ended))
        (λ x q. subst (λ y. (FlowEnd e) y (m env).1) q ended)

  catch_flow-TryEnd :
      (r : Result BatchError (Option JobStatus)) (env : Env W)
      → (TryEnd e) r env
      → Ensures (TryEnd e) (catch_flow services e job partition r) env
  unfolding catch_flow
  catch_flow-TryEnd (ok final) env h = h
  catch_flow-TryEnd (err x) env h =
      update_then e services job partition (TryEnd e) (error_patch services e job partition x)
        JobStatus.failed (pure (some JobStatus.failed)) env (λ now. refl) h (λ t has. has)

  read_back :
      (final : JobStatus) (t : Env W)
      → (final ≡ JobStatus.completed) ⊎ (final ≡ JobStatus.failed)
      → HasStatus e final t
      → (Settled e) (ok (some (get e.id t.repo.executions))) t
  read_back final t over (row, q, s) =
      subst (λ o. (Settled e) (ok (some o)) t) (sym q)
        (q, subst (λ x. (x ≡ JobStatus.completed) ⊎ (x ≡ JobStatus.failed)) (sym s) over)

  -- The listeners and the observer behind a job in a final status
  end_job-Settled :
      (final : JobStatus) (env : Env W)
      → (final ≡ JobStatus.completed) ⊎ (final ≡ JobStatus.failed)
      → HasStatus e final env
      → Ensures (Settled e) (end_job services e job partition (some final)) env
  unfolding end_job in_repo get_job_execution
  end_job-Settled final env over has =
      let after = services.after_job e final in
      let event = emit services (job_end_event final) in
      let t = (after env).1 in
      let has1 = Frame-HasStatus e final env (calm.after_job final) has in
      let calm_event = emit-Frame services e job partition calm (job_end_event final) in
      let has2 = Frame-HasStatus e final t calm_event has1 in
      let back : Job W (Option (Option JobExecution)) =
        in_repo (get_job_execution e.id) >>= λ latest. pure (some latest) in
      bind_rule (Settled e) after (λ _. event >> back) env
        (λ _ _.
          bind_rule (Settled e) event (λ _. back) t (λ _ _. read_back final (event t).1 over has2)
            (λ _ _. (has2.0, has2.1)))
        (λ _ _. (has1.0, has1.1))

  end_flow-Settled :
      (r : Result BatchError (Option JobStatus)) (env : Env W)
      → (TryEnd e) r env
      → Ensures (Settled e) (continue r (end_job services e job partition)) env
  unfolding end_job
  end_flow-Settled (err x) env h = h
  end_flow-Settled (ok none) env h = h
  end_flow-Settled (ok (some JobStatus.completed)) env h =
      end_job-Settled JobStatus.completed env (inl refl) h
  end_flow-Settled (ok (some JobStatus.failed)) env h =
      end_job-Settled JobStatus.failed env (inr refl) h
  end_flow-Settled (ok (some JobStatus.starting)) env h = absurd h
  end_flow-Settled (ok (some JobStatus.started)) env h = absurd h
  end_flow-Settled (ok (some JobStatus.stopping)) env h = absurd h
  end_flow-Settled (ok (some JobStatus.stopped)) env h = absurd h
  end_flow-Settled (ok (some JobStatus.abandoned)) env h = absurd h
  end_flow-Settled (ok (some JobStatus.unknown)) env h = absurd h

  guarded-Settled :
      (fuel : ℕ) (env : Env W)
      → Present e env
      → Ensures (Settled e) (guarded services e job partition fuel) env
  unfolding guarded
  guarded-Settled fuel env there =
      let tried = try_flow services e job partition fuel in
      let t = (tried env).1 in
      let caught = catch_flow services e job partition (tried env).0 in
      end_flow-Settled (caught t).0 (caught t).1
        (catch_flow-TryEnd (tried env).0 t (try_flow-TryEnd fuel env there))

  run_job-Settled :
      (fuel : ℕ) (env : Env W)
      → Present e env
      → Ensures (Settled e) (run_job services e job partition fuel) env
  unfolding run_job
  run_job-Settled fuel env there =
      let start = update e services job partition (started_patch services e job partition) in
      let t1 = (start env).1 in
      let there1 =
        update-Present e services job partition (started_patch services e job partition) env
          there in
      let event = emit services job_started in
      let t2 = (event t1).1 in
      let there2 =
        Frame-Present e t1 (emit-Frame services e job partition calm job_started) there1 in
      let before = services.before_job e in
      let there3 = Frame-Present e t2 calm.before_job there2 in
      let rest = guarded services e job partition fuel in
      bind_rule (Settled e) start (λ _. event >> (before >> rest)) env
        (λ _ _.
          bind_rule (Settled e) event (λ _. before >> rest) t1
            (λ _ _.
              bind_rule (Settled e) before (λ _. rest) t2
                (λ _ _. guarded-Settled fuel (before t2).1 there3) (λ _ _. there3))
            (λ _ _. there2))
        (λ _ _. there1)

  -- With collaborators (step executors, deciders, listeners, observer) that leave the rows of the
  -- job executions, an execution that was in the repository is still there when `execute` ends,
  -- also by an error; and what `execute` returns is that row, in status COMPLETED or FAILED.
  pub execute-Settled :
      (fuel : ℕ) (env : Env W)
      → Present e env
      → (Settled e)
          (execute services e job partition fuel env).0
          (execute services e job partition fuel env).1
  unfolding execute
  execute-Settled fuel env there = elim (Bool-cases (is_restart e && not job.restartable)) [
    | inl refused ↦ rw refused there
    | inr allowed ↦ rw allowed (run_job-Settled fuel env there)
  ]

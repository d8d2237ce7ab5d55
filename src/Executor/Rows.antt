-- ===== src/Executor/Rows.antt =====
-- What the updates and the other calls of packages/core/src/execution/job-executor.ts leave of the row
-- of the execution.
use nest_batch.Prelude.{
  ℕ, String, ◌≡◌, refl, sym, ap, ◌∙◌, ◌⊎◌, Option, none, some, Result, ok, err,
}
use nest_batch.Prelude.Table.{get, get-set_same}
use nest_batch.Prelude.Effects.{Ensures, bind_rule, ◌>>◌}
use nest_batch.Errors.{BatchError}
use nest_batch.Status.{JobStatus}
use nest_batch.Repository.{JobExecution, JobExecutionPatch}
use nest_batch.Repository.State.{State, patched}
use nest_batch.Repository.Store.{patch_execution, write_job_patch, update_job_execution}
use nest_batch.Executor.Definitions.{Env, Job, JobDefinition, Services, in_repo}
use nest_batch.Executor.Flow.{date, update_job}
use nest_batch.Executor.Frames.{Frame}

write_job_patch-row :
    (id : String) (patch : JobExecutionPatch) (o : Option JobExecution) (s : State)
    (row : JobExecution)
    → get id s.executions ≡ o
    → o ≡ some row
    → (get id (write_job_patch id patch o s).1.executions ≡ some (patch_execution patch row))
      × ((write_job_patch id patch o s).0 ≡ ok tt)
unfolding write_job_patch
write_job_patch-row id patch none s row h q = absurd cc
write_job_patch-row id patch (some cur) s row h q =
    (get-set_same id _ s.executions ∙ ap (λ o. patch_some o) q, refl)
  where
    patch_some : Option JobExecution → Option JobExecution
    patch_some none = none
    patch_some (some x) = some (patch_execution patch x)

module _ {W : Type 0} (e : JobExecution) where
  -- The row of the execution is there.
  abbrev pub Present : Env W → Type 0
  Present env = (row : JobExecution) × (get e.id env.repo.executions ≡ some row)

  -- The row is there, in this status.
  abbrev pub HasStatus : JobStatus → Env W → Type 0
  HasStatus status env =
      (row : JobExecution) × (get e.id env.repo.executions ≡ some row) × (row.status ≡ status)

  -- What the flow leaves at its end.
  abbrev pub FlowEnd : Result BatchError (Option JobStatus) → Env W → Type 0
  FlowEnd (ok (some JobStatus.completed)) t = Present t
  FlowEnd (ok (some JobStatus.failed)) t = HasStatus JobStatus.failed t
  FlowEnd (ok (some _)) t = ⊥
  FlowEnd (ok none) t = Present t
  FlowEnd (err x) t = Present t

  -- What the `try` block leaves, and behind it the `catch` block.
  abbrev pub TryEnd : Result BatchError (Option JobStatus) → Env W → Type 0
  TryEnd (ok (some JobStatus.completed)) t = HasStatus JobStatus.completed t
  TryEnd (ok (some JobStatus.failed)) t = HasStatus JobStatus.failed t
  TryEnd (ok (some _)) t = ⊥
  TryEnd (ok none) t = Present t
  TryEnd (err x) t = Present t

  -- What `execute` returns and leaves: the row, COMPLETED or FAILED.
  abbrev pub Settled : Result BatchError (Option (Option JobExecution)) → Env W → Type 0
  Settled (ok (some (some row))) t =
      (get e.id t.repo.executions ≡ some row)
      × ((row.status ≡ JobStatus.completed) ⊎ (row.status ≡ JobStatus.failed))
  Settled (ok (some none)) t = ⊥
  Settled (ok none) t = Present t
  Settled (err x) t = Present t

  pub Frame-Present :
      {A : Type 0} {m : Job W A} (env : Env W) → Frame m → Present env → Present (m env).1
  Frame-Present env h (row, q) = (row, ap (get e.id) (h.keeps env) ∙ q)

  pub Frame-HasStatus :
      {A : Type 0} {m : Job W A} (status : JobStatus) (env : Env W)
      → Frame m
      → HasStatus status env
      → HasStatus status (m env).1
  Frame-HasStatus status env h (row, q, s) = (row, ap (get e.id) (h.keeps env) ∙ q, s)

  module _ (services : Services W) (job : JobDefinition W) (partition : Option (ℕ × ℕ)) where
    abbrev pub update : (ℕ → JobExecutionPatch) → Job W (Unit {0})
    update = update_job services e job partition

    update-HasStatus :
        (patch : ℕ → JobExecutionPatch) (status : JobStatus) (env : Env W)
        → ((now : ℕ) → (patch now).status ≡ some status)
        → Present env
        → HasStatus status (update patch env).1 × ((update patch env).0 ≡ ok tt)
    unfolding update_job update_job_execution date in_repo patch_execution patched
    update-HasStatus patch status env sets (row, q) =
        let now = services.new_date env.world in
        let (r, done) =
          write_job_patch-row e.id (patch now) (get e.id env.repo.executions) env.repo row refl q in
        ((patch_execution (patch now) row, r, ap (λ o. patched o row.status) (sets now)), done)

    pub update-Present :
        (patch : ℕ → JobExecutionPatch) (env : Env W) → Present env → Present (update patch env).1
    unfolding update_job update_job_execution date in_repo
    update-Present patch env (row, q) =
        let now = services.new_date env.world in
        let (r, done) =
          write_job_patch-row e.id (patch now) (get e.id env.repo.executions) env.repo row refl q in
        (patch_execution (patch now) row, r)

    -- An update that sets the status, and a value behind it
    pub update_then :
        {A : Type 0} (P : Result BatchError A → Env W → Type 0) (patch : ℕ → JobExecutionPatch)
        (status : JobStatus) (m : Job W A) (env : Env W)
        → ((now : ℕ) → (patch now).status ≡ some status)
        → Present env
        → ((t : Env W) → HasStatus status t → Ensures P m t)
        → Ensures P (update patch >> m) env
    update_then P patch status m env sets there next =
        let (has, done) = update-HasStatus patch status env sets there in
        bind_rule P (update patch) (λ _. m) env (λ _ _. next (update patch env).1 has)
          (λ x q. absurd (clash (sym done ∙ q)))
      where
        clash : {x : BatchError} → ◌≡◌ {A = Result BatchError (Unit {0})} (ok tt) (err x) → ⊥
        clash q = absurd cc

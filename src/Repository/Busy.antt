-- ===== src/Repository/Busy.antt =====
-- An instance that runs is not launched again: the check of `createExecutionAtomic` in
-- packages/core/src/repository/in-memory/in-memory-job-repository.ts.
use nest_batch.Prelude.{
  ℕ, String, ◌≡◌, refl, ap, ◌∙◌, true, some, ok, err, arith, inl, inr, Option-cases, eq_iff,
}
use nest_batch.Prelude.Table.{get, values, get-set_same}
use nest_batch.Errors.{job_execution_already_running}
use nest_batch.Repository.{JobParameters, JobInstance, JobExecution}
use nest_batch.Repository.State.{State, instance_key}
use nest_batch.Repository.Store.{
  runs_for, is_running, find_running, instance_or_new, get_or_create_job_instance, launch_on,
  fresh_execution, get_running_job_execution, create_execution_atomic,
}
use nest_batch.Repository.Running.{RunsAt, find_running-none, Launched}

-- The instance that the key leads to has an execution that runs.
abbrev pub Busy : String → State → Type 0
Busy key s =
    (inst : JobInstance) × (get key s.instances_by_key ≡ some inst)
    × (id : String) × RunsAt s.executions inst.id id

module _ (gen : ℕ → String) (name job_key : String) (params : JobParameters) (now : ℕ)
    (s : State) where
  abbrev Refused : Type 0
  Refused =
      (id : String) × ((create_execution_atomic gen name job_key params now s).0
        ≡ err (job_execution_already_running id))

  pub create_execution_atomic-refused : Busy (instance_key name job_key) s → Refused
  unfolding create_execution_atomic get_or_create_job_instance instance_or_new
      get_running_job_execution launch_on
  create_execution_atomic-refused (inst, found, id, (e, stored, runs)) =
      elim (Option-cases (find_running inst.id (values s.executions))) [
        | inl idle ↦
            let stopped = find_running-none inst.id s.executions idle id e stored in absurd cc
        | inr (f, busy) ↦ (f.id, rw (create_execution_atomic, found, busy) refl)
      ]

  fresh_runs :
      (id instance_id : String)
      → runs_for instance_id (fresh_execution gen id instance_id params) ≡ true
  unfolding runs_for is_running
  fresh_runs id instance_id = ground (arith, eq_iff instance_id instance_id)

  -- A launch that succeeds leaves the instance busy.
  pub Launched-Busy :
      (e : JobExecution) (t : State)
      → Launched gen name job_key params now s (ok e) t
      → Busy (instance_key name job_key) t
  Launched-Busy e t (inst, found, n, _, new, stored, _) =
      let r : runs_for inst.id e ≡ true = ap (runs_for inst.id) new ∙ fresh_runs (gen n) inst.id in
      let kept = ap (get e.id) stored ∙ get-set_same e.id e s.executions in
      (inst, found, e.id, (e, kept, r))

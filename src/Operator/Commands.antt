-- ===== src/Operator/Commands.antt =====
-- Commands of packages/core/src/execution/job-operator.ts one after the other.
use nest_batch.Prelude.{ℕ, String, ◌≡◌, refl, some, ok}
use nest_batch.Prelude.Table.{get, set, get-set_same, set-set}
use nest_batch.Repository.{JobInstance, JobExecution}
use nest_batch.Repository.State.{State, patched}
use nest_batch.Repository.Store.{patch_execution, write_job_patch, update_job_execution}
use nest_batch.Operator.{
  JobExecutionDetails, details, with_instance, with_execution, get_job_execution_details, is_active,
  stop_from, stop, end_time_or, abandon_patch, abandon_from, abandon,
}
use nest_batch.Operator.Lifecycle.{Active, Active-is_active, stopped_at, abandoned_with}

module _ (id : String) (now later : ℕ) (e : JobExecution) (inst : JobInstance) (s : State)
    (found : get id s.executions ≡ some e)
    (known : get e.job_instance_id s.instances ≡ some inst) where
  -- The state with another row for the execution
  abbrev after : JobExecution → State
  after row = record s { executions = set id row s.executions }

  -- What the operator returns of it
  abbrev shown : JobExecution → JobExecutionDetails
  shown row = details row inst (after row)

  stop-shown :
      Active e.status → stop id now s ≡ (ok (shown (stopped_at now e)), after (stopped_at now e))
  unfolding stop stop_from get_job_execution_details with_execution with_instance
      update_job_execution write_job_patch patch_execution patched
  stop-shown active =
      let (going, running) = Active-is_active e.status active in
      rw (found, known)
        (rw (running, going)
          (rw found (rw (get-set_same id (stopped_at now e) s.executions) (rw known refl))))

  stop-again :
      stop id later (after (stopped_at now e))
      ≡ (ok (shown (stopped_at now e)), after (stopped_at now e))
  unfolding stop stop_from get_job_execution_details with_execution with_instance
  stop-again = rw (get-set_same id (stopped_at now e) s.executions) (rw known refl)

  abandon-shown :
      abandon id later (after (stopped_at now e))
      ≡ (ok (shown (abandoned_with now e)), after (abandoned_with now e))
  unfolding abandon abandon_from get_job_execution_details with_execution with_instance
      update_job_execution write_job_patch patch_execution patched abandon_patch end_time_or
      is_active
  abandon-shown = rw (get-set_same id (stopped_at now e) s.executions) (
      rw known (
        rw (get-set_same id (stopped_at now e) s.executions) (
          rw (set-set id (stopped_at now e) (abandoned_with now e) s.executions)
            (rw (get-set_same id (abandoned_with now e) s.executions) (rw known refl)))))

  -- Stopping an execution that is STARTING, STARTED or STOPPING, and whose instance is known,
  -- returns it as STOPPED with the date of the call as its end, and the repository holds it so. A
  -- second stop at any date returns the same and changes nothing, and an abandon at any date makes
  -- it ABANDONED with the end that the stop wrote.
  pub stop-abandon :
      Active e.status
      → (d d' : JobExecutionDetails) × (t t' : State) × (stop id now s ≡ (ok d, t))
        × (d.job_execution ≡ stopped_at now e)
        × (get id t.executions ≡ some (stopped_at now e))
        × (stop id later t ≡ (ok d, t))
        × (abandon id later t ≡ (ok d', t'))
        × (d'.job_execution ≡ abandoned_with now e)
        × (get id t'.executions ≡ some (abandoned_with now e))
  unfolding details
  stop-abandon active = (
    shown (stopped_at now e),
    shown (abandoned_with now e),
    after (stopped_at now e),
    after (abandoned_with now e),
    stop-shown active,
    refl,
    get-set_same id (stopped_at now e) s.executions,
    stop-again,
    abandon-shown,
    refl,
    get-set_same id (abandoned_with now e) s.executions,
  )

-- ===== src/Repository/Updating.antt =====
-- What the updates of job executions of
-- packages/core/src/repository/in-memory/in-memory-job-repository.ts write.
use nest_batch.Prelude.{String, ◌≡◌, ◌≢◌, refl, ◌∙◌, Option, none, some, ok}
use nest_batch.Prelude.Table.{Table, get, set, get-set_same, get-set_other}
use nest_batch.Prelude.Effects.{◌>>◌}
use nest_batch.Repository.{JobExecution, JobExecutionPatch}
use nest_batch.Repository.State.{State, patched}
use nest_batch.Repository.Store.{patch_execution, write_job_patch, update_job_execution}

-- The value of a field behind two patches
pub data Field {ℓ} {A : Type ℓ} (old : A) : (first second : Option A) → (new : A) → Type ℓ where
  kept : Field old none none old
  from_first : (a : A) → Field old (some a) none a
  from_second : (first : Option A) (b : A) → Field old first (some b) b

-- The row behind two patches
pub record Updated (e : JobExecution) (p q : JobExecutionPatch) (row : JobExecution) : Type 0 where
  pub same_id : row.id ≡ e.id
  pub same_instance : row.job_instance_id ≡ e.job_instance_id
  pub same_params : row.params ≡ e.params
  pub status : Field e.status p.status q.status row.status
  pub start_time : Field e.start_time p.start_time q.start_time row.start_time
  pub end_time : Field e.end_time p.end_time q.end_time row.end_time
  pub exit_code : Field e.exit_code p.exit_code q.exit_code row.exit_code
  pub exit_message : Field e.exit_message p.exit_message q.exit_message row.exit_message

patched-Field {ℓ} :
    {A : Type ℓ} (old : A) (p q : Option A) → Field old p q (patched q (patched p old))
unfolding patched
patched-Field old none none = kept
patched-Field old (some a) none = from_first a
patched-Field old p (some b) = from_second p b

patch_execution-Updated :
    (p q : JobExecutionPatch) (e : JobExecution)
    → Updated e p q (patch_execution q (patch_execution p e))
unfolding patch_execution
patch_execution-Updated p q e = record {
  same_id = refl;
  same_instance = refl;
  same_params = refl;
  status = patched-Field e.status p.status q.status;
  start_time = patched-Field e.start_time p.start_time q.start_time;
  end_time = patched-Field e.end_time p.end_time q.end_time;
  exit_code = patched-Field e.exit_code p.exit_code q.exit_code;
  exit_message = patched-Field e.exit_message p.exit_message q.exit_message;
}

module _ (id : String) (p q : JobExecutionPatch) (s : State) where
  -- The rows behind two updates
  abbrev rows : JobExecution → Table JobExecution
  rows e =
      set id (patch_execution q (patch_execution p e)) (set id (patch_execution p e) s.executions)

  updated :
      (e : JobExecution)
      → get id s.executions ≡ some e
      → (update_job_execution id p >> update_job_execution id q) s
        ≡ (ok tt, record s { executions = rows e })
  unfolding update_job_execution write_job_patch
  updated e found = rw found (rw (get-set_same id (patch_execution p e) s.executions) refl)

  other_row : (e : JobExecution) (j : String) → id ≢ j → get j (rows e) ≡ get j s.executions
  other_row e j differs =
      get-set_other id j (patch_execution q (patch_execution p e))
        (set id (patch_execution p e) s.executions) differs
      ∙ get-set_other id j (patch_execution p e) s.executions differs

  -- Two updates of a job execution that the repository has leave a row in which each field that a
  -- patch can set has the value of the later patch that sets it, or else the value it had, and
  -- leave its ids and parameters, every other execution and the rest of the state as they were.
  pub update_job_execution-Updated :
      (e : JobExecution)
      → get id s.executions ≡ some e
      → (t : State) × ((update_job_execution id p >> update_job_execution id q) s ≡ (ok tt, t))
        × ((row : JobExecution) × (get id t.executions ≡ some row) × Updated e p q row)
        × ((j : String) → id ≢ j → get j t.executions ≡ get j s.executions)
        × (record t { executions = s.executions } ≡ s)
  update_job_execution-Updated e found = (
    record s { executions = rows e },
    updated e found,
    (
      patch_execution q (patch_execution p e),
      get-set_same id (patch_execution q (patch_execution p e))
          (set id (patch_execution p e) s.executions),
      patch_execution-Updated p q e,
    ),
    other_row e,
    refl,
  )

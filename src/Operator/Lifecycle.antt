-- ===== src/Operator/Lifecycle.antt =====
-- Which statuses the operator of packages/core/src/execution/job-operator.ts may leave and enter.
use nest_batch.Prelude.{
  ℕ, String, ◌≡◌, refl, sym, ap, ◌∙◌, subst, true, false, ◌||◌, inl, inr, Option, none, some, List,
  [], ◌∷◌, Result, ok, err, ok_inj, some_inj, ◌===◌, eq_iff, Bool-cases,
}
use nest_batch.Prelude.Table.{get, get-set}
use nest_batch.Prelude.Effects.{continue, ◌>>=◌, ◌>>◌}
use nest_batch.Errors.{BatchError, message, Throws}
use nest_batch.Prelude.Text.{text}
use nest_batch.Status.{JobStatus, job_status_eq}
use nest_batch.Repository.{JobInstance, JobExecution, JobExecutionPatch}
use nest_batch.Repository.State.{State, Repo, patched}
use nest_batch.Repository.Store.{patch_execution, write_job_patch, update_job_execution}
use nest_batch.Operator.{
  JobExecutionDetails, with_instance, with_execution, get_job_execution_details, is_active,
  stop_patch, stop_from, stop, end_time_or, abandon_patch, abandon_from, abandon,
}

with_execution-found :
    (id : String) (o : Option JobExecution) (s : State) (d : JobExecutionDetails)
    → with_execution id o s ≡ ok d
    → o ≡ some d.job_execution
unfolding with_execution with_instance
with_execution-found id none s d h = cc
with_execution-found id (some e) s d h = by_instance (get e.job_instance_id s.instances) h
  where
    by_instance :
        (i : Option JobInstance) → with_instance e i s ≡ ok d → some e ≡ some d.job_execution
    by_instance none h = cc
    by_instance (some inst) h = ap (λ x. some x.job_execution) (ok_inj h)

-- One command of the operator, at a date.
pub data Command : Type 0 where
  stop_execution : (id : String) (now : ℕ) → Command
  abandon_execution : (id : String) (now : ℕ) → Command

-- A command that throws leaves what it did.
unfoldable pub run_command : Command → State → State
run_command (stop_execution id now) s = (stop id now s).1
run_command (abandon_execution id now) s = (abandon id now s).1

unfoldable pub run_commands : List Command → State → State
unfolding run_command
run_commands [] s = s
run_commands (c ∷ cs) s = run_commands cs (run_command c s)

-- The statuses of an execution that is under way
pub data Active : JobStatus → Type 0 where
  starting : Active JobStatus.starting
  started : Active JobStatus.started
  stopping : Active JobStatus.stopping

-- The statuses of an execution that ended without being done
pub data Ended : JobStatus → Type 0 where
  failed : Ended JobStatus.failed
  stopped_before : Ended JobStatus.stopped
  unknown : Ended JobStatus.unknown

-- An execution that the operator stopped at a date
abbrev pub stopped_at : ℕ → JobExecution → JobExecution
stopped_at now e = record e {
  status = JobStatus.stopped;
  end_time = some now;
  exit_code = text "STOPPED";
  exit_message = message "Stopped by JobOperator";
}

-- An execution that the operator abandoned, with the date of its end
abbrev pub abandoned_with : ℕ → JobExecution → JobExecution
abandoned_with end_date e = record e {
  status = JobStatus.abandoned;
  end_time = some end_date;
  exit_code = text "ABANDONED";
  exit_message = message "Abandoned by JobOperator";
}

-- What a command may make of an execution.
pub data Moved (e : JobExecution) : JobExecution → Type 0 where
  unmoved : Moved e e
  stopped : (now : ℕ) → Active e.status → Moved e (stopped_at now e)
  abandoned :
      (end_date : ℕ)
      → Ended e.status
      → ((t : ℕ) → e.end_time ≡ some t → end_date ≡ t)
      → Moved e (abandoned_with end_date e)

is_active-Active : (a : JobStatus) → is_active a ≡ true → Active a
unfolding is_active
is_active-Active JobStatus.starting h = starting
is_active-Active JobStatus.started h = started
is_active-Active JobStatus.stopping h = stopping
is_active-Active JobStatus.completed h = absurd cc
is_active-Active JobStatus.failed h = absurd cc
is_active-Active JobStatus.stopped h = absurd cc
is_active-Active JobStatus.abandoned h = absurd cc
is_active-Active JobStatus.unknown h = absurd cc

is_active-Ended :
    (a : JobStatus)
    → job_status_eq a JobStatus.abandoned ≡ false
    → (is_active a || job_status_eq a JobStatus.completed) ≡ false
    → Ended a
unfolding is_active
is_active-Ended JobStatus.failed g h = failed
is_active-Ended JobStatus.stopped g h = stopped_before
is_active-Ended JobStatus.unknown g h = unknown
is_active-Ended JobStatus.abandoned g h = absurd cc
is_active-Ended JobStatus.completed g h = absurd cc
is_active-Ended JobStatus.starting g h = absurd cc
is_active-Ended JobStatus.started g h = absurd cc
is_active-Ended JobStatus.stopping g h = absurd cc

stop_patch-Moved :
    (now : ℕ) (e : JobExecution)
    → is_active e.status ≡ true
    → Moved e (patch_execution (stop_patch now) e)
unfolding patch_execution patched
stop_patch-Moved now e h = stopped now (is_active-Active e.status h)

end_time_or-kept : (now : ℕ) (o : Option ℕ) (t : ℕ) → o ≡ some t → end_time_or now o ≡ t
unfolding end_time_or
end_time_or-kept now none t h = absurd cc
end_time_or-kept now (some u) t h = some_inj h

abandon_patch-Moved :
    (now : ℕ) (e : JobExecution)
    → Ended e.status
    → Moved e (patch_execution (abandon_patch now e) e)
unfolding patch_execution patched abandon_patch
abandon_patch-Moved now e h =
    abandoned (end_time_or now e.end_time) h (end_time_or-kept now e.end_time)

module _ (j : String) (e : JobExecution) where
  -- Execution `j`, which was `e`, has made a move.
  abbrev pub MovedAt : State → Type 0
  MovedAt t = (e' : JobExecution) × (get j t.executions ≡ some e') × Moved e e'

  write_job_patch-Moved :
      (id : String) (patch : JobExecutionPatch) (o : Option JobExecution) (s : State)
      → get j s.executions ≡ some e
      → get id s.executions ≡ o
      → ((f : JobExecution) → o ≡ some f → Moved f (patch_execution patch f))
      → MovedAt (write_job_patch id patch o s).1
  unfolding write_job_patch
  write_job_patch-Moved id patch none s at_j at_id moves = (e, at_j, unmoved)
  write_job_patch-Moved id patch (some f) s at_j at_id moves = elim (Bool-cases (id === j)) [
    | inl same ↦
        let q : id ≡ j = (eq_iff id j).0 same in
        let r : f ≡ e = some_inj (sym at_id ∙ ap (λ k. get k s.executions) q ∙ at_j) in
        (
          patch_execution patch e,
          rw (get-set, same, r) refl,
          subst (λ x. Moved x (patch_execution patch x)) r (moves f refl),
        )
    | inr other ↦ (e, rw (get-set, other) at_j, unmoved)
  ]

  -- A `do` block that reads the details first
  after_details :
      (id : String) (f : JobExecutionDetails → Repo JobExecutionDetails) (s : State)
      → get j s.executions ≡ some e
      → ((d : JobExecutionDetails) → get id s.executions ≡ some d.job_execution → MovedAt (f d s).1)
      → MovedAt ((get_job_execution_details id >>= f) s).1
  unfolding get_job_execution_details
  after_details id f s at_j moves = by_outcome _ refl
    where
      by_outcome :
          (r : Throws JobExecutionDetails)
          → with_execution id (get id s.executions) s ≡ r
          → MovedAt (continue r f s).1
      by_outcome (ok d) h = moves d (with_execution-found id _ s d h)
      by_outcome (err x) h = (e, at_j, unmoved)

  then_details :
      (id : String) (m : Repo (Unit {0})) (s : State)
      → MovedAt (m s).1
      → MovedAt ((m >> get_job_execution_details id) s).1
  unfolding get_job_execution_details
  then_details id m s moved = by_outcome (m s).0
    where
      by_outcome :
          (r : Result BatchError (Unit {0}))
          → MovedAt (continue r (λ _. get_job_execution_details id) (m s).1).1
      by_outcome (ok u) = moved
      by_outcome (err x) = moved

  module _ (id : String) (now : ℕ) (s : State) (at_j : get j s.executions ≡ some e)
      (d : JobExecutionDetails) (at_id : get id s.executions ≡ some d.job_execution) where
    -- A patch that is a move of the execution that was read
    patch-Moved :
        (patch : JobExecutionPatch)
        → Moved d.job_execution (patch_execution patch d.job_execution)
        → MovedAt (update_job_execution id patch s).1
    unfolding update_job_execution
    patch-Moved patch moves =
        write_job_patch-Moved id patch (get id s.executions) s at_j refl
          (λ f h. subst (λ x. Moved x (patch_execution patch x)) (some_inj (sym at_id ∙ h)) moves)

    stop_from-Moved : MovedAt (stop_from id now d s).1
    unfolding stop_from
    stop_from-Moved = elim (Bool-cases (job_status_eq d.job_execution.status JobStatus.stopped)) [
      | inl was_stopped ↦ rw was_stopped (e, at_j, unmoved)
      | inr going ↦ elim (Bool-cases (is_active d.job_execution.status)) [
        | inl active ↦
            rw (going, active)
              (then_details id (update_job_execution id (stop_patch now)) s
                (patch-Moved (stop_patch now) (stop_patch-Moved now d.job_execution active)))
        | inr over ↦ rw (going, over) (e, at_j, unmoved)
      ]
    ]

    abandon_from-Moved : MovedAt (abandon_from id now d s).1
    unfolding abandon_from
    abandon_from-Moved =
        let f = d.job_execution in
        elim (Bool-cases (job_status_eq f.status JobStatus.abandoned)) [
          | inl abandoned_before ↦ rw abandoned_before (e, at_j, unmoved)
          | inr here_still ↦
              elim (Bool-cases (is_active f.status || job_status_eq f.status JobStatus.completed)) [
                | inl refused ↦ rw (here_still, refused) (e, at_j, unmoved)
                | inr left ↦
                    rw (here_still, left)
                      (then_details id (update_job_execution id (abandon_patch now f)) s (
                        patch-Moved (abandon_patch now f)
                          (abandon_patch-Moved now f (is_active-Ended f.status here_still left))))
              ]
        ]

pub run_command-Moved :
    (c : Command) (j : String) (e : JobExecution) (s : State)
    → get j s.executions ≡ some e
    → MovedAt j e (run_command c s)
unfolding run_command stop abandon
run_command-Moved (stop_execution id now) j e s at_j =
    after_details j e id (stop_from id now) s at_j (stop_from-Moved j e id now s at_j)
run_command-Moved (abandon_execution id now) j e s at_j =
    after_details j e id (abandon_from id now) s at_j (abandon_from-Moved j e id now s at_j)

Moved-completed : (e e' : JobExecution) → e.status ≡ JobStatus.completed → Moved e e' → e' ≡ e
Moved-completed e _ done unmoved = refl
Moved-completed e _ done (stopped now active) = absurd (not_active (subst Active done active))
  where
    not_active : Active JobStatus.completed → ⊥
    not_active a = elim a [ ]
Moved-completed e _ done (abandoned end_date over kept) = absurd (not_ended (subst Ended done over))
  where
    not_ended : Ended JobStatus.completed → ⊥
    not_ended a = elim a [ ]

-- No sequence of stops and abandons changes an execution that is COMPLETED.
pub run_commands-completed :
    (cs : List Command) (j : String) (e : JobExecution) (s : State)
    → get j s.executions ≡ some e
    → e.status ≡ JobStatus.completed
    → get j (run_commands cs s).executions ≡ some e
unfolding run_commands
run_commands-completed [] j e s at_j done = at_j
run_commands-completed (c ∷ cs) j e s at_j done =
    let (e', at_j', moved) = run_command-Moved c j e s at_j in
    let q : e' ≡ e = Moved-completed e e' done moved in
    run_commands-completed cs j e (run_command c s) (at_j' ∙ ap some q) done

pub Active-is_active :
    (a : JobStatus) → Active a → (is_active a ≡ true) × (job_status_eq a JobStatus.stopped ≡ false)
unfolding is_active
Active-is_active _ starting = (refl, refl)
Active-is_active _ started = (refl, refl)
Active-is_active _ stopping = (refl, refl)

-- ===== src/Validator/Routes.antt =====
-- What packages/core/src/core/validation/definition-validator.ts guarantees to the executor: the
-- routing of an accepted job leads to steps that the job has.
use nest_batch.Prelude.{String, ◌≡◌, false, some, ok, Bool-cases, inl, inr, arith}
use nest_batch.Prelude.Text.{Text}
use nest_batch.Prelude.Table.{get, has, get-has}
use nest_batch.Prelude.Sets.{member}
use nest_batch.Errors.{missing_target, no_start_step}
use nest_batch.Status.{FlowExecutionStatus}
use nest_batch.Executor.Definitions.{StepDefinition, JobDefinition}
use nest_batch.Executor.Routing.{route}
use nest_batch.Executor.Progress.{route-Leads}
use nest_batch.Validator.{in_steps, validate, inherited_names}
use nest_batch.Validator.Checks.{bad_to, bad_start}
use nest_batch.Validator.Verdict.{validate-accepts}

module _ {W : Type 0} (job : JobDefinition W) where
  abbrev pub Found : String → Type 0
  Found step_id = (step : StepDefinition) × (get step_id job.steps ≡ some step)

  own_step :
      (step_id : String)
      → (in_steps job.steps step_id ≡ false → ⊥)
      → member step_id inherited_names ≡ false
      → Found step_id
  unfolding in_steps
  own_step step_id there own =
      get-has step_id job.steps (elim (Bool-cases (has step_id job.steps)) [
        | inl e ↦ e
        | inr e ↦ absurd (there (ground (arith, e, own)))
      ])

  -- placeholder
  pub accepted_start-Found :
      validate job ≡ ok tt
      → member job.start_step_id inherited_names ≡ false
      → Found job.start_step_id
  accepted_start-Found h own =
      own_step job.start_step_id (λ b. (validate-accepts job).0 h no_start_step (bad_start b)) own

  -- In a job that the validator accepts, a step that the routing of an exit status names is a step
  -- of the job, where its name is not one that every object inherits.
  pub accepted_route-Found :
      (current next : String) (status : Text) (flow_status : FlowExecutionStatus)
      → validate job ≡ ok tt
      → member next inherited_names ≡ false
      → route job.transitions current status flow_status ≡ ok (some (some next))
      → Found next
  accepted_route-Found current next status flow_status h own r =
      let (t, m, _, q) = route-Leads job.transitions current next status flow_status r in
      own_step next (λ b. (validate-accepts job).0 h missing_target (bad_to t next m q b)) own

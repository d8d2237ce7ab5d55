-- ===== src/Validator/Checks.antt =====
-- The single checks of packages/core/src/core/validation/definition-validator.ts, and what it means
-- that a job violates one of them.
use nest_batch.Prelude.{
  String, ◌≡◌, refl, sym, ap, subst, ◌∙◌, Bool, true, false, not, Option, none, some, List, [], ◌∷◌,
  ok, err, Has, here, there, arith, ◌⊎◌, inl, inr, Bool-cases, some_inj, then-ok, then-err, ◌==◌,
}
use nest_batch.Prelude.Table.{Table, keys}
use nest_batch.Prelude.Sets.{member}
use nest_batch.Errors.{
  BatchError, invalid_flow_graph, FlowCode, empty_job, no_start_step, invalid_chunk_size,
  invalid_partitions, missing_target, duplicate_decider, unreachable_step, cycle_detected, Throws,
}
use nest_batch.Flow.{TransitionDefinition}
use nest_batch.Partitions.{ChunkPartitionConfig, validate_partitions}
use nest_batch.Executor.Definitions.{
  ChunkStep, StepDefinition, chunk, tasklet, DeciderDefinition, JobDefinition,
}
use nest_batch.Validator.{
  in_steps, require, check_partitions, check_chunk, check_step, check_steps, check_target,
  validate_transition, check_reached,
}
use nest_batch.Validator.Graph.{Reaches, Circles}

-- Two deciders of one step
pub data Twice {W : Type 0} : List (DeciderDefinition W) → Type 0 where
  now :
      {d e : DeciderDefinition W} {deciders : List (DeciderDefinition W)}
      → Has e deciders
      → d.after_step_id ≡ e.after_step_id
      → Twice (d ∷ deciders)
  later :
      {d : DeciderDefinition W} {deciders : List (DeciderDefinition W)}
      → Twice deciders
      → Twice (d ∷ deciders)

-- What is wrong with a job, under the code that the validator reports it with
pub data Violation {W : Type 0} (job : JobDefinition W) : FlowCode → Type 0 where
  no_steps : job.steps ≡ [] → Violation job empty_job
  bad_start : in_steps job.steps job.start_step_id ≡ false → Violation job no_start_step
  zero_chunk_size :
      (id : String) (step : ChunkStep)
      → Has (id, chunk step) job.steps
      → step.chunk_size ≡ 0
      → Violation job invalid_chunk_size
  zero_count :
      (id : String) (step : ChunkStep) (config : ChunkPartitionConfig)
      → Has (id, chunk step) job.steps
      → step.partitions ≡ some config
      → config.count ≡ 0
      → Violation job invalid_partitions
  bad_from :
      (t : TransitionDefinition)
      → Has t job.transitions
      → in_steps job.steps t.from_step_id ≡ false
      → Violation job missing_target
  bad_to :
      (t : TransitionDefinition) (step_id : String)
      → Has t job.transitions
      → t.to_step_id ≡ some step_id
      → in_steps job.steps step_id ≡ false
      → Violation job missing_target
  bad_decider :
      (d : DeciderDefinition W)
      → Has d job.deciders
      → in_steps job.steps d.after_step_id ≡ false
      → Violation job missing_target
  two_deciders : Twice job.deciders → Violation job duplicate_decider
  unreached :
      (step_id : String)
      → Has step_id (keys job.steps)
      → (Reaches job.transitions job.start_step_id step_id → ⊥)
      → Violation job unreachable_step
  circular :
      (step_id : String)
      → Reaches job.transitions job.start_step_id step_id
      → Circles job.transitions step_id step_id
      → Violation job cycle_detected

pub require-ok : (b : Bool) (code : FlowCode) → require b code ≡ ok tt → b ≡ true
unfolding require
require-ok true code h = refl
require-ok false code h = absurd cc

pub require-err :
    (b : Bool) (code : FlowCode) {e : BatchError}
    → require b code ≡ err e
    → (b ≡ false) × (e ≡ invalid_flow_graph code)
unfolding require
require-err true code h = absurd cc
require-err false code h = (refl, cc)

abbrev Fails : {A : Type 0} → (A → FlowCode → Type 0) → List A → BatchError → Type 0
Fails {A} P xs e = (x : A) × (code : FlowCode) × Has x xs × P x code × (e ≡ invalid_flow_graph code)

-- What is wrong with one step
pub data StepViolation : String × StepDefinition → FlowCode → Type 0 where
  chunk_size_zero :
      {id : String} {step : ChunkStep}
      → step.chunk_size ≡ 0
      → StepViolation (id, chunk step) invalid_chunk_size
  count_zero :
      {id : String} {step : ChunkStep} (config : ChunkPartitionConfig)
      → step.partitions ≡ some config
      → config.count ≡ 0
      → StepViolation (id, chunk step) invalid_partitions

check_partitions-cases :
    (o : Option ChunkPartitionConfig)
    → (check_partitions o ≡ ok tt)
      ⊎ ((config : ChunkPartitionConfig) × (o ≡ some config)
          × (config.count ≡ 0)
          × (check_partitions o ≡ err (invalid_flow_graph invalid_partitions)))
unfolding check_partitions validate_partitions
check_partitions-cases none = inl refl
check_partitions-cases (some config) = elim (Bool-cases (config.count == 0)) [
  | inl e ↦ inr (config, refl, ground (arith, e), rw (check_partitions, e) refl)
  | inr e ↦ inl (rw (check_partitions, e) refl)
]

check_partitions-zero :
    (config : ChunkPartitionConfig)
    → config.count ≡ 0
    → check_partitions (some config) ≡ err (invalid_flow_graph invalid_partitions)
unfolding check_partitions validate_partitions
check_partitions-zero config z = rw (check_partitions, validate_partitions, z) refl

true_not_false : true ≡ false → ⊥
true_not_false h = absurd cc

ok_not_err : {x : BatchError} → ◌≡◌ {A = Throws (Unit {0})} (ok tt) (err x) → ⊥
ok_not_err h = absurd cc

check_step-err :
    (id : String) (step : StepDefinition) {e : BatchError}
    → check_step step ≡ err e
    → (code : FlowCode) × StepViolation (id, step) code × (e ≡ invalid_flow_graph code)
unfolding check_step check_chunk
check_step-err id (tasklet _) h = absurd cc
check_step-err id (chunk step) h = elim (then-err _ _ h) [
  | inl k ↦
      let (b, q) = require-err (not (step.chunk_size == 0)) invalid_chunk_size k in
      (invalid_chunk_size, chunk_size_zero (ground (arith, b)), q)
  | inr k ↦ elim (check_partitions-cases step.partitions) [
    | inl f ↦ absurd cc
    | inr (config, f, z, q) ↦ (invalid_partitions, count_zero config f z, cc)
  ]
]

pub check_step-ok :
    (id : String) (step : StepDefinition) {code : FlowCode}
    → check_step step ≡ ok tt
    → StepViolation (id, step) code
    → ⊥
unfolding check_step check_chunk check_partitions validate_partitions
check_step-ok id (tasklet _) h v = elim v [ ]
check_step-ok id (chunk step) h (chunk_size_zero z) =
    let b = require-ok (not (step.chunk_size == 0)) invalid_chunk_size (then-ok _ _ h).0 in
    ground (arith, b, z)
check_step-ok id (chunk step) h (count_zero config f z) =
    let first = require (not (step.chunk_size == 0)) invalid_chunk_size in
    let k = (then-ok first (check_partitions step.partitions) h).1 in
    let bad = check_partitions-zero config z in
    absurd (ok_not_err (sym k ∙ ap check_partitions f ∙ bad))

pub check_steps-err :
    (steps : Table StepDefinition) {e : BatchError}
    → check_steps steps ≡ err e
    → Fails StepViolation steps e
unfolding check_steps
check_steps-err [] h = absurd cc
check_steps-err ((id, step) ∷ steps) h = elim (then-err _ _ h) [
  | inl k ↦ let (code, v, q) = check_step-err id step k in ((id, step), code, here, v, q)
  | inr k ↦ let (x, code, m, v, q) = check_steps-err steps k in (x, code, there m, v, q)
]

pub check_steps-ok :
    (id : String) (step : StepDefinition) (steps : Table StepDefinition)
    → check_steps steps ≡ ok tt
    → Has (id, step) steps
    → check_step step ≡ ok tt
unfolding check_steps
check_steps-ok id step _ h (here {xs = steps}) = (then-ok _ _ h).0
check_steps-ok id step _ h (there {y = u} {xs = steps} m) =
    check_steps-ok id step steps (then-ok _ _ h).1 m

check_target-err :
    (steps : Table StepDefinition) (o : Option String) {e : BatchError}
    → check_target steps o ≡ err e
    → (y : String) × (o ≡ some y)
      × (in_steps steps y ≡ false)
      × (e ≡ invalid_flow_graph missing_target)
unfolding check_target
check_target-err steps none h = absurd cc
check_target-err steps (some y) h =
    let (b, q) = require-err (in_steps steps y) missing_target h in (y, refl, b, q)

check_target-ok :
    (steps : Table StepDefinition) (o : Option String) (y : String)
    → check_target steps o ≡ ok tt
    → o ≡ some y
    → in_steps steps y ≡ true
unfolding check_target
check_target-ok steps none y h q = absurd cc
check_target-ok steps (some z) y h q =
    subst (λ w. in_steps steps w ≡ true) (some_inj q)
      (require-ok (in_steps steps z) missing_target h)

module _ (steps : Table StepDefinition) where
  -- What is wrong with one transition
  pub data Dangling (t : TransitionDefinition) : Type 0 where
    from_nowhere : in_steps steps t.from_step_id ≡ false → Dangling t
    to_nowhere : (y : String) → t.to_step_id ≡ some y → in_steps steps y ≡ false → Dangling t

  pub validate_transition-err :
      (transitions : List TransitionDefinition) {e : BatchError}
      → validate_transition transitions steps ≡ err e
      → (t : TransitionDefinition) × Has t transitions
        × Dangling t
        × (e ≡ invalid_flow_graph missing_target)
  unfolding validate_transition
  validate_transition-err [] h = absurd cc
  validate_transition-err (t ∷ transitions) h = elim (then-err _ _ h) [
    | inl k ↦
        let (b, q) = require-err (in_steps steps t.from_step_id) missing_target k in
        (t, here, from_nowhere b, q)
    | inr k ↦ elim (then-err _ _ k) [
      | inl j ↦
          let (y, p, b, q) = check_target-err steps t.to_step_id j in (t, here, to_nowhere y p b, q)
      | inr j ↦ let (u, m, d, q) = validate_transition-err transitions j in (u, there m, d, q)
    ]
  ]

  pub validate_transition-ok :
      (t : TransitionDefinition) (transitions : List TransitionDefinition)
      → validate_transition transitions steps ≡ ok tt
      → Has t transitions
      → Dangling t
      → ⊥
  unfolding validate_transition
  validate_transition-ok t _ h (here {xs = transitions}) (from_nowhere b) =
      let r : in_steps steps t.from_step_id ≡ true =
        require-ok (in_steps steps t.from_step_id) missing_target (then-ok _ _ h).0 in
      ground (arith, r, b)
  validate_transition-ok t _ h (here {xs = transitions}) (to_nowhere y q b) =
      let k : check_target steps t.to_step_id ≡ ok tt = (then-ok _ _ (then-ok _ _ h).1).0 in
      absurd (true_not_false (sym (check_target-ok steps t.to_step_id y k q) ∙ b))
  validate_transition-ok t _ h (there {y = u} {xs = transitions} m) d =
      validate_transition-ok t transitions (then-ok _ _ (then-ok _ _ h).1).1 m d

pub check_reached-err :
    (reachable step_ids : List String) {e : BatchError}
    → check_reached reachable step_ids ≡ err e
    → (x : String) × Has x step_ids
      × (member x reachable ≡ false)
      × (e ≡ invalid_flow_graph unreachable_step)
unfolding check_reached
check_reached-err reachable [] h = absurd cc
check_reached-err reachable (x ∷ step_ids) h = elim (then-err _ _ h) [
  | inl k ↦ let (b, q) = require-err (member x reachable) unreachable_step k in (x, here, b, q)
  | inr k ↦ let (y, m, b, q) = check_reached-err reachable step_ids k in (y, there m, b, q)
]

pub check_reached-ok :
    (x : String) (reachable step_ids : List String)
    → check_reached reachable step_ids ≡ ok tt
    → Has x step_ids
    → member x reachable ≡ true
unfolding check_reached
check_reached-ok x reachable _ h (here {xs = step_ids}) =
    require-ok (member x reachable) unreachable_step (then-ok _ _ h).0
check_reached-ok x reachable _ h (there {y = u} {xs = step_ids} m) =
    check_reached-ok x reachable step_ids (then-ok _ _ h).1 m

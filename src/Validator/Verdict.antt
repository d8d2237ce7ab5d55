-- ===== src/Validator/Verdict.antt =====
-- `validate` of packages/core/src/core/validation/definition-validator.ts: which jobs it accepts, and
-- that the code it reports names what is wrong.
use nest_batch.Prelude.{
  String, ◌≡◌, refl, false, not, [], ◌∷◌, ok, err, Has, inl, inr, then-ok, then-err, unless_err,
  ◌↔◌,
}
use nest_batch.Prelude.Table.{Table, keys}
use nest_batch.Prelude.Sets.{member}
use nest_batch.Errors.{
  BatchError, invalid_flow_graph, FlowCode, empty_job, no_start_step, missing_target,
  unreachable_step, cycle_detected,
}
use nest_batch.Flow.{TransitionDefinition}
use nest_batch.Executor.Definitions.{StepDefinition, chunk, tasklet, JobDefinition}
use nest_batch.Validator.{
  in_steps, require, check_steps, validate_transition, check_deciders, check_reached, is_empty,
  validate, collect_reachable, assert_acyclic,
}
use nest_batch.Validator.Graph.{Reaches}
use nest_batch.Validator.Checks.{
  Violation, no_steps, bad_start, zero_chunk_size, zero_count, bad_from, bad_to, bad_decider,
  two_deciders, unreached, circular, StepViolation, chunk_size_zero, count_zero, Dangling,
  from_nowhere, to_nowhere, require-ok, require-err, check_steps-err, check_steps-ok, check_step-ok,
  validate_transition-err, validate_transition-ok, check_reached-err, check_reached-ok,
}
use nest_batch.Validator.Deciders.{
  DeciderViolation, after_nowhere, known_step, twice, check_deciders-err, check_deciders-ok,
}
use nest_batch.Validator.Reachable.{collect_reachable-exact}
use nest_batch.Validator.Acyclic.{assert_acyclic-decides, assert_acyclic-Blames}

module _ {W : Type 0} (job : JobDefinition W) where
  abbrev pub Blamed : BatchError → Type 0
  Blamed e = (code : FlowCode) × Violation job code × (e ≡ invalid_flow_graph code)

  -- The checks, one by one
  record Passed : Type 0 where
    nonempty : require (not (is_empty job.steps)) empty_job ≡ ok tt
    start : require (in_steps job.steps job.start_step_id) no_start_step ≡ ok tt
    steps : check_steps job.steps ≡ ok tt
    transitions : validate_transition job.transitions job.steps ≡ ok tt
    deciders : check_deciders job.steps [] job.deciders ≡ ok tt
    reached :
        check_reached (collect_reachable job.transitions job.start_step_id) (keys job.steps) ≡ ok tt
    acyclic : assert_acyclic job.transitions job.start_step_id ≡ ok tt

  passed : validate job ≡ ok tt → Passed
  unfolding validate
  passed h =
      let (a, h1) = then-ok _ _ h in
      let (b, h2) = then-ok _ _ h1 in
      let (c, h3) = then-ok _ _ h2 in
      let (d, h4) = then-ok _ _ h3 in
      let (e, h5) = then-ok _ _ h4 in
      let (f, g) = then-ok _ _ h5 in
      record {
        nonempty = a;
        start = b;
        steps = c;
        transitions = d;
        deciders = e;
        reached = f;
        acyclic = g;
      }

  empty-cases : (steps : Table StepDefinition) → not (is_empty steps) ≡ false → steps ≡ []
  unfolding is_empty
  empty-cases [] h = refl
  empty-cases (s ∷ steps) h = absurd cc

  blame_step :
      {e : BatchError} (x : String × StepDefinition) (code : FlowCode)
      → Has x job.steps
      → StepViolation x code
      → e ≡ invalid_flow_graph code
      → Blamed e
  blame_step (id, tasklet t) code m v q = elim v [ ]
  blame_step (id, chunk step) code m (chunk_size_zero z) q = (code, zero_chunk_size id step m z, q)
  blame_step (id, chunk step) code m (count_zero config f z) q =
      (code, zero_count id step config m f z, q)

  blame_transition :
      {e : BatchError} (t : TransitionDefinition)
      → Has t job.transitions
      → Dangling job.steps t
      → e ≡ invalid_flow_graph missing_target
      → Blamed e
  blame_transition t m (from_nowhere b) q = (missing_target, bad_from t m b, q)
  blame_transition t m (to_nowhere y p b) q = (missing_target, bad_to t y m p b, q)

  blame_decider :
      {e : BatchError} (code : FlowCode)
      → DeciderViolation job.steps [] job.deciders code
      → e ≡ invalid_flow_graph code
      → Blamed e
  unfolding member
  blame_decider code (after_nowhere d m b) q = (code, bad_decider d m b, q)
  blame_decider code (known_step d m k) q = absurd cc
  blame_decider code (twice w) q = (code, two_deciders w, q)

  unreached_step :
      (x : String)
      → member x (collect_reachable job.transitions job.start_step_id) ≡ false
      → Reaches job.transitions job.start_step_id x
      → ⊥
  unreached_step x b r =
      let m = (collect_reachable-exact job.transitions job.start_step_id x).1 r in cc

  blame_start :
      {e : BatchError}
      → require (in_steps job.steps job.start_step_id) no_start_step ≡ err e
      → Blamed e
  blame_start k =
      let (b, q) = require-err (in_steps job.steps job.start_step_id) no_start_step k in
      (no_start_step, bad_start b, q)

  blame_empty : {e : BatchError} → require (not (is_empty job.steps)) empty_job ≡ err e → Blamed e
  blame_empty k =
      let (b, q) = require-err (not (is_empty job.steps)) empty_job k in
      (empty_job, no_steps (empty-cases job.steps b), q)

  blame_reached :
      {e : BatchError}
      → check_reached (collect_reachable job.transitions job.start_step_id) (keys job.steps) ≡ err e
      → Blamed e
  blame_reached k =
      let reachable = collect_reachable job.transitions job.start_step_id in
      let (x, m, b, q) = check_reached-err reachable (keys job.steps) k in
      (unreachable_step, unreached x m (unreached_step x b), q)

  blame_acyclic :
      {e : BatchError} → assert_acyclic job.transitions job.start_step_id ≡ err e → Blamed e
  blame_acyclic {e} k =
      let (q, (x, r, c)) = assert_acyclic-Blames job.transitions job.start_step_id e k in
      (cycle_detected, circular x r c, q)

  -- What `validate` throws is an InvalidFlowGraphError, and the job has the fault that its code
  -- names.
  pub validate-Violation : (e : BatchError) → validate job ≡ err e → Blamed e
  unfolding validate
  validate-Violation e h = elim (then-err _ _ h) [
    | inl k ↦ blame_empty k
    | inr h1 ↦ elim (then-err _ _ h1) [
      | inl k ↦ blame_start k
      | inr h2 ↦ elim (then-err _ _ h2) [
        | inl k ↦ let (x, code, m, v, q) = check_steps-err job.steps k in blame_step x code m v q
        | inr h3 ↦ elim (then-err _ _ h3) [
          | inl k ↦
              let (t, m, d, q) = validate_transition-err job.steps job.transitions k in
              blame_transition t m d q
          | inr h4 ↦ elim (then-err _ _ h4) [
            | inl k ↦
                let (code, v, q) = check_deciders-err job.steps [] job.deciders k in
                blame_decider code v q
            | inr h5 ↦ elim (then-err _ _ h5) [ inl k ↦ blame_reached k | inr k ↦ blame_acyclic k ]
          ]
        ]
      ]
    ]
  ]

  Passed-Violation : (code : FlowCode) → Passed → Violation job code → ⊥
  unfolding is_empty require
  Passed-Violation _ p (no_steps e) = absurd (not_empty job.steps e p.nonempty)
    where
      not_empty :
          (steps : Table StepDefinition)
          → steps ≡ []
          → require (not (is_empty steps)) empty_job ≡ ok tt
          → ⊥
      not_empty [] e h = absurd cc
      not_empty (x ∷ xs) e h = absurd cc
  Passed-Violation _ p (bad_start b) =
      let i = require-ok (in_steps job.steps job.start_step_id) no_start_step p.start in cc
  Passed-Violation _ p (zero_chunk_size id step m z) =
      check_step-ok id (chunk step) (check_steps-ok id (chunk step) job.steps p.steps m)
        (chunk_size_zero z)
  Passed-Violation _ p (zero_count id step config m f z) =
      check_step-ok id (chunk step) (check_steps-ok id (chunk step) job.steps p.steps m)
        (count_zero config f z)
  Passed-Violation _ p (bad_from t m b) =
      validate_transition-ok job.steps t job.transitions p.transitions m (from_nowhere b)
  Passed-Violation _ p (bad_to t y m q b) =
      validate_transition-ok job.steps t job.transitions p.transitions m (to_nowhere y q b)
  Passed-Violation _ p (bad_decider d m b) =
      check_deciders-ok job.steps [] job.deciders p.deciders (after_nowhere d m b)
  Passed-Violation _ p (two_deciders w) =
      check_deciders-ok job.steps [] job.deciders p.deciders (twice w)
  Passed-Violation _ p (unreached x m no_path) = no_path (
      (collect_reachable-exact job.transitions job.start_step_id x).0 (
        check_reached-ok x (collect_reachable job.transitions job.start_step_id) (keys job.steps)
          p.reached m))
  Passed-Violation _ p (circular x r c) =
      (assert_acyclic-decides job.transitions job.start_step_id).0 p.acyclic x r c

  -- `validate` accepts a job exactly when nothing is wrong with it: it has steps, the start, the
  -- ends of transitions and the steps of deciders are found, chunk sizes and partition counts are
  -- not zero, no step has two deciders, every step is reached from the start, and no reached step
  -- lies on a circle.
  pub validate-accepts : (validate job ≡ ok tt) ↔ ((code : FlowCode) → Violation job code → ⊥)
  validate-accepts = (
    λ h code v. Passed-Violation code (passed h) v,
    λ fine.
        unless_err (validate job) (λ e h. let (code, v, _) = validate-Violation e h in fine code v),
  )

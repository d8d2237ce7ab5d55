-- ===== src/Validator.antt =====
-- packages/core/src/core/validation/definition-validator.ts: the structural checks of a job's
-- definition. `steps` lists the entries in the order of `Object.keys`.
pub mod Graph
pub mod Reachable
pub mod Acyclic
pub mod Checks
pub mod Deciders
pub mod Routes
pub mod Verdict
mod Tests
use nest_batch.Prelude.{
  ℕ, zero, suc, String, Bool, true, false, not, ◌&&◌, ◌||◌, Option, none, some, List, [], ◌∷◌, ◌++◌,
  length, Result, ok, err, ◌==◌, ◌===◌, if◌then◌else◌, ◌>>=◌, ◌>>◌,
}
use nest_batch.Prelude.Table.{Table, has, keys}
use nest_batch.Prelude.Sets.{member, delete}
use nest_batch.Errors.{
  invalid_flow_graph, FlowCode, empty_job, no_start_step, invalid_chunk_size, invalid_partitions,
  missing_target, duplicate_decider, unreachable_step, cycle_detected, Throws,
}
use nest_batch.Flow.{TransitionDefinition}
use nest_batch.Partitions.{ChunkPartitionConfig, validate_partitions}
use nest_batch.Executor.Definitions.{
  ChunkStep, StepDefinition, chunk, tasklet, DeciderDefinition, JobDefinition,
}

-- The names that every object literal inherits from `Object.prototype`, which the operator `in`
-- finds as well as the object's own keys.
abbrev pub inherited_names : List String
inherited_names =
    "constructor" ∷ "__defineGetter__" ∷ "__defineSetter__" ∷ "hasOwnProperty" ∷ "__lookupGetter__"
    ∷ "__lookupSetter__" ∷ "isPrototypeOf" ∷ "propertyIsEnumerable" ∷ "toString" ∷ "valueOf"
    ∷ "__proto__" ∷ "toLocaleString" ∷ []

-- `step_id in steps`
unfoldable pub in_steps : Table StepDefinition → String → Bool
in_steps steps step_id = has step_id steps || member step_id inherited_names

unfoldable pub require : Bool → FlowCode → Throws (Unit {0})
require test code = if test then ok tt else err (invalid_flow_graph code)

-- `try { validatePartitions(...) } catch`: whatever is thrown becomes `INVALID_PARTITIONS`.
unfoldable pub check_partitions : Option ChunkPartitionConfig → Throws (Unit {0})
unfolding validate_partitions
check_partitions partitions = elim (validate_partitions partitions) [
  | ok _ ↦ ok tt
  | err _ ↦ err (invalid_flow_graph invalid_partitions)
]

unfoldable pub check_chunk : ChunkStep → Throws (Unit {0})
check_chunk step = do
  require (not (step.chunk_size == 0)) invalid_chunk_size
  check_partitions step.partitions

unfoldable pub check_step : StepDefinition → Throws (Unit {0})
check_step (chunk step) = check_chunk step
check_step (tasklet id) = ok tt

unfoldable pub check_steps : Table StepDefinition → Throws (Unit {0})
check_steps [] = ok tt
check_steps ((step_id, step) ∷ steps) = do check_step step; check_steps steps

unfoldable pub check_target : Table StepDefinition → Option String → Throws (Unit {0})
check_target steps none = ok tt
check_target steps (some step_id) = require (in_steps steps step_id) missing_target

-- `validateTransition`, whose loop is also the one of `validate`
unfoldable pub validate_transition :
    List TransitionDefinition → Table StepDefinition → Throws (Unit {0})
validate_transition [] steps = ok tt
validate_transition (t ∷ transitions) steps = do
  require (in_steps steps t.from_step_id) missing_target
  check_target steps t.to_step_id
  validate_transition transitions steps

module _ {W : Type 0} where
  unfoldable pub check_deciders :
      Table StepDefinition
      → (decider_step_ids : List String) → List (DeciderDefinition W)
      → Throws (Unit {0})
  check_deciders steps decider_step_ids [] = ok tt
  check_deciders steps decider_step_ids (d ∷ deciders) = do
    require (in_steps steps d.after_step_id) missing_target
    require (not (member d.after_step_id decider_step_ids)) duplicate_decider
    check_deciders steps (d.after_step_id ∷ decider_step_ids) deciders

-- What the inner loop of `collectReachable` pushes.
unfoldable pub pushed : List TransitionDefinition → String → List String → List String
pushed [] cur reachable = []
pushed (t ∷ transitions) cur reachable =
    let rest = pushed transitions cur reachable in
    elim t.to_step_id [
      | none ↦ rest
      | some step_id ↦
          if t.from_step_id === cur && not (member step_id reachable) then step_id ∷ rest else rest
    ]

-- `while (queue.length > 0)`, on fuel.
unfoldable pub collect :
    ℕ → List TransitionDefinition → (queue reachable : List String) → List String
collect n transitions [] reachable = reachable
collect zero transitions (cur ∷ queue) reachable = reachable
collect (suc n) transitions (cur ∷ queue) reachable = elim (member cur reachable) [
  | true ↦ collect n transitions queue reachable
  | false ↦
      collect n transitions (queue ++ pushed transitions cur (cur ∷ reachable)) (cur ∷ reachable)
]

-- Each transition is pushed once at most, so the queue holds at most one entry for each of them
-- besides the start.
unfoldable pub collect_reachable : List TransitionDefinition → String → List String
collect_reachable transitions start = collect (suc (length transitions)) transitions (start ∷ []) []

unfoldable pub check_reached : List String → List String → Throws (Unit {0})
check_reached reachable [] = ok tt
check_reached reachable (step_id ∷ step_ids) = do
  require (member step_id reachable) unreachable_step
  check_reached reachable step_ids

-- The two sets that `assertAcyclic` keeps.
pub record Marks : Type 0 where
  pub visited : List String
  pub in_stack : List String

-- `for (const t of job.transitions)`, where `go` is the recursive call.
unfoldable pub each_successor :
    (go : String → Marks → Throws Marks) → List TransitionDefinition → String → Marks → Throws Marks
each_successor go [] step_id marks = ok marks
each_successor go (t ∷ transitions) step_id marks = elim t.to_step_id [
  | none ↦ each_successor go transitions step_id marks
  | some next ↦
      if t.from_step_id === step_id
      then go next marks >>= each_successor go transitions step_id
      else each_successor go transitions step_id marks
]

unfoldable pub enter : String → Marks → Marks
enter step_id marks = record {
  visited = step_id ∷ marks.visited;
  in_stack = step_id ∷ marks.in_stack;
}

unfoldable pub leave : String → Marks → Marks
leave step_id marks = record marks { in_stack = delete step_id marks.in_stack }

-- `detectCycle`, on fuel.
unfoldable pub detect_cycle : ℕ → List TransitionDefinition → String → Marks → Throws Marks
unfolding enter leave
detect_cycle zero transitions step_id marks = ok marks
detect_cycle (suc n) transitions step_id marks = elim (member step_id marks.in_stack) [
  | true ↦ err (invalid_flow_graph cycle_detected)
  | false ↦ elim (member step_id marks.visited) [
    | true ↦ ok marks
    | false ↦
        each_successor (detect_cycle n transitions) transitions step_id (enter step_id marks)
        >>= λ after. ok (leave step_id after)
  ]
]

-- Each step that is entered on the way down is the start of a transition of its own.
unfoldable pub assert_acyclic : List TransitionDefinition → String → Throws (Unit {0})
assert_acyclic transitions start =
    detect_cycle (suc (suc (length transitions))) transitions start
      (record { visited = []; in_stack = [] })
    >>= λ _. ok tt

unfoldable pub is_empty : {A : Type 0} → List A → Bool
is_empty [] = true
is_empty (x ∷ xs) = false

module _ {W : Type 0} where
  unfoldable pub validate : JobDefinition W → Throws (Unit {0})
  validate job = do
    require (not (is_empty job.steps)) empty_job
    require (in_steps job.steps job.start_step_id) no_start_step
    check_steps job.steps
    validate_transition job.transitions job.steps
    check_deciders job.steps [] job.deciders
    check_reached (collect_reachable job.transitions job.start_step_id) (keys job.steps)
    assert_acyclic job.transitions job.start_step_id

-- ===== src/Validator/Tests.antt =====
-- A job of two steps that is accepted, a circular one that is not, and the theorems about them.
use nest_batch.Prelude.{String, ◌≡◌, refl, true, false, some, List, [], ◌∷◌, ok, err, ◌↔◌, filter}
use nest_batch.Prelude.Text.{text}
use nest_batch.Prelude.Table.{has}
use nest_batch.Prelude.Sets.{member, delete}
use nest_batch.Errors.{invalid_flow_graph, cycle_detected, FlowCode}
use nest_batch.Status.{FlowExecutionStatus}
use nest_batch.Flow.{
  TransitionDefinition, evaluate, choose, transition_matches, matches_pattern, specificity,
  pattern_specificity, literal_score, max_specificity,
}
use nest_batch.Executor.Definitions.{tasklet, JobDefinition}
use nest_batch.Executor.Routing.{route}
use nest_batch.Validator.{
  require, is_empty, in_steps, check_steps, check_step, validate_transition, check_target,
  check_deciders, check_reached, collect, pushed, detect_cycle, each_successor, enter, leave,
  validate, collect_reachable, assert_acyclic,
}
use nest_batch.Validator.Graph.{Reaches}
use nest_batch.Validator.Reachable.{collect_reachable-exact}
use nest_batch.Validator.Acyclic.{Acyclic, assert_acyclic-decides}
use nest_batch.Validator.Checks.{Violation}
use nest_batch.Validator.Verdict.{Blamed, validate-Violation, validate-accepts}
use nest_batch.Validator.Routes.{Found, accepted_route-Found}

abbrev to : String → String → TransitionDefinition
to from_step_id to_step_id = record {
  from_step_id = from_step_id;
  on_status = text "COMPLETED";
  to_step_id = some to_step_id;
}

abbrev transitions : List TransitionDefinition
transitions = to "load" "report" ∷ []

abbrev circle : List TransitionDefinition
circle = to "load" "report" ∷ to "report" "load" ∷ []

abbrev job : List TransitionDefinition → JobDefinition (Unit {0})
job ts = record {
  id = "import";
  steps = ("load", tasklet "load") ∷ ("report", tasklet "report") ∷ [];
  start_step_id = "load";
  transitions = ts;
  deciders = [];
  restartable = false;
  allow_duplicate_instances = false;
}

accepted : validate (job transitions) ≡ ok tt
unfolding validate require is_empty in_steps has check_steps check_step validate_transition
    check_target check_deciders check_reached member collect_reachable collect pushed assert_acyclic
    detect_cycle each_successor delete enter leave
accepted = refl

refused : validate (job circle) ≡ err (invalid_flow_graph cycle_detected)
unfolding validate require is_empty in_steps has check_steps check_step validate_transition
    check_target check_deciders check_reached member collect_reachable collect pushed assert_acyclic
    detect_cycle each_successor delete enter leave
refused = refl

routed :
    route transitions "load" (text "COMPLETED") FlowExecutionStatus.completed
    ≡ ok (some (some "report"))
unfolding route evaluate choose filter transition_matches matches_pattern specificity
    pattern_specificity literal_score max_specificity
routed = refl

collect_reachable-exact_example :
    (member "report" (collect_reachable transitions "load") ≡ true)
    ↔ Reaches transitions "load" "report"
collect_reachable-exact_example = collect_reachable-exact transitions "load" "report"

assert_acyclic-decides_example :
    (assert_acyclic transitions "load" ≡ ok tt) ↔ Acyclic transitions "load"
assert_acyclic-decides_example = assert_acyclic-decides transitions "load"

validate-Violation_example : Blamed (job circle) (invalid_flow_graph cycle_detected)
validate-Violation_example =
    validate-Violation (job circle) (invalid_flow_graph cycle_detected) refused

validate-accepts_example :
    (validate (job transitions) ≡ ok tt)
    ↔ ((code : FlowCode) → Violation (job transitions) code → ⊥)
validate-accepts_example = validate-accepts (job transitions)

accepted_route-Found_example : Found (job transitions) "report"
unfolding member
accepted_route-Found_example =
    accepted_route-Found (job transitions) "load" "report" (text "COMPLETED")
      FlowExecutionStatus.completed accepted refl routed

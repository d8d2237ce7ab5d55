-- ===== src/Executor/Routing.antt =====
-- How packages/core/src/execution/job-executor.ts picks the step behind a finished step.
use nest_batch.Prelude.{
  ℕ, ◌+◌, String, Bool, not, ◌&&◌, ◌||◌, Option, none, some, List, [], ◌∷◌, ok, any, get_elem?,
  reverse, leb, ◌==◌, ◌===◌, if◌then◌else◌, ◌>>=◌,
}
use nest_batch.Prelude.Text.{Text, text_eq}
use nest_batch.Errors.{Throws}
use nest_batch.Status.{FlowExecutionStatus, StepStatus, flow_text}
use nest_batch.Flow.{TransitionDefinition, transition_matches, evaluate}

-- White space and line terminators, as `trim` takes them.
unfoldable pub is_space : ℕ → Bool
is_space c =
    (leb 9 c && leb c 13)
    || c == 32
    || c == 0xA0
    || c == 0x1680
    || (leb 0x2000 c && leb c 0x200A)
    || c == 0x2028
    || c == 0x2029
    || c == 0x202F
    || c == 0x205F
    || c == 0x3000
    || c == 0xFEFF

unfoldable pub trim_start : Text → Text
unfolding is_space
trim_start [] = []
trim_start (c ∷ s) = let rest = trim_start s in if is_space c then rest else c ∷ s

-- `status.trim()`
unfoldable pub trim : Text → Text
unfolding trim_start
trim s = reverse (trim_start (reverse (trim_start s)))

-- `trimmed.length > 0 ? trimmed : undefined`
unfoldable pub non_empty : Text → Option Text
non_empty [] = none
non_empty (c ∷ s) = some (c ∷ s)

unfoldable pub flow_status_of : StepStatus → FlowExecutionStatus
flow_status_of StepStatus.completed = FlowExecutionStatus.completed
flow_status_of StepStatus.failed = FlowExecutionStatus.failed
flow_status_of _ = FlowExecutionStatus.unknown

-- `deciderExitStatus ?? (result.exitCode || flowStatus)`
unfoldable pub exit_status : Option Text → Text → FlowExecutionStatus → Text
exit_status (some decided) exit_code flow_status = decided
exit_status none [] flow_status = flow_text flow_status
exit_status none (c ∷ s) flow_status = c ∷ s

unfoldable pub has_match : List TransitionDefinition → String → Text → Bool
has_match transitions from_step_id status = any (transition_matches from_step_id status) transitions

-- The target, where a transition matches.
unfoldable pub route_by :
    List TransitionDefinition → String → Text → Throws (Option (Option String))
unfolding has_match
route_by transitions from_step_id status = do
  target ← evaluate transitions from_step_id status
  ok (if has_match transitions from_step_id status then some target else none)

-- Where no transition matches the exit status, the flow status is tried.
unfoldable pub second_try :
    List TransitionDefinition
    → String
    → Text
    → FlowExecutionStatus
    → Option (Option String)
    → Throws (Option (Option String))
unfolding route_by
second_try transitions from_step_id status flow_status (some target) = ok (some target)
second_try transitions from_step_id status flow_status none =
    if not (text_eq status (flow_text flow_status))
    then route_by transitions from_step_id (flow_text flow_status)
    else ok none

unfoldable pub route :
    List TransitionDefinition
    → String
    → Text
    → FlowExecutionStatus
    → Throws (Option (Option String))
unfolding second_try route_by
route transitions from_step_id status flow_status = do
  found ← route_by transitions from_step_id status
  second_try transitions from_step_id status flow_status found

-- `stepOrder.indexOf(currentStepId) + 1`
unfoldable pub next_index : String → List String → Option ℕ
next_index current [] = none
next_index current (id ∷ ids) =
    let rest = next_index current ids in
    if id === current then some 1 else elim rest [ none ↦ none | some n ↦ some (n + 1) ]

-- `nextIdx < stepOrder.length ? stepOrder[nextIdx] : null`; `indexOf` yields -1 for a missing step.
unfoldable pub linear_next : String → List String → Option String
unfolding next_index
linear_next current order = elim (next_index current order) [
  | none ↦ get_elem? order 0
  | some n ↦ get_elem? order n
]

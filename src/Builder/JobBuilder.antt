-- ===== src/Builder/JobBuilder.antt =====
-- packages/core/src/builder/job-builder.ts, one function per method.
use nest_batch.Prelude.{
  String, Bool, true, false, not, Option, none, some, List, [], ◌∷◌, ◌++◌, ok, err, ◌===◌,
  if◌then◌else◌, ◌>>=◌,
}
use nest_batch.Prelude.Text.{Text}
use nest_batch.Prelude.Table.{Table, get, set}
use nest_batch.Errors.{plain_error, Throws}
use nest_batch.Flow.{TransitionDefinition}
use nest_batch.Executor.Definitions.{DeciderDefinition, DeciderContext, Job}
use nest_batch.Builder.{Step, id_of, ListenerDefinition, ReusableFlow}
use nest_batch.Builder.StepBuilder

-- `currentTransition`
pub record Pending : Type 0 where
  pub from_step_id : Option String
  pub on_status : Option Text
  pub to_step_id : Option (Option String)

-- `JobBuilderConfig`
pub record JobBuilderConfig (W : Type 0) : Type 0 where
  pub id : String
  pub restartable : Bool
  pub allow_duplicate_instances : Bool
  pub steps : List Step
  pub start_step_id : String
  pub transitions : List TransitionDefinition
  pub deciders : List (DeciderDefinition W)
  pub listeners : List ListenerDefinition

pub record JobBuilder (W : Type 0) : Type 0 where
  pub id : String
  pub restartable : Bool
  pub allow_duplicate_instances : Bool
  pub steps : Table Step
  pub step_order : List String
  pub transitions : List TransitionDefinition
  pub deciders : List (DeciderDefinition W)
  pub listeners : List ListenerDefinition
  pub current_transition : Option Pending

-- The calls on a builder; `add_step_with` is `addStep` with a callback, given as the calls that it
-- makes.
pub data Call (W : Type 0) : Type 0 where
  restartable allow_duplicate_instances : Bool → Call W
  add_step : Step → Call W
  add_step_with : List StepBuilder.Call → Call W
  from : String → Call W
  on : Text → Call W
  to : String → Call W
  end : Call W
  add_decider : String → (DeciderContext → Job W Text) → Call W
  use_flow : ReusableFlow W → Call W
  add_listener : ListenerDefinition → Call W

-- Whether a string is there and not empty
unfoldable pub is_truthy : Option String → Bool
is_truthy none = false
is_truthy (some s) = not (s === "")

unfoldable pub complete :
    Option String → Option Text → Option (Option String) → List TransitionDefinition
complete (some from_step_id) (some on_status) (some to_step_id) =
    if from_step_id === ""
    then []
    else record { from_step_id = from_step_id; on_status = on_status; to_step_id = to_step_id } ∷ []
complete _ _ _ = []

-- The transition that `commitTransition` pushes, if it is complete.
unfoldable pub committed : Option Pending → List TransitionDefinition
unfolding complete
committed none = []
committed (some t) = complete t.from_step_id t.on_status t.to_step_id

-- `onStatus !== undefined && toStepId !== undefined`
unfoldable pub is_specified : Option Text → Option (Option String) → Bool
is_specified (some _) (some _) = true
is_specified _ _ = false

-- `this.stepOrder.map((id) => this.steps[id]!)`; each id has its step.
unfoldable pub in_order : List String → Table Step → List Step
in_order [] steps = []
in_order (id ∷ ids) steps =
    let rest = in_order ids steps in elim (get id steps) [ none ↦ rest | some step ↦ step ∷ rest ]

module _ {W : Type 0} where
  -- `JobBuilder.create`
  unfoldable pub create : String → JobBuilder W
  create id = record {
    id = id;
    restartable = false;
    allow_duplicate_instances = false;
    steps = [];
    step_order = [];
    transitions = [];
    deciders = [];
    listeners = [];
    current_transition = none;
  }

  unfoldable pub commit_transition : JobBuilder W → JobBuilder W
  unfolding committed
  commit_transition b = record b {
    transitions = b.transitions ++ committed b.current_transition;
    current_transition = none;
  }

  unfoldable pub push_step : JobBuilder W → Step → JobBuilder W
  unfolding id_of
  push_step b step = record b {
    steps = set (id_of step) step b.steps;
    step_order = b.step_order ++ id_of step ∷ [];
  }

  -- `from` commits a transition that is specified, and drops one that is not.
  unfoldable pub settle : JobBuilder W → Option Pending → JobBuilder W
  unfolding is_specified commit_transition
  settle b none = b
  settle b (some t) = if is_specified t.on_status t.to_step_id then commit_transition b else b

  unfoldable pub start : String → JobBuilder W → JobBuilder W
  unfolding settle
  start step_id b = record (settle b b.current_transition) {
    current_transition =
        some (record { from_step_id = some step_id; on_status = none; to_step_id = none });
  }

  unfoldable pub set_status : Text → JobBuilder W → Option Pending → Throws (JobBuilder W)
  unfolding is_truthy
  set_status status b none = err (plain_error "Transition must start with .from(stepId)")
  set_status status b (some t) =
      if is_truthy t.from_step_id
      then ok (record b { current_transition = some (record t { on_status = some status }) })
      else err (plain_error "Transition must start with .from(stepId)")

  unfoldable pub set_target :
      Option String → String → JobBuilder W → Option Pending → Throws (JobBuilder W)
  unfolding commit_transition
  set_target target problem b none = err (plain_error problem)
  set_target target problem b (some t) = ok (
      commit_transition
        (record b { current_transition = some (record t { to_step_id = some target }) }))

  unfoldable pub call : Call W → JobBuilder W → Throws (JobBuilder W)
  unfolding push_step StepBuilder.calls StepBuilder.build start set_status set_target
  call (restartable value) b = ok (record b { restartable = value })
  call (allow_duplicate_instances value) b = ok (record b { allow_duplicate_instances = value })
  call (add_step step) b = ok (push_step b step)
  call (add_step_with cs) b = StepBuilder.calls cs StepBuilder.new >>= λ sb.
      StepBuilder.build sb >>= λ step. ok (push_step b step)
  call (from step_id) b = ok (start step_id b)
  call (on status) b = set_status status b b.current_transition
  call (to step_id) b =
      set_target (some step_id) "Use .from(stepId) before .to(stepId)" b b.current_transition
  call end b = set_target none "Use .from(stepId) before .end()" b b.current_transition
  call (add_decider after_step_id decide) b = ok (record b {
    deciders = b.deciders ++ record { after_step_id = after_step_id; decide = decide } ∷ [];
  })
  call (use_flow flow) b = ok (record b {
    transitions = b.transitions ++ flow.transitions;
    deciders = b.deciders ++ flow.deciders;
  })
  call (add_listener listener) b = ok (record b { listeners = b.listeners ++ listener ∷ [] })

  unfoldable pub calls : List (Call W) → JobBuilder W → Throws (JobBuilder W)
  unfolding call
  calls [] b = ok b
  calls (c ∷ cs) b = call c b >>= calls cs

  unfoldable pub config_of : JobBuilder W → List String → Throws (JobBuilderConfig W)
  unfolding in_order
  config_of b [] = err (plain_error "JobBuilder: the job has no steps")
  config_of b (first ∷ ids) = ok (record {
    id = b.id;
    restartable = b.restartable;
    allow_duplicate_instances = b.allow_duplicate_instances;
    steps = in_order (first ∷ ids) b.steps;
    start_step_id = first;
    transitions = b.transitions;
    deciders = b.deciders;
    listeners = b.listeners;
  })

  unfoldable pub build : JobBuilder W → Throws (JobBuilderConfig W)
  unfolding commit_transition config_of
  build b = let done = commit_transition b in config_of done done.step_order

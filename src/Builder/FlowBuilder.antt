-- ===== src/Builder/FlowBuilder.antt =====
-- packages/core/src/builder/flow-builder.ts, one function per method.
use nest_batch.Prelude.{
  String, Bool, true, false, Option, none, some, List, [], ◌∷◌, ok, err, if◌then◌else◌, ◌>>=◌,
}
use nest_batch.Prelude.Text.{Text}
use nest_batch.Errors.{plain_error, Throws}
use nest_batch.Flow.{TransitionDefinition}

pub record FlowBuilder : Type 0 where
  pub from_step_id : Option String
  pub on_status : Option Text
  pub to_step_id : Option (Option String)
  pub committed : Bool

unfoldable pub new : FlowBuilder
new = record { from_step_id = none; on_status = none; to_step_id = none; committed = false }

pub data Call : Type 0 where
  from : String → Call
  on : Text → Call
  to : String → Call
  end : Call

unfoldable pub unless_committed : FlowBuilder → Throws FlowBuilder → Throws FlowBuilder
unless_committed b next =
    if b.committed
    then err (plain_error "FlowBuilder already committed; create a new instance")
    else next

unfoldable pub set_status : Text → FlowBuilder → Option String → Throws FlowBuilder
set_status status b none = err (plain_error "FlowBuilder: call .from(stepId) before .on(status)")
set_status status b (some _) = ok (record b { on_status = some status })

-- `to` and `end`, where `problem` is what is thrown without `from` and `on`.
unfoldable pub commit :
    Option String → String → FlowBuilder → Option String → Option Text → Throws FlowBuilder
commit target problem b (some _) (some _) =
    ok (record b { to_step_id = some target; committed = true })
commit target problem b _ _ = err (plain_error problem)

unfoldable pub call : Call → FlowBuilder → Throws FlowBuilder
unfolding unless_committed set_status commit
call (from step_id) b = unless_committed b (ok (record b { from_step_id = some step_id }))
call (on status) b = unless_committed b (set_status status b b.from_step_id)
call (to step_id) b = unless_committed b (
    commit (some step_id) "FlowBuilder: call .from() and .on() before .to()" b b.from_step_id
      b.on_status)
call end b =
    unless_committed b
      (commit none "FlowBuilder: call .from() and .on() before .end()" b b.from_step_id b.on_status)

unfoldable pub calls : List Call → FlowBuilder → Throws FlowBuilder
unfolding call
calls [] b = ok b
calls (c ∷ cs) b = call c b >>= calls cs

unfoldable pub build_from :
    Option String → Option Text → Option (Option String) → Throws TransitionDefinition
build_from none on_status to_step_id = err (plain_error "FlowBuilder: missing .from(stepId)")
build_from (some from_step_id) none to_step_id =
    err (plain_error "FlowBuilder: missing .on(status)")
build_from (some from_step_id) (some on_status) none =
    err (plain_error "FlowBuilder: missing .to(stepId) or .end()")
build_from (some from_step_id) (some on_status) (some to_step_id) =
    ok (record { from_step_id = from_step_id; on_status = on_status; to_step_id = to_step_id })

unfoldable pub build : FlowBuilder → Throws TransitionDefinition
unfolding build_from
build b =
    if b.committed
    then build_from b.from_step_id b.on_status b.to_step_id
    else err (plain_error "FlowBuilder: must be committed via .to() or .end()")

-- ===== src/Executor/Progress.antt =====
-- The flow loop of packages/core/src/execution/job-executor.ts ends where every move of it, by a
-- transition or in declaration order, goes down in some ranking of the steps.
use nest_batch.Prelude.{
  ℕ, zero, suc, ◌<◌, String, ◌≡◌, ◌≢◌, refl, sym, ap, ◌∙◌, subst, Bool, true, not, Option, none,
  some, List, ◌∷◌, ◌++◌, Result, ok, err, ok_inj, some_inj, arith, eq_iff, Has, here,
  Has-append_right, ◌===◌, Bool-cases, inl, inr,
}
use nest_batch.Prelude.Text.{Text, text}
use nest_batch.Prelude.Table.{get, keys}
use nest_batch.Prelude.Effects.{pure, lift, Ensures, bind_rule, ◌>>◌}
use nest_batch.Errors.{BatchError, message, Throws}
use nest_batch.Status.{JobStatus, StepStatus, step_status_eq, FlowExecutionStatus, flow_text}
use nest_batch.Flow.{TransitionDefinition, transition_matches, evaluate}
use nest_batch.Flow.Choice.{Verdict, no_match, winner, tie, evaluate-Verdict}
use nest_batch.Repository.{JobExecution, JobExecutionPatch}
use nest_batch.Executor.Definitions.{StepDefinition, Env, Job, StepResult, JobDefinition, Services}
use nest_batch.Executor.Routing.{route_by, second_try, route, linear_next}
use nest_batch.Executor.Patches.{Next, go_to, fail_job, next_step}
use nest_batch.Executor.Flow.{
  update_job, failed_patch, perform, routed, decider_exit_status, decider_context, pick_next, go_on,
  visit, flow,
}

-- A transition that leads from `current` to `next`
abbrev pub Leads : List TransitionDefinition → String → String → Type 0
Leads transitions current next =
    (t : TransitionDefinition) × Has t transitions
    × (t.from_step_id ≡ current)
    × (t.to_step_id ≡ some next)

module _ (transitions : List TransitionDefinition) (current next : String) where
  from_match :
      (status : Text) (t : TransitionDefinition)
      → transition_matches current status t ≡ true
      → t.from_step_id ≡ current
  unfolding transition_matches
  from_match status t h = ground (arith, eq_iff t.from_step_id current)

  Verdict-Leads :
      (status : Text) (r : Throws (Option String))
      → Verdict transitions current status r
      → r ≡ ok (some next)
      → Leads transitions current next
  Verdict-Leads status _ (no_match h) q = absurd cc
  Verdict-Leads status _ (winner t w) q = (
    t,
    subst (Has t) (sym w.split) (Has-append_right w.before (t ∷ w.after) here),
    from_match status t w.matches,
    ok_inj q,
  )
  Verdict-Leads status _ (tie t u h) q = absurd cc

  route_by-Leads :
      (status : Text)
      → route_by transitions current status ≡ ok (some (some next))
      → Leads transitions current next
  unfolding route_by
  route_by-Leads status h =
      Verdict-Leads status (evaluate transitions current status)
        (evaluate-Verdict transitions current status) (ground (arith, h))

  pub route-Leads :
      (status : Text) (flow_status : FlowExecutionStatus)
      → route transitions current status flow_status ≡ ok (some (some next))
      → Leads transitions current next
  unfolding route
  route-Leads status flow_status h = by_found (route_by transitions current status) refl h
    where
      by_found :
          (r : Throws (Option (Option String)))
          → route_by transitions current status ≡ r
          → (nest_batch.Prelude.◌>>=◌ r (second_try transitions current status flow_status))
            ≡ ok (some (some next))
          → Leads transitions current next
      by_found (ok (some target)) q k = route_by-Leads status (q ∙ k)
      by_found (ok none) q k = route_by-Leads (flow_text flow_status) (ground (arith, k))
      by_found (err x) q k = absurd cc

-- Every move from a step to a step goes down.
pub record Descends {W : Type 0} (job : JobDefinition W) (rank : String → ℕ) : Type 0 where
  pub along_transition :
      (current next : String) → Leads job.transitions current next → rank next < rank current
  pub in_order :
      (current next : String)
      → linear_next current (keys job.steps) ≡ some next
      → rank next < rank current

module _ {W : Type 0} (services : Services W) (e : JobExecution) (job : JobDefinition W)
    (partition : Option (ℕ × ℕ)) (rank : String → ℕ) (down : Descends job rank) where
  -- Where a step leads, it leads down.
  abbrev Lower : String → Result BatchError Next → Env W → Type 0
  Lower current (ok (go_to (some next))) t = rank next < rank current
  Lower current (ok (go_to none)) t = Unit {0}
  Lower current (ok fail_job) t = Unit {0}
  Lower current (err x) t = Unit {0}

  in_order-Lower :
      (current : String) (o : Option String) (t : Env W)
      → linear_next current (keys job.steps) ≡ o
      → Lower current (ok (go_to o)) t
  in_order-Lower current none t h = tt
  in_order-Lower current (some next) t h = down.in_order current next h

  next_step-Lower :
      (current : String) (status : StepStatus) (target : Option (Option String)) (t : Env W)
      → ((next : String) → target ≡ some (some next) → rank next < rank current)
      → Lower current (ok (next_step target status current (keys job.steps))) t
  unfolding next_step
  next_step-Lower current status (some (some next)) t h = h next refl
  next_step-Lower current status (some none) t h = tt
  next_step-Lower current status none t h =
      elim (Bool-cases (step_status_eq status StepStatus.failed)) [
        | inl failed ↦ rw failed tt
        | inr fine ↦ rw fine (in_order-Lower current _ t refl)
      ]

  routed-Lower :
      (current : String) (result : StepResult) (decided : Option Text) (env : Env W)
      → Ensures (Lower current) (routed services e job partition current result decided) env
  unfolding routed
  routed-Lower current result decided env =
      bind_rule (Lower current) (lift _)
        (λ target. pure (next_step target result.status current (keys job.steps))) env
        (λ target q. next_step-Lower current result.status target env (λ next k.
          down.along_transition current next
            (route-Leads job.transitions current next _ _ (q ∙ ap ok k))))
        (λ x q. tt)

  pick_next-Lower :
      (current : String) (step : StepDefinition) (id : String) (result : StepResult) (env : Env W)
      → Ensures (Lower current) (pick_next services e job partition current step id result) env
  unfolding pick_next
  pick_next-Lower current step id result env =
      let ask =
        decider_exit_status services e job partition current
          (decider_context services e job partition step id result) in
      bind_rule (Lower current) ask (routed services e job partition current result) env
        (λ decided _. routed-Lower current result decided (ask env).1) (λ x _. tt)

  -- An outcome that is not the end of the fuel
  abbrev Ended : Result BatchError (Option JobStatus) → Env W → Type 0
  Ended r t = r ≢ ok none

  fail_then :
      (patch : ℕ → JobExecutionPatch) (env : Env W)
      → Ensures Ended
          (update_job services e job partition patch >> pure (some JobStatus.failed))
          env
  fail_then patch env =
      bind_rule Ended (update_job services e job partition patch)
        (λ _. pure (some JobStatus.failed)) env (λ _ _ q. absurd cc) (λ x _ q. absurd cc)

  -- The loop ends from each step that lies below `current`.
  abbrev EndsBelow : (Option String → Job W (Option JobStatus)) → String → Type 0
  EndsBelow again current =
      ((t : Env W) → Ensures Ended (again none) t)
      × ((next : String) (t : Env W)
          → rank next < rank current
          → Ensures Ended (again (some next)) t)

  go_on-Ended :
      (again : Option String → Job W (Option JobStatus)) (current : String) (result : StepResult)
      (next : Next) (t : Env W)
      → EndsBelow again current
      → Lower current (ok next) t
      → Ensures Ended (go_on services e job partition again result next) t
  unfolding go_on
  go_on-Ended again current result (go_to none) t ends low = ends.0 t
  go_on-Ended again current result (go_to (some next)) t ends low = ends.1 next t low
  go_on-Ended again current result fail_job t ends low =
      fail_then (failed_patch services e job partition result.exit_code result.exit_message) t

  visit-Ended :
      (again : Option String → Job W (Option JobStatus)) (current : String)
      (o : Option StepDefinition) (env : Env W)
      → EndsBelow again current
      → Ensures Ended (visit services e job partition again current o) env
  unfolding visit
  visit-Ended again current none env ends =
      fail_then
        (failed_patch services e job partition (text "NO_SUCH_STEP") (message "Step not found")) env
  visit-Ended again current (some step) env ends =
      let m = perform services e job partition step in
      let t = (m env).1 in
      bind_rule Ended m _ env
        (λ done _.
          let pick = pick_next services e job partition current step done.0 done.1 in
          let low = pick_next-Lower current step done.0 done.1 t in
          bind_rule Ended pick (go_on services e job partition again done.1) t
            (λ next q.
              go_on-Ended again current done.1 next (pick t).1 ends
                (subst (λ y. Lower current y (pick t).1) q low))
            (λ x _ q. absurd cc))
        (λ x _ q. absurd cc)

  -- Where every transition and every step in declaration order goes down in some ranking of the
  -- steps, the flow does not run out of fuel when it has more of it than the rank of the step that
  -- it starts at, whatever steps, deciders and listeners do.
  pub flow_terminates :
      (fuel : ℕ) (current : String) (env : Env W)
      → rank current < fuel
      → (flow services e job partition fuel (some current) env).0 ≢ ok none
  unfolding flow
  flow_terminates zero current env h = absurd (omega arith)
  flow_terminates (suc fuel) current env h =
      visit-Ended (λ target t. flow services e job partition fuel target t) current
        (get current job.steps) env
        ((λ t q. absurd cc), λ next t low. flow_terminates fuel next t (omega arith))

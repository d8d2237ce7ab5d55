-- ===== src/Builder/Fluent/Jobs.antt =====
-- The jobs that packages/core/src/builder/job-builder.ts builds, and what
-- packages/core/src/compiler/definition-compiler.ts reports of them.
use nest_batch.Prelude.{
  String, ◌≡◌, refl, sym, subst, ◌∙◌, Option, none, some, List, [], ◌∷◌, ◌++◌, ok, ok_inj, arith,
  eq_iff, ◌===◌, inl, inr, Has, here, there, All, Has-append, Bool-cases, bind-ok,
}
use nest_batch.Prelude.Text.{Text}
use nest_batch.Prelude.Table.{Table, get, set, Has-set, get-set_same, get-set_other}
use nest_batch.Builder.{Step, id_of}
use nest_batch.Builder.StepBuilder
use nest_batch.Builder.JobBuilder.{
  JobBuilder, Pending, is_truthy, is_specified, Call, commit_transition, push_step, settle, start,
  set_status, set_target, call, calls,
}
use nest_batch.Builder.Fluent.Steps.{GoodStep, build-GoodStep}

-- A step that is given as a literal is not of the builder's making.
abbrev pub Fluent : {W : Type 0} → Call W → Type 0
Fluent (Call.add_step step) = ⊥
Fluent _ = Unit {0}

-- Every step passes, and every id in the order is the id of a step.
pub record GoodSteps (steps : Table Step) (step_order : List String) : Type 0 where
  pub good : (k : String) (s : Step) → Has (k, s) steps → GoodStep s
  pub known : (x : String) → Has x step_order → (s : Step) × (get x steps ≡ some s) × (id_of s ≡ x)

only : {x y : String} → Has x (y ∷ []) → y ≡ x
only here = refl
only (there m) = elim m [ ]

GoodSteps-push :
    (steps : Table Step) (step_order : List String) (s : Step)
    → GoodSteps steps step_order
    → GoodStep s
    → GoodSteps (set (id_of s) s steps) (step_order ++ id_of s ∷ [])
GoodSteps-push steps step_order s g passes = record { good = good; known = known }
  where
    good : (k : String) (u : Step) → Has (k, u) (set (id_of s) s steps) → GoodStep u
    good k u m = elim (Has-set k (id_of s) u s steps m) [
      | inl (_, q) ↦ subst GoodStep (sym q) passes
      | inr old ↦ g.good k u old
    ]

    at_id :
        (x : String)
        → id_of s ≡ x
        → (u : Step) × (get x (set (id_of s) s steps) ≡ some u) × (id_of u ≡ x)
    at_id x q = (
      s,
      subst (λ z. get z (set (id_of s) s steps) ≡ some s) q (get-set_same (id_of s) s steps),
      q,
    )

    known :
        (x : String)
        → Has x (step_order ++ id_of s ∷ [])
        → (u : Step) × (get x (set (id_of s) s steps) ≡ some u) × (id_of u ≡ x)
    known x m = elim (Has-append step_order (id_of s ∷ []) m) [
      | inl old ↦ elim (Bool-cases (id_of s === x)) [
        | inl e ↦ at_id x (ground (arith, eq_iff (id_of s) x))
        | inr e ↦
            let (u, found, q) = g.known x old in
            (
              u,
              get-set_other (id_of s) x s steps
                    (λ same. ground (arith, e, same, eq_iff (id_of s) x))
                  ∙ found,
              q,
            )
      ]
      | inr new ↦ at_id x (only new)
    ]

module _ {W : Type 0} where
  abbrev Good : JobBuilder W → Type 0
  Good b = GoodSteps b.steps b.step_order

  settle-Good : (b : JobBuilder W) (o : Option Pending) → Good b → Good (settle b o)
  unfolding settle commit_transition
  settle-Good b none g = g
  settle-Good b (some t) g = elim (Bool-cases (is_specified t.on_status t.to_step_id)) [
    | inl e ↦ rw e g
    | inr e ↦ rw e g
  ]

  set_status-Good :
      (status : Text) (b after : JobBuilder W) (o : Option Pending)
      → Good b
      → set_status status b o ≡ ok after
      → Good after
  unfolding set_status
  set_status-Good status b after none g h = absurd cc
  set_status-Good status b after (some t) g h = elim (Bool-cases (is_truthy t.from_step_id)) [
    | inl e ↦ subst Good (ok_inj (rw e at h)) g
    | inr e ↦ let k = (rw e at h) in absurd cc
  ]

  set_target-Good :
      (target : Option String) (problem : String) (b after : JobBuilder W) (o : Option Pending)
      → Good b
      → set_target target problem b o ≡ ok after
      → Good after
  unfolding set_target commit_transition
  set_target-Good target problem b after none g h = absurd cc
  set_target-Good target problem b after (some t) g h = subst Good (ok_inj h) g

  add_step_with-Good :
      (cs : List StepBuilder.Call) (b after : JobBuilder W)
      → Good b
      → call (Call.add_step_with cs) b ≡ ok after
      → Good after
  unfolding call push_step
  add_step_with-Good cs b after g h =
      let (sb, made, rest) = bind-ok (StepBuilder.calls cs StepBuilder.new) _ after h in
      let (step, built, last) = bind-ok (StepBuilder.build sb) _ after rest in
      subst Good (ok_inj last)
        (GoodSteps-push b.steps b.step_order step g (build-GoodStep cs sb step made built))

  call-Good :
      (c : Call W) (b after : JobBuilder W) → Fluent c → Good b → call c b ≡ ok after → Good after
  unfolding call start
  call-Good (Call.restartable value) b after fluent g h = subst Good (ok_inj h) g
  call-Good (Call.allow_duplicate_instances value) b after fluent g h = subst Good (ok_inj h) g
  call-Good (Call.add_step step) b after fluent g h = absurd fluent
  call-Good (Call.add_step_with cs) b after fluent g h = add_step_with-Good cs b after g h
  call-Good (Call.from step_id) b after fluent g h =
      subst Good (ok_inj h) (settle-Good b b.current_transition g)
  call-Good (Call.on status) b after fluent g h =
      set_status-Good status b after b.current_transition g h
  call-Good (Call.to step_id) b after fluent g h =
      set_target-Good (some step_id) "Use .from(stepId) before .to(stepId)" b after
        b.current_transition g h
  call-Good Call.end b after fluent g h =
      set_target-Good none "Use .from(stepId) before .end()" b after b.current_transition g h
  call-Good (Call.add_decider after_step_id decide) b after fluent g h = subst Good (ok_inj h) g
  call-Good (Call.use_flow flow) b after fluent g h = subst Good (ok_inj h) g
  call-Good (Call.add_listener listener) b after fluent g h = subst Good (ok_inj h) g

  pub calls-Good :
      (cs : List (Call W)) (b after : JobBuilder W)
      → All Fluent cs
      → Good b
      → calls cs b ≡ ok after
      → Good after
  unfolding calls
  calls-Good [] b after fluent g h = subst Good (ok_inj h) g
  calls-Good (c ∷ cs) b after (f, fs) g h =
      let (next, first, rest) = bind-ok (call c b) (calls cs) after h in
      calls-Good cs next after fs (call-Good c b next f g first) rest

pub nothing_yet : GoodSteps [] []
nothing_yet = record { good = λ k s m. elim m [ ]; known = λ x m. elim m [ ] }

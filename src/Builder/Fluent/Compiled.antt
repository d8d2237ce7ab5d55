-- ===== src/Builder/Fluent/Compiled.antt =====
-- What packages/core/src/compiler/definition-compiler.ts reports of a job that the builders of
-- packages/core/src/builder put together.
use nest_batch.Prelude.{
  String, ◌≡◌, ◌≢◌, refl, sym, ap, subst, ◌∙◌, true, false, none, some, List, [], ◌∷◌, ok, err,
  ok_inj, arith, ◌⊎◌, inl, inr, Has, here, there, Has-cons, All, Option-cases, then_value-err,
}
use nest_batch.Prelude.Table.{Table, get, set, has, Has-set, get-Has, has-set_same, has-set_keeps}
use nest_batch.Errors.{
  BatchError, invalid_flow_graph, FlowCode, missing_target, duplicate_decider, unreachable_step,
  cycle_detected,
}
use nest_batch.Executor.Definitions.{ChunkStep, StepDefinition, chunk}
use nest_batch.Validator.{in_steps, validate}
use nest_batch.Validator.Checks.{
  Violation, no_steps, bad_start, zero_chunk_size, zero_count, bad_from, bad_to, bad_decider,
  two_deciders, unreached, circular,
}
use nest_batch.Validator.Verdict.{validate-Violation}
use nest_batch.Builder.{Step, chunk_step, tasklet_step, id_of, plain, plain_steps}
use nest_batch.Builder.JobBuilder.{
  JobBuilderConfig, JobBuilder, Call, create, commit_transition, calls, in_order, config_of, build,
}
use nest_batch.Builder.Compiler.{step_table, definition_of, compile_from_builder_config}
use nest_batch.Builder.Fluent.Steps.{GoodStep}
use nest_batch.Builder.Fluent.Jobs.{Fluent, GoodSteps, nothing_yet, calls-Good}

step_table-Has :
    (k : String) (s : Step) (l : List Step) (t : Table Step)
    → Has (k, s) (step_table l t)
    → Has s l ⊎ Has (k, s) t
unfolding step_table
step_table-Has k s [] t m = inr m
step_table-Has k s (u ∷ l) t m = elim (step_table-Has k s l (set (id_of u) u t) m) [
  | inl n ↦ inl (there n)
  | inr n ↦ elim (Has-set k (id_of u) s u t n) [
    | inl (_, q) ↦ inl (subst (λ z. Has z (u ∷ l)) (sym q) here)
    | inr old ↦ inr old
  ]
]

step_table-keeps :
    (x : String) (l : List Step) (t : Table Step) → has x t ≡ true → has x (step_table l t) ≡ true
unfolding step_table
step_table-keeps x [] t h = h
step_table-keeps x (u ∷ l) t h =
    step_table-keeps x l (set (id_of u) u t) (has-set_keeps x (id_of u) u t h)

step_table-takes :
    (s : Step) (l : List Step) (t : Table Step) → Has s l → has (id_of s) (step_table l t) ≡ true
unfolding step_table
step_table-takes s _ t (here {xs = l}) =
    step_table-keeps (id_of s) l (set (id_of s) s t) (has-set_same (id_of s) s t)
step_table-takes s _ t (there {y = u} {xs = l} m) = step_table-takes s l (set (id_of u) u t) m

in_order-Has :
    (s : Step) (ids : List String) (steps : Table Step)
    → Has s (in_order ids steps)
    → (k : String) × Has (k, s) steps
unfolding in_order
in_order-Has s [] steps m = elim m [ ]
in_order-Has s (id ∷ ids) steps m = elim (Option-cases (get id steps)) [
  | inl e ↦ in_order-Has s ids steps (rw (in_order, e) at m)
  | inr (u, e) ↦ elim (Has-cons (rw (in_order, e) at m)) [
    | inl q ↦ (id, get-Has id s steps (e ∙ ap some q))
    | inr n ↦ in_order-Has s ids steps n
  ]
]

in_order-head :
    (s : Step) (id : String) (ids : List String) (steps : Table Step)
    → get id steps ≡ some s
    → Has s (in_order (id ∷ ids) steps)
unfolding in_order
in_order-head s id ids steps e = rw (in_order, e) here

plain_steps-Has :
    (k : String) (d : StepDefinition) (t : Table Step)
    → Has (k, d) (plain_steps t)
    → (s : Step) × Has (k, s) t × (plain s ≡ d)
unfolding plain_steps
plain_steps-Has k d [] m = elim m [ ]
plain_steps-Has k d ((j, u) ∷ t) m = elim (Has-cons m) [
  | inl q ↦ (
    u,
    subst (λ z. Has (z, u) ((j, u) ∷ t)) (ap (λ (x : String × StepDefinition). x.0) q) here,
    ap (λ (x : String × StepDefinition). x.1) q,
  )
  | inr n ↦ let (s, o, q) = plain_steps-Has k d t n in (s, there o, q)
]

plain_steps-has : (x : String) (t : Table Step) → has x (plain_steps t) ≡ has x t
unfolding plain_steps has
plain_steps-has x [] = refl
plain_steps-has x ((j, u) ∷ t) = ground (arith, plain_steps-has x t)

plain-chunk :
    (s : Step) (step : ChunkStep)
    → GoodStep s
    → plain s ≡ chunk step
    → (step.chunk_size ≢ 0) × (step.partitions ≡ none)
unfolding plain
plain-chunk (chunk_step c) step g q =
    let p : c.step ≡ step = cc in
    subst (λ (u : ChunkStep). (u.chunk_size ≢ 0) × (u.partitions ≡ none)) p g
plain-chunk (tasklet_step t) step g q = absurd cc

-- A fault of the graph, not of its single steps
pub data OfGraph : FlowCode → Type 0 where
  target_missing : OfGraph missing_target
  decider_twice : OfGraph duplicate_decider
  step_unreachable : OfGraph unreachable_step
  circle_found : OfGraph cycle_detected

abbrev pub GraphFault : BatchError → Type 0
GraphFault e = (code : FlowCode) × OfGraph code × (e ≡ invalid_flow_graph code)

module _ {W : Type 0} (config : JobBuilderConfig W)
    (all_good : (s : Step) → Has s config.steps → GoodStep s)
    (start : (s : Step) × Has s config.steps × (id_of s ≡ config.start_step_id)) where
  has_start : has config.start_step_id (definition_of config).steps ≡ true
  unfolding definition_of
  has_start =
      let (s, m, q) = start in
      let steps = step_table config.steps [] in
      subst (λ x. has x (plain_steps steps) ≡ true) q
        (plain_steps-has (id_of s) steps ∙ step_table-takes s config.steps [] m)

  good_chunk :
      (id : String) (step : ChunkStep)
      → Has (id, chunk step) (definition_of config).steps
      → (step.chunk_size ≢ 0) × (step.partitions ≡ none)
  unfolding definition_of
  good_chunk id step m =
      let (s, n, q) = plain_steps-Has id (chunk step) (step_table config.steps []) m in
      elim (step_table-Has id s config.steps [] n) [
        | inl o ↦ plain-chunk s step (all_good s o) q
        | inr o ↦ elim o [ ]
      ]

  not_start :
      in_steps (definition_of config).steps config.start_step_id ≡ false
      → has config.start_step_id (definition_of config).steps ≡ true
      → ⊥
  unfolding in_steps
  not_start b h = ground (arith, b, h)

  Violation-OfGraph : (code : FlowCode) → Violation (definition_of config) code → OfGraph code
  unfolding has definition_of
  Violation-OfGraph _ (no_steps e) =
      let h = subst (λ (t : Table StepDefinition). has config.start_step_id t ≡ true) e has_start in
      absurd cc
  Violation-OfGraph _ (bad_start b) =
      let h : has config.start_step_id (definition_of config).steps ≡ true = has_start in
      absurd (not_start b h)
  Violation-OfGraph _ (zero_chunk_size id step m z) = absurd ((good_chunk id step m).0 z)
  Violation-OfGraph _ (zero_count id step c m q z) = let p = (good_chunk id step m).1 in absurd cc
  Violation-OfGraph _ (bad_from t m b) = target_missing
  Violation-OfGraph _ (bad_to t y m q b) = target_missing
  Violation-OfGraph _ (bad_decider d m b) = target_missing
  Violation-OfGraph _ (two_deciders w) = decider_twice
  Violation-OfGraph _ (unreached x m f) = step_unreachable
  Violation-OfGraph _ (circular x r c) = circle_found

  compile-GraphFault : (e : BatchError) → compile_from_builder_config config ≡ err e → GraphFault e
  unfolding compile_from_builder_config
  compile-GraphFault e h =
      let (code, v, q) =
        validate-Violation (definition_of config) e
          (then_value-err (validate (definition_of config)) _ h) in
      (code, Violation-OfGraph code v, q)

config_of-parts :
    {W : Type 0} (b : JobBuilder W) (ids : List String) (config : JobBuilderConfig W)
    → GoodSteps b.steps ids
    → config_of b ids ≡ ok config
    → ((s : Step) → Has s config.steps → GoodStep s)
      × ((s : Step) × Has s config.steps × (id_of s ≡ config.start_step_id))
unfolding config_of
config_of-parts b [] config g h = absurd cc
config_of-parts {W} b (first ∷ ids) config g h =
    let (s, found, q) = g.known first here in
    subst
      (λ (c : JobBuilderConfig W).
        ((s : Step) → Has s c.steps → GoodStep s)
        × ((s : Step) × Has s c.steps × (id_of s ≡ c.start_step_id)))
      (ok_inj h)
      (
        (λ u m. let (k, n) = in_order-Has u (first ∷ ids) b.steps m in g.good k u n),
        (s, in_order-head s first ids b.steps found, q),
      )

module _ {W : Type 0} (id : String) (cs : List (Call W)) (b : JobBuilder W)
    (config : JobBuilderConfig W) (e : BatchError) where
  -- Whatever calls are made on a job builder, if its steps come from the step builder and not from
  -- literals and the compiler then refuses the job, the fault is one of the graph: a missing
  -- target, two deciders of one step, a step that is not reached, or a circle; never a missing
  -- start, an empty job, a chunk size or a partition count.
  pub compile-Fluent-GraphFault :
      All Fluent cs
      → calls cs (create id) ≡ ok b
      → build b ≡ ok config
      → compile_from_builder_config config ≡ err e
      → GraphFault e
  unfolding build commit_transition create
  compile-Fluent-GraphFault fluent made built h =
      let g = calls-Good cs (create id) b fluent nothing_yet made in
      let (good, start) = config_of-parts (commit_transition b) b.step_order config g built in
      compile-GraphFault config good start e h

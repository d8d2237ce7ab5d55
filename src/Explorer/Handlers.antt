-- ===== src/Explorer/Handlers.antt =====
-- What packages/core/src/compiler/definition-compiler.ts makes of a decorated job that it compiles.
use nest_batch.Prelude.{
  String, true, List, [], ◌∷◌, ok, ◌≡◌, refl, sym, subst, Has, here, there, All, bind-ok, ok_inj,
  ◌===◌, eq_iff, Bool-cases, inl, inr,
}
use nest_batch.Prelude.Table.{Table, set, has, has-set_same, has-set_keeps}
use nest_batch.Errors.{FlowCode}
use nest_batch.Validator.{validate}
use nest_batch.Validator.Checks.{Violation}
use nest_batch.Validator.Verdict.{validate-accepts}
use nest_batch.Builder.{Step}
use nest_batch.Builder.Compiler.{Compiled}
use nest_batch.Explorer.{DiscoveredStep, DiscoveredJob}
use nest_batch.Explorer.Discovered.{
  build_step, build_steps, definition_from, compile_from_discovered,
}
use nest_batch.Explorer.Binding.{Built, build_step-Built}

-- A row of the compiled steps: one of the step methods, under its id
abbrev pub IsRow : DiscoveredJob → List DiscoveredStep → String × Step → Type 0
IsRow discovered step_methods (k, built) =
    (step : DiscoveredStep) × Has step step_methods
    × (k ≡ step.options.id)
    × Built discovered step built

All-set :
    (P : String × Step → Type 0) (k : String) (b : Step) (steps : Table Step)
    → P (k, b)
    → All P steps
    → All P (set k b steps)
unfolding set
All-set P k b [] p all = (p, tt)
All-set P k b ((j, c) ∷ steps) p (q, all) = elim (Bool-cases (j === k)) [
  | inl e ↦ let r : k ≡ j = sym ((eq_iff j k).0 e) in rw e (subst (λ i. P (i, b)) r p, all)
  | inr e ↦ rw e (q, All-set P k b steps p all)
]

module _ (discovered : DiscoveredJob) where
  build_steps-rows :
      (P : String × Step → Type 0) (step_methods : List DiscoveredStep) (steps built : Table Step)
      → build_steps discovered step_methods steps ≡ ok built
      → ((step : DiscoveredStep)
          → Has step step_methods
          → (b : Step) → Built discovered step b
          → P (step.options.id, b))
      → All P steps
      → All P built
  unfolding build_steps
  build_steps-rows P [] steps built h rows all = subst (All P) (ok_inj h) all
  build_steps-rows P (s ∷ step_methods) steps built h rows all =
      let (b, b_ok, rest) = bind-ok (build_step discovered s) _ built h in
      build_steps-rows P step_methods (set s.options.id b steps) built rest
        (λ step m. rows step (there m))
        (All-set P s.options.id b steps (rows s here b (build_step-Built discovered s b b_ok)) all)

  build_steps-keeps :
      (step_methods : List DiscoveredStep) (steps built : Table Step) (k : String)
      → build_steps discovered step_methods steps ≡ ok built
      → has k steps ≡ true
      → has k built ≡ true
  unfolding build_steps
  build_steps-keeps [] steps built k h m = subst (λ t. has k t ≡ true) (ok_inj h) m
  build_steps-keeps (s ∷ step_methods) steps built k h m =
      let (b, b_ok, rest) = bind-ok (build_step discovered s) _ built h in
      build_steps-keeps step_methods (set s.options.id b steps) built k rest
        (has-set_keeps k s.options.id b steps m)

  build_steps-has :
      (step_methods : List DiscoveredStep) (steps built : Table Step)
      → build_steps discovered step_methods steps ≡ ok built
      → All (λ (step : DiscoveredStep). has step.options.id built ≡ true) step_methods
  unfolding build_steps
  build_steps-has [] steps built h = tt
  build_steps-has (s ∷ step_methods) steps built h =
      let (b, b_ok, rest) = bind-ok (build_step discovered s) _ built h in
      (
        build_steps-keeps step_methods (set s.options.id b steps) built s.options.id rest
            (has-set_same s.options.id b steps),
        build_steps-has step_methods (set s.options.id b steps) built rest,
      )

  -- A decorated job that compiles has no fault that the validator knows. Each row of its steps is
  -- one of the step methods under its id, and each step method has a row: a tasklet that refers to
  -- the method, or a chunk step that refers to the first reader and the first writer of the class,
  -- to the first processor if there is one, and has the chunk size of the options or 100. A
  -- reference is the method of the instance where the instance has it, else the name of the class
  -- and of the method.
  pub compile_from_discovered-Built :
      {W : Type 0} (compiled : Compiled W)
      → compile_from_discovered discovered ≡ ok compiled
      → ((code : FlowCode) → Violation compiled.definition code → ⊥)
        × All (IsRow discovered discovered.step_methods) compiled.steps
        × All
            (λ (step : DiscoveredStep). has step.options.id compiled.steps ≡ true)
            discovered.step_methods
  unfolding compile_from_discovered
  compile_from_discovered-Built compiled h =
      let (steps, built, rest) =
        bind-ok (build_steps discovered discovered.step_methods []) _ compiled h in
      let (u, accepted, e) =
        bind-ok (validate (definition_from discovered steps)) _ compiled rest in
      (
        (validate-accepts compiled.definition).0
            (subst (λ c. validate c.definition ≡ ok tt) (ok_inj e) accepted),
        subst (λ c. All (IsRow discovered discovered.step_methods) c.steps) (ok_inj e)
            (build_steps-rows (IsRow discovered discovered.step_methods) discovered.step_methods []
              steps built (λ step m b q. (step, m, refl, q)) tt),
        subst
            (λ c.
              All (λ (step : DiscoveredStep). has step.options.id c.steps ≡ true)
                discovered.step_methods)
            (ok_inj e) (build_steps-has discovered.step_methods [] steps built),
      )

-- ===== src/Builder/Fluent/Steps.antt =====
-- The steps that packages/core/src/builder/step-builder.ts builds.
use nest_batch.Prelude.{
  ℕ, String, ◌≡◌, ◌≢◌, refl, sym, ap, subst, ◌∙◌, bind-ok, Option, none, some, List, [], ◌∷◌, ok,
  ok_inj, some_inj, arith, ◌==◌, ◌===◌, inl, inr, Bool-cases,
}
use nest_batch.Builder.{Ref, Step, chunk_step, tasklet_step}
use nest_batch.Builder.StepBuilder.{
  StepBuilder, new, ChunkConfig, configured, Call, call, calls, build, build_with, build_kind,
  build_chunk, no_kind, no_id,
}

-- The chunk size, where there is one, is not zero.
abbrev pub Sized : StepBuilder → Type 0
Sized b = (n : ℕ) → b.chunk_size ≡ some n → n ≢ 0

-- A step that the checks of single steps pass
abbrev pub GoodStep : Step → Type 0
GoodStep (chunk_step c) = (c.step.chunk_size ≢ 0) × (c.step.partitions ≡ none)
GoodStep (tasklet_step t) = Unit {0}

configured-chunk_size :
    (config : Option ChunkConfig) (b : StepBuilder)
    → (configured config b).chunk_size ≡ b.chunk_size
unfolding configured
configured-chunk_size none b = refl
configured-chunk_size (some config) b = refl

call-Sized : (c : Call) (b after : StepBuilder) → Sized b → call c b ≡ ok after → Sized after
unfolding call
call-Sized (Call.chunk id size config) b after sized h n q = elim (Bool-cases (size == 0)) [
  | inl e ↦ let k = (rw e at h) in absurd cc
  | inr e ↦
      let k : configured config (record b { id = some id; chunk_size = some size }) ≡ after =
        ok_inj (rw e at h) in
      let p : some size ≡ some n =
        sym (configured-chunk_size config (record b { id = some id; chunk_size = some size }))
        ∙ ap (λ (a : StepBuilder). a.chunk_size) k
        ∙ q in
      λ z. ground (arith, e, some_inj p, z)
]
call-Sized (Call.tasklet id ref) b after sized h n q =
    sized n (ap (λ (a : StepBuilder). a.chunk_size) (ok_inj h) ∙ q)
call-Sized (Call.reader ref) b after sized h n q =
    sized n (ap (λ (a : StepBuilder). a.chunk_size) (ok_inj h) ∙ q)
call-Sized (Call.processor ref) b after sized h n q =
    sized n (ap (λ (a : StepBuilder). a.chunk_size) (ok_inj h) ∙ q)
call-Sized (Call.writer ref) b after sized h n q =
    sized n (ap (λ (a : StepBuilder). a.chunk_size) (ok_inj h) ∙ q)
call-Sized (Call.skip_policy p) b after sized h n q =
    sized n (ap (λ (a : StepBuilder). a.chunk_size) (ok_inj h) ∙ q)
call-Sized (Call.retry_policy p) b after sized h n q =
    sized n (ap (λ (a : StepBuilder). a.chunk_size) (ok_inj h) ∙ q)
call-Sized (Call.add_listener ref kind phase non_critical) b after sized h n q =
    sized n (ap (λ (a : StepBuilder). a.chunk_size) (ok_inj h) ∙ q)

calls-Sized :
    (cs : List Call) (b after : StepBuilder) → Sized b → calls cs b ≡ ok after → Sized after
unfolding calls
calls-Sized [] b after sized h = subst Sized (ok_inj h) sized
calls-Sized (c ∷ cs) b after sized h =
    let (next, first, rest) = bind-ok (call c b) (calls cs) after h in
    calls-Sized cs next after (call-Sized c b next sized first) rest

build_chunk-GoodStep :
    (id : String) (b : StepBuilder) (size : Option ℕ) (reader writer : Option Ref) (step : Step)
    → ((n : ℕ) → size ≡ some n → n ≢ 0)
    → build_chunk id b size reader writer ≡ ok step
    → GoodStep step
unfolding build_chunk no_kind
build_chunk-GoodStep id b (some n) (some r) (some w) step sized h =
    subst GoodStep (ok_inj h) (sized n refl, refl)
build_chunk-GoodStep id b none reader writer step sized h = absurd cc
build_chunk-GoodStep id b (some n) none writer step sized h = absurd cc
build_chunk-GoodStep id b (some n) (some r) none step sized h = absurd cc

build_kind-GoodStep :
    (id : String) (b : StepBuilder) (task : Option Ref) (step : Step)
    → Sized b
    → build_kind id b task ≡ ok step
    → GoodStep step
unfolding build_kind
build_kind-GoodStep id b (some ref) step sized h = subst GoodStep (ok_inj h) tt
build_kind-GoodStep id b none step sized h =
    build_chunk-GoodStep id b b.chunk_size b.reader b.writer step sized h

build_with-GoodStep :
    (b : StepBuilder) (o : Option String) (step : Step)
    → Sized b
    → build_with b o ≡ ok step
    → GoodStep step
unfolding build_with no_id
build_with-GoodStep b none step sized h = absurd cc
build_with-GoodStep b (some id) step sized h = elim (Bool-cases (id === "")) [
  | inl e ↦ let k = (rw e at h) in absurd cc
  | inr e ↦ build_kind-GoodStep id b b.task step sized (rw e at h)
]

-- Whatever calls are made on a step builder, the step that it builds passes.
pub build-GoodStep :
    (cs : List Call) (b : StepBuilder) (step : Step)
    → calls cs new ≡ ok b
    → build b ≡ ok step
    → GoodStep step
unfolding build new
build-GoodStep cs b step made built =
    build_with-GoodStep b b.id step (calls-Sized cs new b (λ n q. absurd cc) made) built

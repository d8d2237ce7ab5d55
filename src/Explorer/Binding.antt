-- ===== src/Explorer/Binding.antt =====
-- What the references and the steps stand for that packages/core/src/compiler/definition-compiler.ts
-- makes of the methods of a decorated class.
use nest_batch.Prelude.{
  ℕ, String, Bool, true, false, Option, none, some, List, [], ◌∷◌, ◌++◌, ok, ◌≡◌, refl, ap, Has,
  find?, All, bind-ok, Bool-cases, inl, inr, ok_inj, some_inj, subst,
}
use nest_batch.Prelude.Sets.{member, member-Has, Has-member}
use nest_batch.Builder.{builder_lambda, method, returns_bound, Ref, Step, chunk_step, tasklet_step}
use nest_batch.Explorer.{
  DiscoveredStep, DiscoveredItemKind, reader, processor, writer, DiscoveredItemMethod,
  DiscoveredJob,
}
use nest_batch.Explorer.Discovered.{
  has_method, method_ref, build_item_method_ref, build_reader_method_ref, processor_ref, is_kind,
  find_item_method, required, check_partitions, or_hundred, build_tasklet_step, build_chunk_step,
  build_step,
}

-- A reference to a method of the class: the method of the instance that has it, or else its name.
pub data Refers (discovered : DiscoveredJob) (name : String) (factory : Bool) : Ref → Type 0 where
  of_instance :
      (methods : List String)
      → discovered.instance ≡ some methods
      → Has name methods
      → Refers discovered name factory (record {
        kind = builder_lambda;
        token = none;
        fn = some (returns_bound name);
        class_token = none;
        method_name = none;
        factory = factory;
      })
  of_class :
      ((methods : List String) → discovered.instance ≡ some methods → Has name methods → ⊥)
      → Refers discovered name factory (record {
        kind = method;
        token = none;
        fn = none;
        class_token = some discovered.class_name;
        method_name = some name;
        factory = factory;
      })

-- The first of the item methods that are of a kind
pub record FirstOf (kind : DiscoveredItemKind) (items : List DiscoveredItemMethod)
    (m : DiscoveredItemMethod) : Type 0 where
  pub before : List DiscoveredItemMethod
  pub after : List DiscoveredItemMethod
  pub split : items ≡ before ++ m ∷ after
  pub fits : m.kind ≡ kind
  pub none_before : All (λ (x : DiscoveredItemMethod). x.kind ≡ kind → ⊥) before

-- The processor of a chunk step, which can be missing
pub data Processing (discovered : DiscoveredJob) : Option Ref → Type 0 where
  absent :
      All (λ (x : DiscoveredItemMethod). x.kind ≡ processor → ⊥) discovered.item_methods
      → Processing discovered none
  present :
      (m : DiscoveredItemMethod) (ref : Ref)
      → FirstOf processor discovered.item_methods m
      → Refers discovered m.method_name false ref
      → Processing discovered (some ref)

-- The chunk size of the options, or 100
pub data Size : Option ℕ → ℕ → Type 0 where
  given : (n : ℕ) → Size (some n) n
  default : Size none 100

-- The step that a decorated method stands for
pub data Built (discovered : DiscoveredJob) (step : DiscoveredStep) : Step → Type 0 where
  as_tasklet :
      (ref : Ref)
      → step.is_tasklet ≡ true
      → Refers discovered step.method_name false ref
      → Built discovered step
          (tasklet_step (record { id = step.options.id; task = ref; listeners = [] }))
  as_chunk :
      (r w : DiscoveredItemMethod) (reading writing : Ref) (processing : Option Ref) (n : ℕ)
      → step.is_tasklet ≡ false
      → FirstOf reader discovered.item_methods r
      → FirstOf writer discovered.item_methods w
      → Refers discovered r.method_name r.factory reading
      → Refers discovered w.method_name false writing
      → Processing discovered processing
      → Size step.options.chunk_size n
      → Built discovered step (
          chunk_step (record {
            step = record {
              id = step.options.id;
              chunk_size = n;
              skip_policy = step.options.skip_policy;
              retry_policy = step.options.retry_policy;
              partitions = step.options.partitions;
            };
            reader = reading;
            processor = processing;
            writer = writing;
            listeners = [];
          }))

has_method-Has :
    (o : Option (List String)) (name : String)
    → has_method o name ≡ true
    → (methods : List String) × (o ≡ some methods) × Has name methods
unfolding has_method
has_method-Has none name h = absurd cc
has_method-Has (some methods) name h = (methods, refl, member-Has name methods h)

has_method-absent :
    (o : Option (List String)) (name : String)
    → has_method o name ≡ false
    → (methods : List String) → o ≡ some methods
    → Has name methods
    → ⊥
unfolding has_method
has_method-absent none name h methods e m = cc
has_method-absent (some own) name h methods e m =
    let q : member name methods ≡ true = Has-member methods m in
    let r : own ≡ methods = some_inj e in cc

build_item_method_ref-Refers :
    (discovered : DiscoveredJob) (name : String)
    → Refers discovered name false (build_item_method_ref discovered name)
unfolding build_item_method_ref method_ref
build_item_method_ref-Refers discovered name =
    elim (Bool-cases (has_method discovered.instance name)) [
      | inl e ↦
          let (methods, q, m) = has_method-Has discovered.instance name e in
          rw e (of_instance methods q m)
      | inr e ↦ rw e (of_class (has_method-absent discovered.instance name e))
    ]

build_reader_method_ref-Refers :
    (discovered : DiscoveredJob) (m : DiscoveredItemMethod)
    → Refers discovered m.method_name m.factory (build_reader_method_ref discovered m)
unfolding build_reader_method_ref build_item_method_ref method_ref
build_reader_method_ref-Refers discovered m =
    elim (Bool-cases (has_method discovered.instance m.method_name)) [
      | inl e ↦
          let (methods, q, h) = has_method-Has discovered.instance m.method_name e in
          rw e (of_instance methods q h)
      | inr e ↦ rw e (of_class (has_method-absent discovered.instance m.method_name e))
    ]

is_kind-eq : (a b : DiscoveredItemKind) → is_kind a b ≡ true → a ≡ b
unfolding is_kind
is_kind-eq reader reader h = refl
is_kind-eq processor processor h = refl
is_kind-eq writer writer h = refl
is_kind-eq reader processor h = absurd cc
is_kind-eq reader writer h = absurd cc
is_kind-eq processor reader h = absurd cc
is_kind-eq processor writer h = absurd cc
is_kind-eq writer reader h = absurd cc
is_kind-eq writer processor h = absurd cc

is_kind-ne : (a b : DiscoveredItemKind) → is_kind a b ≡ false → a ≡ b → ⊥
unfolding is_kind
is_kind-ne reader b h e = subst (λ x. is_kind reader x ≡ false → ⊥) e (λ k. cc) h
is_kind-ne processor b h e = subst (λ x. is_kind processor x ≡ false → ⊥) e (λ k. cc) h
is_kind-ne writer b h e = subst (λ x. is_kind writer x ≡ false → ⊥) e (λ k. cc) h

module _ (kind : DiscoveredItemKind) where
  found-FirstOf :
      (items : List DiscoveredItemMethod) (m : DiscoveredItemMethod)
      → find? (λ x. is_kind x.kind kind) items ≡ some m
      → FirstOf kind items m
  unfolding find?
  found-FirstOf [] m h = absurd cc
  found-FirstOf (x ∷ items) m h = elim (Bool-cases (is_kind x.kind kind)) [
    | inl e ↦
        let q : x ≡ m = some_inj (rw e at h) in
        record {
          before = [];
          after = items;
          split = ap (λ z. z ∷ items) q;
          fits = subst (λ (z : DiscoveredItemMethod). z.kind ≡ kind) q (is_kind-eq x.kind kind e);
          none_before = tt;
        }
    | inr e ↦
        let first = found-FirstOf items m (rw e at h) in
        record {
          before = x ∷ first.before;
          after = first.after;
          split = ap (λ l. x ∷ l) first.split;
          fits = first.fits;
          none_before = (is_kind-ne x.kind kind e, first.none_before);
        }
  ]

  missing-All :
      (items : List DiscoveredItemMethod)
      → find? (λ x. is_kind x.kind kind) items ≡ none
      → All (λ (x : DiscoveredItemMethod). x.kind ≡ kind → ⊥) items
  unfolding find?
  missing-All [] h = tt
  missing-All (x ∷ items) h = elim (Bool-cases (is_kind x.kind kind)) [
    | inl e ↦ absurd (some_none x (rw e at h))
    | inr e ↦ (is_kind-ne x.kind kind e, missing-All items (rw e at h))
  ]
    where
      some_none : (y : DiscoveredItemMethod) → some y ≡ none → ⊥
      some_none y k = cc

find-FirstOf :
    (discovered : DiscoveredJob) (kind : DiscoveredItemKind) (m : DiscoveredItemMethod)
    → find_item_method discovered kind ≡ some m
    → FirstOf kind discovered.item_methods m
unfolding find_item_method
find-FirstOf discovered kind m h = found-FirstOf kind discovered.item_methods m h

processor_ref-Processing :
    (discovered : DiscoveredJob)
    → Processing discovered (processor_ref discovered (find_item_method discovered processor))
unfolding processor_ref find_item_method
processor_ref-Processing discovered = by_method _ refl
  where
    by_method :
        (o : Option DiscoveredItemMethod)
        → find? (λ x. is_kind x.kind processor) discovered.item_methods ≡ o
        → Processing discovered (processor_ref discovered o)
    by_method none h = absent (missing-All processor discovered.item_methods h)
    by_method (some m) h =
        present m (build_item_method_ref discovered m.method_name)
          (found-FirstOf processor discovered.item_methods m h)
          (build_item_method_ref-Refers discovered m.method_name)

or_hundred-Size : (o : Option ℕ) → Size o (or_hundred o)
unfolding or_hundred
or_hundred-Size none = default
or_hundred-Size (some n) = given n

required-ok :
    (what : String) (o : Option DiscoveredItemMethod) (m : DiscoveredItemMethod)
    → required what o ≡ ok m
    → o ≡ some m
unfolding required
required-ok what none m h = absurd cc
required-ok what (some n) m h = cc

build_chunk_step-Built :
    (discovered : DiscoveredJob) (step : DiscoveredStep) (built : Step)
    → step.is_tasklet ≡ false
    → build_chunk_step discovered step ≡ ok built
    → Built discovered step built
unfolding build_chunk_step
build_chunk_step-Built discovered step built chunked h =
    let (r, r_ok, h1) =
      bind-ok (required "@ItemReader" (find_item_method discovered reader)) _ built h in
    let (w, w_ok, h2) =
      bind-ok (required "@ItemWriter" (find_item_method discovered writer)) _ built h1 in
    let (u, p_ok, h3) = bind-ok (check_partitions step.options.partitions) _ built h2 in
    subst (Built discovered step) (ok_inj h3) (
      as_chunk r w (build_reader_method_ref discovered r)
        (build_item_method_ref discovered w.method_name)
        (processor_ref discovered (find_item_method discovered processor))
        (or_hundred step.options.chunk_size) chunked
        (find-FirstOf discovered reader r
          (required-ok "@ItemReader" (find_item_method discovered reader) r r_ok))
        (find-FirstOf discovered writer w
          (required-ok "@ItemWriter" (find_item_method discovered writer) w w_ok))
        (build_reader_method_ref-Refers discovered r)
        (build_item_method_ref-Refers discovered w.method_name)
        (processor_ref-Processing discovered) (or_hundred-Size step.options.chunk_size))

pub build_step-Built :
    (discovered : DiscoveredJob) (step : DiscoveredStep) (built : Step)
    → build_step discovered step ≡ ok built
    → Built discovered step built
unfolding build_step build_tasklet_step
build_step-Built discovered step built h = elim (Bool-cases step.is_tasklet) [
  | inl e ↦ subst (Built discovered step) (ok_inj (rw e at h)) (
      as_tasklet (build_item_method_ref discovered step.method_name) e
        (build_item_method_ref-Refers discovered step.method_name))
  | inr e ↦ build_chunk_step-Built discovered step built e (rw e at h)
]

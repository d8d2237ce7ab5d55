-- ===== src/Listeners/Resolvers.antt =====
-- The maps of listeners that packages/core/src/execution/job-executor.ts builds for a job: by phase,
-- kind and name for the listener invoker, and from that one for the executor of tasklets.
use Prim.Native.String.{◌++◌ as ◌<>◌}
use nest_batch.Prelude.{
  ℕ, zero, suc, ◌+◌, ◌/◌, ◌%◌, String, Bool, true, false, Option, none, some, List, [], ◌∷◌, ◌==◌,
  ltb, if◌then◌else◌,
}
use nest_batch.Prelude.Table.{Table, set}
use nest_batch.Builder.{
  provider_token, builder_lambda, method, Callable, Ref, ListenerKind, job_kind, step_kind,
  chunk_kind, item_read_kind, item_process_kind, item_write_kind, skip_kind, transition_kind,
  ListenerPhase, SkipSubKind, read_skip, process_skip, write_skip, ListenerDefinition,
}
use nest_batch.Listeners.{strip, rekey, ListenerFn, ListenerEntry, ResolverMap}

unfoldable pub phase_text : ListenerPhase → String
phase_text ListenerPhase.before = "before"
phase_text ListenerPhase.after = "after"
phase_text ListenerPhase.on_error = "on-error"

unfoldable pub kind_text : ListenerKind → String
kind_text job_kind = "job"
kind_text step_kind = "step"
kind_text chunk_kind = "chunk"
kind_text item_read_kind = "item-read"
kind_text item_process_kind = "item-process"
kind_text item_write_kind = "item-write"
kind_text skip_kind = "skip"
kind_text transition_kind = "transition"

unfoldable pub skip_text : SkipSubKind → String
skip_text read_skip = "read"
skip_text process_skip = "process"
skip_text write_skip = "write"

-- A listener that the executor can call
unfoldable pub resolve_listener_ref : Ref → Option Callable
resolve_listener_ref ref = elim ref.kind [
  | builder_lambda ↦ ref.fn
  | method ↦ none
  | provider_token ↦ none
]

-- `${n}` for a number below ten
unfoldable pub digit : ℕ → String
digit n =
    if n == 0
    then "0"
    else if n == 1
    then "1"
    else if n == 2
    then "2"
    else if n == 3
    then "3"
    else if n == 4
    then "4"
    else if n == 5
    then "5"
    else if n == 6
    then "6"
    else if n == 7
    then "7"
    else if n == 8
    then "8"
    else "9"

-- `${n}`, on fuel: a number has fewer digits than its successor says.
unfoldable pub decimal_from : ℕ → ℕ → String
unfolding digit
decimal_from zero n = ""
decimal_from (suc fuel) n =
    let front = decimal_from fuel (n / 10) in if ltb n 10 then digit n else front <> digit (n % 10)

unfoldable pub decimal : ℕ → String
unfolding decimal_from
decimal n = decimal_from (suc n) n

unfoldable pub or_unknown : Option String → String
or_unknown none = "<unknown>"
or_unknown (some s) = s

unfoldable pub is_lambda : Ref → Bool
is_lambda ref = elim ref.kind [ builder_lambda ↦ true | method ↦ false | provider_token ↦ false ]

unfoldable pub resolve_listener_name : Ref → ℕ → String
unfolding or_unknown decimal
resolve_listener_name ref lambda_counter = elim ref.kind [
  | method ↦ or_unknown ref.class_token <> ("." <> or_unknown ref.method_name)
  | builder_lambda ↦ "lambda-" <> decimal lambda_counter
  | provider_token ↦ "lambda-" <> decimal lambda_counter
]

unfoldable pub lifecycle_key : ListenerDefinition → String → String
unfolding phase_text kind_text
lifecycle_key def name = phase_text def.phase <> (":" <> (kind_text def.kind <> (":" <> name)))

unfoldable pub listener_key :
    ListenerDefinition → String → ListenerKind → Option SkipSubKind → String
unfolding lifecycle_key skip_text
listener_key def name skip_kind (some sub) = "on-skip:" <> (skip_text sub <> (":" <> name))
listener_key def name _ _ = lifecycle_key def name

unfoldable pub is_non_critical : Option Bool → Bool
is_non_critical (some true) = true
is_non_critical _ = false

module _ {V S : Type 0} (run : Callable → ListenerFn V S) where
  -- One turn of the loop of `buildResolverMap`, for a listener that can be called or cannot
  unfoldable pub add_listener :
      ListenerDefinition → Option Callable → ℕ → ResolverMap V S → ResolverMap V S
  unfolding resolve_listener_name listener_key is_non_critical
  add_listener def none lambda_counter resolvers = resolvers
  add_listener def (some fn) lambda_counter resolvers =
      let name = resolve_listener_name def.ref lambda_counter in
      set (listener_key def name def.kind def.skip_kind)
        (record { fn = run fn; non_critical = is_non_critical def.non_critical }) resolvers

  unfoldable pub next_counter : ListenerDefinition → Option Callable → ℕ → ℕ
  unfolding is_lambda
  next_counter def none lambda_counter = lambda_counter
  next_counter def (some fn) lambda_counter =
      if is_lambda def.ref then lambda_counter + 1 else lambda_counter

  unfoldable pub build_resolvers :
      List ListenerDefinition
      → (lambda_counter : ℕ) → (resolvers : ResolverMap V S) → ResolverMap V S
  unfolding resolve_listener_ref add_listener next_counter
  build_resolvers [] lambda_counter resolvers = resolvers
  build_resolvers (def ∷ listeners) lambda_counter resolvers =
      let fn = resolve_listener_ref def.ref in
      build_resolvers listeners (next_counter def fn lambda_counter)
        (add_listener def fn lambda_counter resolvers)

  -- `buildResolverMap`
  unfoldable pub build_resolver_map : List ListenerDefinition → ResolverMap V S
  unfolding build_resolvers
  build_resolver_map listeners = build_resolvers listeners 0 []

-- The key of an entry of `buildLegacyStepResolvers`: none but those of a step have one.
unfoldable pub legacy_key : String → Option String
unfolding strip
legacy_key key = elim (strip "before:step:" key) [
  | some name ↦ some ("before-step:" <> name)
  | none ↦ elim (strip "after:step:" key) [
    | some name ↦ some ("after-step:" <> name)
    | none ↦ elim (strip "on-error:step:" key) [
      | some name ↦ some ("on-step-error:" <> name)
      | none ↦ none
    ]
  ]
]

-- `buildLegacyStepResolvers`
unfoldable pub build_legacy_step_resolvers :
    {V S : Type 0} → ResolverMap V S → Table (ListenerFn V S)
unfolding legacy_key rekey
build_legacy_step_resolvers resolvers =
    rekey legacy_key (λ (e : ListenerEntry _ _). e.fn) resolvers []

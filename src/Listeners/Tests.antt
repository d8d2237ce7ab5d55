-- ===== src/Listeners/Tests.antt =====
-- Three listeners of a step, and the theorems about them. The values and the state are numbers.
use nest_batch.Prelude.{ℕ, ◌+◌, ◌≡◌, refl, true, false, none, some, [], ◌∷◌, err}
use nest_batch.Prelude.Table.{get, set}
use nest_batch.Prelude.Effects.{throw, modify}
use nest_batch.Errors.{plain_error}
use nest_batch.Listeners.{
  ListenerFn, ResolverMap, step, invoke_matching, invoke_before, invoke_after, invoke_on_error,
  invoke_before_step, invoke_after_step, invoke_on_error_step,
}
use nest_batch.Listeners.Resolvers.{build_legacy_step_resolvers}
use nest_batch.Listeners.Dispatch.{Stopped, invoke_matching-Stopped}
use nest_batch.Listeners.Critical.{all_critical, invoke_before_step-critical}

abbrev failing : ListenerFn ℕ ℕ
failing args = throw (plain_error "no")

abbrev counting : ListenerFn ℕ ℕ
counting args = modify (λ n. n + 1)

abbrev resolvers : ResolverMap ℕ ℕ
resolvers =
    ("before:step:lambda-0", record { fn = failing; non_critical = true })
    ∷ ("before:step:lambda-1", record { fn = counting; non_critical = false })
    ∷ ("before:step:lambda-2", record { fn = failing; non_critical = false })
    ∷ []

stopped : invoke_matching resolvers "before:step:" (7 ∷ []) 0 ≡ (err (plain_error "no"), 1)
unfolding invoke_matching
stopped = refl

invoke_matching-Stopped_example : Stopped "before:step:" (7 ∷ []) resolvers 0 (plain_error "no") 1
invoke_matching-Stopped_example =
    invoke_matching-Stopped "before:step:" (7 ∷ []) resolvers 0 (plain_error "no") 1 stopped

invoke_before_step-critical_example :
    (invoke_before_step (build_legacy_step_resolvers resolvers) 7
      ≡ invoke_before (all_critical resolvers) step 7 none)
    × (invoke_after_step (build_legacy_step_resolvers resolvers) 7 8
        ≡ invoke_after (all_critical resolvers) step 7 (some 8))
    × (invoke_on_error_step (build_legacy_step_resolvers resolvers) 7 8
        ≡ invoke_on_error (all_critical resolvers) step 7 8)
unfolding get
invoke_before_step-critical_example =
    invoke_before_step-critical resolvers 7 8 (refl, (refl, (refl, tt)))

-- The first listener, which is not critical, now ends the dispatch.
as_critical :
    invoke_before_step (build_legacy_step_resolvers resolvers) 7 0 ≡ (err (plain_error "no"), 0)
unfolding invoke_before_step build_legacy_step_resolvers set
as_critical = refl

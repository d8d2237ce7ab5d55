-- ===== src/Listeners/Critical.antt =====
-- What the two translations of the listeners of a tasklet step come to: every listener of a step is
-- called as if it were critical (packages/core/src/execution/listener-invoker.ts and
-- packages/core/src/execution/job-executor.ts).
use nest_batch.Prelude.{
  String, ◌≡◌, refl, sym, ap, ◌∙◌, false, none, some, List, [], ◌∷◌, if◌then◌else◌,
}
use nest_batch.Prelude.Effects.{Exec, ◌>>◌}
use nest_batch.Errors.{BatchError}
use nest_batch.Listeners.{
  ListenerFn, ListenerEntry, ResolverMap, Phase, before, after, on_error, step, prefix_of,
  starts_with, new_key, build_call_args, invoke_entry, invoke_matching, invoke_before, invoke_after,
  invoke_on_error, rekey, convert_legacy_resolvers, invoke_before_step, invoke_after_step,
  invoke_on_error_step,
}
use nest_batch.Listeners.Resolvers.{legacy_key, build_legacy_step_resolvers}
use nest_batch.Listeners.Rekey.{
  Distinct, rekey_list, rekey-eq-list, rekey_list-Distinct, rekey_list-some, rekey_list-none_at,
}
use nest_batch.Listeners.Legacy.{
  legacy_key-Injective, new_key-Injective, Route, taken, not_of_step, of_other, Route-before,
  Route-after, Route-on_error,
}

module _ {V S : Type 0} where
  abbrev fn_of : ListenerEntry V S → ListenerFn V S
  fn_of entry = entry.fn

  abbrev as_critical : ListenerFn V S → ListenerEntry V S
  as_critical fn = record { fn = fn; non_critical = false }

  -- The listeners, each of them critical
  abbrev pub all_critical : ResolverMap V S → ResolverMap V S
  all_critical [] = []
  all_critical ((key, entry) ∷ resolvers) = (key, as_critical entry.fn) ∷ all_critical resolvers

  module _ (legacy_prefix : String) (phase : Phase)
      (route : (key : String) → Route legacy_prefix phase key) where
    abbrev twice : ResolverMap V S → ResolverMap V S
    twice resolvers =
        rekey_list (new_key legacy_prefix phase) as_critical (rekey_list legacy_key fn_of resolvers)

    convert-twice :
        (resolvers : ResolverMap V S)
        → Distinct resolvers
        → convert_legacy_resolvers (build_legacy_step_resolvers resolvers) legacy_prefix phase
          ≡ twice resolvers
    unfolding convert_legacy_resolvers build_legacy_step_resolvers
    convert-twice resolvers d =
        ap (λ m. rekey (new_key legacy_prefix phase) as_critical m [])
          (rekey-eq-list legacy_key fn_of resolvers legacy_key-Injective d)
        ∙ rekey-eq-list (new_key legacy_prefix phase) as_critical
            (rekey_list legacy_key fn_of resolvers) (new_key-Injective legacy_prefix phase)
            (rekey_list-Distinct legacy_key fn_of legacy_key-Injective resolvers d)

    twice-taken :
        (key j : String) (entry : ListenerEntry V S) (resolvers : ResolverMap V S)
        → legacy_key key ≡ some j
        → new_key legacy_prefix phase j ≡ some key
        → twice ((key, entry) ∷ resolvers) ≡ (key, as_critical entry.fn) ∷ twice resolvers
    twice-taken key j entry resolvers q r =
        ap (rekey_list (new_key legacy_prefix phase) as_critical)
          (rekey_list-some legacy_key fn_of key j entry resolvers q)
        ∙ rekey_list-some (new_key legacy_prefix phase) as_critical j key entry.fn
            (rekey_list legacy_key fn_of resolvers) r

    twice-of_other :
        (key j : String) (entry : ListenerEntry V S) (resolvers : ResolverMap V S)
        → legacy_key key ≡ some j
        → new_key legacy_prefix phase j ≡ none
        → twice ((key, entry) ∷ resolvers) ≡ twice resolvers
    twice-of_other key j entry resolvers q r =
        ap (rekey_list (new_key legacy_prefix phase) as_critical)
          (rekey_list-some legacy_key fn_of key j entry resolvers q)
        ∙ rekey_list-none_at (new_key legacy_prefix phase) as_critical j entry.fn
            (rekey_list legacy_key fn_of resolvers) r

    twice-not_of_step :
        (key : String) (entry : ListenerEntry V S) (resolvers : ResolverMap V S)
        → legacy_key key ≡ none
        → twice ((key, entry) ∷ resolvers) ≡ twice resolvers
    twice-not_of_step key entry resolvers q =
        ap (rekey_list (new_key legacy_prefix phase) as_critical)
          (rekey_list-none_at legacy_key fn_of key entry resolvers q)

    abbrev dispatched : ResolverMap V S → List V → Exec BatchError S (Unit {0})
    dispatched resolvers args = invoke_matching resolvers (prefix_of phase step) args

    skipped :
        (key : String) (entry : ListenerEntry V S) (resolvers : ResolverMap V S) (args : List V)
        → starts_with key (prefix_of phase step) ≡ false
        → dispatched ((key, entry) ∷ resolvers) args ≡ dispatched resolvers args
    unfolding invoke_matching
    skipped key entry resolvers args p = rw (invoke_matching, p) refl

    same_head :
        (key : String) (entry : ListenerEntry V S) (m n : ResolverMap V S) (args : List V)
        → dispatched m args ≡ dispatched n args
        → dispatched ((key, entry) ∷ m) args ≡ dispatched ((key, entry) ∷ n) args
    unfolding invoke_matching
    same_head key entry m n args h =
        ap
          (λ (rest : Exec BatchError S (Unit {0})).
            if starts_with key (prefix_of phase step)
            then invoke_entry entry args >> rest
            else rest)
          h

    dispatch-twice :
        (resolvers : ResolverMap V S) (args : List V)
        → dispatched (twice resolvers) args ≡ dispatched (all_critical resolvers) args
    dispatch-twice [] args = refl
    dispatch-twice ((key, entry) ∷ resolvers) args =
        let again = dispatch-twice resolvers args in
        elim (route key) [
          | taken j q r p ↦
              ap (λ m. dispatched m args) (twice-taken key j entry resolvers q r)
              ∙ same_head key (as_critical entry.fn) (twice resolvers) (all_critical resolvers) args
                  again
          | not_of_step q p ↦
              ap (λ m. dispatched m args) (twice-not_of_step key entry resolvers q)
              ∙ again
              ∙ sym (skipped key (as_critical entry.fn) (all_critical resolvers) args p)
          | of_other j q r p ↦
              ap (λ m. dispatched m args) (twice-of_other key j entry resolvers q r)
              ∙ again
              ∙ sym (skipped key (as_critical entry.fn) (all_critical resolvers) args p)
        ]

    legacy_dispatch :
        (resolvers : ResolverMap V S) (args : List V)
        → Distinct resolvers
        → dispatched
            (convert_legacy_resolvers (build_legacy_step_resolvers resolvers) legacy_prefix phase)
            args
          ≡ dispatched (all_critical resolvers) args
    legacy_dispatch resolvers args d =
        ap (λ m. dispatched m args) (convert-twice resolvers d) ∙ dispatch-twice resolvers args

  -- For a map without double keys, the listeners before, after and on the error of a tasklet step,
  -- which go through the legacy keys and back, are called as from the map itself, in its order,
  -- but each as if it were critical.
  pub invoke_before_step-critical :
      (resolvers : ResolverMap V S) (ctx x : V)
      → Distinct resolvers
      → (invoke_before_step (build_legacy_step_resolvers resolvers) ctx
          ≡ invoke_before (all_critical resolvers) step ctx none)
        × (invoke_after_step (build_legacy_step_resolvers resolvers) ctx x
            ≡ invoke_after (all_critical resolvers) step ctx (some x))
        × (invoke_on_error_step (build_legacy_step_resolvers resolvers) ctx x
            ≡ invoke_on_error (all_critical resolvers) step ctx x)
  unfolding invoke_before_step invoke_after_step invoke_on_error_step
  invoke_before_step-critical resolvers ctx x d = (
    legacy_dispatch "before-step:" before Route-before resolvers (build_call_args step ctx none) d,
    legacy_dispatch "after-step:" after Route-after resolvers (build_call_args step ctx (some x)) d,
    legacy_dispatch "on-step-error:" on_error Route-on_error resolvers (ctx ∷ x ∷ []) d,
  )

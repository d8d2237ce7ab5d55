-- ===== src/Policies/Skip.antt =====
-- packages/core/src/policies/skip-policy.ts
use nest_batch.Prelude.{
  ℕ, Bool, true, false, List, [], ◌∷◌, ok, err, leb, ◌==◌, if◌then◌else◌, ◌>>=◌,
}
use nest_batch.Errors.{BatchError, invalid_flow_graph, invalid_skip_limit, Throws}
use nest_batch.Policies.{Skippable, SkipPolicyConfig, try_call, instance_check}

pub record Context : Type 0 where
  pub skip_count : ℕ
  pub skip_limit : ℕ

-- `matchesSkippable` of skip-policy.ts
unfoldable pub matches_skippable : BatchError → Skippable → Throws Bool
unfolding try_call instance_check
matches_skippable e f = if f.is_error_class then instance_check f e else ok (try_call f e)

-- `skippable.some(...)`: a throw ends the search.
unfoldable pub some_matches : BatchError → List Skippable → Throws Bool
unfolding matches_skippable
some_matches e [] = ok false
some_matches e (f ∷ fs) =
    let rest = some_matches e fs in do b ← matches_skippable e f; if b then ok true else rest

pub record Policy : Type 0 where
  pub should_skip : BatchError → Context → Throws Bool

unfoldable pub should_skip : SkipPolicyConfig → BatchError → Context → Throws Bool
should_skip config e context =
    if leb context.skip_limit context.skip_count then ok false else some_matches e config.skippable

unfoldable pub compile_skip_policy : SkipPolicyConfig → Throws Policy
unfolding should_skip
compile_skip_policy config =
    if config.limit == 0
    then err (invalid_flow_graph invalid_skip_limit)
    else ok (record { should_skip = should_skip config })

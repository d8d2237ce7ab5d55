-- ===== src/Chunk/Attempts.antt =====
-- How often `runPhase` of packages/core/src/execution/chunk-step-executor.ts runs its operation under
-- a policy that compileRetryPolicy of packages/core/src/policies/retry-policy.ts made.
use nest_batch.Prelude.{
  ℕ, zero, suc, ◌+◌, ◌-◌, ◌≤◌, ◌≡◌, refl, sym, ◌∙◌, Bool, true, false, ◌==◌, if◌then◌else◌, some,
  Result, ok, err, min, arith, ltb, Bool-cases, inl, inr, ap, ok_inj,
}
use nest_batch.Prelude.Effects.{lift, Ensures, bind_rule}
use nest_batch.Errors.{BatchError}
use nest_batch.Policies.{RetryPolicyConfig}
use nest_batch.Policies.Retry
use nest_batch.Chunk.Handlers.{Act, Run, Task, call, add_skips}
use nest_batch.Chunk.Decision.{
  Decision, skip_it, retry_after, Rules, exhausted, retry_or_throw, consult_retry, skip_or_retry,
  consult,
}
use nest_batch.Chunk.Phase.{
  PhaseResult, Hooks, outer_cap, wait, skip_step, act_on, recover, settle, attempts, run_phase,
}
use nest_batch.Chunk.Shrinking.{TameHooks}

-- The rules of a step with this retry policy
pub record RetriesBy (rules : Rules) (config : RetryPolicyConfig) : Type 0 where
  pub policy : Retry.Policy
  pub compiled : Retry.compile_retry_policy config ≡ ok policy
  pub used : rules.retry_policy ≡ some policy
  pub limit : rules.retry_limit ≡ config.limit

can_retry-le :
    (config : RetryPolicyConfig) (e : BatchError) (n limit : ℕ)
    → Retry.can_retry config e (record { attempt = n; retry_limit = some limit }) ≡ ok true
    → n ≤ limit
unfolding Retry.can_retry
can_retry-le config e n limit h = ground arith

if_ok :
    {A : Type 0} (b : Bool) (x : BatchError) (q p : A)
    → ◌≡◌ {A = Result BatchError A} (if b then err x else ok q) (ok p)
    → q ≡ p
if_ok true x q p h = absurd cc
if_ok false x q p h = ok_inj h

compiled-can_retry :
    (config : RetryPolicyConfig) (p : Retry.Policy)
    → Retry.compile_retry_policy config ≡ ok p
    → p.can_retry ≡ Retry.can_retry config
unfolding Retry.compile_retry_policy
compiled-can_retry config p h =
    sym (ap (λ (q : Retry.Policy). q.can_retry) (if_ok (config.limit == 0) _ _ p h))

-- A retry is decided only for an attempt within the limit.
retry_or_throw-le :
    (p : Retry.Policy) (limit n ms : ℕ) (e : BatchError)
    → (p.can_retry e (record { attempt = n; retry_limit = some limit }) ≡ ok true → n ≤ limit)
    → retry_or_throw p limit n e ≡ ok (retry_after ms)
    → n ≤ limit
unfolding retry_or_throw exhausted
retry_or_throw-le p limit n ms e within h = ground (arith, within)

consult_retry-le :
    (rules : Rules) (config : RetryPolicyConfig) (n ms : ℕ) (e : BatchError)
    → RetriesBy rules config
    → consult_retry rules n e ≡ ok (retry_after ms)
    → n ≤ config.limit
unfolding consult_retry
consult_retry-le rules config n ms e by h =
    let p = by.policy in
    let within : p.can_retry e (record { attempt = n; retry_limit = some rules.retry_limit })
          ≡ ok true
        → n ≤ rules.retry_limit =
      (λ q. can_retry-le config e n rules.retry_limit (
        ap (λ f. f e (record { attempt = n; retry_limit = some rules.retry_limit }))
          (sym (compiled-can_retry config p by.compiled))
        ∙ q)) in
    let bound = retry_or_throw-le p rules.retry_limit n ms e within in
    ground (arith, by.used, by.limit, h, bound)

consult-le :
    (rules : Rules) (config : RetryPolicyConfig) (count n ms : ℕ) (e : BatchError)
    → RetriesBy rules config
    → consult rules count n e ≡ ok (retry_after ms)
    → n ≤ config.limit
unfolding consult skip_or_retry
consult-le rules config count n ms e by h =
    ground (arith, h, consult_retry-le rules config n ms e by)

module _ {W A : Type 0} (rules : Rules) (config : RetryPolicyConfig) (by : RetriesBy rules config)
    (hooks : Hooks W A) (op : Act W A) (used : W → ℕ) (tame : TameHooks used hooks)
    (once : (w : W) → used (op w).1 ≤ used w + 1) where
  abbrev AtMost : ℕ → Result BatchError (PhaseResult A) → Run W → Type 0
  AtMost k x t = used t.world ≤ k

  wait-AtMost :
      (ms c : ℕ) (s : Run W) → used s.world ≤ c → used (wait rules hooks op ms s).1.world ≤ c
  unfolding wait call
  wait-AtMost ms c s h = elim (Bool-cases (ltb 0 ms)) [
    | inl e ↦ rw e (omega (arith, tame.sleep ms s.world))
    | inr e ↦ rw e h
  ]

  -- What the next round may add, it adds only if the policy allows the attempt.
  abbrev Next : Task W (PhaseResult A) → ℕ → ℕ → ℕ → Type 0
  Next again n c k = n ≤ config.limit → (t : Run W) → used t.world ≤ c → Ensures (AtMost k) again t

  act_on-AtMost :
      (again : Task W (PhaseResult A)) (n : ℕ) (e : BatchError) (d : Decision) (c k : ℕ) (s : Run W)
      → c ≤ k
      → used s.world ≤ c
      → ((ms : ℕ) → d ≡ retry_after ms → n ≤ config.limit)
      → Next again n c k
      → Ensures (AtMost k) (act_on rules hooks op again e d) s
  unfolding act_on skip_step call
  act_on-AtMost again n e skip_it c k s le h within next =
      bind_rule (AtMost k) (call (hooks.on_skip e)) _ (add_skips 1 s)
        (λ _ _. omega (arith, tame.on_skip e s.world))
        (λ _ _. omega (arith, tame.on_skip e s.world))
  act_on-AtMost again n e (retry_after ms) c k s le h within next =
      bind_rule (AtMost k) (wait rules hooks op ms) (λ _. again) s
        (λ _ _. next (within ms refl) (wait rules hooks op ms s).1 (wait-AtMost ms c s h))
        (λ _ _. omega (arith, wait-AtMost ms c s h))

  recover-AtMost :
      (again : Task W (PhaseResult A)) (n : ℕ) (e : BatchError) (c k : ℕ) (s : Run W)
      → c ≤ k
      → used s.world ≤ c
      → Next again n c k
      → Ensures (AtMost k) (recover rules hooks op again n e) s
  unfolding recover call
  recover-AtMost again n e c k s le h next =
      let told = call (hooks.on_error e) in
      let t = (told s).1 in
      bind_rule (AtMost k) told _ s
        (λ _ _.
          bind_rule (AtMost k) (lift (consult rules s.skip_count n e))
            (act_on rules hooks op again e) t
            (λ d decided.
              act_on-AtMost again n e d c k t le (omega (arith, tame.on_error e s.world))
                (λ ms q. consult-le rules config s.skip_count n ms e by (decided ∙ ap ok q)) next)
            (λ _ _. omega (arith, tame.on_error e s.world)))
        (λ _ _. omega (arith, tame.on_error e s.world))

  settle-AtMost :
      (again : Task W (PhaseResult A)) (n : ℕ) (x : Result BatchError A) (c k : ℕ) (s : Run W)
      → c ≤ k
      → used s.world ≤ c
      → Next again n c k
      → Ensures (AtMost k) (settle rules hooks op again n x) s
  unfolding settle call
  settle-AtMost again n (ok a) c k s le h next =
      bind_rule (AtMost k) (call (hooks.after a)) _ s (λ _ _. omega (arith, tame.after a s.world))
        (λ _ _. omega (arith, tame.after a s.world))
  settle-AtMost again n (err e) c k s le h next = recover-AtMost again n e c k s le h next

  attempts-AtMost :
      (rounds n : ℕ) (r : Run W)
      → n ≤ config.limit + 1
      → Ensures
          (AtMost (used r.world + min rounds (config.limit + 2 - n)))
          (attempts rules hooks op rounds n)
          r
  unfolding attempts call
  attempts-AtMost zero n r le = omega arith
  attempts-AtMost (suc rounds) n r le =
      let k = used r.world + min (suc rounds) (config.limit + 2 - n) in
      let s = (call hooks.before r).1 in
      bind_rule (AtMost k) (call hooks.before) _ r
        (λ _ _.
          settle-AtMost (λ t. attempts rules hooks op rounds (n + 1) t) n (op s.world).0
            (used r.world + 1) k (call op s).1 (omega arith)
            (omega (arith, tame.before r.world, once s.world))
            (λ allowed t h. omega (arith, attempts-AtMost rounds (n + 1) t (omega arith))))
        (λ _ _. omega (arith, tame.before r.world))

  -- Under a retry policy that `compileRetryPolicy` made of a configuration, a phase runs its
  -- operation at most once more than the limit says, and at most 999 times: so much is added to
  -- any count that the operation raises by at most one and that no hook raises.
  pub run_phase-attempts :
      (r : Run W)
      → used (run_phase rules hooks op r).1.world ≤ used r.world + min 999 (config.limit + 1)
  unfolding run_phase outer_cap
  run_phase-attempts r =
      let cap : outer_cap rules ≡ 999 = rw by.used refl in
      omega (arith, cap, attempts-AtMost (outer_cap rules) 1 r (omega arith))

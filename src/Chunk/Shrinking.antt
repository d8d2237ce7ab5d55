-- ===== src/Chunk/Shrinking.antt =====
-- A measure of the input that is left, through `runPhase` of
-- packages/core/src/execution/chunk-step-executor.ts.
use nest_batch.Prelude.{
  ℕ, zero, suc, ◌+◌, ◌≤◌, List, Result, ok, err, arith, All, ltb, Bool-cases, inl, inr,
}
use nest_batch.Prelude.Effects.{lift, Ensures, bind_rule}
use nest_batch.Errors.{BatchError}
use nest_batch.Context.{ExecutionContext}
use nest_batch.Chunk.Handlers.{Act, Run, Task, Stream, call, add_skips}
use nest_batch.Chunk.Decision.{Decision, skip_it, retry_after, Rules, consult}
use nest_batch.Chunk.Phase.{
  PhaseResult, done, skipped, Hooks, outer_cap, wait, skip_step, act_on, recover, settle, attempts,
  run_phase,
}

module _ {W : Type 0} (left : W → ℕ) where
  -- The call gives no input back.
  abbrev pub Tame : {A : Type 0} → Act W A → Type 0
  Tame m = (w : W) → left (m w).1 ≤ left w

  -- The call takes `gain a` of the input when it returns `a`.
  abbrev pub Takes : {A : Type 0} → (A → ℕ) → W → ℕ → Result BatchError A → Type 0
  Takes gain w n (ok a) = left w + gain a ≤ n
  Takes gain w n (err e) = left w ≤ n

  abbrev pub TameStreams : List (Stream W) → Type 0
  TameStreams = All (λ stream. (ctx : ExecutionContext) → Tame (stream.update ctx))

  -- At most `n` is left, and the open streams are tame.
  abbrev pub Within : ℕ → Run W → Type 0
  Within n r = TameStreams r.opened × (left r.world ≤ n)

  pub call-Within :
      {A : Type 0} (m : Act W A) (n : ℕ) (r : Run W) → Tame m → Within n r → Within n (call m r).1
  unfolding call
  call-Within m n r tame h = (h.0, omega (arith, tame r.world))

  pub record TameHooks {A : Type 0} (hooks : Hooks W A) : Type 0 where
    pub before : Tame hooks.before
    pub after : (a : A) → Tame (hooks.after a)
    pub on_error : (e : BatchError) → Tame (hooks.on_error e)
    pub on_skip : (e : BatchError) → Tame (hooks.on_skip e)
    pub sleep : (ms : ℕ) → Tame (hooks.sleep ms)

  abbrev pub Took : {A : Type 0} → (A → ℕ) → ℕ → Result BatchError (PhaseResult A) → Run W → Type 0
  Took gain n (ok (done a)) r = TameStreams r.opened × (left r.world + gain a ≤ n)
  Took gain n (ok skipped) r = TameStreams r.opened × (left r.world + 0 ≤ n)
  Took gain n (err e) r = Within n r

  module _ {A : Type 0} (gain : A → ℕ) (rules : Rules) (hooks : Hooks W A) (op : Act W A)
      (tame : TameHooks hooks) (takes : (w : W) → Takes gain (op w).1 (left w) (op w).0) where
    wait-Within : (ms n : ℕ) (r : Run W) → Within n r → Within n (wait rules hooks op ms r).1
    unfolding wait
    wait-Within ms n r h = elim (Bool-cases (ltb 0 ms)) [
      | inl e ↦ rw e (call-Within (hooks.sleep ms) n r (tame.sleep ms) h)
      | inr e ↦ rw e h
    ]

    act_on-Took :
        (again : Task W (PhaseResult A)) (e : BatchError) (d : Decision) (n : ℕ) (r : Run W)
        → Within n r
        → ((s : Run W) → Within n s → Ensures (Took gain n) again s)
        → Ensures (Took gain n) (act_on rules hooks op again e d) r
    unfolding act_on skip_step
    act_on-Took again e skip_it n r h next =
        let quiet = call-Within (hooks.on_skip e) n (add_skips 1 r) (tame.on_skip e) h in
        bind_rule (Took gain n) (call (hooks.on_skip e)) _ (add_skips 1 r)
          (λ _ _. (quiet.0, omega (arith, quiet.1))) (λ _ _. quiet)
    act_on-Took again e (retry_after ms) n r h next =
        bind_rule (Took gain n) (wait rules hooks op ms) (λ _. again) r
          (λ _ _. next _ (wait-Within ms n r h)) (λ _ _. wait-Within ms n r h)

    recover-Took :
        (again : Task W (PhaseResult A)) (k : ℕ) (e : BatchError) (n : ℕ) (r : Run W)
        → Within n r
        → ((s : Run W) → Within n s → Ensures (Took gain n) again s)
        → Ensures (Took gain n) (recover rules hooks op again k e) r
    unfolding recover
    recover-Took again k e n r h next =
        let quiet = call-Within (hooks.on_error e) n r (tame.on_error e) h in
        let s = (call (hooks.on_error e) r).1 in
        bind_rule (Took gain n) (call (hooks.on_error e)) _ r
          (λ _ _.
            bind_rule (Took gain n) (lift (consult rules s.skip_count k e))
              (act_on rules hooks op again e) s (λ d _. act_on-Took again e d n s quiet next)
              (λ _ _. quiet))
          (λ _ _. quiet)

    settle-Took :
        (again : Task W (PhaseResult A)) (k : ℕ) (outcome : Result BatchError A) (n : ℕ) (r : Run W)
        → TameStreams r.opened
        → Takes gain r.world n outcome
        → ((s : Run W) → Within n s → Ensures (Took gain n) again s)
        → Ensures (Took gain n) (settle rules hooks op again k outcome) r
    unfolding settle call
    settle-Took again k (ok value) n r open_ones h next =
        let w : Tame (hooks.after value) = tame.after value in
        bind_rule (Took gain n) (call (hooks.after value)) _ r
          (λ _ _. (open_ones, omega (arith, w r.world)))
          (λ _ _. (open_ones, omega (arith, w r.world)))
    settle-Took again k (err e) n r open_ones h next =
        recover-Took again k e n r (open_ones, h) next

    takes_within :
        (w v : W) (n : ℕ) (outcome : Result BatchError A)
        → left w ≤ n
        → Takes gain v (left w) outcome
        → Takes gain v n outcome
    takes_within w v n (ok a) h t = omega arith
    takes_within w v n (err e) h t = omega arith

    attempts-Took :
        (rounds k n : ℕ) (r : Run W)
        → Within n r
        → Ensures (Took gain n) (attempts rules hooks op rounds k) r
    unfolding attempts call
    attempts-Took zero k n r h = h
    attempts-Took (suc rounds) k n r h =
        let quiet = call-Within hooks.before n r tame.before h in
        let w = (hooks.before r.world).1 in
        bind_rule (Took gain n) (call hooks.before) _ r
          (λ _ _.
            settle-Took (λ s. attempts rules hooks op rounds (k + 1) s) k (op w).0 n
              (call op (call hooks.before r).1).1 quiet.0
              (takes_within w (op w).1 n (op w).0 quiet.1 (takes w))
              (λ s h'. attempts-Took rounds (k + 1) n s h'))
          (λ _ _. quiet)

    pub run_phase-Took :
        (n : ℕ) (r : Run W) → Within n r → Ensures (Took gain n) (run_phase rules hooks op) r
    unfolding run_phase
    run_phase-Took n r h = attempts-Took (outer_cap rules) 1 n r h

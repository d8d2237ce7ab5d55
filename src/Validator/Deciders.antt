-- ===== src/Validator/Deciders.antt =====
-- The loop over the deciders in packages/core/src/core/validation/definition-validator.ts.
use nest_batch.Prelude.{
  String, Bool, ◌≡◌, true, false, not, List, [], ◌∷◌, ok, err, Has, here, there, arith, eq_iff, inl,
  inr, then-ok, then-err,
}
use nest_batch.Prelude.Table.{Table}
use nest_batch.Prelude.Sets.{member, member-cons}
use nest_batch.Errors.{BatchError, invalid_flow_graph, FlowCode, missing_target, duplicate_decider}
use nest_batch.Executor.Definitions.{StepDefinition, DeciderDefinition}
use nest_batch.Validator.{in_steps, require, check_deciders}
use nest_batch.Validator.Checks.{require-ok, require-err, Twice, now, later}

not-true : (b : Bool) → not b ≡ true → b ≡ false
not-true true h = absurd cc
not-true false h = cc

module _ {W : Type 0} (steps : Table StepDefinition) where
  -- What is wrong with a list of deciders behind those of the steps in `seen`
  pub data DeciderViolation (seen : List String) (deciders : List (DeciderDefinition W))
      : FlowCode → Type 0 where
    after_nowhere :
        (d : DeciderDefinition W)
        → Has d deciders
        → in_steps steps d.after_step_id ≡ false
        → DeciderViolation seen deciders missing_target
    known_step :
        (d : DeciderDefinition W)
        → Has d deciders
        → member d.after_step_id seen ≡ true
        → DeciderViolation seen deciders duplicate_decider
    twice : Twice deciders → DeciderViolation seen deciders duplicate_decider

  violation_later :
      (seen : List String) (d : DeciderDefinition W) (deciders : List (DeciderDefinition W))
      {code : FlowCode}
      → DeciderViolation (d.after_step_id ∷ seen) deciders code
      → DeciderViolation seen (d ∷ deciders) code
  violation_later seen d deciders (after_nowhere e m b) = after_nowhere e (there m) b
  violation_later seen d deciders (known_step e m k) =
      elim (member-cons e.after_step_id d.after_step_id seen k) [
        | inl q ↦ twice (now m q)
        | inr j ↦ known_step e (there m) j
      ]
  violation_later seen d deciders (twice w) = twice (later w)

  pub check_deciders-err :
      (seen : List String) (deciders : List (DeciderDefinition W)) {e : BatchError}
      → check_deciders steps seen deciders ≡ err e
      → (code : FlowCode) × DeciderViolation seen deciders code × (e ≡ invalid_flow_graph code)
  unfolding check_deciders
  check_deciders-err seen [] h = absurd cc
  check_deciders-err seen (d ∷ deciders) h = elim (then-err _ _ h) [
    | inl k ↦
        let (b, q) = require-err (in_steps steps d.after_step_id) missing_target k in
        (missing_target, after_nowhere d here b, q)
    | inr k ↦ elim (then-err _ _ k) [
      | inl j ↦
          let (b, q) = require-err (not (member d.after_step_id seen)) duplicate_decider j in
          (duplicate_decider, known_step d here (ground (arith, b)), q)
      | inr j ↦
          let (code, v, q) = check_deciders-err (d.after_step_id ∷ seen) deciders j in
          (code, violation_later seen d deciders v, q)
    ]
  ]

  module _ (seen : List String) (d : DeciderDefinition W) (deciders : List (DeciderDefinition W))
      (h : check_deciders steps seen (d ∷ deciders) ≡ ok tt) where
    first_ok : (in_steps steps d.after_step_id ≡ true) × (member d.after_step_id seen ≡ false)
    unfolding check_deciders
    first_ok = (
      require-ok (in_steps steps d.after_step_id) missing_target (then-ok _ _ h).0,
      let k : require (not (member d.after_step_id seen)) duplicate_decider ≡ ok tt =
            (then-ok _ _ (then-ok _ _ h).1).0 in
          not-true (member d.after_step_id seen)
            (require-ok (not (member d.after_step_id seen)) duplicate_decider k),
    )

    rest_ok : check_deciders steps (d.after_step_id ∷ seen) deciders ≡ ok tt
    unfolding check_deciders
    rest_ok = (then-ok _ _ (then-ok _ _ h).1).1

  each_decider-ok :
      (d : DeciderDefinition W) (seen : List String) (deciders : List (DeciderDefinition W))
      → check_deciders steps seen deciders ≡ ok tt
      → Has d deciders
      → (in_steps steps d.after_step_id ≡ true) × (member d.after_step_id seen ≡ false)
  unfolding member
  each_decider-ok d seen _ h (here {xs = deciders}) = first_ok seen d deciders h
  each_decider-ok d seen _ h (there {y = u} {xs = deciders} m) =
      let (i, n) =
        each_decider-ok d (u.after_step_id ∷ seen) deciders (rest_ok seen u deciders h) m in
      (i, ground (arith, n))

  not-Twice :
      (seen : List String) (deciders : List (DeciderDefinition W))
      → check_deciders steps seen deciders ≡ ok tt
      → Twice deciders
      → ⊥
  unfolding member
  not-Twice seen _ h (now {d} {e} {deciders} m q) =
      let (_, n) =
        each_decider-ok e (d.after_step_id ∷ seen) deciders (rest_ok seen d deciders h) m in
      ground (arith, n, q, eq_iff d.after_step_id e.after_step_id)
  not-Twice seen _ h (later {d} {deciders} w) =
      not-Twice (d.after_step_id ∷ seen) deciders (rest_ok seen d deciders h) w

  pub check_deciders-ok :
      (seen : List String) (deciders : List (DeciderDefinition W)) {code : FlowCode}
      → check_deciders steps seen deciders ≡ ok tt
      → DeciderViolation seen deciders code
      → ⊥
  check_deciders-ok seen deciders h (after_nowhere d m b) =
      let (i, _) = each_decider-ok d seen deciders h m in ground (arith, i, b)
  check_deciders-ok seen deciders h (known_step d m k) =
      let (_, n) = each_decider-ok d seen deciders h m in ground (arith, n, k)
  check_deciders-ok seen deciders h (twice w) = not-Twice seen deciders h w

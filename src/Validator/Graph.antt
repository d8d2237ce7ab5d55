-- ===== src/Validator/Graph.antt =====
-- What the checks of packages/core/src/core/validation/definition-validator.ts are about: paths
-- along the transitions of a job, steps from which every path ends, and how many transitions start
-- at a step outside a set.
use nest_batch.Prelude.{
  ℕ, suc, ◌≤◌, ◌<◌, String, ◌≡◌, refl, sym, subst, true, false, List, [], ◌∷◌, length, Has, here,
  there, arith, if◌then◌else◌, ◌⊎◌, inl, inr, Bool-cases,
}
use nest_batch.Prelude.Sets.{member, member-cons_same, member-cons_later}
use nest_batch.Flow.{TransitionDefinition}
use nest_batch.Executor.Progress.{Leads}

-- A path of no transitions or more
pub data Reaches (transitions : List TransitionDefinition) (start : String) : String → Type 0 where
  at_start : Reaches transitions start start
  onward :
      {x y : String}
      → Reaches transitions start x
      → Leads transitions x y
      → Reaches transitions start y

-- A path of one transition or more
pub data Circles (transitions : List TransitionDefinition) (x y : String) : Type 0 where
  circle : {z : String} → Leads transitions x z → Reaches transitions z y → Circles transitions x y

-- Every path from the step ends.
pub data Ends (transitions : List TransitionDefinition) : String → Type 0 where
  ends :
      {x : String}
      → ((y : String) → Leads transitions x y → Ends transitions y)
      → Ends transitions x

module _ {transitions : List TransitionDefinition} where
  pub Reaches-trans :
      {x y z : String} → Reaches transitions x y → Reaches transitions y z → Reaches transitions x z
  Reaches-trans p at_start = p
  Reaches-trans p (onward q e) = onward (Reaches-trans p q) e

  pub Circles-step :
      {x y z : String} → Circles transitions x y → Leads transitions y z → Circles transitions x z
  Circles-step (circle e p) f = circle e (onward p f)

  pub Ends-Reaches :
      {x y : String} → Ends transitions x → Reaches transitions x y → Ends transitions y
  Ends-Reaches e at_start = e
  Ends-Reaches {x} {y} e (onward p f) = elim (Ends-Reaches e p) [ ends g ↦ g y f ]

  first_step :
      {x y : String}
      → Reaches transitions x y
      → (x ≡ y) ⊎ ((z : String) × Leads transitions x z × Reaches transitions z y)
  first_step at_start = inl refl
  first_step {x} {y} (onward {x = w} p f) = elim (first_step p) [
    | inl e ↦ inr (y, subst (λ v. Leads transitions v y) (sym e) f, at_start)
    | inr (z, e, q) ↦ inr (z, e, onward q f)
  ]

  -- A circle through `x`, entered one step later
  rotate :
      {x z : String} → Leads transitions x z → Reaches transitions z x → Circles transitions z z
  rotate {x} {z} e p = elim (first_step p) [
    | inl q ↦ circle (subst (λ v. Leads transitions v z) (sym q) e) at_start
    | inr (w, f, r) ↦ circle f (onward r e)
  ]

  -- No path leads from such a step back to it.
  pub Ends-no_circle : {x : String} → Ends transitions x → Circles transitions x x → ⊥
  Ends-no_circle {x} (ends g) (circle {z} e p) = Ends-no_circle (g z e) (rotate e p)

-- The transitions that start outside `set`
unfoldable pub pending : List TransitionDefinition → List String → ℕ
pending [] set = 0
pending (t ∷ transitions) set =
    let rest = pending transitions set in if member t.from_step_id set then rest else suc rest

pub pending-nil :
    (transitions : List TransitionDefinition) → pending transitions [] ≡ length transitions
unfolding pending member
pending-nil [] = refl
pending-nil (t ∷ transitions) = omega (arith, pending-nil transitions)

-- A larger set leaves fewer transitions outside.
pub pending-grows :
    (transitions : List TransitionDefinition) (small large : List String)
    → ((x : String) → member x small ≡ true → member x large ≡ true)
    → pending transitions large ≤ pending transitions small
unfolding pending
pending-grows [] small large h = omega arith
pending-grows (t ∷ transitions) small large h = elim (Bool-cases (member t.from_step_id small)) [
  | inl e ↦ rw e (rw (h t.from_step_id e) (pending-grows transitions small large h))
  | inr e ↦ elim (Bool-cases (member t.from_step_id large)) [
    | inl f ↦ rw e (rw f (omega (arith, pending-grows transitions small large h)))
    | inr f ↦ rw e (rw f (omega (arith, pending-grows transitions small large h)))
  ]
]

pub pending-cons :
    (transitions : List TransitionDefinition) (x : String) (set : List String)
    → pending transitions (x ∷ set) ≤ pending transitions set
pending-cons transitions x set =
    pending-grows transitions set (x ∷ set) (λ y h. member-cons_later y x set h)

-- A step that a transition starts at is counted until it is in the set.
pub pending-visit :
    (x : String) (set : List String) (t : TransitionDefinition)
    (transitions : List TransitionDefinition)
    → Has t transitions
    → t.from_step_id ≡ x
    → member x set ≡ false
    → pending transitions (x ∷ set) < pending transitions set
unfolding pending
pending-visit x set t _ (here {xs = transitions}) e h =
    rw e (rw h (rw (member-cons_same x set) (omega (arith, pending-cons transitions x set))))
pending-visit x set t _ (there {y = u} {xs = transitions} m) e h =
    elim (Bool-cases (member u.from_step_id set)) [
      | inl f ↦
          rw f (
            rw (member-cons_later u.from_step_id x set f) (pending-visit x set t transitions m e h))
      | inr f ↦ elim (Bool-cases (member u.from_step_id (x ∷ set))) [
        | inl g ↦ rw f (rw g (omega (arith, pending-visit x set t transitions m e h)))
        | inr g ↦ rw f (rw g (omega (arith, pending-visit x set t transitions m e h)))
      ]
    ]

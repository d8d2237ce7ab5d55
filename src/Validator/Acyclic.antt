-- ===== src/Validator/Acyclic.antt =====
-- `assertAcyclic` of packages/core/src/core/validation/definition-validator.ts: the fuel is enough,
-- and the search throws exactly where a circle can be reached from the start.
pub mod Loop
use nest_batch.Prelude.{
  ℕ, zero, suc, ◌≤◌, ◌<◌, String, ◌≡◌, refl, sym, ap, subst, ◌∙◌, Bool, true, false, Option, none,
  some, List, [], ◌∷◌, length, Result, ok, err, Has, here, there, arith, eq_iff, ◌⊎◌, inl, inr,
  Bool-cases, Option-cases, some_inj, ok_inj, ◌↔◌, ◌>>=◌,
}
use nest_batch.Prelude.Sets.{
  member, delete, member-cons, member-cons_same, member-cons_later, delete-cons_same,
}
use nest_batch.Errors.{BatchError, invalid_flow_graph, cycle_detected, Throws}
use nest_batch.Flow.{TransitionDefinition}
use nest_batch.Executor.Progress.{Leads}
use nest_batch.Validator.{Marks, each_successor, enter, leave, detect_cycle, assert_acyclic}
use nest_batch.Validator.Graph.{
  Reaches, at_start, onward, Circles, circle, Ends, ends, pending, pending-nil, pending-grows,
  pending-visit, Circles-step, Ends-Reaches, Ends-no_circle,
}
use nest_batch.Validator.Acyclic.Loop.{each_ok, each_err}

module _ (transitions : List TransitionDefinition) where
  module _ (n : ℕ) (x : String) (marks : Marks) where
    abbrev inner : Throws Marks
    inner = each_successor (detect_cycle n transitions) transitions x (enter x marks)

    -- How a call went
    data Call : Type 0 where
      throws_here :
          member x marks.in_stack ≡ true
          → detect_cycle (suc n) transitions x marks ≡ err (invalid_flow_graph cycle_detected)
          → Call
      known :
          member x marks.in_stack ≡ false
          → member x marks.visited ≡ true
          → detect_cycle (suc n) transitions x marks ≡ ok marks
          → Call
      deeper :
          member x marks.in_stack ≡ false
          → member x marks.visited ≡ false
          → detect_cycle (suc n) transitions x marks ≡ (inner >>= λ after. ok (leave x after))
          → Call

    call : Call
    unfolding detect_cycle
    call = elim (Bool-cases (member x marks.in_stack)) [
      | inl e ↦ throws_here e (rw (detect_cycle, e) refl)
      | inr e ↦ elim (Bool-cases (member x marks.visited)) [
        | inl f ↦ known e f (rw (detect_cycle, e, f) refl)
        | inr f ↦ deeper e f (rw (detect_cycle, e, f) refl)
      ]
    ]

  left :
      (x : String) (r : Throws Marks) (after : Marks)
      → (r >>= λ m. ok (leave x m)) ≡ ok after
      → (m : Marks) × (r ≡ ok m) × (after ≡ leave x m)
  left x (ok m) after h = (m, refl, sym (ok_inj h))
  left x (err e) after h = absurd cc

  left_err :
      (x : String) (r : Throws Marks) (e : BatchError)
      → (r >>= λ m. ok (leave x m)) ≡ err e
      → r ≡ err e
  left_err x (ok m) e h = absurd cc
  left_err x (err y) e h = cc

  -- A call that ends leaves the stack as it was.
  detect-in_stack :
      (n : ℕ) (x : String) (marks after : Marks)
      → detect_cycle n transitions x marks ≡ ok after
      → after.in_stack ≡ marks.in_stack
  unfolding detect_cycle enter leave
  detect-in_stack zero x marks after h = ap (λ m. m.in_stack) (sym (ok_inj h))
  detect-in_stack (suc n) x marks after h = elim (call n x marks) [
    | throws_here e q ↦ absurd cc
    | known e f q ↦ ap (λ m. m.in_stack) (ok_inj (sym h ∙ q))
    | deeper e f q ↦
        let (m, r, s) = left x (inner n x marks) after (sym q ∙ h) in
        let (same, _) =
          each_ok (detect_cycle n transitions) x (λ m. m.in_stack ≡ x ∷ marks.in_stack) transitions
            (enter x marks) m (λ y m a l i k. detect-in_stack n y m a k ∙ i) refl r in
        ap (λ a. a.in_stack) s ∙ ap (delete x) same ∙ delete-cons_same x marks.in_stack e
  ]

  abbrev Grows : List String → Marks → Type 0
  Grows set after = (y : String) → member y set ≡ true → member y after.visited ≡ true

  -- No mark is taken back.
  detect-Grows :
      (n : ℕ) (x : String) (marks after : Marks)
      → detect_cycle n transitions x marks ≡ ok after
      → Grows marks.visited after
  unfolding detect_cycle enter leave
  detect-Grows zero x marks after h y m =
      subst (λ (a : Marks). member y a.visited ≡ true) (ok_inj h) m
  detect-Grows (suc n) x marks after h y m = elim (call n x marks) [
    | throws_here e q ↦ absurd cc
    | known e f q ↦ subst (λ (a : Marks). member y a.visited ≡ true) (ok_inj (sym q ∙ h)) m
    | deeper e f q ↦
        let (b, r, s) = left x (inner n x marks) after (sym q ∙ h) in
        let (seen, _) =
          each_ok (detect_cycle n transitions) x (λ c. member y c.visited ≡ true) transitions
            (enter x marks) b (λ z c a l i k. detect-Grows n z c a k y i)
            (member-cons_later y x marks.visited m) r in
        subst (λ (a : Marks). member y a.visited ≡ true) (sym s) seen
  ]

  -- A step that was left is one from which every path ends.
  pub record Good (marks : Marks) : Type 0 where
    finished :
        (y : String)
        → member y marks.visited ≡ true
        → member y marks.in_stack ≡ false
        → Ends transitions y

  -- What the loop over the transitions of `x` keeps, entered with `marks`
  record Within (x : String) (marks m : Marks) : Type 0 where
    good : Good m
    grown : Grows (x ∷ marks.visited) m
    stack : m.in_stack ≡ x ∷ marks.in_stack

  Good-enter : (x : String) (marks : Marks) → Good marks → Good (enter x marks)
  unfolding enter member
  Good-enter x marks g = record {
    finished = λ y m k. g.finished y (ground (arith, m, k, eq_iff x y)) (ground (arith, k));
  }

  Good-leave :
      (x : String) (marks m : Marks)
      → member x marks.in_stack ≡ false
      → Within x marks m
      → Ends transitions x
      → Good (leave x m)
  unfolding leave member
  Good-leave x marks m out w e = record {
    finished = λ y k l.
        let l' : member y marks.in_stack ≡ false =
          ap (member y) (sym (ap (delete x) w.stack ∙ delete-cons_same x marks.in_stack out)) ∙ l in
        elim (Bool-cases (member y (x ∷ marks.in_stack))) [
          | inl i ↦ subst (Ends transitions) (ground (arith, i, l', eq_iff x y)) e
          | inr i ↦ w.good.finished y k (ap (member y) w.stack ∙ i)
        ];
  }

  Within-enter : (x : String) (marks : Marks) → Good marks → Within x marks (enter x marks)
  unfolding enter
  Within-enter x marks g = record { good = Good-enter x marks g; grown = grown; stack = stack }
    where
      grown : Grows (x ∷ marks.visited) (enter x marks)
      grown y m = m

      stack : (enter x marks).in_stack ≡ x ∷ marks.in_stack
      stack = refl

  pending-Leads :
      (x y : String) (marks m : Marks)
      → Leads transitions x y
      → member x marks.visited ≡ false
      → Grows (x ∷ marks.visited) m
      → pending transitions m.visited < pending transitions marks.visited
  pending-Leads x y marks m (t, place, e, q) out grown =
      let less = pending-visit x marks.visited t transitions place e out in
      let more = pending-grows transitions (x ∷ marks.visited) m.visited grown in
      omega (arith, less, more)

  detect-Ends :
      (n : ℕ) (x : String) (marks after : Marks)
      → pending transitions marks.visited < n
      → Good marks
      → detect_cycle n transitions x marks ≡ ok after
      → Good after × Ends transitions x
  detect-Ends zero x marks after enough g h = absurd (omega arith)
  detect-Ends (suc n) x marks after enough g h = elim (call n x marks) [
    | throws_here e q ↦ absurd cc
    | known e f q ↦ (subst Good (ok_inj (sym q ∙ h)) g, g.finished x f e)
    | deeper e f q ↦
        let (m, r, s) = left x (inner n x marks) after (sym q ∙ h) in
        let fuel : (y : String) (b : Marks)
            → Leads transitions x y
            → Within x marks b
            → pending transitions b.visited < n =
          λ y b l w. omega (arith, pending-Leads x y marks b l f w.grown, enough) in
        let (w, visited) =
          each_ok (detect_cycle n transitions) x (Within x marks) transitions (enter x marks) m
            (λ y b a l w k. record {
              good = (detect-Ends n y b a (fuel y b l w) w.good k).0;
              grown = λ z i. detect-Grows n y b a k z (w.grown z i);
              stack = detect-in_stack n y b a k ∙ w.stack;
            })
            (Within-enter x marks g) r in
        let here_too : Ends transitions x = ends (λ y l.
          let (b, a, w, k) = visited y l in (detect-Ends n y b a (fuel y b l w) w.good k).1) in
        (subst Good (sym s) (Good-leave x marks m e w here_too), here_too)
  ]

  -- The stack is a path to the step that is visited.
  abbrev Trail : String → Marks → Type 0
  Trail x marks = (s : String) → member s marks.in_stack ≡ true → Circles transitions s x

  -- What a call may throw, and why
  abbrev pub Blames : String → BatchError → Type 0
  Blames start e =
      (e ≡ invalid_flow_graph cycle_detected)
      × ((x : String) × Reaches transitions start x × Circles transitions x x)

  Trail-enter :
      (x y : String) (marks m : Marks)
      → m.in_stack ≡ (enter x marks).in_stack
      → Leads transitions x y
      → Trail x marks
      → Trail y m
  unfolding enter
  Trail-enter x y marks m same l trail s i =
      elim (member-cons s x marks.in_stack (sym (ap (member s) same) ∙ i)) [
        | inl q ↦ circle (subst (λ z. Leads transitions z y) q l) at_start
        | inr k ↦ Circles-step (trail s k) l
      ]

  detect_cycle-Blames :
      (start : String) (n : ℕ) (x : String) (marks : Marks) (e : BatchError)
      → Reaches transitions start x
      → Trail x marks
      → detect_cycle n transitions x marks ≡ err e
      → Blames start e
  unfolding detect_cycle
  detect_cycle-Blames start zero x marks e reached trail h = absurd cc
  detect_cycle-Blames start (suc n) x marks e reached trail h = elim (call n x marks) [
    | throws_here i q ↦ (cc, (x, reached, trail x i))
    | known i f q ↦ absurd cc
    | deeper i f q ↦
        let r = left_err x (inner n x marks) e (sym q ∙ h) in
        let (y, m, l, same, k) =
          each_err (detect_cycle n transitions) x (λ m. m.in_stack ≡ (enter x marks).in_stack)
            transitions (enter x marks) e (λ y b a l w k. detect-in_stack n y b a k ∙ w) refl r in
        detect_cycle-Blames start n y m e (onward reached l) (Trail-enter x y marks m same l trail)
          k
  ]

abbrev no_marks : Marks
no_marks = record { visited = []; in_stack = [] }

module _ (transitions : List TransitionDefinition) (start : String) where
  abbrev start_call : Throws Marks
  start_call = detect_cycle (suc (suc (length transitions))) transitions start no_marks

  pub assert_acyclic-Ends : assert_acyclic transitions start ≡ ok tt → Ends transitions start
  unfolding assert_acyclic member
  assert_acyclic-Ends h = by_call start_call refl h
    where
      by_call :
          (r : Throws Marks) → start_call ≡ r → (r >>= λ _. ok tt) ≡ ok tt → Ends transitions start
      by_call (ok after) e k =
          (detect-Ends transitions (suc (suc (length transitions))) start no_marks after
            (omega (arith, pending-nil transitions)) (record { finished = λ y i _. absurd cc }) e).1
      by_call (err x) e k = absurd cc

  pub assert_acyclic-Blames :
      (e : BatchError) → assert_acyclic transitions start ≡ err e → Blames transitions start e
  unfolding assert_acyclic member
  assert_acyclic-Blames x h = by_call start_call refl h
    where
      by_call :
          (r : Throws Marks)
          → start_call ≡ r
          → (r >>= λ _. ok tt) ≡ err x
          → Blames transitions start x
      by_call (ok after) e k = absurd cc
      by_call (err y) e k =
          detect_cycle-Blames transitions start (suc (suc (length transitions))) start no_marks x
            at_start (λ s i. absurd cc) (e ∙ cc)

-- No step that transitions lead to from `start` lies on a circle.
abbrev pub Acyclic : List TransitionDefinition → String → Type 0
Acyclic transitions start = (x : String) → Reaches transitions start x → Circles transitions x x → ⊥

-- The depth-first search ends within its fuel and accepts exactly the graphs in which no step that
-- transitions lead to from the start lies on a circle.
pub assert_acyclic-decides :
    (transitions : List TransitionDefinition) (start : String)
    → (assert_acyclic transitions start ≡ ok tt) ↔ Acyclic transitions start
assert_acyclic-decides transitions start = (
  λ h x r. Ends-no_circle (Ends-Reaches (assert_acyclic-Ends transitions start h) r),
  λ free. accepts free (assert_acyclic transitions start) refl,
)
  where
    accepts :
        Acyclic transitions start
        → (r : Throws (Unit {0})) → assert_acyclic transitions start ≡ r
        → assert_acyclic transitions start ≡ ok tt
    accepts free (ok u) e = e
    accepts free (err x) e =
        let (_, (y, r, c)) = assert_acyclic-Blames transitions start x e in absurd (free y r c)

-- ===== src/Validator/Acyclic/Loop.antt =====
-- The inner loop of `detectCycle` in packages/core/src/core/validation/definition-validator.ts: a
-- rule for what each call of it keeps, when the loop ends and when it throws.
use nest_batch.Prelude.{
  String, ◌≡◌, refl, sym, subst, ◌∙◌, some, List, [], ◌∷◌, ok, err, here, there, Has-cons, arith,
  eq_iff, ◌===◌, ◌⊎◌, inl, inr, Bool-cases, Option-cases, some_inj, ok_inj, ◌>>=◌,
}
use nest_batch.Errors.{BatchError, Throws}
use nest_batch.Flow.{TransitionDefinition}
use nest_batch.Executor.Progress.{Leads}
use nest_batch.Validator.{Marks, each_successor}

Leads-cons :
    {t : TransitionDefinition} {transitions : List TransitionDefinition} {x y : String}
    → Leads (t ∷ transitions) x y
    → ((t.from_step_id ≡ x) × (t.to_step_id ≡ some y)) ⊎ Leads transitions x y
Leads-cons {t} {transitions} {x} {y} (u, m, e, q) = elim (Has-cons m) [
  | inl same ↦ inl (
    subst (λ (v : TransitionDefinition). v.from_step_id ≡ x) (sym same) e,
    subst (λ (v : TransitionDefinition). v.to_step_id ≡ some y) (sym same) q,
  )
  | inr n ↦ inr (u, n, e, q)
]

Leads-later :
    {t : TransitionDefinition} {transitions : List TransitionDefinition} {x y : String}
    → Leads transitions x y
    → Leads (t ∷ transitions) x y
Leads-later (u, m, e, q) = (u, there m, e, q)

module _ (go : String → Marks → Throws Marks) (step_id : String) where
  -- What one turn of the loop does
  data Turn (t : TransitionDefinition) (transitions : List TransitionDefinition) (marks : Marks)
      : Type 0 where
    passes :
        ((y : String) → t.from_step_id ≡ step_id → t.to_step_id ≡ some y → ⊥)
        → each_successor go (t ∷ transitions) step_id marks
          ≡ each_successor go transitions step_id marks
        → Turn t transitions marks
    calls :
        (y : String)
        → t.from_step_id ≡ step_id
        → t.to_step_id ≡ some y
        → each_successor go (t ∷ transitions) step_id marks
          ≡ (go y marks >>= each_successor go transitions step_id)
        → Turn t transitions marks

  turn :
      (t : TransitionDefinition) (transitions : List TransitionDefinition) (marks : Marks)
      → Turn t transitions marks
  unfolding each_successor
  turn t transitions marks = elim (Option-cases t.to_step_id) [
    | inl q ↦ passes (λ y _ p. absurd cc) (rw (each_successor, q) refl)
    | inr (y, q) ↦ elim (Bool-cases (t.from_step_id === step_id)) [
      | inl e ↦
          calls y (ground (arith, eq_iff t.from_step_id step_id)) q (rw (each_successor, q, e) refl)
      | inr e ↦
          passes (λ z p _. ground (arith, p, e, eq_iff t.from_step_id step_id))
            (rw (each_successor, q, e) refl)
    ]
  ]

  module _ (Inv : Marks → Type 0) where
    -- Each call for a successor keeps `Inv`.
    abbrev Keeps : List TransitionDefinition → Type 0
    Keeps transitions =
        (y : String) (marks after : Marks)
        → Leads transitions step_id y
        → Inv marks
        → go y marks ≡ ok after
        → Inv after

    abbrev Called : String → Type 0
    Called y = (marks : Marks) × (after : Marks) × Inv marks × (go y marks ≡ ok after)

    abbrev Passed : List TransitionDefinition → Marks → Type 0
    Passed transitions after = Inv after × ((y : String) → Leads transitions step_id y → Called y)

    Passed-cons :
        (t : TransitionDefinition) (transitions : List TransitionDefinition) (after : Marks)
        → ((y : String) → t.from_step_id ≡ step_id → t.to_step_id ≡ some y → Called y)
        → Passed transitions after
        → Passed (t ∷ transitions) after
    Passed-cons t transitions after on_head (i, rest) =
        (i, λ y l. elim (Leads-cons l) [ inl h ↦ on_head y h.0 h.1 | inr k ↦ rest y k ])

    -- The loop ends: every successor was called for, and its call ended.
    pub each_ok :
        (transitions : List TransitionDefinition) (marks after : Marks)
        → Keeps transitions
        → Inv marks
        → each_successor go transitions step_id marks ≡ ok after
        → Passed transitions after
    unfolding each_successor
    each_ok [] marks after keeps inv h = (subst Inv (ok_inj h) inv, λ y (u, m, _, _). elim m [ ])
    each_ok (t ∷ transitions) marks after keeps inv h = elim (turn t transitions marks) [
      | passes other e ↦
          Passed-cons t transitions after (λ y p q. absurd (other y p q))
            (each_ok transitions marks after (λ y m a l. keeps y m a (Leads-later l)) inv
              (sym e ∙ h))
      | calls y p q e ↦
          by_call y p q (go y marks) refl (sym e ∙ h)
            (λ m i k. each_ok transitions m after (λ z n a l. keeps z n a (Leads-later l)) i k)
    ]
      where
        by_call :
            (y : String)
            → t.from_step_id ≡ step_id
            → t.to_step_id ≡ some y
            → (r : Throws Marks) → go y marks ≡ r
            → (r >>= each_successor go transitions step_id) ≡ ok after
            → ((m : Marks)
                → Inv m
                → each_successor go transitions step_id m ≡ ok after
                → Passed transitions after)
            → Passed (t ∷ transitions) after
        by_call y p q (ok m) e k again =
            Passed-cons t transitions after
              (λ z _ q'. subst Called (some_inj (sym q ∙ q')) (marks, m, inv, e))
              (again m (keeps y marks m (t, here, p, q) inv e) k)
        by_call y p q (err x) e k again = absurd cc

    -- A call that throws, and what held before it
    abbrev Broken : List TransitionDefinition → BatchError → Type 0
    Broken transitions x =
        (y : String) × (marks : Marks) × Leads transitions step_id y
        × Inv marks
        × (go y marks ≡ err x)

    Broken-later :
        {t : TransitionDefinition} {transitions : List TransitionDefinition} {x : BatchError}
        → Broken transitions x
        → Broken (t ∷ transitions) x
    Broken-later (y, m, l, i, e) = (y, m, Leads-later l, i, e)

    -- The loop throws what a call for a successor throws.
    pub each_err :
        (transitions : List TransitionDefinition) (marks : Marks) (x : BatchError)
        → Keeps transitions
        → Inv marks
        → each_successor go transitions step_id marks ≡ err x
        → Broken transitions x
    unfolding each_successor
    each_err [] marks x keeps inv h = absurd cc
    each_err (t ∷ transitions) marks x keeps inv h = elim (turn t transitions marks) [
      | passes other e ↦
          Broken-later
            (each_err transitions marks x (λ y m a l. keeps y m a (Leads-later l)) inv (sym e ∙ h))
      | calls y p q e ↦
          by_call y (t, here, p, q) (go y marks) refl (sym e ∙ h)
            (λ m i k. each_err transitions m x (λ z n a l. keeps z n a (Leads-later l)) i k)
    ]
      where
        by_call :
            (y : String)
            → Leads (t ∷ transitions) step_id y
            → (r : Throws Marks) → go y marks ≡ r
            → (r >>= each_successor go transitions step_id) ≡ err x
            → ((m : Marks)
                → Inv m
                → each_successor go transitions step_id m ≡ err x
                → Broken transitions x)
            → Broken (t ∷ transitions) x
        by_call y l (ok m) e k again = Broken-later (again m (keeps y marks m l inv e) k)
        by_call y l (err z) e k again = (y, marks, l, inv, e ∙ k)

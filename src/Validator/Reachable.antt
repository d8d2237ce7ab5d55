-- ===== src/Validator/Reachable.antt =====
-- `collectReachable` of packages/core/src/core/validation/definition-validator.ts: the fuel is
-- enough, and what is collected is what the transitions lead to.
use nest_batch.Prelude.{
  ℕ, zero, suc, ◌+◌, ◌≤◌, String, ◌≡◌, refl, sym, subst, true, false, some, List, [], ◌∷◌, ◌++◌,
  length, length-append, Has, here, there, arith, eq_iff, ◌⊎◌, inl, inr, Bool-cases, Option-cases,
  ◌↔◌,
}
use nest_batch.Prelude.Sets.{
  member, member-cons, member-cons_same, member-cons_later, member-append,
}
use nest_batch.Flow.{TransitionDefinition}
use nest_batch.Executor.Progress.{Leads}
use nest_batch.Validator.{pushed, collect, collect_reachable}
use nest_batch.Validator.Graph.{Reaches, at_start, onward, pending, pending-nil}

abbrev In : String → List String → Type 0
In x set = member x set ≡ true

-- Each transition that is pushed starts at the step that is visited.
length-pushed :
    (transitions : List TransitionDefinition) (cur : String) (seen set : List String)
    → member cur seen ≡ false
    → length (pushed transitions cur set) + pending transitions (cur ∷ seen)
      ≤ pending transitions seen
unfolding pushed pending member
length-pushed [] cur seen set h = omega arith
length-pushed (t ∷ transitions) cur seen set h =
    let rest = length-pushed transitions cur seen set h in
    ground (arith, rest, eq_iff t.from_step_id cur, eq_iff cur t.from_step_id)

pushed-cases :
    (t : TransitionDefinition) (transitions : List TransitionDefinition) (cur y : String)
    (set : List String)
    → In y (pushed (t ∷ transitions) cur set)
    → ((t.from_step_id ≡ cur) × (t.to_step_id ≡ some y)) ⊎ In y (pushed transitions cur set)
unfolding pushed member
pushed-cases t transitions cur y set h = elim (Option-cases t.to_step_id) [
  | inl q ↦ inr (rw q at h)
  | inr (z, q) ↦ ground (arith, q, h, eq_iff t.from_step_id cur, eq_iff z y)
]

pushed-later :
    (t : TransitionDefinition) (transitions : List TransitionDefinition) (cur y : String)
    (set : List String)
    → In y (pushed transitions cur set)
    → In y (pushed (t ∷ transitions) cur set)
unfolding pushed member
pushed-later t transitions cur y set h = elim (Option-cases t.to_step_id) [
  | inl q ↦ rw q h
  | inr (z, q) ↦ ground (arith, q, h)
]

pushed-here :
    (t : TransitionDefinition) (transitions : List TransitionDefinition) (cur y : String)
    (set : List String)
    → t.from_step_id ≡ cur
    → t.to_step_id ≡ some y
    → member y set ≡ false
    → In y (pushed (t ∷ transitions) cur set)
unfolding pushed member
pushed-here t transitions cur y set e q h =
    ground (arith, e, q, h, eq_iff t.from_step_id cur, eq_iff y y)

pushed_sound :
    (transitions : List TransitionDefinition) (cur y : String) (set : List String)
    → In y (pushed transitions cur set)
    → Leads transitions cur y
unfolding pushed member
pushed_sound [] cur y set h = absurd cc
pushed_sound (t ∷ transitions) cur y set h = elim (pushed-cases t transitions cur y set h) [
  | inl (e, q) ↦ (t, here, e, q)
  | inr m ↦ let (u, n, e, q) = pushed_sound transitions cur y set m in (u, there n, e, q)
]

pushed_complete :
    (cur y : String) (set : List String) (t : TransitionDefinition)
    (transitions : List TransitionDefinition)
    → Has t transitions
    → t.from_step_id ≡ cur
    → t.to_step_id ≡ some y
    → member y set ≡ false
    → In y (pushed transitions cur set)
pushed_complete cur y set t _ (here {xs = transitions}) e q h =
    pushed-here t transitions cur y set e q h
pushed_complete cur y set t _ (there {y = u} {xs = transitions} m) e q h =
    pushed-later u transitions cur y set (pushed_complete cur y set t transitions m e q h)

-- The members of the queue once `cur` has been visited
abbrev queue_after :
    List TransitionDefinition → String → (queue reachable : List String) → List String
queue_after transitions cur queue reachable = queue ++ pushed transitions cur (cur ∷ reachable)

module _ (n : ℕ) (transitions : List TransitionDefinition) (cur : String)
    (queue reachable : List String) where
  collect-skip :
      In cur reachable
      → collect (suc n) transitions (cur ∷ queue) reachable ≡ collect n transitions queue reachable
  unfolding collect
  collect-skip e = rw (collect, e) refl

  collect-visit :
      member cur reachable ≡ false
      → collect (suc n) transitions (cur ∷ queue) reachable
        ≡ collect n transitions (queue_after transitions cur queue reachable) (cur ∷ reachable)
  unfolding collect
  collect-visit e = rw (collect, e) refl

module _ (transitions : List TransitionDefinition) (cur y : String)
    (queue reachable : List String) where
  queue_after-cases :
      In y (queue_after transitions cur queue reachable) → In y queue ⊎ Leads transitions cur y
  queue_after-cases h =
      let e = member-append y queue (pushed transitions cur (cur ∷ reachable)) in
      elim (Bool-cases (member y queue)) [
        | inl m ↦ inl m
        | inr m ↦ inr (pushed_sound transitions cur y (cur ∷ reachable) (ground (arith, e, h, m)))
      ]

  queue_after-left : In y queue → In y (queue_after transitions cur queue reachable)
  queue_after-left m =
      let e = member-append y queue (pushed transitions cur (cur ∷ reachable)) in
      ground (arith, e, m)

  queue_after-right :
      Leads transitions cur y
      → In y (cur ∷ reachable) ⊎ In y (queue_after transitions cur queue reachable)
  queue_after-right (t, m, e, q) = elim (Bool-cases (member y (cur ∷ reachable))) [
    | inl k ↦ inl k
    | inr k ↦
        let p : In y (pushed transitions cur (cur ∷ reachable)) =
          pushed_complete cur y (cur ∷ reachable) t transitions m e q k in
        let a = member-append y queue (pushed transitions cur (cur ∷ reachable)) in
        elim (Bool-cases (member y queue)) [
          | inl j ↦ inr (queue_after-left j)
          | inr j ↦ inr (ground (arith, a, p, j))
        ]
  ]

module _ (transitions : List TransitionDefinition) where
  -- All that is collected or queued is reached.
  abbrev AllReached : String → List String → Type 0
  AllReached start set = (x : String) → In x set → Reaches transitions start x

  AllReached-cons :
      (start cur : String) (set : List String)
      → Reaches transitions start cur
      → AllReached start set
      → AllReached start (cur ∷ set)
  AllReached-cons start cur set first rest x m = elim (member-cons x cur set m) [
    | inl e ↦ subst (Reaches transitions start) e first
    | inr k ↦ rest x k
  ]

  collect_sound :
      (start : String) (n : ℕ) (queue reachable : List String)
      → AllReached start queue
      → AllReached start reachable
      → AllReached start (collect n transitions queue reachable)
  unfolding collect
  collect_sound start n [] reachable on_queue on_set = on_set
  collect_sound start zero (cur ∷ queue) reachable on_queue on_set = on_set
  collect_sound start (suc n) (cur ∷ queue) reachable on_queue on_set =
      let later : AllReached start queue = λ x m. on_queue x (member-cons_later x cur queue m) in
      let first : Reaches transitions start cur = on_queue cur (member-cons_same cur queue) in
      elim (Bool-cases (member cur reachable)) [
        | inl e ↦
            subst (AllReached start) (sym (collect-skip n transitions cur queue reachable e))
              (collect_sound start n queue reachable later on_set)
        | inr e ↦
            subst (AllReached start) (sym (collect-visit n transitions cur queue reachable e)) (
              collect_sound start n (queue_after transitions cur queue reachable) (cur ∷ reachable)
                (λ x m. elim (queue_after-cases transitions cur x queue reachable m) [
                  | inl k ↦ later x k
                  | inr l ↦ onward first l
                ])
                (AllReached-cons start cur reachable first on_set))
      ]

  -- What a collected step leads to is collected, or waits in the queue.
  abbrev Closing : (queue reachable : List String) → Type 0
  Closing queue reachable =
      (x y : String) → In x reachable → Leads transitions x y → In y reachable ⊎ In y queue

  Closing-skip :
      (cur : String) (queue reachable : List String)
      → In cur reachable
      → Closing (cur ∷ queue) reachable
      → Closing queue reachable
  Closing-skip cur queue reachable e inv x y m l = elim (inv x y m l) [
    | inl k ↦ inl k
    | inr k ↦ elim (member-cons y cur queue k) [
      | inl q ↦ inl (subst (λ z. In z reachable) q e)
      | inr j ↦ inr j
    ]
  ]

  Closing-visit :
      (cur : String) (queue reachable : List String)
      → Closing (cur ∷ queue) reachable
      → Closing (queue_after transitions cur queue reachable) (cur ∷ reachable)
  Closing-visit cur queue reachable inv x y m l = elim (member-cons x cur reachable m) [
    | inl q ↦
        queue_after-right transitions cur y queue reachable
          (subst (λ z. Leads transitions z y) (sym q) l)
    | inr k ↦ elim (inv x y k l) [
      | inl j ↦ inl (member-cons_later y cur reachable j)
      | inr j ↦ elim (member-cons y cur queue j) [
        | inl q ↦ inl (subst (λ z. In z (cur ∷ reachable)) q (member-cons_same cur reachable))
        | inr i ↦ inr (queue_after-left transitions cur y queue reachable i)
      ]
    ]
  ]

  -- What the loop leaves, once the queue is empty: all of both lists, and what they lead to.
  record Closure (queue reachable result : List String) : Type 0 where
    keeps : (x : String) → In x reachable → In x result
    takes : (x : String) → In x queue → In x result
    closed : (x y : String) → In x result → Leads transitions x y → In y result

  collect-Closure :
      (n : ℕ) (queue reachable : List String)
      → length queue + pending transitions reachable ≤ n
      → Closing queue reachable
      → Closure queue reachable (collect n transitions queue reachable)
  unfolding collect member
  collect-Closure n [] reachable enough inv = record {
    keeps = λ x m. m;
    takes = λ x m. absurd cc;
    closed = λ x y m l. elim (inv x y m l) [ inl k ↦ k | inr k ↦ absurd cc ];
  }
  collect-Closure zero (cur ∷ queue) reachable enough inv = absurd (omega arith)
  collect-Closure (suc n) (cur ∷ queue) reachable enough inv =
      elim (Bool-cases (member cur reachable)) [
        | inl e ↦
            let next =
              collect-Closure n queue reachable (omega arith)
                (Closing-skip cur queue reachable e inv) in
            subst (Closure (cur ∷ queue) reachable)
              (sym (collect-skip n transitions cur queue reachable e)) (skipped e next)
        | inr e ↦
            let size = length-append queue (pushed transitions cur (cur ∷ reachable)) in
            let fewer = length-pushed transitions cur reachable (cur ∷ reachable) e in
            let next =
              collect-Closure n (queue_after transitions cur queue reachable) (cur ∷ reachable)
                (omega (arith, size, fewer)) (Closing-visit cur queue reachable inv) in
            subst (Closure (cur ∷ queue) reachable)
              (sym (collect-visit n transitions cur queue reachable e)) (visited next)
      ]
    where
      skipped :
          {cur : String} {queue reachable result : List String}
          → In cur reachable
          → Closure queue reachable result
          → Closure (cur ∷ queue) reachable result
      skipped {cur} {queue} {reachable} {result} e c = record {
        keeps = c.keeps;
        takes = λ x m. elim (member-cons x cur queue m) [
          | inl q ↦ subst (λ z. In z result) q (c.keeps cur e)
          | inr k ↦ c.takes x k
        ];
        closed = c.closed;
      }

      visited :
          {cur : String} {queue reachable result : List String}
          → Closure (queue_after transitions cur queue reachable) (cur ∷ reachable) result
          → Closure (cur ∷ queue) reachable result
      visited {cur} {queue} {reachable} {result} c = record {
        keeps = λ x m. c.keeps x (member-cons_later x cur reachable m);
        takes = λ x m. elim (member-cons x cur queue m) [
          | inl q ↦ subst (λ z. In z result) q (c.keeps cur (member-cons_same cur reachable))
          | inr k ↦ c.takes x (queue_after-left transitions cur x queue reachable k)
        ];
        closed = c.closed;
      }

  AllReached-nil : (start : String) → AllReached start []
  unfolding member
  AllReached-nil start x m = absurd cc

  collect_reachable_sound :
      (start x : String) → In x (collect_reachable transitions start) → Reaches transitions start x
  unfolding collect_reachable
  collect_reachable_sound start x m =
      collect_sound start (suc (length transitions)) (start ∷ []) []
        (AllReached-cons start start [] at_start (AllReached-nil start)) (AllReached-nil start) x m

  collect_reachable-Closure :
      (start : String) → Closure (start ∷ []) [] (collect_reachable transitions start)
  unfolding collect_reachable member
  collect_reachable-Closure start =
      collect-Closure (suc (length transitions)) (start ∷ []) []
        (omega (arith, pending-nil transitions)) (λ x y m l. absurd cc)

  collect_reachable_complete :
      (start x : String) → Reaches transitions start x → In x (collect_reachable transitions start)
  collect_reachable_complete start x at_start =
      (collect_reachable-Closure start).takes start (member-cons_same start [])
  collect_reachable_complete start y (onward {x = x} p l) =
      (collect_reachable-Closure start).closed x y (collect_reachable_complete start x p) l

-- The breadth-first search ends within its fuel and collects exactly the steps that transitions
-- lead to from the start.
pub collect_reachable-exact :
    (transitions : List TransitionDefinition) (start x : String)
    → (member x (collect_reachable transitions start) ≡ true) ↔ Reaches transitions start x
collect_reachable-exact transitions start x =
    (collect_reachable_sound transitions start x, collect_reachable_complete transitions start x)

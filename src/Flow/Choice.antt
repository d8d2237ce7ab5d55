-- ===== src/Flow/Choice.antt =====
-- Which transition `evaluate` of packages/core/src/flow/flow-evaluator.ts takes.
use nest_batch.Prelude.{
  ℕ, ◌≤◌, ◌<◌, ◌≡◌, refl, sym, ap, ◌∙◌, subst, Bool, true, false, ◌&&◌, inl, inr, Option, none,
  List, [], ◌∷◌, ◌++◌, String, ok, err, arith, filter, Has, here, there, Has-append,
  Has-append_left, Has-append_right, Has-filter, filter-Has, Has-cons, none_passes, filter-eq-nil,
  filter-append, filter-cons_true, filter-cons-inv, Bool-cases, ◌==◌, leb, filter-filter,
}
use nest_batch.Prelude.Text.{Text}
use nest_batch.Errors.{invalid_flow_graph, ambiguous_transition, Throws}
use nest_batch.Flow.{
  TransitionDefinition, transition_matches, specificity, max_specificity, only_target, choose,
  evaluate,
}

le-max_specificity :
    {t : TransitionDefinition} (ts : List TransitionDefinition)
    → Has t ts
    → specificity t ≤ max_specificity ts
unfolding max_specificity
le-max_specificity _ (here {xs = ts}) = omega arith
le-max_specificity _ (there {xs = ts} m) = omega (arith, le-max_specificity ts m)

max_specificity_attained :
    (t : TransitionDefinition) (ts : List TransitionDefinition)
    → (u : TransitionDefinition) × Has u (t ∷ ts) × (specificity u ≡ max_specificity (t ∷ ts))
unfolding max_specificity
max_specificity_attained t [] = (t, here, omega arith)
max_specificity_attained t (v ∷ ts) =
    let (u, m, e) = max_specificity_attained v ts in
    elim (Bool-cases (leb (max_specificity (v ∷ ts)) (specificity t))) [
      | inl h ↦ (t, here, ground arith)
      | inr h ↦ (u, there m, ground arith)
    ]

module _ (transitions : List TransitionDefinition) (from_step_id : String) (status : Text) where
  abbrev fits : TransitionDefinition → Bool
  fits = transition_matches from_step_id status

  -- `t` stands at one place of the list, matches, and every match at another place is less specific.
  pub record Wins (t : TransitionDefinition) : Type 0 where
    pub before : List TransitionDefinition
    pub after : List TransitionDefinition
    pub split : transitions ≡ before ++ t ∷ after
    pub matches : fits t ≡ true
    pub beats :
        (u : TransitionDefinition)
        → Has u (before ++ after)
        → fits u ≡ true
        → specificity u < specificity t

  -- Two places hold matches that no match exceeds.
  pub record Tied (t u : TransitionDefinition) : Type 0 where
    pub before : List TransitionDefinition
    pub between : List TransitionDefinition
    pub after : List TransitionDefinition
    pub split : transitions ≡ before ++ t ∷ (between ++ u ∷ after)
    pub matches : fits t ≡ true
    pub matches_too : fits u ≡ true
    pub level : specificity t ≡ specificity u
    pub top :
        (v : TransitionDefinition)
        → Has v transitions
        → fits v ≡ true
        → specificity v ≤ specificity t

  pub data Verdict : Throws (Option String) → Type 0 where
    no_match : ((t : TransitionDefinition) → Has t transitions → fits t ≡ false) → Verdict (ok none)
    winner : (t : TransitionDefinition) → Wins t → Verdict (ok t.to_step_id)
    tie :
        (t u : TransitionDefinition)
        → Tied t u
        → Verdict (err (invalid_flow_graph ambiguous_transition))

  abbrev best : ℕ → TransitionDefinition → Bool
  best top u = fits u && specificity u == top

  module _ (top : ℕ)
      (le_top : (u : TransitionDefinition)
        → Has u transitions
        → fits u ≡ true
        → specificity u ≤ top) where
    best_parts :
        (u : TransitionDefinition) → best top u ≡ true → (fits u ≡ true) × (specificity u ≡ top)
    best_parts u h = ground arith

    below_top :
        (u : TransitionDefinition)
        → Has u transitions
        → best top u ≡ false
        → fits u ≡ true
        → specificity u < top
    below_top u m h e = ground (arith, le_top u m e)

    Verdict-of_best :
        (l : List TransitionDefinition)
        → filter (best top) transitions ≡ l
        → (u : TransitionDefinition) → Has u transitions
        → best top u ≡ true
        → Verdict (only_target l)
    unfolding only_target
    Verdict-of_best [] h u m e =
        absurd (nil_has (subst (λ l. Has u l) h (Has-filter (best top) transitions m e)))
      where
        nil_has : ¬ (Has u [])
        nil_has x = elim x [ ]
    Verdict-of_best (t ∷ []) h u m e =
        let (before, after, split, passes, none_before, none_after) =
          filter-cons-inv (best top) transitions h in
        let (fit, level) = best_parts t passes in
        winner t (record {
          before = before;
          after = after;
          split = split;
          matches = fit;
          beats = λ v n f. rw level (elim (Has-append before after n) [
            | inl l ↦
                below_top v (subst (Has v) (sym split) (Has-append_left before _ l))
                  (none_passes (best top) before none_before l) f
            | inr r ↦
                below_top v (subst (Has v) (sym split) (Has-append_right before _ (there r)))
                  (none_passes (best top) after none_after r) f
          ]);
        })
    Verdict-of_best (t ∷ v ∷ rest) h u m e =
        let (before, later, split, passes, _, more) = filter-cons-inv (best top) transitions h in
        let (between, after, split', passes', _, _) = filter-cons-inv (best top) later more in
        let (fit, level) = best_parts t passes in
        let (fit', level') = best_parts v passes' in
        tie t v (record {
          before = before;
          between = between;
          after = after;
          split = split ∙ ap (λ (l : List TransitionDefinition). before ++ t ∷ l) split';
          matches = fit;
          matches_too = fit';
          level = level ∙ sym level';
          top = λ w n f. rw level (le_top w n f);
        })

  Verdict-of_matches :
      (l : List TransitionDefinition) → filter fits transitions ≡ l → Verdict (choose l)
  unfolding choose
  Verdict-of_matches [] h = no_match (λ t m. none_passes fits transitions h m)
  Verdict-of_matches (t ∷ ts) h =
      let top = max_specificity (t ∷ ts) in
      let (u, m, level) = max_specificity_attained t ts in
      let (placed, fit) = filter-Has fits transitions (subst (λ l. Has u l) (sym h) m) in
      Verdict-of_best top
        (λ v n f.
          le-max_specificity (t ∷ ts) (subst (λ l. Has v l) h (Has-filter fits transitions n f)))
        (filter (λ v. specificity v == top) (t ∷ ts))
        (sym (filter-filter (λ v. specificity v == top) fits transitions)
          ∙ ap (filter (λ v. specificity v == top)) h)
        u placed (ground arith)

  -- `evaluate` gives null only where no transition matches, the target of a match that is more
  -- specific than every other match, or the ambiguity error where two places hold matches that no
  -- match exceeds.
  pub evaluate-Verdict : Verdict (evaluate transitions from_step_id status)
  unfolding evaluate
  evaluate-Verdict = Verdict-of_matches (filter fits transitions) refl

  max-eq_of_top :
      (t : TransitionDefinition) (l : List TransitionDefinition)
      → Has t l
      → ((u : TransitionDefinition) → Has u l → specificity u ≤ specificity t)
      → max_specificity l ≡ specificity t
  max-eq_of_top t [] m h = elim m [ ]
  max-eq_of_top t (x ∷ l) m h =
      let (u, n, level) = max_specificity_attained x l in
      omega (arith, le-max_specificity (x ∷ l) m, h u n)

  choose_top :
      (t : TransitionDefinition) (l : List TransitionDefinition)
      → Has t l
      → ((u : TransitionDefinition) → Has u l → specificity u ≤ specificity t)
      → choose l ≡ only_target (filter (λ u. specificity u == specificity t) l)
  unfolding choose
  choose_top t [] m h = elim m [ ]
  choose_top t (x ∷ l) m h = rw (max-eq_of_top t (x ∷ l) m h)

  le_winner :
      {t : TransitionDefinition} (w : Wins t) (u : TransitionDefinition)
      → Has u transitions
      → fits u ≡ true
      → specificity u ≤ specificity t
  le_winner {t} w u m f = elim (Has-append w.before (t ∷ w.after) (subst (Has u) w.split m)) [
    | inl l ↦ omega (arith, w.beats u (Has-append_left w.before w.after l) f)
    | inr r ↦ elim (Has-cons r) [
      | inl e ↦ subst (λ v. specificity v ≤ specificity t) e (omega arith)
      | inr r' ↦ omega (arith, w.beats u (Has-append_right w.before w.after r') f)
    ]
  ]

  winner_alone :
      {t : TransitionDefinition} → Wins t → filter (best (specificity t)) transitions ≡ t ∷ []
  winner_alone {t} w =
      let loses : (u : TransitionDefinition)
          → Has u (w.before ++ w.after)
          → best (specificity t) u ≡ false =
        (λ u m. not_level u (w.beats u m)) in
      rw w.split (
        filter-append (best (specificity t)) w.before (t ∷ w.after)
        ∙ (rw
            (filter-eq-nil (best (specificity t)) w.before
              (λ u m. loses u (Has-append_left w.before w.after m)))
            (filter-cons_true (best (specificity t)) t w.after (ground (arith, w.matches))
              ∙ ap (λ (l : List TransitionDefinition). t ∷ l)
                  (filter-eq-nil (best (specificity t)) w.after
                    (λ u m. loses u (Has-append_right w.before w.after m))))))
    where
      not_level :
          (u : TransitionDefinition)
          → (fits u ≡ true → specificity u < specificity t)
          → best (specificity t) u ≡ false
      not_level u h = ground (arith, h)

  -- A matching transition that is more specific than every other match is the one that `evaluate`
  -- takes.
  pub evaluate-Wins :
      {t : TransitionDefinition}
      → Wins t
      → evaluate transitions from_step_id status ≡ ok t.to_step_id
  unfolding evaluate only_target
  evaluate-Wins {t} w =
      choose_top t (filter fits transitions)
        (Has-filter fits transitions
          (subst (Has t) (sym w.split) (Has-append_right w.before (t ∷ w.after) here)) w.matches)
        (λ u m. let (placed, fit) = filter-Has fits transitions m in le_winner w u placed fit)
      ∙ rw (filter-filter, winner_alone w)

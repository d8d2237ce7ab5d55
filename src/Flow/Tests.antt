-- ===== src/Flow/Tests.antt =====
-- Small graphs, what the evaluator does on them, and the theorems at such inputs.
use nest_batch.Prelude.{
  ◌≡◌, ◌<◌, refl, true, some, none, List, [], ◌∷◌, ok, err, arith, ◌↔◌, any, filter, Has, here,
  there,
}
use nest_batch.Prelude.Text.{text}
use nest_batch.Errors.{invalid_flow_graph, ambiguous_transition}
use nest_batch.Flow.{
  TransitionDefinition, matches_pattern, transition_matches, specificity, pattern_specificity,
  literal_score, evaluate, choose, max_specificity,
}
use nest_batch.Flow.Matching.{Glob, matches_pattern_iff}
use nest_batch.Flow.Choice.{Wins, Verdict, evaluate-Verdict, evaluate-Wins}
use nest_batch.Flow.Exactness.{exact_beats_wildcard}

abbrev to_load : TransitionDefinition
to_load = record { from_step_id = "read"; on_status = text "COMPLETED"; to_step_id = some "load" }

abbrev to_report : TransitionDefinition
to_report = record { from_step_id = "read"; on_status = text "C*"; to_step_id = some "report" }

abbrev to_end : TransitionDefinition
to_end = record { from_step_id = "read"; on_status = text "?AILED"; to_step_id = none }

abbrev graph : List TransitionDefinition
graph = to_report ∷ to_load ∷ to_end ∷ []

evaluator : Unit {0}
unfolding evaluate choose filter max_specificity specificity transition_matches matches_pattern
    pattern_specificity literal_score any
evaluator = tt

evaluate-graph :
    (evaluate graph "read" (text "COMPLETED") ≡ ok (some "load"))
    × (evaluate graph "read" (text "CANCELLED") ≡ ok (some "report"))
    × (evaluate graph "read" (text "FAILED") ≡ ok none)
    × (evaluate graph "load" (text "COMPLETED") ≡ ok none)
unfolding evaluator
evaluate-graph = (refl, refl, refl, refl)

evaluate_ambiguous :
    evaluate (to_report ∷ to_report ∷ []) "read" (text "CANCELLED")
    ≡ err (invalid_flow_graph ambiguous_transition)
unfolding evaluator
evaluate_ambiguous = refl

matches_pattern_iff_example :
    (matches_pattern (text "?AIL*") (text "FAILED") ≡ true) ↔ Glob (text "?AIL*") (text "FAILED")
matches_pattern_iff_example = matches_pattern_iff (text "?AIL*") (text "FAILED")

evaluate-Verdict_example :
    Verdict graph "read" (text "COMPLETED") (evaluate graph "read" (text "COMPLETED"))
evaluate-Verdict_example = evaluate-Verdict graph "read" (text "COMPLETED")

exact_beats_wildcard_example : specificity to_report < specificity to_load
unfolding evaluator
exact_beats_wildcard_example =
    exact_beats_wildcard "read" (text "COMPLETED") to_load to_report refl refl refl (omega arith)

load-Wins : Wins graph "read" (text "COMPLETED") to_load
unfolding evaluator
load-Wins = record {
  before = to_report ∷ [];
  after = to_end ∷ [];
  split = refl;
  matches = refl;
  beats = λ u m fit. beaten m fit;
}
  where
    beaten :
        {u : TransitionDefinition}
        → Has u (to_report ∷ to_end ∷ [])
        → transition_matches "read" (text "COMPLETED") u ≡ true
        → specificity u < specificity to_load
    beaten here fit = omega arith
    beaten (there here) fit = cc
    beaten (there (there m)) fit = elim m [ ]

load_taken : evaluate graph "read" (text "COMPLETED") ≡ ok (some "load")
load_taken = evaluate-Wins graph "read" (text "COMPLETED") {t = to_load} load-Wins

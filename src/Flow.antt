-- ===== src/Flow.antt =====
-- packages/core/src/flow/flow-evaluator.ts: the next step after a step's exit status.
pub mod Matching
pub mod Choice
pub mod Exactness
mod Tests
use nest_batch.Prelude.{
  ℕ, zero, suc, ◌+◌, ◌≡◌, Bool, true, false, ◌&&◌, ◌||◌, Option, none, some, List, [], ◌∷◌, String,
  map, ok, err, max, any, filter, leb, ◌==◌, ◌===◌, if◌then◌else◌,
}
use nest_batch.Prelude.Text.{Text, text_eq}
use nest_batch.Errors.{invalid_flow_graph, ambiguous_transition, Throws}

-- `TransitionDefinition` of core/ir/transition-definition.ts; `none` is END.
pub record TransitionDefinition : Type 0 where
  pub from_step_id : String
  pub on_status : Text
  pub to_step_id : Option String

-- What the pattern's regular expression is made of: `.*`, `.` and an escaped character.
pub data Atom : Type 0 where
  any_run any_one : Atom
  literal : ℕ → Atom

-- One code unit of a pattern. `escapeRegex` makes every other character stand for itself.
unfoldable pub atom : ℕ → Atom
atom c = if c == b'*' then any_run else if c == b'?' then any_one else literal c

-- In a regular expression without the `s` flag, `.` matches no line terminator.
unfoldable pub is_line_terminator : ℕ → Bool
is_line_terminator c = c == 10 || c == 13 || c == 0x2028 || c == 0x2029

-- `regex.test(status)` for an anchored sequence of such atoms. At `.*` the rest of the expression
-- is tried here and at each later place that the run can reach.
unfoldable pub regex_test : List Atom → Text → Bool
unfolding is_line_terminator
regex_test [] [] = true
regex_test [] (c ∷ s) = false
regex_test (literal d ∷ ps) [] = false
regex_test (literal d ∷ ps) (c ∷ s) = c == d && regex_test ps s
regex_test (any_one ∷ ps) [] = false
regex_test (any_one ∷ ps) (c ∷ s) = if is_line_terminator c then false else regex_test ps s
regex_test (any_run ∷ ps) [] = regex_test ps []
regex_test (any_run ∷ ps) (c ∷ s) =
    regex_test ps (c ∷ s) || (if is_line_terminator c then false else regex_test (any_run ∷ ps) s)

-- `pattern.includes('*') || pattern.includes('?')`
unfoldable pub has_wildcard : Text → Bool
has_wildcard pattern = any (λ c. c == b'*') pattern || any (λ c. c == b'?') pattern

unfoldable pub matches_pattern : Text → Text → Bool
unfolding has_wildcard regex_test atom any text_eq
matches_pattern pattern status =
    if has_wildcard pattern then regex_test (map atom pattern) status else text_eq pattern status

is_high_surrogate : ℕ → Bool
is_high_surrogate c = leb 0xD800 c && leb c 0xDBFF

is_low_surrogate : ℕ → Bool
is_low_surrogate c = leb 0xDC00 c && leb c 0xDFFF

is_wildcard : ℕ → Bool
is_wildcard c = c == b'*' || c == b'?'

unit_score : ℕ → ℕ
unfolding is_wildcard
unit_score c = if is_wildcard c then 0 else 1

-- The loop `for (const ch of pattern)`, which takes a surrogate pair as one character.
unfoldable pub literal_score : Text → ℕ
unfolding unit_score is_high_surrogate is_low_surrogate
literal_score [] = 0
literal_score (c ∷ []) = unit_score c
literal_score (c ∷ d ∷ s) =
    let pair = 1 + literal_score s in
    let single = unit_score c + literal_score (d ∷ s) in
    if is_high_surrogate c && is_low_surrogate d then pair else single

unfoldable pub pattern_specificity : Text → ℕ
unfolding has_wildcard any
pattern_specificity pattern =
    let score = literal_score pattern in if has_wildcard pattern then score else score + 1000

-- `FlowEvaluator.matches`
unfoldable pub transition_matches : String → Text → TransitionDefinition → Bool
transition_matches from_step_id status t =
    t.from_step_id === from_step_id && matches_pattern t.on_status status

unfoldable pub specificity : TransitionDefinition → ℕ
specificity t = pattern_specificity t.on_status

-- `Math.max(...specificities)`
unfoldable pub max_specificity : List TransitionDefinition → ℕ
max_specificity [] = 0
max_specificity (t ∷ ts) = max (specificity t) (max_specificity ts)

-- `best.length > 1` throws; else `best[0]`. The list is not empty where it is called.
unfoldable pub only_target : List TransitionDefinition → Throws (Option String)
only_target [] = ok none
only_target (t ∷ []) = ok t.to_step_id
only_target (t ∷ u ∷ ts) = err (invalid_flow_graph ambiguous_transition)

-- `evaluate` behind the filter on the matching transitions.
unfoldable pub choose : List TransitionDefinition → Throws (Option String)
unfolding only_target
choose [] = ok none
choose (t ∷ ts) =
    let top = max_specificity (t ∷ ts) in only_target (filter (λ u. specificity u == top) (t ∷ ts))

unfoldable pub evaluate : List TransitionDefinition → String → Text → Throws (Option String)
evaluate transitions from_step_id status =
    choose (filter (transition_matches from_step_id status) transitions)

-- ===== src/Flow/Exactness.antt =====
-- Exact patterns against wildcard patterns in packages/core/src/flow/flow-evaluator.ts.
use nest_batch.Prelude.{
  ℕ, ◌+◌, ◌≤◌, ◌<◌, ◌≡◌, true, false, [], ◌∷◌, arith, length, Bool-cases, inl, inr, String, ◌&&◌,
}
use nest_batch.Prelude.Text.{Text}
use nest_batch.Flow.{
  TransitionDefinition, transition_matches, specificity, has_wildcard, unit_score,
  is_high_surrogate, is_low_surrogate, literal_score, pattern_specificity,
}
use nest_batch.Flow.Matching.{Glob, done, star_end, star_more, one, same, matches_pattern_iff}

-- The code units of a pattern that stand for themselves.
plain_units : Text → ℕ
plain_units [] = 0
plain_units (c ∷ p) = unit_score c + plain_units p

-- A surrogate is no wildcard.
unit_score_high : (c : ℕ) → is_high_surrogate c ≡ true → unit_score c ≡ 1
unfolding is_high_surrogate unit_score
unit_score_high c h = ground arith

literal_score-le : (p : Text) → literal_score p ≤ plain_units p
unfolding literal_score plain_units
literal_score-le [] = omega arith
literal_score-le (c ∷ []) = omega arith
literal_score-le (c ∷ d ∷ p) = elim (Bool-cases (is_high_surrogate c && is_low_surrogate d)) [
  | inl pair ↦ rw pair (omega (arith, unit_score_high c (ground arith), literal_score-le p))
  | inr single ↦ rw single (omega (arith, literal_score-le (d ∷ p)))
]

plain_units-le : {p s : Text} → Glob p s → plain_units p ≤ length s
unfolding plain_units unit_score
plain_units-le done = omega arith
plain_units-le (star_end c e g) = ground (arith, plain_units-le g)
plain_units-le (star_more c d e n g) = omega (arith, plain_units-le g)
plain_units-le (one c d e n g) = ground (arith, plain_units-le g)
plain_units-le (same c n m g) = ground (arith, plain_units-le g)

-- An exact pattern is more specific than any wildcard pattern that matches the same exit status,
-- for exit statuses below 1000 code units.
pub exact_beats_wildcard :
    (from_step_id : String) (status : Text) (t u : TransitionDefinition)
    → has_wildcard t.on_status ≡ false
    → has_wildcard u.on_status ≡ true
    → transition_matches from_step_id status u ≡ true
    → length status < 1000
    → specificity u < specificity t
unfolding specificity pattern_specificity transition_matches
exact_beats_wildcard from_step_id status t u flat wild fit short =
    let glob = (matches_pattern_iff u.on_status status).0 (ground arith) in
    rw (flat, wild) (omega (arith, literal_score-le u.on_status, plain_units-le glob))

-- ===== src/Flow/Matching.antt =====
-- Patterns of packages/core/src/flow/flow-evaluator.ts against a declarative reading of wildcards.
use nest_batch.Prelude.{
  ℕ, ◌≡◌, ◌≢◌, refl, ap, subst, true, false, List, [], ◌∷◌, map, inl, inr, arith, ◌==◌, any,
  Bool-cases, ◌↔◌,
}
use nest_batch.Prelude.Text.{Text, text_eq_sound, text_eq_refl}
use nest_batch.Flow.{
  atom, is_line_terminator, Atom, any_run, any_one, literal, regex_test, has_wildcard,
  matches_pattern,
}

-- `pattern` fits `status`: `*` stands for any run without a line break, `?` for one code unit that
-- is no line break, and any other code unit for itself.
pub data Glob : Text → Text → Type 0 where
  done : Glob [] []
  star_end : {p s : Text} (c : ℕ) → c ≡ b'*' → Glob p s → Glob (c ∷ p) s
  star_more :
      {p s : Text} (c d : ℕ)
      → c ≡ b'*'
      → is_line_terminator d ≡ false
      → Glob (c ∷ p) s
      → Glob (c ∷ p) (d ∷ s)
  one :
      {p s : Text} (c d : ℕ)
      → c ≡ b'?'
      → is_line_terminator d ≡ false
      → Glob p s
      → Glob (c ∷ p) (d ∷ s)
  same : {p s : Text} (c : ℕ) → c ≢ b'*' → c ≢ b'?' → Glob p s → Glob (c ∷ p) (c ∷ s)

-- What a code unit of a pattern is.
pub data Kind (c : ℕ) : Type 0 where
  star : c ≡ b'*' → atom c ≡ any_run → Kind c
  question : c ≡ b'?' → atom c ≡ any_one → Kind c
  plain : c ≢ b'*' → c ≢ b'?' → atom c ≡ literal c → Kind c

kind : (c : ℕ) → Kind c
unfolding atom
kind c = elim (Bool-cases (c == b'*')) [
  | inl e ↦ star (ground arith) (rw e)
  | inr e ↦ elim (Bool-cases (c == b'?')) [
    | inl f ↦ question (ground arith) (rw (e, f))
    | inr f ↦ plain (ground arith) (ground arith) (rw (e, f))
  ]
]

regex_test-Glob : (p s : Text) → regex_test (map atom p) s ≡ true → Glob p s
unfolding regex_test
regex_test-Glob [] [] h = done
regex_test-Glob [] (d ∷ s) h = cc
regex_test-Glob (c ∷ p) [] h = elim (kind c) [
  | star e a ↦ star_end c e (regex_test-Glob p [] (rw a at h))
  | question e a ↦ cc (a, h)
  | plain n m a ↦ cc (a, h)
]
regex_test-Glob (c ∷ p) (d ∷ s) h = elim (kind c) [
  | star e a ↦ elim (Bool-cases (regex_test (map atom p) (d ∷ s))) [
    | inl stop ↦ star_end c e (regex_test-Glob p (d ∷ s) stop)
    | inr go ↦ star_more c d e (ground (arith, a)) (regex_test-Glob (c ∷ p) s (ground (arith, a)))
  ]
  | question e a ↦ one c d e (ground (arith, a)) (regex_test-Glob p s (ground (arith, a)))
  | plain n m a ↦
      let same_unit : d ≡ c = ground (arith, a) in
      rw same_unit (same c n m (regex_test-Glob p s (ground (arith, a))))
]

atom_star : (c : ℕ) → c ≡ b'*' → atom c ≡ any_run
unfolding atom
atom_star c e = ground arith

atom_question : (c : ℕ) → c ≡ b'?' → atom c ≡ any_one
unfolding atom
atom_question c e = ground arith

atom_plain : (c : ℕ) → c ≢ b'*' → c ≢ b'?' → atom c ≡ literal c
unfolding atom
atom_plain c n m = ground arith

run_stops :
    (ps : List Atom) (s : Text) → regex_test ps s ≡ true → regex_test (any_run ∷ ps) s ≡ true
unfolding regex_test
run_stops ps [] h = h
run_stops ps (d ∷ s) h = rw h

run_goes :
    (ps : List Atom) (d : ℕ) (s : Text)
    → is_line_terminator d ≡ false
    → regex_test (any_run ∷ ps) s ≡ true
    → regex_test (any_run ∷ ps) (d ∷ s) ≡ true
unfolding regex_test
run_goes ps d s n h = ground arith

Glob-regex_test : {p s : Text} → Glob p s → regex_test (map atom p) s ≡ true
unfolding regex_test
Glob-regex_test done = refl
Glob-regex_test (star_end {p} {s} c e g) =
    rw (atom_star c e) (run_stops (map atom p) s (Glob-regex_test g))
Glob-regex_test (star_more {p} {s} c d e n g) =
    rw (atom_star c e) (run_goes (map atom p) d s n (rw (atom_star c e) at (Glob-regex_test g)))
Glob-regex_test (one {p} {s} c d e n g) = rw (atom_question c e) (ground (arith, Glob-regex_test g))
Glob-regex_test (same {p} {s} c n m g) = rw (atom_plain c n m) (ground (arith, Glob-regex_test g))

-- A pattern without wildcards
abbrev Plain : Text → Type 0
Plain p = has_wildcard p ≡ false

Plain-cons : (c : ℕ) (p : Text) → Plain (c ∷ p) → (c ≢ b'*') × (c ≢ b'?') × Plain p
unfolding has_wildcard any
Plain-cons c p h = ground arith

Glob-eq : {p s : Text} → Plain p → Glob p s → p ≡ s
Glob-eq h done = refl
Glob-eq h (star_end {p} c e g) = absurd ((Plain-cons c p h).0 e)
Glob-eq h (star_more {p} c d e n g) = absurd ((Plain-cons c p h).0 e)
Glob-eq h (one {p} c d e n g) = absurd ((Plain-cons c p h).1 e)
Glob-eq h (same {p} c n m g) = ap (λ (t : Text). c ∷ t) (Glob-eq (Plain-cons c p h).2 g)

Glob-refl : (p : Text) → Plain p → Glob p p
Glob-refl [] h = done
Glob-refl (c ∷ p) h = let (n, m, rest) = Plain-cons c p h in same c n m (Glob-refl p rest)

-- `matchesPattern` accepts a status exactly when the pattern fits it in the declarative reading of
-- `*` and `?`, for patterns with wildcards and without.
pub matches_pattern_iff : (p s : Text) → (matches_pattern p s ≡ true) ↔ Glob p s
unfolding matches_pattern
matches_pattern_iff p s = elim (Bool-cases (has_wildcard p)) [
  | inl wild ↦ rw wild (regex_test-Glob p s, Glob-regex_test)
  | inr flat ↦ rw flat (
    (λ h. subst (Glob p) (text_eq_sound p s h) (Glob-refl p flat)),
    (λ g. rw (Glob-eq flat g) (text_eq_refl s)),
  )
]

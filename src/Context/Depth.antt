-- ===== src/Context/Depth.antt =====
-- The bound on nesting of packages/core/src/core/execution-context/validator.ts.
use nest_batch.Prelude.{
  ℕ, suc, ◌+◌, ◌≤◌, ◌≡◌, refl, ◌↔◌, ok, err, max, arith, ltb, ltb→lt, Bool, true, false,
  if◌then◌else◌, ◌>>◌,
}
use nest_batch.Errors.{BatchError, invalid_execution_context, Throws}
use nest_batch.Context.{
  Json, Elements, Fields, null, bool, number, string, array, object, nil, cons, end, field,
  assert_json_serializable, assert_elements, assert_fields,
}

-- How many arrays and objects stand inside one another
unfoldable mutual
  pub height : Json → ℕ
  height (array es) = suc (height_elements es)
  height (object fs) = suc (height_fields fs)
  height _ = 0

  pub height_elements : Elements → ℕ
  height_elements nil = 0
  height_elements (cons v es) = max (height v) (height_elements es)

  pub height_fields : Fields → ℕ
  height_fields end = 0
  height_fields (field k v fs) = max (height v) (height_fields fs)

then-ok : (a b : Throws (Unit {0})) → ((a >> b) ≡ ok tt) ↔ ((a ≡ ok tt) × (b ≡ ok tt))
then-ok (ok u) b = ((λ h. (refl, h)), λ h. h.1)
then-ok (err x) b = ((λ h. absurd cc), λ h. absurd cc)

too_deep : (d h : ℕ) → ltb 100 d ≡ true → d + suc h ≤ 101 → ⊥
too_deep d h q le = omega (arith, ltb→lt 100 d q)

not_deep : (d : ℕ) → ltb 100 d ≡ false → d ≤ 100
not_deep d q = ground arith

-- The check of a container at depth `d` that holds `h` levels more
container :
    (d h : ℕ) (rest : Throws (Unit {0})) (x : BatchError)
    → (d ≤ 100 → (rest ≡ ok tt) ↔ (d + suc h ≤ 101))
    → (◌≡◌ {A = Throws (Unit {0})} (if ltb 100 d then err x else rest) (ok tt)) ↔ (d + suc h ≤ 101)
container d h rest x inner = by_test (ltb 100 d) refl
  where
    by_test :
        (b : Bool)
        → ltb 100 d ≡ b
        → (◌≡◌ {A = Throws (Unit {0})} (if b then err x else rest) (ok tt)) ↔ (d + suc h ≤ 101)
    by_test true q = ((λ k. absurd cc), λ k. absurd (too_deep d h q k))
    by_test false q = inner (not_deep d q)

mutual
  unfolding assert_json_serializable height

  accepts :
      (d : ℕ) (v : Json) → d ≤ 101 → (assert_json_serializable d v ≡ ok tt) ↔ (d + height v ≤ 101)
  accepts d (array es) le =
      container d (height_elements es) (assert_elements d es) invalid_execution_context
        (λ fits. accepts_elements d es fits)
  accepts d (object fs) le =
      container d (height_fields fs) (assert_fields d fs) invalid_execution_context
        (λ fits. accepts_fields d fs fits)
  accepts d null le = ((λ h. omega arith), λ h. refl)
  accepts d (bool b) le = ((λ h. omega arith), λ h. refl)
  accepts d (number n) le = ((λ h. omega arith), λ h. refl)
  accepts d (string s) le = ((λ h. omega arith), λ h. refl)

  accepts_elements :
      (d : ℕ) (es : Elements)
      → d ≤ 100
      → (assert_elements d es ≡ ok tt) ↔ (d + suc (height_elements es) ≤ 101)
  accepts_elements d nil le = ((λ h. omega arith), λ h. refl)
  accepts_elements d (cons v es) le =
      let first = accepts (d + 1) v (omega arith) in
      let rest = accepts_elements d es le in
      let both = then-ok (assert_json_serializable (d + 1) v) (assert_elements d es) in
      (
        (λ h. let p = both.0 h in omega (arith, first.0 p.0, rest.0 p.1)),
        λ h. both.1 (first.1 (omega arith), rest.1 (omega arith)),
      )

  accepts_fields :
      (d : ℕ) (fs : Fields)
      → d ≤ 100
      → (assert_fields d fs ≡ ok tt) ↔ (d + suc (height_fields fs) ≤ 101)
  accepts_fields d end le = ((λ h. omega arith), λ h. refl)
  accepts_fields d (field k v fs) le =
      let first = accepts (d + 1) v (omega arith) in
      let rest = accepts_fields d fs le in
      let both = then-ok (assert_json_serializable (d + 1) v) (assert_fields d fs) in
      (
        (λ h. let p = both.0 h in omega (arith, first.0 p.0, rest.0 p.1)),
        λ h. both.1 (first.1 (omega arith), rest.1 (omega arith)),
      )

-- The check accepts a tree of JSON values exactly when at most 101 arrays and objects stand inside
-- one another.
pub assert_json_serializable_iff :
    (v : Json) → (assert_json_serializable 0 v ≡ ok tt) ↔ (height v ≤ 101)
assert_json_serializable_iff v =
    let (f, g) = accepts 0 v (omega arith) in ((λ h. omega (arith, f h)), λ h. g (omega arith))

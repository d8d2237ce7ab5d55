-- ===== src/Listeners/Legacy.antt =====
-- The listeners of a tasklet step go through two maps: `buildLegacyStepResolvers` of
-- packages/core/src/execution/job-executor.ts and `convertLegacyResolvers` of
-- packages/core/src/execution/listener-invoker.ts.
use Prim.Native.Char.{Char, code}
use Prim.Native.String.{◌++◌ as ◌<>◌}
use mathlib.Core.Option
use nest_batch.Prelude.{
  String, ◌≡◌, refl, sym, ap, ◌∙◌, true, false, Option, none, some, some_inj, ◌==◌, inl, inr,
  Option-cases,
}
use package.text.Mathlib.TextLemmas.{cons-append}
use nest_batch.Listeners.{
  strip, starts_with, is_some, new_key, prefix_of, Phase, before, after, on_error, step,
}
use nest_batch.Listeners.Keys.{strip-append, strip_inv}
use nest_batch.Listeners.Resolvers.{legacy_key}
use nest_batch.Listeners.Rekey.{Injective}

-- A text does not start with what begins with another character.
strip-other :
    (d c : Char) (p q rest : String)
    → (code d == code c) ≡ false
    → strip (String.◌∷◌ d p) (String.◌∷◌ c q <> rest) ≡ none
unfolding strip
strip-other d c p q rest h = ap (strip (String.◌∷◌ d p)) (cons-append c q rest) ∙ rw h refl

before_not_after : (n : String) → strip "before-step:" ("after-step:" <> n) ≡ none
before_not_after n = strip-other "b" "a" "efore-step:" "fter-step:" n refl

-- The key that a legacy key came from
abbrev old_key : String → Option String
old_key key = elim (strip "before-step:" key) [
  | some name ↦ some ("before:step:" <> name)
  | none ↦ elim (strip "after-step:" key) [
    | some name ↦ some ("after:step:" <> name)
    | none ↦ Option.map (λ name. "on-error:step:" <> name) (strip "on-step-error:" key)
  ]
]

-- What `legacy_key` makes of a key
data Legacy (key : String) : Type 0 where
  of_before :
      (n : String)
      → key ≡ "before:step:" <> n
      → legacy_key key ≡ some ("before-step:" <> n)
      → Legacy key
  of_after :
      (n : String)
      → key ≡ "after:step:" <> n
      → legacy_key key ≡ some ("after-step:" <> n)
      → Legacy key
  of_error :
      (n : String)
      → key ≡ "on-error:step:" <> n
      → legacy_key key ≡ some ("on-step-error:" <> n)
      → Legacy key
  of_none :
      strip "before:step:" key ≡ none
      → strip "after:step:" key ≡ none
      → strip "on-error:step:" key ≡ none
      → legacy_key key ≡ none
      → Legacy key

legacy : (key : String) → Legacy key
unfolding legacy_key
legacy key = elim (Option-cases (strip "before:step:" key)) [
  | inr (n, e) ↦ of_before n (strip_inv "before:step:" key n e) (rw (legacy_key, e) refl)
  | inl e ↦ elim (Option-cases (strip "after:step:" key)) [
    | inr (n, f) ↦ of_after n (strip_inv "after:step:" key n f) (rw (legacy_key, e, f) refl)
    | inl f ↦ elim (Option-cases (strip "on-error:step:" key)) [
      | inr (n, g) ↦ of_error n (strip_inv "on-error:step:" key n g) (rw (legacy_key, e, f, g) refl)
      | inl g ↦ of_none e f g (rw (legacy_key, e, f, g) refl)
    ]
  ]
]

legacy-old : (k i : String) → legacy_key k ≡ some i → old_key i ≡ some k
legacy-old k i h = elim (legacy k) [
  | of_before n p q ↦
      ap old_key (some_inj (sym h ∙ q))
      ∙ rw (old_key, strip-append "before-step:" n) (ap some (sym p))
  | of_after n p q ↦
      ap old_key (some_inj (sym h ∙ q))
      ∙ rw (old_key, before_not_after n, strip-append "after-step:" n) (ap some (sym p))
  | of_error n p q ↦
      ap old_key (some_inj (sym h ∙ q))
      ∙ rw
          (
            old_key,
            strip-other "b" "o" "efore-step:" "n-step-error:" n refl,
            strip-other "a" "o" "fter-step:" "n-step-error:" n refl,
            strip-append "on-step-error:" n,
          )
          (ap some (sym p))
  | of_none _ _ _ q ↦ absurd cc
]

pub legacy_key-Injective : Injective legacy_key
legacy_key-Injective k j i h g = some_inj (sym (legacy-old k i h) ∙ legacy-old j i g)

module _ (legacy_prefix : String) (phase : Phase) where
  new_key-cases :
      (k i : String)
      → new_key legacy_prefix phase k ≡ some i
      → (n : String) × (k ≡ legacy_prefix <> n) × (i ≡ prefix_of phase step <> n)
  unfolding new_key
  new_key-cases k i h = elim (Option-cases (strip legacy_prefix k)) [
    | inl e ↦ let z = (rw e at h) in absurd cc
    | inr (n, e) ↦ (n, strip_inv legacy_prefix k n e, sym (some_inj (rw e at h)))
  ]

  pub new_key-Injective : Injective (new_key legacy_prefix phase)
  new_key-Injective k j i h g =
      let (n, p, q) = new_key-cases k i h in
      let (m, r, s) = new_key-cases j i g in
      let same : n ≡ m = some_inj (
        sym (strip-append (prefix_of phase step) n)
        ∙ ap (strip (prefix_of phase step)) (sym q ∙ s)
        ∙ strip-append (prefix_of phase step) m) in
      p ∙ ap (λ x. legacy_prefix <> x) same ∙ sym r

  -- What both translations make of a key
  pub data Route (key : String) : Type 0 where
    taken :
        (j : String)
        → legacy_key key ≡ some j
        → new_key legacy_prefix phase j ≡ some key
        → starts_with key (prefix_of phase step) ≡ true
        → Route key
    not_of_step : legacy_key key ≡ none → starts_with key (prefix_of phase step) ≡ false → Route key
    of_other :
        (j : String)
        → legacy_key key ≡ some j
        → new_key legacy_prefix phase j ≡ none
        → starts_with key (prefix_of phase step) ≡ false
        → Route key

  -- The three phases share their steps.
  Route-taken :
      (key n : String)
      → key ≡ prefix_of phase step <> n
      → legacy_key key ≡ some (legacy_prefix <> n)
      → Route key
  unfolding new_key starts_with is_some
  Route-taken key n p q =
      taken (legacy_prefix <> n) q (rw (strip-append legacy_prefix n) (ap some (sym p))) (
        ap (λ x. is_some (strip (prefix_of phase step) x)) p
        ∙ rw (strip-append (prefix_of phase step) n) refl)

  Route-other :
      (key j : String)
      → legacy_key key ≡ some j
      → strip legacy_prefix j ≡ none
      → strip (prefix_of phase step) key ≡ none
      → Route key
  unfolding new_key starts_with is_some
  Route-other key j q e f = of_other j q (rw e refl) (rw f refl)

  Route-none :
      (key : String) → legacy_key key ≡ none → strip (prefix_of phase step) key ≡ none → Route key
  unfolding starts_with is_some
  Route-none key q e = not_of_step q (rw e refl)

pub Route-before : (key : String) → Route "before-step:" before key
unfolding prefix_of
Route-before key = elim (legacy key) [
  | of_before n p q ↦ Route-taken "before-step:" before key n p q
  | of_after n p q ↦
      Route-other "before-step:" before key ("after-step:" <> n) q (before_not_after n)
        (ap (strip "before:step:") p ∙ strip-other "b" "a" "efore:step:" "fter:step:" n refl)
  | of_error n p q ↦
      Route-other "before-step:" before key ("on-step-error:" <> n) q
        (strip-other "b" "o" "efore-step:" "n-step-error:" n refl)
        (ap (strip "before:step:") p ∙ strip-other "b" "o" "efore:step:" "n-error:step:" n refl)
  | of_none e f g q ↦ Route-none "before-step:" before key q e
]

pub Route-after : (key : String) → Route "after-step:" after key
unfolding prefix_of
Route-after key = elim (legacy key) [
  | of_before n p q ↦
      Route-other "after-step:" after key ("before-step:" <> n) q
        (strip-other "a" "b" "fter-step:" "efore-step:" n refl)
        (ap (strip "after:step:") p ∙ strip-other "a" "b" "fter:step:" "efore:step:" n refl)
  | of_after n p q ↦ Route-taken "after-step:" after key n p q
  | of_error n p q ↦
      Route-other "after-step:" after key ("on-step-error:" <> n) q
        (strip-other "a" "o" "fter-step:" "n-step-error:" n refl)
        (ap (strip "after:step:") p ∙ strip-other "a" "o" "fter:step:" "n-error:step:" n refl)
  | of_none e f g q ↦ Route-none "after-step:" after key q f
]

pub Route-on_error : (key : String) → Route "on-step-error:" on_error key
unfolding prefix_of
Route-on_error key = elim (legacy key) [
  | of_before n p q ↦
      Route-other "on-step-error:" on_error key ("before-step:" <> n) q
        (strip-other "o" "b" "n-step-error:" "efore-step:" n refl)
        (ap (strip "on-error:step:") p ∙ strip-other "o" "b" "n-error:step:" "efore:step:" n refl)
  | of_after n p q ↦
      Route-other "on-step-error:" on_error key ("after-step:" <> n) q
        (strip-other "o" "a" "n-step-error:" "fter-step:" n refl)
        (ap (strip "on-error:step:") p ∙ strip-other "o" "a" "n-error:step:" "fter:step:" n refl)
  | of_error n p q ↦ Route-taken "on-step-error:" on_error key n p q
  | of_none e f g q ↦ Route-none "on-step-error:" on_error key q g
]

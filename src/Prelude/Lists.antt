-- ===== src/Prelude/Lists.antt =====
-- Lists measured by native numbers, and the array methods that the program calls with a predicate.
use Prim.Native.Nat.{ℕ, zero, suc, ◌+◌, ◌≤◌}
use mathlib.Core.Path.{◌≡◌, refl, ap, subst}
use mathlib.Core.Bool.{Bool, true, false, ◌&&◌, ◌||◌}
use mathlib.Core.Logic.{◌⊎◌, inl, inr}
use mathlib.Core.List.{List, [], ◌∷◌, ◌++◌}
use mathlib.Core.Option.{Option, none, some}
use native.Mathlib.Omega.{arith}
use nest_batch.Prelude.Tests.{if◌then◌else◌, Bool-cases}

module _ {ℓ} {A : Type ℓ} where
  abbrev pub length : List A → ℕ
  length [] = 0
  length (x ∷ xs) = suc (length xs)

  abbrev pub get_elem? : List A → ℕ → Option A
  get_elem? [] i = none
  get_elem? (x ∷ xs) zero = some x
  get_elem? (x ∷ xs) (suc i) = get_elem? xs i

  abbrev pub take : ℕ → List A → List A
  take zero xs = []
  take (suc n) [] = []
  take (suc n) (x ∷ xs) = x ∷ take n xs

  abbrev pub drop : ℕ → List A → List A
  drop zero xs = xs
  drop (suc n) [] = []
  drop (suc n) (x ∷ xs) = drop n xs

  pub length-append : (xs ys : List A) → length (xs ++ ys) ≡ length xs + length ys
  length-append [] ys = omega arith
  length-append (x ∷ xs) ys = omega (arith, length-append xs ys)

  -- `xs.filter(p)`
  unfoldable pub filter : (A → Bool) → List A → List A
  filter p [] = []
  filter p (x ∷ xs) = let rest = filter p xs in if p x then x ∷ rest else rest

  -- `xs.some(p)`
  unfoldable pub any : (A → Bool) → List A → Bool
  any p [] = false
  any p (x ∷ xs) = p x || any p xs

  -- `xs.find(p)`
  unfoldable pub find? : (A → Bool) → List A → Option A
  find? p [] = none
  find? p (x ∷ xs) = let rest = find? p xs in if p x then some x else rest

  -- A member, with its place.
  pub data Has (x : A) : List A → Type ℓ where
    here : {xs : List A} → Has x (x ∷ xs)
    there : {y : A} {xs : List A} → Has x xs → Has x (y ∷ xs)

  abbrev pub All {κ} : (A → Type κ) → List A → Type κ
  All P [] = Unit
  All P (x ∷ xs) = P x × All P xs

module _ {ℓ} {A : Type ℓ} where
  pub length-filter-le : (p : A → Bool) (xs : List A) → length (filter p xs) ≤ length xs
  unfolding filter
  length-filter-le p [] = omega arith
  length-filter-le p (x ∷ xs) = ground (arith, length-filter-le p xs)

  pub Has-append_left : {x : A} (xs ys : List A) → Has x xs → Has x (xs ++ ys)
  Has-append_left _ ys here = here
  Has-append_left _ ys (there {xs = zs} h) = there (Has-append_left zs ys h)

  pub Has-append_right : {x : A} (xs ys : List A) → Has x ys → Has x (xs ++ ys)
  Has-append_right [] ys h = h
  Has-append_right (z ∷ xs) ys h = there (Has-append_right xs ys h)

  pub Has-append : {x : A} (xs ys : List A) → Has x (xs ++ ys) → Has x xs ⊎ Has x ys
  Has-append [] ys h = inr h
  Has-append (z ∷ xs) ys here = inl here
  Has-append (z ∷ xs) ys (there h) = elim (Has-append xs ys h) [
    | inl l ↦ inl (there l)
    | inr r ↦ inr r
  ]

  pub All-Has {κ} : (P : A → Type κ) {x : A} (xs : List A) → All P xs → Has x xs → P x
  All-Has P _ h here = h.0
  All-Has P _ h (there {xs = ys} m) = All-Has P ys h.1 m

  pub any-Has : (p : A → Bool) (xs : List A) → any p xs ≡ true → (x : A) × Has x xs × (p x ≡ true)
  unfolding any
  any-Has p [] h = cc
  any-Has p (x ∷ xs) h = elim (Bool-cases (p x)) [
    | inl e ↦ (x, here, e)
    | inr e ↦
        let r : any p xs ≡ true = ground arith in let (y, m, q) = any-Has p xs r in (y, there m, q)
  ]

  pub Has-any : (p : A → Bool) {x : A} (xs : List A) → Has x xs → p x ≡ true → any p xs ≡ true
  unfolding any
  Has-any p _ (here {xs = ys}) e = ground arith
  Has-any p _ (there {xs = ys} m) e = ground (arith, Has-any p ys m e)

module _ {ℓ} {A : Type ℓ} where
  pub filter-append :
      (p : A → Bool) (xs ys : List A) → filter p (xs ++ ys) ≡ filter p xs ++ filter p ys
  unfolding filter
  filter-append p [] ys = refl
  filter-append p (x ∷ xs) ys = ground (arith, filter-append p xs ys)

  pub Has-filter :
      (p : A → Bool) {x : A} (xs : List A) → Has x xs → p x ≡ true → Has x (filter p xs)
  unfolding filter
  Has-filter p _ (here {xs = ys}) e = rw e here
  Has-filter p _ (there {y = y} {xs = ys} m) e = elim (Bool-cases (p y)) [
    | inl f ↦ rw f (there (Has-filter p ys m e))
    | inr f ↦ rw f (Has-filter p ys m e)
  ]

  pub Has-cons : {x y : A} {ys : List A} → Has x (y ∷ ys) → (y ≡ x) ⊎ Has x ys
  Has-cons here = inl refl
  Has-cons (there m) = inr m

  pub filter-Has :
      (p : A → Bool) {x : A} (xs : List A) → Has x (filter p xs) → Has x xs × (p x ≡ true)
  unfolding filter
  filter-Has p [] m = elim m [ ]
  filter-Has p {x} (y ∷ xs) m = elim (Bool-cases (p y)) [
    | inl f ↦ elim (Has-cons (rw f at m)) [
      | inl e ↦ (subst (λ z. Has z (y ∷ xs)) e here, rw e at f)
      | inr m' ↦ let (n, e) = filter-Has p xs m' in (there n, e)
    ]
    | inr f ↦ let (n, e) = filter-Has p xs (rw f at m) in (there n, e)
  ]

  -- Nothing passes.
  pub filter-eq-nil :
      (p : A → Bool) (xs : List A) → ((x : A) → Has x xs → p x ≡ false) → filter p xs ≡ []
  unfolding filter
  filter-eq-nil p [] h = refl
  filter-eq-nil p (x ∷ xs) h = rw (h x here) (filter-eq-nil p xs (λ y m. h y (there m)))

  pub none_passes : (p : A → Bool) {x : A} (xs : List A) → filter p xs ≡ [] → Has x xs → p x ≡ false
  none_passes p {x} xs h m = elim (Bool-cases (p x)) [
    | inl e ↦ elim (subst (λ l. Has x l) h (Has-filter p xs m e)) [ ]
    | inr e ↦ e
  ]

  -- The first element that passes, with what stands before it.
  pub filter-cons-inv :
      (p : A → Bool) (xs : List A) {y : A} {ys : List A}
      → filter p xs ≡ y ∷ ys
      → (pre : List A) × (post : List A) × (xs ≡ pre ++ y ∷ post)
        × (p y ≡ true)
        × (filter p pre ≡ [])
        × (filter p post ≡ ys)
  unfolding filter
  filter-cons-inv p [] h = cc
  filter-cons-inv p (x ∷ xs) h = elim (Bool-cases (p x)) [
    | inl e ↦ ([], xs, ground (arith, e), ground (arith, e), refl, ground (arith, e))
    | inr e ↦
        let (pre, post, split, passes, before, after) = filter-cons-inv p xs (rw e at h) in
        (x ∷ pre, post, ap (λ (l : List A). x ∷ l) split, passes, rw e before, after)
  ]

  pub filter-filter :
      (q p : A → Bool) (xs : List A) → filter q (filter p xs) ≡ filter (λ x. p x && q x) xs
  unfolding filter
  filter-filter q p [] = refl
  filter-filter q p (x ∷ xs) = ground (arith, filter-filter q p xs)

  pub filter-cons_true :
      (p : A → Bool) (x : A) (xs : List A) → p x ≡ true → filter p (x ∷ xs) ≡ x ∷ filter p xs
  unfolding filter
  filter-cons_true p x xs h = rw h

  pub find?-Has : (p : A → Bool) {x : A} (xs : List A) → find? p xs ≡ some x → Has x xs
  unfolding find?
  find?-Has p [] h = cc
  find?-Has p {x} (y ∷ ys) h = elim (Bool-cases (p y)) [
    | inl e ↦ let q : y ≡ x = ground (arith, h, e) in subst (λ z. Has z (y ∷ ys)) q here
    | inr e ↦ there (find?-Has p ys (ground (arith, h, e)))
  ]

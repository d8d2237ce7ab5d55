-- ===== src/Prelude/Results.antt =====
-- A computation that may throw: the value, or the error that was thrown.
use mathlib.Core.Option.{some}
use mathlib.Core.Path.{◌≡◌, refl}
use mathlib.Core.Logic.{◌⊎◌, inl, inr}

pub data Result {ℓ} (E A : Type ℓ) : Type ℓ where
  ok : A → Result E A
  err : E → Result E A

infixl 5 ◌>>=◌ ◌>>◌
abbrev pub ◌>>=◌ {ℓ} : {E A B : Type ℓ} → Result E A → (A → Result E B) → Result E B
err problem >>= next = err problem
ok value >>= next = next value

abbrev pub ◌>>◌ {ℓ} : {E B : Type ℓ} → Result E (Unit {ℓ}) → Result E B → Result E B
first >> second = first >>= λ _. second

pub ok_inj {ℓ} : {E A : Type ℓ} {a b : A} → ◌≡◌ {A = Result E A} (ok a) (ok b) → a ≡ b
ok_inj h = cc

pub some_inj {ℓ} : {A : Type ℓ} {a b : A} → some a ≡ some b → a ≡ b
some_inj h = cc

-- Two checks in a row: both pass, or one of them throws.
pub then-ok {ℓ} :
    {E : Type ℓ} (first second : Result E (Unit {ℓ}))
    → (first >> second) ≡ ok tt
    → (first ≡ ok tt) × (second ≡ ok tt)
then-ok (ok u) second h = (refl, h)
then-ok (err e) second h = absurd cc

pub then-err {ℓ} :
    {E : Type ℓ} (first second : Result E (Unit {ℓ})) {e : E}
    → (first >> second) ≡ err e
    → (first ≡ err e) ⊎ (second ≡ err e)
then-err (ok u) second h = inr h
then-err (err e) second h = inl h

pub unless_err {ℓ} : {E : Type ℓ} (r : Result E (Unit {ℓ})) → ((e : E) → r ≡ err e → ⊥) → r ≡ ok tt
unless_err (ok u) h = refl
unless_err (err e) h = absurd (h e refl)

-- Where a computation in two parts gives a value, both parts do.
pub bind-ok {ℓ} :
    {E A B : Type ℓ} (r : Result E A) (f : A → Result E B) (b : B)
    → (r >>= f) ≡ ok b
    → (a : A) × (r ≡ ok a) × (f a ≡ ok b)
bind-ok (ok a) f b h = (a, refl, h)
bind-ok (err e) f b h = absurd cc

pub then_value-err {ℓ} :
    {E B : Type ℓ} (first : Result E (Unit {ℓ})) (b : B) {e : E}
    → (first >> ok b) ≡ err e
    → first ≡ err e
then_value-err (ok u) b h = absurd cc
then_value-err (err x) b h = cc

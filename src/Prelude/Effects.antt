-- ===== src/Prelude/Effects.antt =====
-- Asynchronous code that reads and writes a state and may throw, as it runs with nothing in between:
-- what was written before a throw stays written.
use mathlib.Core.Path.{◌≡◌, refl}
use nest_batch.Prelude.Results.{Result, ok, err}

abbrev pub Exec {ℓ} : Type ℓ → Type ℓ → Type ℓ → Type ℓ
Exec E S A = S → Result E A × S

module _ {ℓ} {E S A : Type ℓ} where
  abbrev pub pure : A → Exec E S A
  pure a s = (ok a, s)

  abbrev pub throw : E → Exec E S A
  throw e s = (err e, s)

  abbrev pub lift : Result E A → Exec E S A
  lift r s = (r, s)

  abbrev pub gets : (S → A) → Exec E S A
  gets f s = (ok (f s), s)

  -- `try { ... }` with both outcomes as values
  abbrev pub attempt : Exec E S A → Exec E S (Result E A)
  attempt m s = let (r, s') = m s in (ok r, s')

module _ {ℓ} {E S A B : Type ℓ} where
  abbrev pub continue : Result E A → (A → Exec E S B) → Exec E S B
  continue (ok a) f s = f a s
  continue (err e) f s = (err e, s)

  infixl 5 ◌>>=◌ ◌>>◌
  abbrev pub ◌>>=◌ : Exec E S A → (A → Exec E S B) → Exec E S B
  ◌>>=◌ m f s = let (r, s') = m s in continue r f s'

  abbrev pub ◌>>◌ : Exec E S A → Exec E S B → Exec E S B
  m >> n = m >>= λ _. n

abbrev pub modify {ℓ} : {E S : Type ℓ} → (S → S) → Exec E S (Unit {ℓ})
modify f s = (ok tt, f s)

-- `P` holds of the outcome of `m` and the state that it leaves.
abbrev pub Ensures {ℓ} : {E S A : Type ℓ} → (Result E A → S → Type ℓ) → Exec E S A → S → Type ℓ
Ensures P m s = P (m s).0 (m s).1

module _ {ℓ} {E S A B : Type ℓ} (P : Result E B → S → Type ℓ) where
  continue_rule :
      (r : Result E A) (f : A → Exec E S B) (s : S)
      → ((a : A) → r ≡ ok a → Ensures P (f a) s)
      → ((e : E) → r ≡ err e → P (err e) s)
      → Ensures P (continue r f) s
  continue_rule (ok a) f s on_ok on_err = on_ok a refl
  continue_rule (err e) f s on_ok on_err = on_err e refl

  -- The rule for one step of a `do` block.
  pub bind_rule :
      (m : Exec E S A) (f : A → Exec E S B) (s : S)
      → ((a : A) → (m s).0 ≡ ok a → Ensures P (f a) (m s).1)
      → ((e : E) → (m s).0 ≡ err e → P (err e) (m s).1)
      → Ensures P (m >>= f) s
  bind_rule m f s on_ok on_err = continue_rule (m s).0 f (m s).1 on_ok on_err

-- ===== src/Prelude/Sets.antt =====
-- A JavaScript `Set` of strings: its members, the newest first.
use Prim.Native.String.{String}
use mathlib.Core.Path.{◌≡◌, refl, subst}
use mathlib.Core.Logic.{◌⊎◌, inl, inr}
use mathlib.Core.Bool.{Bool, true, false, ◌||◌}
use mathlib.Core.List.{List, [], ◌∷◌, ◌++◌}
use native.Mathlib.Omega.{arith}
use text.Mathlib.TextEquality.{eq_iff}
use nest_batch.Prelude.Tests.{◌===◌, if◌then◌else◌, Bool-cases}
use nest_batch.Prelude.Lists.{Has, here, there}

-- `set.has(x)`
unfoldable pub member : String → List String → Bool
member x [] = false
member x (y ∷ ys) = y === x || member x ys

-- `set.delete(x)`
unfoldable pub delete : String → List String → List String
delete x [] = []
delete x (y ∷ ys) = let rest = delete x ys in if y === x then rest else y ∷ rest

pub member-Has : (x : String) (ys : List String) → member x ys ≡ true → Has x ys
unfolding member
member-Has x [] h = cc
member-Has x (y ∷ ys) h = elim (Bool-cases (y === x)) [
  | inl e ↦ let q : y ≡ x = ground (arith, eq_iff y x) in subst (λ z. Has z (y ∷ ys)) q here
  | inr e ↦ there (member-Has x ys (ground (arith, h, e)))
]

pub Has-member : {x : String} (ys : List String) → Has x ys → member x ys ≡ true
unfolding member
Has-member {x} _ here = ground (arith, eq_iff x x)
Has-member _ (there {xs = ys} m) = ground (arith, Has-member ys m)

pub member-cons :
    (x y : String) (ys : List String) → member x (y ∷ ys) ≡ true → (y ≡ x) ⊎ (member x ys ≡ true)
unfolding member
member-cons x y ys h = ground (arith, eq_iff y x)

pub member-cons_same : (x : String) (ys : List String) → member x (x ∷ ys) ≡ true
unfolding member
member-cons_same x ys = ground (arith, eq_iff x x)

pub member-cons_later :
    (x y : String) (ys : List String) → member x ys ≡ true → member x (y ∷ ys) ≡ true
unfolding member
member-cons_later x y ys h = ground arith

-- What is deleted was not there.
pub delete-absent : (x : String) (ys : List String) → member x ys ≡ false → delete x ys ≡ ys
unfolding member delete
delete-absent x [] h = refl
delete-absent x (y ∷ ys) h = ground (arith, delete-absent x ys)

pub delete-cons_same :
    (x : String) (ys : List String) → member x ys ≡ false → delete x (x ∷ ys) ≡ ys
unfolding delete
delete-cons_same x ys h = ground (arith, eq_iff x x, delete-absent x ys h)

pub member-append :
    (x : String) (xs ys : List String) → member x (xs ++ ys) ≡ (member x xs || member x ys)
unfolding member
member-append x [] ys = refl
member-append x (y ∷ xs) ys = ground (arith, member-append x xs ys)

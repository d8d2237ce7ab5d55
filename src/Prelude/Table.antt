-- ===== src/Prelude/Table.antt =====
-- A JavaScript `Map`, or an object used as one, with string keys: its entries in insertion order.
use Prim.Native.String.{String}
use mathlib.Core.Path.{◌≡◌, refl, ap, subst, ◌∙◌, sym}
use mathlib.Core.Logic.{◌⊎◌, ◌≢◌, inl, inr}
use mathlib.Core.Bool.{Bool, true, false}
use mathlib.Core.List.{List, [], ◌∷◌, ◌++◌, map}
use mathlib.Core.Option.{Option, none, some}
use native.Mathlib.Omega.{arith}
use text.Mathlib.TextEquality.{eq_iff}
use nest_batch.Prelude.Lists.{Has, here, there, Has-cons}
use nest_batch.Prelude.Tests.{◌===◌, if◌then◌else◌, Bool-cases}

abbrev pub Table {ℓ} : Type ℓ → Type ℓ
Table V = List (String × V)

module _ {ℓ} {V : Type ℓ} where
  -- `m.get(k)`
  unfoldable pub get : String → Table V → Option V
  get k [] = none
  get k ((j, v) ∷ m) = let rest = get k m in if j === k then some v else rest

  -- `m.set(k, v)`: a new key goes to the end, an old one keeps its place.
  unfoldable pub set : String → V → Table V → Table V
  set k v [] = (k, v) ∷ []
  set k v ((j, w) ∷ m) = let rest = set k v m in if j === k then (j, v) ∷ m else (j, w) ∷ rest

  -- `m.has(k)`
  unfoldable pub has : String → Table V → Bool
  has k [] = false
  has k ((j, v) ∷ m) = let rest = has k m in if j === k then true else rest

  abbrev pub keys : Table V → List String
  keys m = map (λ e. e.0) m

  abbrev pub values : Table V → List V
  values m = map (λ e. e.1) m

  pub get-set :
      (k j : String) (v : V) (m : Table V)
      → get j (set k v m) ≡ (if k === j then some v else get j m)
  unfolding get set
  get-set k j v [] = refl
  get-set k j v ((i, w) ∷ m) = ground (arith, eq_iff k j, eq_iff i k, eq_iff i j, get-set k j v m)

  pub get-set_same : (k : String) (v : V) (m : Table V) → get k (set k v m) ≡ some v
  get-set_same k v m = ground (arith, eq_iff k k, get-set k k v m)

  pub get-set_other : (k j : String) (v : V) (m : Table V) → k ≢ j → get j (set k v m) ≡ get j m
  get-set_other k j v m differs = ground (arith, eq_iff k j, get-set k j v m)

  pub set-set : (k : String) (v w : V) (m : Table V) → set k w (set k v m) ≡ set k w m
  unfolding set
  set-set k v w [] = ground (arith, eq_iff k k)
  set-set k v w ((j, u) ∷ m) = ground (arith, eq_iff j k, set-set k v w m)

  -- Where a value that is found behind a `set` comes from.
  pub get-set_cases :
      (k j : String) (v w : V) (m : Table V)
      → get j (set k v m) ≡ some w
      → ((j ≡ k) × (w ≡ v)) ⊎ (get j m ≡ some w)
  get-set_cases k j v w m h = ground (arith, eq_iff k j, get-set k j v m)

  pub has-get : (k : String) (m : Table V) → has k m ≡ false → get k m ≡ none
  unfolding has get
  has-get k [] h = refl
  has-get k ((j, v) ∷ m) h = ground (arith, has-get k m)

  -- A new key's entry goes to the end.
  pub set-eq-append :
      (k : String) (v : V) (m : Table V) → get k m ≡ none → set k v m ≡ m ++ (k, v) ∷ []
  unfolding get set
  set-eq-append k v [] h = refl
  set-eq-append k v ((j, w) ∷ m) h = ground (arith, set-eq-append k v m)

pub get-has {ℓ} :
    {V : Type ℓ} (k : String) (m : Table V) → has k m ≡ true → (v : V) × (get k m ≡ some v)
unfolding has get
get-has k [] h = absurd cc
get-has k ((j, v) ∷ m) h = elim (Bool-cases (j === k)) [
  | inl e ↦ (v, rw e refl)
  | inr e ↦ let (w, q) = get-has k m (rw e at h) in (w, rw e q)
]

-- Where an entry of a table behind a `set` comes from.
pub Has-set {ℓ} :
    {V : Type ℓ} (k j : String) (v w : V) (m : Table V)
    → Has (k, v) (set j w m)
    → ((k ≡ j) × (v ≡ w)) ⊎ Has (k, v) m
unfolding set
Has-set k j v w [] here = inl (refl, refl)
Has-set k j v w [] (there h) = elim h [ ]
Has-set {V = A} k j v w ((i, u) ∷ m) h = elim (Bool-cases (i === j)) [
  | inl e ↦ elim (Has-cons (rw e at h)) [
    | inl q ↦
        let same : i ≡ j = ground (arith, eq_iff i j) in
        inl (sym (ap (λ (x : String × A). x.0) q) ∙ same, sym (ap (λ (x : String × A). x.1) q))
    | inr n ↦ inr (there n)
  ]
  | inr e ↦ elim (Has-cons (rw e at h)) [
    | inl q ↦ inr (subst (λ (x : String × A). Has x ((i, u) ∷ m)) q here)
    | inr n ↦ elim (Has-set k j v w m n) [ inl found ↦ inl found | inr old ↦ inr (there old) ]
  ]
]

pub get-Has {ℓ} : {V : Type ℓ} (k : String) (v : V) (m : Table V) → get k m ≡ some v → Has (k, v) m
unfolding get
get-Has k v [] h = absurd cc
get-Has {V = A} k v ((j, w) ∷ m) h = elim (Bool-cases (j === k)) [
  | inl e ↦
      let same : j ≡ k = ground (arith, eq_iff j k) in
      let q : (j, w) ≡ (k, v) = cc (same, rw e at h) in
      subst (λ (x : String × A). Has x ((j, w) ∷ m)) q here
  | inr e ↦ there (get-Has k v m (rw e at h))
]

pub has-set_same {ℓ} : {V : Type ℓ} (k : String) (v : V) (m : Table V) → has k (set k v m) ≡ true
unfolding has set
has-set_same k v [] = ground (arith, eq_iff k k)
has-set_same k v ((j, w) ∷ m) = ground (arith, eq_iff j k, has-set_same k v m)

pub has-set_keeps {ℓ} :
    {V : Type ℓ} (k j : String) (v : V) (m : Table V) → has k m ≡ true → has k (set j v m) ≡ true
unfolding has set
has-set_keeps k j v [] h = absurd cc
has-set_keeps k j v ((i, w) ∷ m) h = ground (arith, has-set_keeps k j v m)

-- ===== src/Listeners/Rekey.antt =====
-- Maps whose keys are written anew, as packages/core/src/execution/listener-invoker.ts and the job
-- executor do with the keys of listeners.
use nest_batch.Prelude.{
  String, ◌≡◌, refl, sym, ap, ◌∙◌, false, Option, none, some, [], ◌∷◌, ◌++◌, Has, here, there, ◌⊎◌,
  ◌===◌, arith, eq_iff, inl, inr, Bool-cases,
}
use mathlib.Core.List.{append_assoc, append-nil}
use nest_batch.Prelude.Table.{Table, get, set, set-eq-append, get-set_other, Has-set}
use nest_batch.Listeners.{set_some, rekey}

-- No key twice, as in every `Map`
abbrev pub Distinct {ℓ} : {A : Type ℓ} → Table A → Type ℓ
Distinct [] = Unit
Distinct ((key, v) ∷ m) = (get key m ≡ none) × Distinct m

-- No two keys are given one new key.
abbrev pub Injective : (String → Option String) → Type 0
Injective f = (k j i : String) → f k ≡ some i → f j ≡ some i → k ≡ j

module _ {ℓ} {A B : Type ℓ} (f : String → Option String) (g : A → B) where
  abbrev entry_list : Option String → A → Table B → Table B
  entry_list none v rest = rest
  entry_list (some key) v rest = (key, g v) ∷ rest

  -- The new entries in their order
  abbrev pub rekey_list : Table A → Table B
  rekey_list [] = []
  rekey_list ((key, v) ∷ m) = entry_list (f key) v (rekey_list m)

  pub rekey_list-some :
      (k i : String) (v : A) (m : Table A)
      → f k ≡ some i
      → rekey_list ((k, v) ∷ m) ≡ (i, g v) ∷ rekey_list m
  rekey_list-some k i v m q = ap (λ o. entry_list o v (rekey_list m)) q

  pub rekey_list-none_at :
      (k : String) (v : A) (m : Table A) → f k ≡ none → rekey_list ((k, v) ∷ m) ≡ rekey_list m
  rekey_list-none_at k v m q = ap (λ o. entry_list o v (rekey_list m)) q

  module _ (inj : Injective f) where
    rekey_list-none :
        (k i : String) (m : Table A) → f k ≡ some i → get k m ≡ none → get i (rekey_list m) ≡ none
    unfolding get
    rekey_list-none k i [] q h = refl
    rekey_list-none k i ((j, v) ∷ m) q h = elim (Bool-cases (j === k)) [
      | inl e ↦ let z = (rw e at h) in absurd cc
      | inr e ↦ by_key e (f j) refl (rekey_list-none k i m q (rw e at h))
    ]
      where
        by_key :
            (j === k) ≡ false
            → (o : Option String) → f j ≡ o
            → get i (rekey_list m) ≡ none
            → get i (entry_list o v (rekey_list m)) ≡ none
        by_key e' none p r = r
        by_key e' (some y) p r = elim (Bool-cases (y === i)) [
          | inl z ↦
              let w : y ≡ i = ground (arith, z, eq_iff y i) in
              let same : j ≡ k = inj j k i (p ∙ ap some w) q in
              absurd (ground (arith, same, e', eq_iff j k))
          | inr z ↦ rw z r
        ]

    pub rekey_list-Distinct : (m : Table A) → Distinct m → Distinct (rekey_list m)
    rekey_list-Distinct [] d = tt
    rekey_list-Distinct ((j, v) ∷ m) (fresh, d) = by_key (f j) refl (rekey_list-Distinct m d)
      where
        by_key :
            (o : Option String)
            → f j ≡ o
            → Distinct (rekey_list m)
            → Distinct (entry_list o v (rekey_list m))
        by_key none p r = r
        by_key (some y) p r = (rekey_list-none j y m p fresh, r)

    -- No key of `m` leads to a key that `out` has.
    abbrev Fresh : Table A → Table B → Type ℓ
    Fresh m out = (k i : String) (v : A) → get k m ≡ some v → f k ≡ some i → get i out ≡ none

    Fresh-later :
        (j : String) (v : A) (m : Table A) (out : Table B) → Fresh ((j, v) ∷ m) out → Fresh m out
    unfolding get
    Fresh-later j v m out fresh k i u h q = elim (Bool-cases (j === k)) [
      | inl e ↦ fresh k i v (rw e refl) q
      | inr e ↦ fresh k i u (rw e h) q
    ]

    Fresh-set :
        (j y : String) (v : A) (m : Table A) (out : Table B)
        → get j m ≡ none
        → f j ≡ some y
        → Fresh m out
        → Fresh m (set y (g v) out)
    Fresh-set j y v m out new q fresh k i u h p =
        get-set_other y i (g v) out (λ same.
          let z : j ≡ k = inj j k i (q ∙ ap some same) p in
          let w : get k m ≡ none = ap (λ x. get x m) (sym z) ∙ new in
          absurd (some_not_none (sym h ∙ w)))
        ∙ fresh k i u h p
      where
        some_not_none : some u ≡ none → ⊥
        some_not_none h = absurd cc

    rekey-append :
        (m : Table A) (out : Table B)
        → Distinct m
        → Fresh m out
        → rekey f g m out ≡ out ++ rekey_list m
    unfolding rekey set_some get
    rekey-append [] out d fresh = sym (append-nil out)
    rekey-append ((j, v) ∷ m) out (new, d) fresh =
        by_key (f j) refl (λ out' fresh'. rekey-append m out' d fresh')
      where
        by_key :
            (o : Option String)
            → f j ≡ o
            → ((out' : Table B) → Fresh m out' → rekey f g m out' ≡ out' ++ rekey_list m)
            → rekey f g m (set_some o (g v) out) ≡ out ++ entry_list o v (rekey_list m)
        by_key none q again = again out (Fresh-later j v m out fresh)
        by_key (some y) q again =
            let free : get y out ≡ none = fresh j y v (ground (arith, eq_iff j j)) q in
            again (set y (g v) out) (Fresh-set j y v m out new q (Fresh-later j v m out fresh))
            ∙ ap (λ (l : Table B). l ++ rekey_list m) (set-eq-append y (g v) out free)
            ∙ append_assoc out ((y, g v) ∷ []) (rekey_list m)

  pub rekey-eq-list : (m : Table A) → Injective f → Distinct m → rekey f g m [] ≡ rekey_list m
  unfolding get
  rekey-eq-list m inj d = rekey-append inj m [] d (λ k i v h q. refl)

-- Where an entry of a map with new keys comes from.
pub rekey-Has {ℓ} :
    {A B : Type ℓ} (f : String → Option String) (g : A → B) (m : Table A) (out : Table B)
    (i : String) (b : B)
    → Has (i, b) (rekey f g m out)
    → ((k : String) × (a : A) × Has (k, a) m × (b ≡ g a)) ⊎ Has (i, b) out
unfolding rekey set_some
rekey-Has f g [] out i b h = inr h
rekey-Has f g ((j, v) ∷ m) out i b h = elim (rekey-Has f g m (set_some (f j) (g v) out) i b h) [
  | inl (k, a, n, q) ↦ inl (k, a, there n, q)
  | inr n ↦ by_key (f j) n
]
  where
    by_key :
        (o : Option String)
        → Has (i, b) (set_some o (g v) out)
        → ((k : String) × (a : _) × Has (k, a) ((j, v) ∷ m) × (b ≡ g a)) ⊎ Has (i, b) out
    by_key none n = inr n
    by_key (some y) n = elim (Has-set i y b (g v) out n) [
      | inl (_, q) ↦ inl (j, v, here, q)
      | inr old ↦ inr old
    ]

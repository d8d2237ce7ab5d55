-- ===== src/Listeners/Dispatch.antt =====
-- Which failure of a listener ends a dispatch: `invokeMatching` of
-- packages/core/src/execution/listener-invoker.ts.
use nest_batch.Prelude.{
  String, ◌≡◌, refl, sym, ap, ◌∙◌, Bool, true, false, List, [], ◌∷◌, ◌++◌, Result, ok, err, inl,
  inr, Bool-cases,
}
use nest_batch.Prelude.Effects.{Exec, ◌>>◌}
use nest_batch.Errors.{BatchError}
use nest_batch.Listeners.{
  starts_with, ListenerEntry, ResolverMap, after_call, invoke_entry, invoke_matching,
}

module _ {V S : Type 0} (prefix : String) (args : List V) where
  -- The listener that ended a dispatch: its key has the prefix, it is critical, and it threw; those
  -- before it were called and left `middle`, those behind it were not called.
  pub record Stopped (resolvers : ResolverMap V S) (s : S) (e : BatchError) (t : S) : Type 0 where
    pub earlier : ResolverMap V S
    pub key : String
    pub entry : ListenerEntry V S
    pub later : ResolverMap V S
    pub split : resolvers ≡ earlier ++ (key, entry) ∷ later
    pub applies : starts_with key prefix ≡ true
    pub critical : entry.non_critical ≡ false
    pub middle : S
    pub passed : invoke_matching earlier prefix args s ≡ (ok tt, middle)
    pub threw : entry.fn args middle ≡ (err e, t)

  -- What one listener does
  data Outcome (entry : ListenerEntry V S) (s : S) : Type 0 where
    passes : (t : S) → invoke_entry entry args s ≡ (ok tt, t) → Outcome entry s
    stops :
        (e : BatchError) (t : S)
        → entry.non_critical ≡ false
        → entry.fn args s ≡ (err e, t)
        → invoke_entry entry args s ≡ (err e, t)
        → Outcome entry s

  outcome : (entry : ListenerEntry V S) (s : S) → Outcome entry s
  unfolding invoke_entry after_call
  outcome entry s = by_result (entry.fn args s).0 (entry.fn args s).1 entry.non_critical refl refl
    where
      by_result :
          (r : Result BatchError (Unit {0})) (t : S) (b : Bool)
          → entry.fn args s ≡ (r, t)
          → entry.non_critical ≡ b
          → Outcome entry s
      by_result (ok u) t b h q = passes t (rw (invoke_entry, h) refl)
      by_result (err e) t true h q = passes t (rw (invoke_entry, h, q) refl)
      by_result (err e) t false h q = stops e t q h (rw (invoke_entry, h, q) refl)

  -- Where the head is passed over or passes, the rest decides.
  abbrev Decides : ResolverMap V S → S → BatchError → S → Type 0
  Decides resolvers s e t = invoke_matching resolvers prefix args s ≡ (err e, t)

  passed_over :
      (key : String) (entry : ListenerEntry V S) (resolvers : ResolverMap V S) (s : S)
      → starts_with key prefix ≡ false
      → invoke_matching ((key, entry) ∷ resolvers) prefix args s
        ≡ invoke_matching resolvers prefix args s
  unfolding invoke_matching
  passed_over key entry resolvers s h = rw (invoke_matching, h) refl

  called :
      (key : String) (entry : ListenerEntry V S) (resolvers : ResolverMap V S) (s : S)
      → starts_with key prefix ≡ true
      → invoke_matching ((key, entry) ∷ resolvers) prefix args s
        ≡ (invoke_entry entry args >> invoke_matching resolvers prefix args) s
  unfolding invoke_matching
  called key entry resolvers s h = rw (invoke_matching, h) refl

  extend :
      (key : String) (entry : ListenerEntry V S) (resolvers : ResolverMap V S) (s s' : S)
      (e : BatchError) (t : S)
      → ((earlier : ResolverMap V S)
          → invoke_matching ((key, entry) ∷ earlier) prefix args s
            ≡ invoke_matching earlier prefix args s')
      → Stopped resolvers s' e t
      → Stopped ((key, entry) ∷ resolvers) s e t
  extend key entry resolvers s s' e t same st = record {
    earlier = (key, entry) ∷ st.earlier;
    key = st.key;
    entry = st.entry;
    later = st.later;
    split = ap (λ (l : ResolverMap V S). (key, entry) ∷ l) st.split;
    applies = st.applies;
    critical = st.critical;
    middle = st.middle;
    passed = same st.earlier ∙ st.passed;
    threw = st.threw;
  }

  passes_on :
      (entry : ListenerEntry V S) (rest : Exec BatchError S (Unit {0})) (s s' : S)
      → invoke_entry entry args s ≡ (ok tt, s')
      → (invoke_entry entry args >> rest) s ≡ rest s'
  passes_on entry rest s s' h = rw h refl

  breaks_off :
      (entry : ListenerEntry V S) (rest : Exec BatchError S (Unit {0})) (s t : S) (e : BatchError)
      → invoke_entry entry args s ≡ (err e, t)
      → (invoke_entry entry args >> rest) s ≡ (err e, t)
  breaks_off entry rest s t e h = rw h refl

  -- If a dispatch to listeners throws, there is a listener whose key has the prefix, which is
  -- critical and threw that error: the listeners before it were dispatched to without an error, it
  -- was called in the state that they left, and the state that it left is that of the dispatch.
  pub invoke_matching-Stopped :
      (resolvers : ResolverMap V S) (s : S) (e : BatchError) (t : S)
      → invoke_matching resolvers prefix args s ≡ (err e, t)
      → Stopped resolvers s e t
  unfolding invoke_matching
  invoke_matching-Stopped [] s e t h = absurd cc
  invoke_matching-Stopped ((key, entry) ∷ resolvers) s e t h =
      elim (Bool-cases (starts_with key prefix)) [
        | inr no_match ↦
            extend key entry resolvers s s e t (λ earlier. passed_over key entry earlier s no_match)
              (invoke_matching-Stopped resolvers s e t
                (sym (passed_over key entry resolvers s no_match) ∙ h))
        | inl match ↦ elim (outcome entry s) [
          | passes s' went ↦
              extend key entry resolvers s s' e t
                (λ earlier.
                  called key entry earlier s match
                  ∙ passes_on entry (invoke_matching earlier prefix args) s s' went)
                (invoke_matching-Stopped resolvers s' e t (
                  sym (
                    called key entry resolvers s match
                    ∙ passes_on entry (invoke_matching resolvers prefix args) s s' went)
                  ∙ h))
          | stops x u critical threw went ↦
              let q =
                sym (
                  called key entry resolvers s match
                  ∙ breaks_off entry (invoke_matching resolvers prefix args) s u x went)
                ∙ h in
              record {
                earlier = [];
                key = key;
                entry = entry;
                later = resolvers;
                split = refl;
                applies = match;
                critical = critical;
                middle = s;
                passed = refl;
                threw = threw ∙ q;
              }
        ]
      ]

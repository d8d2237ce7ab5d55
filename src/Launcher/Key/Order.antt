-- ===== src/Launcher/Key/Order.antt =====
-- The order of names in packages/core/src/execution/job-key.ts, and that the order in which members
-- are put does not matter.
use nest_batch.Prelude.{ℕ, ◌==◌, String, ◌≡◌, ◌≢◌, refl, true, false, [], ◌∷◌, arith}
use package.text.Mathlib.TextEquality.{Char-path}
use nest_batch.Prelude.Text.{Text, text}
use nest_batch.Launcher.Key.{
  Value, Members, end, member, char_before, above_surrogates, text_before, key_before, insert, put,
}

text_inj : (s t : String) → text s ≡ text t → s ≡ t
text_inj String.[] String.[] h = refl
text_inj String.[] (String.◌∷◌ d t) h = absurd cc
text_inj (String.◌∷◌ c s) String.[] h = absurd cc
text_inj (String.◌∷◌ c s) (String.◌∷◌ d t) h =
    let q : c ≡ d = Char-path c d cc in let r : s ≡ t = text_inj s t cc in cc

char_asym : (c d : ℕ) → char_before c d ≡ true → char_before d c ≡ false
unfolding char_before above_surrogates
char_asym c d h = ground arith

char_total : (c d : ℕ) → char_before c d ≡ false → char_before d c ≡ false → (c == d) ≡ true
unfolding char_before above_surrogates
char_total c d h k = ground arith

char_trans : (c d e : ℕ) → char_before c d ≡ true → char_before d e ≡ true → char_before c e ≡ true
unfolding char_before above_surrogates
char_trans c d e h k = ground arith

before_asym : (s t : Text) → text_before s t ≡ true → text_before t s ≡ false
unfolding text_before
before_asym [] [] h = cc
before_asym [] (d ∷ t) h = refl
before_asym (c ∷ s) [] h = cc
before_asym (c ∷ s) (d ∷ t) h = ground (arith, char_asym c d, before_asym s t)

before_total : (s t : Text) → text_before s t ≡ false → text_before t s ≡ false → s ≡ t
unfolding text_before
before_total [] [] h k = refl
before_total [] (d ∷ t) h k = cc
before_total (c ∷ s) [] h k = cc
before_total (c ∷ s) (d ∷ t) h k = ground (arith, char_total c d, before_total s t)

before_trans :
    (s t u : Text) → text_before s t ≡ true → text_before t u ≡ true → text_before s u ≡ true
unfolding text_before
before_trans [] [] u h k = cc
before_trans [] (d ∷ t) [] h k = cc
before_trans [] (d ∷ t) (e ∷ u) h k = refl
before_trans (c ∷ s) [] u h k = cc
before_trans (c ∷ s) (d ∷ t) [] h k = cc
before_trans (c ∷ s) (d ∷ t) (e ∷ u) h k = ground (arith, char_trans c d e, before_trans s t u)

-- Two names of which none stands before the other are one.
key_total : (k j : String) → key_before k j ≡ false → key_before j k ≡ false → k ≡ j
unfolding key_before
key_total k j h i = text_inj k j (before_total (text k) (text j) h i)

key_asym : (k j : String) → key_before k j ≡ true → key_before j k ≡ false
unfolding key_before
key_asym k j h = before_asym (text k) (text j) h

key_trans : (k j i : String) → key_before k j ≡ true → key_before j i ≡ true → key_before k i ≡ true
unfolding key_before
key_trans k j i h g = before_trans (text k) (text j) (text i) h g

insert-insert :
    (k j : String) (v w : Value) (ms : Members)
    → k ≢ j
    → insert k v (insert j w ms) ≡ insert j w (insert k v ms)
unfolding insert
insert-insert k j v w end differs =
    ground (arith, differs, key_asym k j, key_asym j k, key_total k j)
insert-insert k j v w (member i u ms) differs = ground (
  arith,
  differs,
  key_asym k j,
  key_asym j k,
  key_total k j,
  key_trans k j i,
  key_trans j k i,
  insert-insert k j v w ms differs,
)

-- Two members with different names can be put in any order.
pub put-put :
    (k j : String) (v w : Value) (ms : Members)
    → k ≢ j
    → put k v (put j w ms) ≡ put j w (put k v ms)
unfolding put
put-put k j v w ms differs = ground (arith, insert-insert k j v w ms differs)

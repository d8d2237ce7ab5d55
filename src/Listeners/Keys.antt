-- ===== src/Listeners/Keys.antt =====
-- The keys of packages/core/src/execution/listener-invoker.ts: a prefix, and what follows it.
use Prim.Native.Char.{code}
use Prim.Native.String.{◌++◌ as ◌<>◌}
use nest_batch.Prelude.{
  String, ◌≡◌, sym, ap, ◌∙◌, some, some_inj, ◌==◌, arith, inl, inr, Bool-cases,
}
use package.text.Mathlib.TextEquality.{Char-path}
use package.text.Mathlib.TextLemmas.{nil-append, cons-append}
use nest_batch.Listeners.{strip}

pub strip-append : (prefix rest : String) → strip prefix (prefix <> rest) ≡ some rest
unfolding strip
strip-append String.[] rest = ap some (nil-append rest)
strip-append (String.◌∷◌ d prefix) rest =
    ap (strip (String.◌∷◌ d prefix)) (cons-append d prefix rest)
    ∙ ground (arith, strip-append prefix rest)

pub strip_inv : (prefix key rest : String) → strip prefix key ≡ some rest → key ≡ prefix <> rest
unfolding strip
strip_inv String.[] key rest h = some_inj h ∙ sym (nil-append rest)
strip_inv (String.◌∷◌ d prefix) String.[] rest h = absurd cc
strip_inv (String.◌∷◌ d prefix) (String.◌∷◌ c key) rest h = elim (Bool-cases (code d == code c)) [
  | inl e ↦
      let q : d ≡ c = Char-path d c (ground (arith, e)) in
      let r : key ≡ prefix <> rest = strip_inv prefix key rest (rw e at h) in
      ap (λ x. String.◌∷◌ x key) (sym q) ∙ ap (String.◌∷◌ d) r ∙ sym (cons-append d prefix rest)
  | inr e ↦ let k = (rw e at h) in absurd cc
]

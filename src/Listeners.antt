-- ===== src/Listeners.antt =====
-- packages/core/src/execution/listener-invoker.ts: which listeners are called, with what, and what
-- happens when one of them throws. `V` are the values that listeners are called with, `S` is the
-- state that they act on.
pub mod Keys
pub mod Resolvers
pub mod Dispatch
pub mod Rekey
pub mod Critical
pub mod Legacy
mod Tests
use Prim.Native.Char.{code}
use Prim.Native.String.{◌++◌ as ◌<>◌}
use nest_batch.Prelude.{
  String, Bool, true, false, Option, none, some, List, [], ◌∷◌, Result, ok, err, ◌==◌,
  if◌then◌else◌,
}
use mathlib.Core.Option
use nest_batch.Prelude.Table.{Table, set}
use nest_batch.Prelude.Effects.{Exec, pure, throw, attempt, ◌>>=◌, ◌>>◌}
use nest_batch.Errors.{BatchError}

-- What follows `prefix` in `key`, if `key` starts with it: `startsWith`, and `slice` behind it.
unfoldable pub strip : (prefix key : String) → Option String
strip String.[] key = some key
strip (String.◌∷◌ d prefix) String.[] = none
strip (String.◌∷◌ d prefix) (String.◌∷◌ c key) =
    let rest = strip prefix key in if code d == code c then rest else none

unfoldable pub is_some {ℓ} : {A : Type ℓ} → Option A → Bool
is_some none = false
is_some (some a) = true

unfoldable pub starts_with : (key prefix : String) → Bool
unfolding strip is_some
starts_with key prefix = is_some (strip prefix key)

-- `LISTENER_PHASE`
pub data Phase : Type 0 where
  before after on_error on_skip : Phase

unfoldable pub phase_name : Phase → String
phase_name before = "before"
phase_name after = "after"
phase_name on_error = "on-error"
phase_name on_skip = "on-skip"

-- `LifecyclePhaseKind`, and the kinds of a skip
pub data Kind : Type 0 where
  job step chunk item_read item_process item_write read process write : Kind

unfoldable pub kind_name : Kind → String
kind_name job = "job"
kind_name step = "step"
kind_name chunk = "chunk"
kind_name item_read = "item-read"
kind_name item_process = "item-process"
kind_name item_write = "item-write"
kind_name read = "read"
kind_name process = "process"
kind_name write = "write"

-- `${phase}:${kind}:`
unfoldable pub prefix_of : Phase → Kind → String
unfolding phase_name kind_name
prefix_of phase kind = phase_name phase <> (":" <> (kind_name kind <> ":"))

-- `for (const [key, value] of m.entries())`, which sets the values in a new map, under new keys or
-- not at all.
unfoldable pub set_some {ℓ} : {B : Type ℓ} → Option String → B → Table B → Table B
set_some none v out = out
set_some (some key) v out = set key v out

unfoldable pub rekey {ℓ} :
    {A B : Type ℓ} → (String → Option String) → (A → B) → Table A → (out : Table B) → Table B
unfolding set_some
rekey f g [] out = out
rekey f g ((key, v) ∷ m) out = rekey f g m (set_some (f key) (g v) out)

-- The key of an entry of `convertLegacyResolvers`
unfoldable pub new_key : (legacy_prefix : String) → Phase → String → Option String
unfolding prefix_of strip
new_key legacy_prefix new_phase key =
    Option.map (λ name. prefix_of new_phase step <> name) (strip legacy_prefix key)

abbrev pub ListenerFn : Type 0 → Type 0 → Type 0
ListenerFn V S = List V → Exec BatchError S (Unit {0})

pub record ListenerEntry (V S : Type 0) : Type 0 where
  pub fn : ListenerFn V S
  pub non_critical : Bool

abbrev pub ResolverMap : Type 0 → Type 0 → Type 0
ResolverMap V S = Table (ListenerEntry V S)

unfoldable pub build_call_args : {V : Type 0} → Kind → V → Option V → List V
build_call_args kind ctx none = ctx ∷ []
build_call_args item_read ctx (some args) = args ∷ ctx ∷ []
build_call_args item_process ctx (some args) = args ∷ ctx ∷ []
build_call_args item_write ctx (some args) = args ∷ ctx ∷ []
build_call_args kind ctx (some args) = ctx ∷ args ∷ []

-- The `catch` block: the failure of a listener that is not critical is logged.
unfoldable pub after_call :
    {S : Type 0} → Bool → Result BatchError (Unit {0}) → Exec BatchError S (Unit {0})
after_call non_critical (ok u) = pure tt
after_call true (err e) = pure tt
after_call false (err e) = throw e

module _ {V S : Type 0} where
  unfoldable pub invoke_entry : ListenerEntry V S → List V → Exec BatchError S (Unit {0})
  unfolding after_call
  invoke_entry entry args = do
    outcome ← attempt (entry.fn args)
    after_call entry.non_critical outcome

  unfoldable pub invoke_matching : ResolverMap V S → String → List V → Exec BatchError S (Unit {0})
  unfolding invoke_entry starts_with
  invoke_matching [] prefix args = pure tt
  invoke_matching ((key, entry) ∷ resolvers) prefix args =
      let rest = invoke_matching resolvers prefix args in
      if starts_with key prefix then invoke_entry entry args >> rest else rest

  -- The listeners, by phase and kind
  module _ (resolvers : ResolverMap V S) where
    unfoldable pub invoke_before : Kind → V → Option V → Exec BatchError S (Unit {0})
    unfolding invoke_matching build_call_args prefix_of
    invoke_before kind ctx args =
        invoke_matching resolvers (prefix_of before kind) (build_call_args kind ctx args)

    unfoldable pub invoke_after : Kind → V → Option V → Exec BatchError S (Unit {0})
    unfolding invoke_matching build_call_args prefix_of
    invoke_after kind ctx args =
        invoke_matching resolvers (prefix_of after kind) (build_call_args kind ctx args)

    unfoldable pub invoke_on_error : Kind → (ctx error : V) → Exec BatchError S (Unit {0})
    unfolding invoke_matching prefix_of
    invoke_on_error kind ctx error =
        invoke_matching resolvers (prefix_of on_error kind) (ctx ∷ error ∷ [])

    unfoldable pub invoke_before_read : V → Exec BatchError S (Unit {0})
    unfolding invoke_matching prefix_of
    invoke_before_read ctx = invoke_matching resolvers (prefix_of before item_read) (ctx ∷ [])

    unfoldable pub invoke_after_read : (item ctx : V) → Exec BatchError S (Unit {0})
    unfolding invoke_matching prefix_of
    invoke_after_read item ctx =
        invoke_matching resolvers (prefix_of after item_read) (item ∷ ctx ∷ [])

    unfoldable pub invoke_on_read_error : (error ctx : V) → Exec BatchError S (Unit {0})
    unfolding invoke_matching prefix_of
    invoke_on_read_error error ctx =
        invoke_matching resolvers (prefix_of on_error item_read) (error ∷ ctx ∷ [])

    unfoldable pub invoke_before_process : (item ctx : V) → Exec BatchError S (Unit {0})
    unfolding invoke_matching prefix_of
    invoke_before_process item ctx =
        invoke_matching resolvers (prefix_of before item_process) (item ∷ ctx ∷ [])

    unfoldable pub invoke_after_process : (item result ctx : V) → Exec BatchError S (Unit {0})
    unfolding invoke_matching prefix_of
    invoke_after_process item result ctx =
        invoke_matching resolvers (prefix_of after item_process) (item ∷ result ∷ ctx ∷ [])

    unfoldable pub invoke_on_process_error : (item error ctx : V) → Exec BatchError S (Unit {0})
    unfolding invoke_matching prefix_of
    invoke_on_process_error item error ctx =
        invoke_matching resolvers (prefix_of on_error item_process) (item ∷ error ∷ ctx ∷ [])

    unfoldable pub invoke_before_write : (items ctx : V) → Exec BatchError S (Unit {0})
    unfolding invoke_matching prefix_of
    invoke_before_write items ctx =
        invoke_matching resolvers (prefix_of before item_write) (items ∷ ctx ∷ [])

    unfoldable pub invoke_after_write : (items result ctx : V) → Exec BatchError S (Unit {0})
    unfolding invoke_matching prefix_of
    invoke_after_write items result ctx =
        invoke_matching resolvers (prefix_of after item_write) (items ∷ result ∷ ctx ∷ [])

    unfoldable pub invoke_on_write_error : (items error ctx : V) → Exec BatchError S (Unit {0})
    unfolding invoke_matching prefix_of
    invoke_on_write_error items error ctx =
        invoke_matching resolvers (prefix_of on_error item_write) (items ∷ error ∷ ctx ∷ [])

    unfoldable pub invoke_on_skip_read : (error item : V) → Exec BatchError S (Unit {0})
    unfolding invoke_matching prefix_of
    invoke_on_skip_read error item =
        invoke_matching resolvers (prefix_of on_skip read) (error ∷ item ∷ [])

    unfoldable pub invoke_on_skip_process : (item error : V) → Exec BatchError S (Unit {0})
    unfolding invoke_matching prefix_of
    invoke_on_skip_process item error =
        invoke_matching resolvers (prefix_of on_skip process) (item ∷ error ∷ [])

    unfoldable pub invoke_on_skip_write : (items error : V) → Exec BatchError S (Unit {0})
    unfolding invoke_matching prefix_of
    invoke_on_skip_write items error =
        invoke_matching resolvers (prefix_of on_skip write) (items ∷ error ∷ [])

  -- `convertLegacyResolvers`
  unfoldable pub convert_legacy_resolvers :
      Table (ListenerFn V S) → (legacy_prefix : String) → Phase → ResolverMap V S
  unfolding rekey new_key
  convert_legacy_resolvers legacy legacy_prefix new_phase =
      rekey (new_key legacy_prefix new_phase) (λ fn. record { fn = fn; non_critical = false })
        legacy []

  unfoldable pub invoke_before_step : Table (ListenerFn V S) → V → Exec BatchError S (Unit {0})
  unfolding convert_legacy_resolvers invoke_before
  invoke_before_step resolvers ctx =
      invoke_before (convert_legacy_resolvers resolvers "before-step:" before) step ctx none

  unfoldable pub invoke_after_step :
      Table (ListenerFn V S) → (ctx result : V) → Exec BatchError S (Unit {0})
  unfolding convert_legacy_resolvers invoke_after
  invoke_after_step resolvers ctx result =
      invoke_after (convert_legacy_resolvers resolvers "after-step:" after) step ctx (some result)

  unfoldable pub invoke_on_error_step :
      Table (ListenerFn V S) → (ctx error : V) → Exec BatchError S (Unit {0})
  unfolding convert_legacy_resolvers invoke_on_error
  invoke_on_error_step resolvers ctx error =
      invoke_on_error (convert_legacy_resolvers resolvers "on-step-error:" on_error) step ctx error

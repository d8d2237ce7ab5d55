-- ===== src/Repository/Reading.antt =====
-- What is read back from the store of
-- packages/core/src/repository/in-memory/in-memory-job-repository.ts.
use Prim.Native.String.{◌++◌ as ◌<>◌}
use Prim.Native.Char.{code}
use text.Mathlib.TextLemmas.{append_cancel_left, cons-append}
use nest_batch.Prelude.{
  ℕ, ◌+◌, String, ◌≡◌, ◌≢◌, refl, sym, ap, ◌∙◌, subst, Bool, true, false, ◌&&◌, Option, none, some,
  List, [], ◌∷◌, ◌++◌, Result, ok_inj, ok, err, arith, ◌===◌, inl, inr, ◌⊎◌, Bool-cases, All,
}
use nest_batch.Prelude.Table.{get, values, get-set_same, get-set_other}
use nest_batch.Prelude.Effects.{continue}
use nest_batch.Errors.{BatchError}
use nest_batch.Context.{ExecutionContext, assert_json_serializable}
use nest_batch.Repository.{StepExecution, ExecutionScope, job_scope, step_scope}
use nest_batch.Repository.Contexts.{
  get_execution_context, save_execution_context, next_version, context_or_empty, put_context,
}
use nest_batch.Repository.State.{State, scope_key}
use nest_batch.Repository.Steps.{latest_of, find_latest_step_execution}

first_code : String → ℕ
first_code String.[] = 0
first_code (String.◌∷◌ c s) = code c

job_key-ne-step_key : (x y : String) → ("job::" <> x) ≢ ("step::" <> y)
unfolding first_code
job_key-ne-step_key x y h =
    let q : code "j" ≡ code "s" =
      ap first_code (sym (cons-append "j" "ob::" x) ∙ h ∙ cons-append "s" "tep::" y) in
    absurd (omega (arith, q))

scope_key_inj : (a b : ExecutionScope) → scope_key a ≡ scope_key b → a ≡ b
unfolding scope_key
scope_key_inj (job_scope x) (job_scope y) h = ap job_scope (append_cancel_left "job::" x y h)
scope_key_inj (job_scope x) (step_scope y) h = absurd (job_key-ne-step_key x y h)
scope_key_inj (step_scope x) (job_scope y) h = absurd (job_key-ne-step_key y x (sym h))
scope_key_inj (step_scope x) (step_scope y) h = ap step_scope (append_cancel_left "step::" x y h)

next_version-context_or_empty :
    (o : Option ExecutionContext) → next_version none o ≡ (context_or_empty o).version + 1
unfolding next_version context_or_empty
next_version-context_or_empty none = refl
next_version-context_or_empty (some ctx) = refl

-- Behind a save without a version of a content that passes the check, the scope reads the saved
-- content in the version that follows the one it read before.
pub get_execution_context-save_execution_context :
    (scope : ExecutionScope) (ctx before : ExecutionContext) (s : State)
    → assert_json_serializable 0 ctx.content ≡ ok tt
    → (get_execution_context scope s).0 ≡ ok before
    → (get_execution_context scope (save_execution_context scope ctx none s).1).0
      ≡ ok (record { content = ctx.content; version = before.version + 1 })
unfolding get_execution_context save_execution_context put_context context_or_empty
get_execution_context-save_execution_context scope ctx before s fits h =
    let o = get (scope_key scope) s.contexts in
    let q : context_or_empty o ≡ before = ok_inj h in
    let v : next_version none o ≡ before.version + 1 =
      next_version-context_or_empty o ∙ ap (λ (x : ExecutionContext). x.version + 1) q in
    rw fits (rw get-set_same (rw v refl))

put_context-other :
    (scope other : ExecutionScope) (ctx : ExecutionContext) (version : Option ℕ) (s : State)
    → other ≢ scope
    → get (scope_key other) (put_context scope ctx version s).1.contexts
      ≡ get (scope_key other) s.contexts
unfolding put_context
put_context-other scope other ctx version s differs =
    get-set_other (scope_key scope) (scope_key other) _ s.contexts
      (λ q. differs (scope_key_inj other scope (sym q)))

-- A save of the context of one scope, whether it throws or not, leaves what every other scope
-- reads.
pub save_execution_context-other :
    (scope other : ExecutionScope) (ctx : ExecutionContext) (version : Option ℕ) (s : State)
    → other ≢ scope
    → (get_execution_context other (save_execution_context scope ctx version s).1).0
      ≡ (get_execution_context other s).0
unfolding get_execution_context save_execution_context
save_execution_context-other scope other ctx version s differs =
    by_outcome (assert_json_serializable 0 ctx.content)
  where
    by_outcome :
        (r : Result BatchError (Unit {0}))
        → (get_execution_context other (continue r (λ _. put_context scope ctx version) s).1).0
          ≡ (get_execution_context other s).0
    by_outcome (ok u) =
        ap (λ o. ok (context_or_empty o)) (put_context-other scope other ctx version s differs)
    by_outcome (err e) = refl

module _ (job_execution_id step_name : String) where
  abbrev wanted : StepExecution → Bool
  wanted x = x.job_execution_id === job_execution_id && x.step_name === step_name

  -- `o` is the last of the wanted rows.
  abbrev pub Latest : List StepExecution → Option StepExecution → Type 0
  Latest xs none = All (λ x. wanted x ≡ false) xs
  Latest xs (some x) =
      (before after : List StepExecution) × (xs ≡ before ++ x ∷ after)
      × (wanted x ≡ true)
      × All (λ y. wanted y ≡ false) after

  -- What came before the rows counts where none of them is wanted.
  abbrev LatestFrom : List StepExecution → Option StepExecution → Option StepExecution → Type 0
  LatestFrom xs start none = (start ≡ none) × Latest xs none
  LatestFrom xs start (some x) = Latest xs (some x) ⊎ ((start ≡ some x) × Latest xs none)

  module _ (x : StepExecution) (xs : List StepExecution) where
    LatestFrom-cons : (y : StepExecution) → Latest xs (some y) → Latest (x ∷ xs) (some y)
    LatestFrom-cons y (before, after, split, fits, rest) =
        (x ∷ before, after, ap (λ l. x ∷ l) split, fits, rest)

    LatestFrom-wanted :
        (start o : Option StepExecution)
        → wanted x ≡ true
        → LatestFrom xs (some x) o
        → LatestFrom (x ∷ xs) start o
    LatestFrom-wanted start none w (q, rest) = absurd cc
    LatestFrom-wanted start (some y) w (inl later) = inl (LatestFrom-cons y later)
    LatestFrom-wanted start (some y) w (inr (q, rest)) =
        let e : x ≡ y = cc in
        inl ([], xs, ap (λ z. z ∷ xs) e, subst (λ z. wanted z ≡ true) e w, rest)

    LatestFrom-unwanted :
        (start o : Option StepExecution)
        → wanted x ≡ false
        → LatestFrom xs start o
        → LatestFrom (x ∷ xs) start o
    LatestFrom-unwanted start none w (q, rest) = (q, (w, rest))
    LatestFrom-unwanted start (some y) w (inl later) = inl (LatestFrom-cons y later)
    LatestFrom-unwanted start (some y) w (inr (q, rest)) = inr (q, (w, rest))

  latest_of-LatestFrom :
      (start : Option StepExecution) (xs : List StepExecution)
      → LatestFrom xs start (latest_of job_execution_id step_name start xs)
  unfolding latest_of
  latest_of-LatestFrom start [] = at_end start
    where
      at_end : (start : Option StepExecution) → LatestFrom [] start start
      at_end none = (refl, tt)
      at_end (some x) = inr (refl, tt)
  latest_of-LatestFrom start (x ∷ xs) = elim (Bool-cases (wanted x)) [
    | inl w ↦ rw w (LatestFrom-wanted x xs start _ w (latest_of-LatestFrom (some x) xs))
    | inr w ↦ rw w (LatestFrom-unwanted x xs start _ w (latest_of-LatestFrom start xs))
  ]

  from_nothing :
      (xs : List StepExecution) (o : Option StepExecution) → LatestFrom xs none o → Latest xs o
  from_nothing xs none (q, rest) = rest
  from_nothing xs (some x) (inl later) = later
  from_nothing xs (some x) (inr (q, rest)) = absurd cc

  -- `findLatestStepExecution` returns the last step execution of that name in the job execution,
  -- in the order in which they were created, and null only where there is none.
  pub find_latest_step_execution-Latest :
      (s : State)
      → (o : Option StepExecution) × ((find_latest_step_execution job_execution_id step_name s).0
          ≡ ok o)
        × Latest (values s.step_executions) o
  unfolding find_latest_step_execution
  find_latest_step_execution-Latest s =
      (_, refl, from_nothing _ _ (latest_of-LatestFrom none (values s.step_executions)))

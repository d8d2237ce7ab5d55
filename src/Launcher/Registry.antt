-- ===== src/Launcher/Registry.antt =====
-- packages/core/src/registry/job-registry.ts: the definitions by their ids.
use nest_batch.Prelude.{
  String, Bool, List, Option, none, some, ◌≡◌, refl, sym, ap, ok_inj, ◌∙◌, ok, err, if◌then◌else◌,
  Bool-cases, inl, inr,
}
use nest_batch.Prelude.Table.{Table, get, set, has, values, get-set_cases}
use nest_batch.Prelude.Effects.{Exec, lift, modify, ◌>>◌}
use nest_batch.Errors.{BatchError, job_not_found, duplicate_job_definition, Throws}
use nest_batch.Executor.Definitions.{JobDefinition}
use nest_batch.Validator.{validate}

-- `definitions`
abbrev pub Definitions : Type 0 → Type 0
Definitions W = Table (JobDefinition W)

module _ {W : Type 0} where
  unfoldable pub add_definition : JobDefinition W → Exec BatchError (Definitions W) (Unit {0})
  unfolding validate
  add_definition job = do lift (validate job); modify (set job.id job)

  unfoldable pub register : JobDefinition W → Exec BatchError (Definitions W) (Unit {0})
  unfolding add_definition
  register job definitions =
      if has job.id definitions
      then (err (duplicate_job_definition job.id), definitions)
      else add_definition job definitions

  unfoldable pub found_or_throw : String → Option (JobDefinition W) → Throws (JobDefinition W)
  found_or_throw job_id none = err (job_not_found job_id)
  found_or_throw job_id (some job) = ok job

  -- `get`
  unfoldable pub get_definition : String → Definitions W → Throws (JobDefinition W)
  unfolding found_or_throw
  get_definition job_id definitions = found_or_throw job_id (get job_id definitions)

  -- `has`
  unfoldable pub has_definition : String → Definitions W → Bool
  has_definition job_id definitions = has job_id definitions

  unfoldable pub get_all : Definitions W → List (JobDefinition W)
  get_all definitions = values definitions

  -- Every definition stands under its id, and the validator accepts it.
  abbrev pub Valid : Definitions W → Type 0
  Valid definitions =
      (job_id : String) (job : JobDefinition W)
      → get job_id definitions ≡ some job
      → (job.id ≡ job_id) × (validate job ≡ ok tt)

  add_definition-Valid :
      (job : JobDefinition W) (definitions : Definitions W)
      → Valid definitions
      → Valid (add_definition job definitions).1
  unfolding add_definition
  add_definition-Valid job definitions valid = by_check (validate job) refl
    where
      by_check :
          (r : Throws (Unit {0}))
          → validate job ≡ r
          → Valid ((lift r >> modify (set job.id job)) definitions).1
      by_check (ok u) e job_id found h =
          elim (get-set_cases job.id job_id job found definitions h) [
            | inl (at_id, is_job) ↦
                (ap (λ (j : JobDefinition W). j.id) is_job ∙ sym at_id, ap validate is_job ∙ e)
            | inr old ↦ valid job_id found old
          ]
      by_check (err x) e job_id found h = valid job_id found h

  -- Registering a job, whether it succeeds or throws, keeps the invariant that every definition
  -- stands under its own id and is one that the validator accepts.
  pub register-Valid :
      (job : JobDefinition W) (definitions : Definitions W)
      → Valid definitions
      → Valid (register job definitions).1
  unfolding register
  register-Valid job definitions valid = elim (Bool-cases (has job.id definitions)) [
    | inl e ↦ rw e valid
    | inr e ↦ rw e (add_definition-Valid job definitions valid)
  ]

  -- placeholder
  pub get_definition-Valid :
      (job_id : String) (definitions : Definitions W) (job : JobDefinition W)
      → Valid definitions
      → get_definition job_id definitions ≡ ok job
      → (job.id ≡ job_id) × (validate job ≡ ok tt)
  unfolding get_definition
  get_definition-Valid job_id definitions job valid h =
      valid job_id job (was_found (get job_id definitions) h)
    where
      was_found : (o : Option (JobDefinition W)) → found_or_throw job_id o ≡ ok job → o ≡ some job
      was_found none k = absurd cc
      was_found (some found) k = ap some (ok_inj k)

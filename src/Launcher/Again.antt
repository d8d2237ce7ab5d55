-- ===== src/Launcher/Again.antt =====
-- A second launch of a job whose first execution has not ended: launch of
-- packages/core/src/execution/job-launcher.ts with a strategy that only enqueues.
use nest_batch.Prelude.{
  ℕ, String, ◌≡◌, refl, sym, ap, ◌∙◌, subst, false, Option, some, Result, ok, err,
}
use nest_batch.Prelude.Effects.{pure, continue, bind_rule, ◌>>=◌}
use nest_batch.Errors.{BatchError, job_execution_already_running, Throws}
use nest_batch.Repository.{JobParameters, JobExecution}
use nest_batch.Repository.State.{State, instance_key}
use nest_batch.Repository.Store.{create_execution_atomic, get_job_execution}
use nest_batch.Repository.Running.{create_execution_atomic-Launched, Launched}
use nest_batch.Repository.Busy.{Busy, create_execution_atomic-refused, Launched-Busy}
use nest_batch.Executor.Definitions.{Env, Job, JobDefinition, in_repo}
use nest_batch.Executor.Flow.{date}
use nest_batch.Launcher.{Collaborators, or_else, job_key_of, dispatch, create, launch}
use nest_batch.Launcher.Key.{of_fields, canonical_job_key}
use nest_batch.Launcher.Key.Same.{SameMembers, canonical_job_key-Same}
use nest_batch.Launcher.Registry.{get_definition}

-- A strategy that leaves the repository alone, as one that only puts a message on a queue.
abbrev pub Enqueues :
    {W : Type 0} → (JobDefinition W → JobParameters → String → Job W (Unit {0})) → Type 0
Enqueues {W} start =
    (job : JobDefinition W) (params : JobParameters) (id : String) (env : Env W)
    → (start job params id env).1.repo ≡ env.repo

module _ {W : Type 0} (launcher : Collaborators W) (job : JobDefinition W) (job_id : String) where
  abbrev key_of : JobParameters → Option JobParameters → Throws String
  key_of params identifying =
      canonical_job_key launcher.digest (of_fields (or_else identifying params))

  launch-create :
      (fuel : ℕ) (params : JobParameters) (identifying : Option JobParameters) (canonical : String)
      (env : Env W)
      → get_definition job_id launcher.registry ≡ ok job
      → key_of params identifying ≡ ok canonical
      → launch launcher fuel job_id params identifying env
        ≡ (create launcher job job_id params canonical >>= λ e.
              dispatch launcher fuel e job params launcher.strategy)
            env
  unfolding launch
  launch-create fuel params identifying canonical env found keyed = rw (launch, found, keyed) refl

  module _ (canonical : String) (single : job.allow_duplicate_instances ≡ false)
      (params : JobParameters) (env : Env W) where
    abbrev created : Result BatchError JobExecution × State
    created =
        create_execution_atomic launcher.services.gen job_id canonical params
          (launcher.services.new_date env.world) env.repo

    create-created :
        create launcher job job_id params canonical env
        ≡ (created.0, record env { repo = created.1 })
    unfolding create job_key_of date in_repo
    create-created = rw (create, job_key_of, single) refl

  module _ (start : JobDefinition W → JobParameters → String → Job W (Unit {0}))
      (enqueues : Enqueues start) where
    dispatch-repo :
        (fuel : ℕ) (e : JobExecution) (params : JobParameters) (env : Env W)
        → (dispatch launcher fuel e job params (some start) env).1.repo ≡ env.repo
    unfolding dispatch in_repo get_job_execution
    dispatch-repo fuel e params env =
        bind_rule (λ r (t : Env W). t.repo ≡ env.repo) (start job params e.id)
          (λ _.
            in_repo (get_job_execution e.id) >>= λ latest. pure (some (some (or_else latest e))))
          env (λ _ _. enqueues job params e.id env) (λ _ _. enqueues job params e.id env)

    -- What a launch leaves behind, given what the creation of the execution did
    after_creation :
        (fuel : ℕ) (canonical : String) (params : JobParameters) (env : Env W) (t : State)
        (r : Result BatchError JobExecution) (x : Option (Option JobExecution))
        → Launched launcher.services.gen job_id canonical params
            (launcher.services.new_date env.world)
            env.repo
            r
            t
        → (continue r
            (λ e. dispatch launcher fuel e job params (some start))
            (record env { repo = t })).0
          ≡ ok x
        → Busy
            (instance_key job_id canonical)
            (continue r
              (λ e. dispatch launcher fuel e job params (some start))
              (record env { repo = t })).1.repo
    after_creation fuel canonical params env t (ok e) x launched h =
        subst (Busy (instance_key job_id canonical))
          (sym (dispatch-repo fuel e params (record env { repo = t })))
          (Launched-Busy launcher.services.gen job_id canonical params
            (launcher.services.new_date env.world) env.repo e t launched)
    after_creation fuel canonical params env t (err y) x launched h = absurd cc

    module _ (found : get_definition job_id launcher.registry ≡ ok job)
        (single : job.allow_duplicate_instances ≡ false)
        (here : launcher.strategy ≡ some start) where
      -- A launch as one computation
      launch-continue :
          (fuel : ℕ) (params : JobParameters) (identifying : Option JobParameters)
          (canonical : String) (env : Env W)
          → key_of params identifying ≡ ok canonical
          → launch launcher fuel job_id params identifying env
            ≡ continue
                (created canonical single params env).0
                (λ e. dispatch launcher fuel e job params (some start))
                (record env { repo = (created canonical single params env).1 })
      launch-continue fuel params identifying canonical env keyed =
          launch-create fuel params identifying canonical env found keyed
          ∙ rw (create-created canonical single params env, here) refl

      launch-Busy :
          (fuel : ℕ) (params : JobParameters) (identifying : Option JobParameters)
          (canonical : String) (env : Env W) (x : Option (Option JobExecution))
          → key_of params identifying ≡ ok canonical
          → (launch launcher fuel job_id params identifying env).0 ≡ ok x
          → Busy
              (instance_key job_id canonical)
              (launch launcher fuel job_id params identifying env).1.repo
      launch-Busy fuel params identifying canonical env x keyed h =
          let c = created canonical single params env in
          let q = launch-continue fuel params identifying canonical env keyed in
          subst
            (λ (o : Result BatchError (Option (Option JobExecution)) × Env W).
              Busy (instance_key job_id canonical) o.1.repo)
            (sym q)
            (after_creation fuel canonical params env c.1 c.0 x
              (create_execution_atomic-Launched launcher.services.gen job_id canonical params
                (launcher.services.new_date env.world) env.repo)
              (ap (λ (o : Result BatchError (Option (Option JobExecution)) × Env W). o.0) (sym q)
                ∙ h))

      launch-refused :
          (fuel : ℕ) (params : JobParameters) (identifying : Option JobParameters)
          (canonical : String) (env : Env W)
          → key_of params identifying ≡ ok canonical
          → Busy (instance_key job_id canonical) env.repo
          → (id : String) × ((launch launcher fuel job_id params identifying env).0
              ≡ err (job_execution_already_running id))
      launch-refused fuel params identifying canonical env keyed busy =
          let (id, refused) =
            create_execution_atomic-refused launcher.services.gen job_id canonical params
              (launcher.services.new_date env.world) env.repo busy in
          (id, rw (launch-continue fuel params identifying canonical env keyed, refused) refl)

      key-cases :
          (fuel : ℕ) (params : JobParameters) (identifying : Option JobParameters) (env : Env W)
          (x : Option (Option JobExecution))
          → (launch launcher fuel job_id params identifying env).0 ≡ ok x
          → (canonical : String) × (key_of params identifying ≡ ok canonical)
      unfolding launch
      key-cases fuel params identifying env x h = by_key (key_of params identifying) refl
        where
          by_key :
              (r : Throws String)
              → key_of params identifying ≡ r
              → (canonical : String) × (key_of params identifying ≡ ok canonical)
          by_key (ok canonical) q = (canonical, q)
          by_key (err y) q =
              let k : (launch launcher fuel job_id params identifying env).0 ≡ err y =
                rw (launch, found, q) refl in
              absurd cc

      -- With a strategy that leaves the repository alone and a job without duplicate instances:
      -- after a launch that succeeded, a launch with parameters that differ in the order of
      -- members or in null members alone throws that an execution is already running.
      pub launch_again-refused :
          (fuel n : ℕ) (params others : JobParameters)
          (identifying identifying' : Option JobParameters) (env : Env W)
          (x : Option (Option JobExecution))
          → (launch launcher fuel job_id params identifying env).0 ≡ ok x
          → SameMembers
              (of_fields (or_else identifying' others))
              (of_fields (or_else identifying params))
          → (id : String) × ((launch launcher n job_id others identifying'
                (launch launcher fuel job_id params identifying env).1).0
              ≡ err (job_execution_already_running id))
      launch_again-refused fuel n params others identifying identifying' env x h same =
          let (canonical, keyed) = key-cases fuel params identifying env x h in
          let keyed' = canonical_job_key-Same launcher.digest _ _ same ∙ keyed in
          launch-refused n others identifying' canonical
            (launch launcher fuel job_id params identifying env).1 keyed'
            (launch-Busy fuel params identifying canonical env x keyed h)

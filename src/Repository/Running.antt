-- ===== src/Repository/Running.antt =====
-- No job instance runs twice: the check of `createExecutionAtomic` in
-- packages/core/src/repository/in-memory/in-memory-job-repository.ts.
use nest_batch.Prelude.{
  ℕ, ◌+◌, String, ◌≡◌, refl, sym, ap, ◌∙◌, subst, true, false, Option, none, some, List, [], ◌∷◌,
  Result, ok_inj, ok, err, arith, eq_iff, inl, inr, Bool-cases, Has, here, there,
}
use nest_batch.Prelude.Table.{Table, get, set, values, get-set_cases, get-set_same}
use nest_batch.Prelude.Effects.{Ensures, bind_rule}
use nest_batch.Errors.{BatchError, job_execution_already_running, message}
use nest_batch.Prelude.Text.{text}
use nest_batch.Status.{JobStatus}
use nest_batch.Repository.{JobParameters, JobInstance, JobExecution}
use nest_batch.Repository.State.{State, Repo, take_id, instance_key}
use nest_batch.Repository.Store.{
  runs_for, find_running, add_instance, instance_or_new, get_or_create_job_instance,
  create_job_execution, fresh_execution, launch_on, get_running_job_execution,
  create_execution_atomic,
}

-- Execution `id` of the table runs for the instance.
abbrev pub RunsAt : Table JobExecution → String → String → Type 0
RunsAt m instance_id id = (e : JobExecution) × (get id m ≡ some e) × (runs_for instance_id e ≡ true)

-- No instance has two running executions.
abbrev pub OneRunning : Table JobExecution → Type 0
OneRunning m = (instance_id i j : String) → RunsAt m instance_id i → RunsAt m instance_id j → i ≡ j

pub find_running-none :
    (instance_id : String) (m : Table JobExecution)
    → find_running instance_id (values m) ≡ none
    → (id : String) (e : JobExecution) → get id m ≡ some e
    → runs_for instance_id e ≡ false
unfolding find_running get
find_running-none instance_id [] h id e q = cc
find_running-none instance_id ((j, f) ∷ m) h id e q =
    ground (arith, find_running-none instance_id m _ id e)

find_running-some :
    (instance_id : String) (es : List JobExecution) (e : JobExecution)
    → find_running instance_id es ≡ some e
    → Has e es × (runs_for instance_id e ≡ true)
unfolding find_running
find_running-some instance_id [] e h = cc
find_running-some instance_id (f ∷ es) e h = elim (Bool-cases (runs_for instance_id f)) [
  | inl r ↦ ground (arith, r, found)
  | inr r ↦ let (m, q) = find_running-some instance_id es e (ground (arith, h, r)) in (there m, q)
]
  where
    found : runs_for instance_id f ≡ true → Has e (f ∷ es) × (runs_for instance_id e ≡ true)
    found r =
        let q : f ≡ e = ground (arith, h, r) in
        subst (λ x. Has x (f ∷ es) × (runs_for instance_id x ≡ true)) q (here, r)

runs_for-instance : (i : String) (e : JobExecution) → runs_for i e ≡ true → e.job_instance_id ≡ i
unfolding runs_for
runs_for-instance i e r = ground (arith, eq_iff e.job_instance_id i)

module _ (gen : ℕ → String) where
  instance_or_new-executions :
      (name job_key : String) (now : ℕ) (o : Option JobInstance) (s : State)
      → (instance_or_new gen name job_key now o s).1.executions ≡ s.executions
  unfolding instance_or_new add_instance take_id
  instance_or_new-executions name job_key now (some inst) s = refl
  instance_or_new-executions name job_key now none s = refl

  -- A new execution for an instance that has none running.
  set-OneRunning :
      (m : Table JobExecution) (id : String) (new : JobExecution)
      → OneRunning m
      → ((j : String) → ¬ (RunsAt m new.job_instance_id j))
      → OneRunning (set id new m)
  set-OneRunning m id new one idle k i j (e, get_e, run_e) (f, get_f, run_f) =
      elim (get-set_cases id i new e m get_e) [
        | inl (at_id, is_new) ↦ elim (get-set_cases id j new f m get_f) [
          | inl (at_id', _) ↦ at_id ∙ sym at_id'
          | inr old ↦ absurd (clash e f j is_new run_e old run_f)
        ]
        | inr old ↦ elim (get-set_cases id j new f m get_f) [
          | inl (_, is_new) ↦ absurd (clash f e i is_new run_f old run_e)
          | inr old' ↦ one k i j (e, old, run_e) (f, old', run_f)
        ]
      ]
    where
      clash :
          (e f : JobExecution) (j : String)
          → e ≡ new
          → runs_for k e ≡ true
          → get j m ≡ some f
          → runs_for k f ≡ true
          → ⊥
      clash e f j is_new run_e old run_f =
          let q : k ≡ new.job_instance_id =
            sym (runs_for-instance k e run_e) ∙ ap (λ x. x.job_instance_id) is_new in
          idle j (f, old, subst (λ x. runs_for x f ≡ true) q run_f)

  module _ (name job_key : String) (params : JobParameters) (now : ℕ) (s : State) where
    abbrev key : String
    key = instance_key name job_key

    -- What `createExecutionAtomic` leaves in `t`, by its outcome. It returns a new execution, in state
    -- STARTING, of the instance that the key leads to, which had none running. Or it throws that a
    -- running execution of that instance exists, and adds no execution.
    abbrev pub Launched : Result BatchError JobExecution → State → Type 0
    Launched (ok e) t =
        (inst : JobInstance) × (get key t.instances_by_key ≡ some inst)
        × (n : ℕ) × (t.next_id ≡ n + 1)
        × (e ≡ record {
          id = gen n;
          job_instance_id = inst.id;
          status = JobStatus.starting;
          start_time = none;
          end_time = none;
          exit_code = text "";
          exit_message = message "";
          params = params;
        })
        × (t.executions ≡ set e.id e s.executions)
        × ((id : String) → ¬ (RunsAt s.executions inst.id id))
    Launched (err x) t =
        (inst : JobInstance) × (get key t.instances_by_key ≡ some inst)
        × (e : JobExecution) × (x ≡ job_execution_already_running e.id)
        × Has e (values s.executions)
        × (runs_for inst.id e ≡ true)
        × (t.executions ≡ s.executions)

    instance_or_new-registers :
        (o : Option JobInstance)
        → get key s.instances_by_key ≡ o
        → (inst : JobInstance) × ((instance_or_new gen name job_key now o s).0 ≡ ok inst)
          × (get key (instance_or_new gen name job_key now o s).1.instances_by_key ≡ some inst)
    unfolding instance_or_new add_instance take_id
    instance_or_new-registers (some inst) h = (inst, refl, h)
    instance_or_new-registers none h = (_, refl, get-set_same key _ s.instances_by_key)

    launch_on-Launched :
        (inst : JobInstance) (o : Option JobExecution) (t : State)
        → t.executions ≡ s.executions
        → get key t.instances_by_key ≡ some inst
        → find_running inst.id (values s.executions) ≡ o
        → Ensures Launched (launch_on gen params inst o) t
    unfolding launch_on create_job_execution take_id
    launch_on-Launched inst none t same reg idle =
        let new : JobExecution = fresh_execution gen (gen t.next_id) inst.id params in
        let none_runs : (id : String) → ¬ (RunsAt s.executions inst.id id) = (λ id (e, q, r).
          let stopped = find_running-none inst.id s.executions idle id e q in absurd cc) in
        (inst, reg, t.next_id, refl, refl, ap (set new.id new) same, none_runs)
    launch_on-Launched inst (some e) t same reg busy =
        let (m, r) = find_running-some inst.id _ e busy in (inst, reg, e, refl, m, r, same)

    -- `createExecutionAtomic` either returns a new execution in state STARTING of the instance
    -- that the key leads to, which had no running execution, and stores it; or it throws that a
    -- running execution of that instance exists, and adds none.
    pub create_execution_atomic-Launched :
        Launched
          (create_execution_atomic gen name job_key params now s).0
          (create_execution_atomic gen name job_key params now s).1
    unfolding create_execution_atomic get_or_create_job_instance get_running_job_execution
    create_execution_atomic-Launched =
        let o = get key s.instances_by_key in
        let m : Repo JobInstance = instance_or_new gen name job_key now o in
        let t : State = (m s).1 in
        let same = instance_or_new-executions name job_key now o s in
        let (inst, is_ok, reg) = instance_or_new-registers o refl in
        bind_rule Launched m _ s
          (λ a e.
            let q : inst ≡ a = ok_inj (sym is_ok ∙ e) in
            launch_on-Launched a (find_running a.id (values t.executions)) t same
              (subst (λ x. get key t.instances_by_key ≡ some x) q reg)
              (ap (λ x. find_running a.id (values x)) (sym same)))
          (λ x e. absurd cc)

    Launched-OneRunning :
        (r : Result BatchError JobExecution) (t : State)
        → OneRunning s.executions
        → Launched r t
        → OneRunning t.executions
    Launched-OneRunning (ok e) t one (inst, reg, n, next, is_new, stored, idle) =
        let q : inst.id ≡ e.job_instance_id = sym (ap (λ x. x.job_instance_id) is_new) in
        subst OneRunning (sym stored) (
          set-OneRunning s.executions e.id e one
            (λ j at. idle j (subst (λ x. RunsAt s.executions x j) (sym q) at)))
    Launched-OneRunning (err x) t one (inst, reg, e, _, _, _, same) =
        subst OneRunning (sym same) one

    -- Launching through `createExecutionAtomic` keeps the invariant that no job instance has two
    -- executions that are STARTING or STARTED, whether the launch succeeds or throws.
    pub create_execution_atomic-OneRunning :
        OneRunning s.executions
        → OneRunning (create_execution_atomic gen name job_key params now s).1.executions
    create_execution_atomic-OneRunning one =
        Launched-OneRunning _ _ one create_execution_atomic-Launched

-- ===== src/Launcher/Tests.antt =====
-- A launcher whose strategy enqueues, a registry of one job, and the theorems about them.
use nest_batch.Prelude.{String, ◌≡◌, ◌≢◌, refl, false, some, none, [], ◌∷◌, ok, err, arith, eq_iff}
use nest_batch.Prelude.Text.{text}
use nest_batch.Prelude.Table.{get, set}
use nest_batch.Prelude.Effects.{pure}
use nest_batch.Errors.{message, job_execution_already_running}
use nest_batch.Status.{StepStatus}
use nest_batch.Context.{Fields, field, string as json_string}
use nest_batch.Repository.{JobParameters}
use nest_batch.Repository.Store.{find_running}
use nest_batch.Executor.Definitions.{tasklet, Env, StepResult, JobDefinition, Services}
use nest_batch.Launcher.{Collaborators, launch, or_else}
use nest_batch.Launcher.Again.{launch_again-refused}
use nest_batch.Launcher.Key.{Value, canonicalize, canonical_job_key, of_fields}
use nest_batch.Launcher.Key.Same.{SameMembers, swapped, canonical_job_key-Same}
use nest_batch.Launcher.Registry.{Definitions, register, get_definition, Valid, register-Valid}

abbrev World : Type 0
World = Unit {0}

abbrev result : StepResult
result = record {
  status = StepStatus.completed;
  exit_code = text "COMPLETED";
  exit_message = message "";
  read_count = 0;
  write_count = 0;
  skip_count = 0;
  commit_count = none;
}

abbrev services : Services World
services = record {
  gen = λ _. "row";
  new_date = λ _. 5;
  on_event = λ _. pure tt;
  before_job = λ _. pure tt;
  after_job = λ _ _. pure tt;
  run_tasklet = λ _ _ _. pure result;
  run_chunk = λ _ _ _ _ _. pure result;
}

abbrev job : JobDefinition World
job = record {
  id = "import";
  steps = ("load", tasklet "load") ∷ [];
  start_step_id = "load";
  transitions = [];
  deciders = [];
  restartable = false;
  allow_duplicate_instances = false;
}

abbrev registry : Definitions World
registry = ("import", job) ∷ []

abbrev launcher : Collaborators World
launcher = record {
  services = services;
  registry = registry;
  digest = λ _. "key";
  random_uuid = pure "uuid";
  strategy = some (λ _ _ _. pure tt);
}

abbrev env : Env World
env = record {
  repo = record {
    instances = [];
    instances_by_key = [];
    executions = [];
    step_executions = [];
    contexts = [];
    next_id = 0;
  };
  world = tt;
}

abbrev params : JobParameters
params = field "day" (json_string "monday") (field "region" (json_string "north") Fields.end)

abbrev reordered : JobParameters
reordered = field "region" (json_string "north") (field "day" (json_string "monday") Fields.end)

day_not_region : ◌≢◌ {A = String} "region" "day"
day_not_region = ground (arith, eq_iff "region" "day")

same : SameMembers (of_fields reordered) (of_fields params)
unfolding of_fields
same = swapped "region" "day" (Value.string "north") (Value.string "monday") day_not_region

canonical_job_key-Same_example :
    canonical_job_key launcher.digest (of_fields reordered)
    ≡ canonical_job_key launcher.digest (of_fields params)
canonical_job_key-Same_example =
    canonical_job_key-Same launcher.digest (of_fields reordered) (of_fields params) same

launched :
    (launch launcher 9 "import" params none env).0
    ≡ ok (some (get "row" (launch launcher 9 "import" params none env).1.repo.executions))
unfolding launch get canonicalize of_fields find_running set
launched = refl

launch_again-refused_example :
    (id : String) × ((launch launcher 9 "import" reordered none
        (launch launcher 9 "import" params none env).1).0
      ≡ err (job_execution_already_running id))
unfolding get_definition get or_else
launch_again-refused_example =
    launch_again-refused launcher job "import" (λ _ _ _. pure tt) (λ _ _ _ _. refl) refl refl refl 9
      9 params reordered none none env _ launched same

empty_Valid : Valid {W = World} []
unfolding get
empty_Valid job_id found h = absurd cc

register-Valid_example : Valid (register job []).1
register-Valid_example = register-Valid job [] empty_Valid

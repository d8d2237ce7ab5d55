-- ===== src/Schedule/Registry.antt =====
-- packages/core/src/module/batch-schedule-registry.ts: the schedules by job and name.
use Prim.Native.String.{◌++◌ as ◌<>◌}
use nest_batch.Prelude.{
  ℕ, String, Bool, false, Option, some, List, [], length, ◌≡◌, ok, err, if◌then◌else◌,
}
use nest_batch.Prelude.Table.{Table, get, set, has, values, get-set_same}
use nest_batch.Prelude.Effects.{Exec}
use nest_batch.Errors.{BatchError, plain_error}
use nest_batch.Schedule.{BatchOverlapPolicy}

pub record BatchScheduleEntry : Type 0 where
  pub job_id : String
  pub schedule_name : String
  pub method_name : String
  pub cron : String
  pub timezone : String
  pub overlap : Option BatchOverlapPolicy
  pub start_at : Option ℕ
  pub end_at : Option ℕ
  pub inert : Bool

abbrev pub Entries : Type 0
Entries = Table BatchScheduleEntry

unfoldable pub registry_key : (job_id schedule_name : String) → String
registry_key job_id schedule_name = job_id <> ("\0" <> schedule_name)

unfoldable pub size : Entries → ℕ
size entries = length entries

-- `register`
unfoldable pub register_entry : BatchScheduleEntry → Exec BatchError Entries (Unit {0})
unfolding registry_key
register_entry entry entries =
    let key = registry_key entry.job_id entry.schedule_name in
    if has key entries
    then (err (plain_error "Duplicate @BatchScheduled entry"), entries)
    else (ok tt, set key entry entries)

-- `get`
unfoldable pub get_entry : (job_id schedule_name : String) → Entries → Option BatchScheduleEntry
unfolding registry_key
get_entry job_id schedule_name entries = get (registry_key job_id schedule_name) entries

-- `has`
unfoldable pub has_entry : (job_id schedule_name : String) → Entries → Bool
unfolding registry_key
has_entry job_id schedule_name entries = has (registry_key job_id schedule_name) entries

unfoldable pub get_all : Entries → List BatchScheduleEntry
get_all entries = values entries

unfoldable pub clear : Entries → Entries
clear entries = []

-- An entry that was registered for a job and a name without another one is the one that they find.
pub get_entry-register_entry :
    (entry : BatchScheduleEntry) (entries : Entries)
    → has_entry entry.job_id entry.schedule_name entries ≡ false
    → get_entry entry.job_id entry.schedule_name (register_entry entry entries).1 ≡ some entry
unfolding has_entry get_entry register_entry
get_entry-register_entry entry entries fresh =
    rw fresh (get-set_same (registry_key entry.job_id entry.schedule_name) entry entries)

-- ===== src/Schedule/Tests.antt =====
-- Runs of packages/core/src/execution/in-process-schedule.ts.
use nest_batch.Prelude.{true, false, none, some, [], ◌∷◌, ◌≡◌, refl}
use nest_batch.Schedule.{queue, ScheduleState, bootstrapped, tick, finished}
use nest_batch.Prelude.Text.{text}
use nest_batch.Schedule.Registry.{registry_key}

-- Two ticks during a launch become one launch behind it, with the time of the first.
coalesced :
    finished
      (some queue)
      40
      (tick (some queue) 30 (tick (some queue) 20 (tick (some queue) 10 bootstrapped)))
    ≡ record {
      stopped = false;
      running_count = 1;
      queued = false;
      queued_at = none;
      launched = 20 ∷ 10 ∷ [];
    }
unfolding finished tick bootstrapped
coalesced = refl

abbrev waiting : ScheduleState
waiting = record {
  stopped = false;
  running_count = 1;
  queued = true;
  queued_at = some 20;
  launched = 10 ∷ [];
}

nul : text (registry_key "a" "b") ≡ 97 ∷ 0 ∷ 98 ∷ []
unfolding registry_key
nul = refl

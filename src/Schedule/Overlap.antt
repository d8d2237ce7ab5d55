-- ===== src/Schedule/Overlap.antt =====
-- Which launches of packages/core/src/execution/in-process-schedule.ts run at the same time.
use nest_batch.Prelude.{◌<◌, ◌≤◌, ◌≡◌, Bool, true, false, Option, none}
use nest_batch.Schedule.{BatchOverlapPolicy, parallel, ScheduleState, or_skip}

unfoldable pub is_parallel : BatchOverlapPolicy → Bool
is_parallel parallel = true
is_parallel _ = false

-- One launch at most runs at a time unless the policy is parallel, a queued tick has a launch before
-- it whose end runs it, and its time is kept exactly as long as it waits.
pub record Exclusive (overlap : Option BatchOverlapPolicy) (s : ScheduleState) : Type 0 where
  pub one_runs : is_parallel (or_skip overlap) ≡ false → s.running_count ≤ 1
  pub awaited : s.queued ≡ true → s.stopped ≡ false → 0 < s.running_count
  pub timed : s.queued ≡ false → s.queued_at ≡ none

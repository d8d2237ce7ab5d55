-- ===== src/Schedule.antt =====
-- packages/core/src/execution/in-process-schedule.ts: the ticks of one schedule, and the launches that
-- they make.
pub mod Overlap
pub mod Registry
mod Tests
use nest_batch.Prelude.{
  ℕ, ◌+◌, ◌-◌, ◌<◌, Bool, true, false, ◌&&◌, Option, none, some, List, [], ◌∷◌, ltb, ◌==◌,
  if◌then◌else◌,
}

pub data BatchOverlapPolicy : Type 0 where
  skip queue parallel : BatchOverlapPolicy

-- `ScheduleState`, with `stopped`, and the times of the launches, the newest first.
pub record ScheduleState : Type 0 where
  pub stopped : Bool
  pub running_count : ℕ
  pub queued : Bool
  pub queued_at : Option ℕ
  pub launched : List ℕ

unfoldable pub bootstrapped : ScheduleState
bootstrapped = record {
  stopped = false;
  running_count = 0;
  queued = false;
  queued_at = none;
  launched = [];
}

-- `entry.overlap ?? 'skip'`
unfoldable pub or_skip : Option BatchOverlapPolicy → BatchOverlapPolicy
or_skip none = skip
or_skip (some overlap) = overlap

unfoldable pub start : ℕ → ScheduleState → ScheduleState
start scheduled_at s = record s {
  running_count = s.running_count + 1;
  launched = scheduled_at ∷ s.launched;
}

-- `a ??= b`
unfoldable pub or_else : Option ℕ → ℕ → ℕ
or_else none b = b
or_else (some a) b = a

unfoldable pub while_running : BatchOverlapPolicy → ℕ → ScheduleState → ScheduleState
unfolding or_else start
while_running skip scheduled_at s = s
while_running queue scheduled_at s = record s {
  queued = true;
  queued_at = some (or_else s.queued_at scheduled_at);
}
while_running parallel scheduled_at s = start scheduled_at s

module _ (overlap : Option BatchOverlapPolicy) where
  unfoldable pub dispatch : ℕ → ScheduleState → ScheduleState
  unfolding or_skip while_running start
  dispatch scheduled_at s =
      if s.stopped
      then s
      else if ltb 0 s.running_count
      then while_running (or_skip overlap) scheduled_at s
      else start scheduled_at s

  -- `onTick`
  unfoldable pub tick : ℕ → ScheduleState → ScheduleState
  unfolding dispatch
  tick scheduled_at s = if s.stopped then s else dispatch scheduled_at s

  -- The queued tick, where there is one and nothing runs
  unfoldable pub run_queued : ℕ → ScheduleState → ScheduleState
  unfolding dispatch or_else
  run_queued now s =
      if s.running_count == 0 && s.queued
      then dispatch (or_else s.queued_at now) (record s { queued = false; queued_at = none })
      else s

  -- The callback of `finally`, behind a launch that ended, however it did
  unfoldable pub finished : ℕ → ScheduleState → ScheduleState
  unfolding run_queued
  finished now s =
      let less : ScheduleState = record s { running_count = s.running_count - 1 } in
      if s.stopped then less else run_queued now less

  unfoldable pub shutdown : ScheduleState → ScheduleState
  shutdown s = record s { stopped = true }

  pub data Step (s : ScheduleState) : ScheduleState → Type 0 where
    ticks : (scheduled_at : ℕ) → Step s (tick scheduled_at s)
    finishes : (now : ℕ) → 0 < s.running_count → Step s (finished now s)
    shuts_down : Step s (shutdown s)

  -- The states that any order of ticks, ends of launches and shutdowns leads to
  pub data Reachable : ScheduleState → Type 0 where
    begin : Reachable bootstrapped
    after : {s t : ScheduleState} → Reachable s → Step s t → Reachable t

-- ===== src/Executor.antt =====
-- packages/core/src/execution/job-executor.ts: the flow of one job execution over its steps.
pub mod Definitions
pub mod Routing
pub mod Patches
pub mod Flow
pub mod Frames
pub mod Rows
pub mod Settled
pub mod Resume
pub mod Progress
mod Tests
mod ResumeTests

-- ===== src/Chunk.antt =====
-- packages/core/src/execution/chunk-step-executor.ts: the read, process and write loop of a chunk
-- step. The reader, the writer, the listeners and the repository are parameters that act on a
-- world `W` and may throw.
pub mod Handlers
pub mod Decision
pub mod Phase
pub mod Loop
pub mod Plan
pub mod Step
pub mod Budget
mod Frames
pub mod Bounds
pub mod Shrinking
pub mod Attempts
pub mod Measure
mod Consumption
pub mod Termination
mod Tests

-- ===== src/Builder/Fluent.antt =====
-- Jobs that are put together by the builders of packages/core/src/builder alone: what the compiler
-- can still find wrong with them.
pub mod Steps
pub mod Jobs
pub mod Compiled

-- ===== src/Executor.antt =====
-- internal/executor: how the actions of a plan are carried out.
pub mod Run
pub mod Gate
pub mod Commits
pub mod Remove
pub mod Actions
pub mod Apply
pub mod Safe
pub mod Once
pub mod Protection
pub mod Outcome
pub mod Recover
pub mod Cleanup
pub mod Seeded
pub mod Recovered
pub mod Cleaned

-- ===== src/Reconcile/Proofs.antt =====
-- What the planner's output satisfies.
pub mod Sources
pub mod Passes
pub mod Staged
pub mod Retires
pub mod Deletes
pub mod Order
pub mod Sequence
pub mod Shields
pub mod Guarded
pub mod Headline

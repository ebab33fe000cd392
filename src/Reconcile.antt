-- ===== src/Reconcile.antt =====
-- internal/reconcile: the pure planner.
pub mod Types
pub mod Index
pub mod DirMoves
pub mod Paths
pub mod Draft
pub mod Plan
pub mod Proofs
pub mod Validate
pub mod Collapse

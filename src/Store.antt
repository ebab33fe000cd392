-- ===== src/Store.antt =====
-- internal/statedb: the state database, whose tables are lists of rows.
pub mod Types
pub mod Exec
pub mod Ensures
pub mod Total
pub mod Meta
pub mod Nodes
pub mod Like
pub mod Items
pub mod Reads
pub mod Atomic
pub mod Batches
pub mod Pattern
pub mod Unique
pub mod Ops

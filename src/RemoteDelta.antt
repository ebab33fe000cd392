-- ===== src/RemoteDelta.antt =====
-- internal/remotedelta: the mirror of Drive's metadata, and the remote snapshot that it gives.
pub mod Walk
pub mod Changes
pub mod Prune
pub mod Snapshot
pub mod Refresh

-- ===== src/Guards/SyncDir.antt =====
-- internal/guards/guards.go: EnsureSyncDir.
use synckeeper.Base.{Bool, true, false, if◌then◌else◌, ◌⊎◌, inl, inr}

-- What `os.Stat` says of the sync folder; of a directory, also whether `os.ReadDir` could read it.
pub data SyncStat : Type 0 where
  directory : Bool → SyncStat
  other_kind : SyncStat
  missing : SyncStat
  no_stat : SyncStat

pub data SyncDirError : Type 0 where
  dir_unreadable : SyncDirError
  not_directory : SyncDirError
  not_recreated : SyncDirError

-- Whether it was recreated, or an error; `mkdir_ok` tells how `os.MkdirAll` ends.
unfoldable pub ensure_sync_dir : SyncStat → Bool → SyncDirError ⊎ Bool
ensure_sync_dir (directory true) mkdir_ok = inr false
ensure_sync_dir (directory false) mkdir_ok = inl dir_unreadable
ensure_sync_dir other_kind mkdir_ok = inl not_directory
ensure_sync_dir no_stat mkdir_ok = inl dir_unreadable
ensure_sync_dir missing mkdir_ok = if mkdir_ok then inr true else inl not_recreated

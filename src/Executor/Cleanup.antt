-- ===== src/Executor/Cleanup.antt =====
-- internal/executor/executor.go: `CleanStaleState`, which clears away what a crashed run left.
use synckeeper.Base.{
  Bool, false, ◌&&◌, ◌||◌, List, [], ◌∷◌, Bytes, bytes_eq, ◌==◌, keep, map, has_prefix, ◌⊎◌, inl,
  inr,
}
use synckeeper.Names.{temp_prefix}
use synckeeper.Conflicts.{base_of}
use synckeeper.Disk.{Disk, Node, directory, below}
use synckeeper.Executor.Run.{Env, Run, Failure, pure, attempt, in_store, look, ◌>>=◌, ◌>>◌}
use synckeeper.Executor.Gate.{remove_own_temp}
use synckeeper.Executor.Recover.{recover_store}

-- The walk of the sync folder: files with the prefix of a temporary file. One under a folder that
-- cannot be read is not reached, which is as if its removal failed: neither is an error.
unfoldable pub orphan_temps : Env → Disk → List Bytes
orphan_temps e d =
    map (λ (p, _). p) (keep (λ (p, n). (p == e.sync_dir || below e.sync_dir p) && is_temp p n) d)
  where
    is_temp : Bytes → Node → Bool
    is_temp p directory = false
    is_temp p n = has_prefix (base_of p) temp_prefix

unfoldable pub remove_each : List Bytes → Run Unit
remove_each [] = pure tt
remove_each (p ∷ ps) = do attempt (remove_own_temp p); remove_each ps

abbrev pub or_nothing : (Failure ⊎ List Bytes) → List Bytes
or_nothing (inl x) = []
or_nothing (inr ps) = ps

unfoldable pub clean_stale_state : Run Unit
unfolding recover_store orphan_temps remove_each
clean_stale_state = do
  in_store (λ e. recover_store e.root_id)
  found ← attempt (look orphan_temps)
  remove_each (or_nothing found)

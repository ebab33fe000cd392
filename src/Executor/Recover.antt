-- ===== src/Executor/Recover.antt =====
-- internal/executor/executor.go: `seedOrphanCreates`, which tells the mirror what a crashed run made on
-- Drive, and the database's part of `CleanStaleState`.
use synckeeper.Base.{
  Bool, ◌||◌, Option, none, some, List, [], ◌∷◌, Bytes, bytes_eq, ◌==◌, if◌then◌else◌, ◌⊎◌, inl,
  inr,
}
use synckeeper.Base.Dict
use synckeeper.Base.Dict.{Dict}
use synckeeper.Conflicts.{base_of}
use synckeeper.DriveClient.{is_not_found}
use synckeeper.DriveClient.Files.{File, is_dir}
use synckeeper.Reconcile.Types.{upload, mkdir_remote}
use synckeeper.Store.Types.{PendingOp}
use synckeeper.Store.Exec.{Error, drive, Exec, pure, raise, ask, attempt, ◌>>=◌, ◌>>◌}
use synckeeper.Store.Items.{all_items}
use synckeeper.Store.Nodes.{upsert_remote_node}
use synckeeper.Store.Ops.{stale_ops, clear_ops}
use synckeeper.RemoteDelta.Walk.{to_node}
use synckeeper.Executor.Actions.{parent_dir}
use synckeeper.Executor.Apply.{kind_name, ids_of_rows}

-- The folder ids by path, and the listings by folder id.
pub record Known : Type 0 where
  pub paths : Dict Bytes Bytes
  pub listed : Dict Bytes (List File)

-- The two calls of Drive that make a second item when they are made twice.
unfoldable pub is_create : PendingOp → Bool
unfolding kind_name
is_create op = op.op_type == kind_name upload || op.op_type == kind_name mkdir_remote

-- A folder that is gone has nothing in it; another error stands.
unfoldable pub listing : (Error ⊎ List File) → Exec (List File)
listing (inr files) = pure files
listing (inl (drive f)) = if is_not_found (some f) then pure [] else raise (drive f)
listing (inl x) = raise x

unfoldable pub list_once : Bytes → Option (List File) → Exec (List File)
unfolding listing
list_once parent (some files) = pure files
list_once parent none = do r ← attempt (ask (λ o n. o.list n parent)); listing r

-- The children of the operation's name go to the mirror, and a folder to the paths.
unfoldable pub seed_each : Bytes → Bytes → List File → Dict Bytes Bytes → Exec (Dict Bytes Bytes)
unfolding to_node
seed_each rel parent [] paths = pure paths
seed_each rel parent (f ∷ files) paths =
    let rest = seed_each rel parent files in
    if f.name == base_of rel
    then (do
      upsert_remote_node (to_node f parent)
      rest (if is_dir f then Dict.insert rel f.id paths else paths))
    else rest paths

unfoldable pub seed_in : PendingOp → Option Bytes → Known → Exec Known
unfolding list_once seed_each
seed_in op none k = pure k
seed_in op (some parent) k = do
  files ← list_once parent (Dict.lookup parent k.listed)
  paths ← seed_each op.rel_path parent files k.paths
  pure (record { paths = paths; listed = Dict.insert parent files k.listed })

unfoldable pub seed_one : PendingOp → Known → Exec Known
unfolding seed_in is_create
seed_one op k =
    if is_create op then seed_in op (Dict.lookup (parent_dir op.rel_path) k.paths) k else pure k

unfoldable pub seed_ops : List PendingOp → Known → Exec Known
unfolding seed_one
seed_ops [] k = pure k
seed_ops (op ∷ ops) k = do k' ← seed_one op k; seed_ops ops k'

unfoldable pub seed_orphan_creates : Bytes → List PendingOp → Exec Unit
unfolding seed_ops ids_of_rows
seed_orphan_creates root_id stale = do
  items ← all_items
  seed_ops stale (record { paths = ids_of_rows items (([], root_id) ∷ []); listed = [] })
  pure tt

-- Nothing is looked up without a stale operation.
unfoldable pub seed_any : Bytes → List PendingOp → Exec Unit
unfolding seed_orphan_creates
seed_any root_id [] = pure tt
seed_any root_id (op ∷ ops) = seed_orphan_creates root_id (op ∷ ops)

unfoldable pub seed_stale : Bytes → Exec Unit
unfolding seed_any
seed_stale root_id = do stale ← stale_ops; seed_any root_id stale

unfoldable pub recover_store : Bytes → Exec Unit
unfolding seed_stale
recover_store root_id = do seed_stale root_id; clear_ops

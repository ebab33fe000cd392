-- ===== src/Executor/Commits.antt =====
-- internal/executor/executor.go: what the actions write in their transactions.
use synckeeper.Base.{true, false, List, [], ◌∷◌, Bytes, ℤ, pos, map, bytes_eq}
use synckeeper.DriveClient.Files.{File}
use synckeeper.Reconcile.Types.{Action}
use synckeeper.Store.Types.{Item}
use synckeeper.Store.Exec.{Exec, ◌>>◌}
use synckeeper.Store.Items.{
  upsert_item, delete_item_by_id, delete_items_by_id, rename_item_path, update_item_drive,
}
use synckeeper.Store.Nodes.{upsert_remote_node, delete_remote_nodes}
use synckeeper.RemoteDelta.Walk.{to_node}

-- The row of a folder.
abbrev pub dir_row : Bytes → Bytes → ℤ → Item
dir_row id path version = record {
  drive_file_id = id;
  rel_path = path;
  is_dir = true;
  size = pos 0;
  content_md5 = [];
  local_mtime_ns = pos 0;
  drive_md5 = [];
  drive_version = version;
  synced_at = pos 0;
}

-- The row of a file that both sides have with the content.
abbrev pub file_row : Bytes → Bytes → ℤ → ℤ → Bytes → ℤ → Item
file_row id path size mtime md5 version = record {
  drive_file_id = id;
  rel_path = path;
  is_dir = false;
  size = size;
  content_md5 = md5;
  local_mtime_ns = mtime;
  drive_md5 = md5;
  drive_version = version;
  synced_at = pos 0;
}

unfoldable pub mirror : File → Bytes → Exec Unit
mirror f parent = upsert_remote_node (to_node f parent)

unfoldable pub commit_row : Item → File → Bytes → Exec Unit
unfolding mirror
commit_row it f parent = do upsert_item it; mirror f parent

unfoldable pub commit_move : Action → File → Bytes → Exec Unit
unfolding mirror
commit_move a f parent = do
  rename_item_path a.rel_path a.new_rel_path
  update_item_drive a.file_id f.md5 f.version
  mirror f parent

unfoldable pub subtree_ids : Action → List Bytes
subtree_ids a = map (λ e. e.file_id) a.subtree

unfoldable pub commit_retired : Action → Exec Unit
unfolding subtree_ids
commit_retired a = do delete_item_by_id a.file_id; delete_items_by_id (subtree_ids a)

unfoldable pub commit_trashed : Action → Exec Unit
unfolding subtree_ids
commit_trashed a = do
  delete_item_by_id a.file_id
  delete_items_by_id (subtree_ids a)
  delete_remote_nodes (a.file_id ∷ subtree_ids a)

-- ===== src/Executor/Actions.antt =====
-- internal/executor/executor.go: the actions, one by one.
use synckeeper.Base.{
  ℕ, Bool, true, false, not, ◌&&◌, Option, none, some, [], ◌∷◌, ◌++◌, Bytes, codes, bytes_eq, ◌==◌,
  ℤ, pos, lt_int, map, if◌then◌else◌, ◌⊎◌, inl, inr,
}
use synckeeper.Base.Dict
use synckeeper.Base.Dict.{Dict}
use synckeeper.Names.{temp_prefix}
use synckeeper.Conflicts.{dir_of, base_of}
use synckeeper.DriveClient.Files.{File}
use synckeeper.Reconcile.Types.{
  Action, Kind, mkdir_local, mkdir_remote, move_local, move_remote, conflict_backup, upload,
  update_remote, download, record_row, trash_remote, quarantine_local, forget,
}
use synckeeper.Store.Types.{Item}
use synckeeper.Store.Exec.{Exec, ok}
use synckeeper.Store.Ops.{complete_op}
use synckeeper.Store.Items.{upsert_item, rename_item_path, delete_item_by_id}
use synckeeper.Disk.{Node, FileData, size_of, is_directory, relocate, create_new, write_file}
use synckeeper.Executor.Run.{
  Run, Failure, Memory, no_parent, refused, unprotected, wrong_content, give, fail, in_store, drive,
  setting, recall, remember, on_disk, attempt, stat_at, ◌>>=◌, ◌>>◌,
}
use synckeeper.Executor.Gate.{
  exp_from_action, absent, allow_vanished, refuse_vanished, guarded_stat, guarded_rename, mkdir_all,
  read_file, remove_own_temp,
}
use synckeeper.Executor.Commits.{
  dir_row, file_row, commit_row, commit_move, commit_retired, commit_trashed,
}
use synckeeper.Executor.Remove.{abs, remove_file, remove_dir, is_gone}

unfoldable pub done_with : ℕ → Exec Unit → Run Unit
done_with op apply = in_store (λ e. complete_op op apply)

abbrev pub parent_dir : Bytes → Bytes
parent_dir rel = if dir_of rel == codes "." then [] else dir_of rel

abbrev or_no_parent : Option Bytes → Failure ⊎ Bytes
or_no_parent none = inl no_parent
or_no_parent (some id) = inr id

unfoldable pub parent_id : Bytes → Run Bytes
parent_id rel = do
  id ← recall (λ m. Dict.lookup (parent_dir rel) m.path_ids)
  give (or_no_parent id)

unfoldable pub set_path_id : Bytes → Bytes → Run Unit
set_path_id rel id = remember (λ m. record m { path_ids = Dict.insert rel id m.path_ids })

unfoldable pub rename_path_ids : Bytes → Bytes → Run Unit
rename_path_ids from to =
    remember (λ m. record m { path_ids = map (λ (p, id). (relocate from to p, id)) m.path_ids })

abbrev later : ℤ → Option ℤ → ℤ
later planned none = planned
later planned (some v) = if lt_int planned v then v else planned

unfoldable pub version_of : Bytes → ℤ → Memory → ℤ
version_of id planned m = later planned (Dict.lookup id m.bumped_versions)

unfoldable pub make_local_dir : ℕ → Action → Run Unit
make_local_dir op a = do
  path ← setting (λ e n. abs e a.rel_path)
  mkdir_all path
  set_path_id a.rel_path a.file_id
  done_with op (upsert_item (dir_row a.file_id a.rel_path a.version))

unfoldable pub make_remote_dir : ℕ → Action → Run Unit
make_remote_dir op a = do
  parent ← parent_id a.rel_path
  f ← drive (λ e n. e.outside.mkdir n parent (base_of a.rel_path))
  path ← setting (λ e n. abs e a.rel_path)
  mkdir_all path
  set_path_id a.rel_path f.id
  done_with op (commit_row (dir_row f.id a.rel_path f.version) f parent)

-- The end of a local move.
unfoldable pub commit_local_move : ℕ → Action → Run Unit
commit_local_move op a = do
  rename_path_ids a.rel_path a.new_rel_path
  done_with op (rename_item_path a.rel_path a.new_rel_path)

unfoldable pub move_guarded : ℕ → Action → Run Unit
unfolding commit_local_move
move_guarded op a = do
  from ← setting (λ e n. abs e a.rel_path)
  to ← setting (λ e n. abs e a.new_rel_path)
  mkdir_all (dir_of to)
  guarded_rename from to (exp_from_action a) allow_vanished
  commit_local_move op a

-- The directory is not at its old path and is at the new one.
abbrev is_there : (Failure ⊎ Option Node) → Bool
is_there (inr n) = is_directory n
is_there (inl f) = false

unfoldable pub move_if_absent : ℕ → Action → Bool → Run Unit
unfolding move_guarded commit_local_move
move_if_absent op a false = move_guarded op a
move_if_absent op a true = do
  to ← setting (λ e n. abs e a.new_rel_path)
  there ← attempt (stat_at to)
  if is_there there then commit_local_move op a else move_guarded op a

unfoldable pub move_locally : ℕ → Action → Run Unit
unfolding move_if_absent move_guarded
move_locally op a =
    if a.is_dir
    then (do
      from ← setting (λ e n. abs e a.rel_path)
      here ← attempt (stat_at from)
      move_if_absent op a (is_gone here))
    else move_guarded op a

unfoldable pub move_remotely : ℕ → Action → Run Unit
move_remotely op a = do
  parent ← parent_id a.new_rel_path
  f ← drive (λ e n. e.move n a.file_id parent (base_of a.new_rel_path))
  rename_path_ids a.rel_path a.new_rel_path
  remember (λ m. record m { bumped_versions = Dict.insert a.file_id f.version m.bumped_versions })
  done_with op (commit_move a f parent)

unfoldable pub back_up : ℕ → Action → Run Unit
back_up op a = do
  from ← setting (λ e n. abs e a.rel_path)
  to ← setting (λ e n. abs e a.new_rel_path)
  guarded_rename from to absent refuse_vanished
  done_with op (λ o w. (ok tt, w))

-- `pre` is the stat before the upload, `hash` the hash of the content that was read.
unfoldable pub commit_upload : ℕ → Bytes → Bytes → FileData → File → Bytes → Run Unit
commit_upload op rel hash pre remote parent =
    if remote.md5 == hash
    then (do
      set_path_id rel remote.id
      done_with op (
          commit_row (file_row remote.id rel (size_of pre) pre.mtime_ns hash remote.version) remote
            parent))
    else fail wrong_content

unfoldable pub upload_new : ℕ → Action → Run Unit
unfolding commit_upload
upload_new op a = do
  path ← setting (λ e n. abs e a.rel_path)
  pre ← read_file path
  hashed ← read_file path
  hash ← setting (λ e n. e.md5 hashed.content)
  body ← read_file path
  parent ← parent_id a.rel_path
  remote ← drive (λ e n. e.upload n parent (base_of a.rel_path) body.content)
  commit_upload op a.rel_path hash pre remote parent

unfoldable pub upload_again : ℕ → Action → Run Unit
unfolding commit_upload
upload_again op a = do
  path ← setting (λ e n. abs e a.rel_path)
  pre ← read_file path
  hashed ← read_file path
  hash ← setting (λ e n. e.md5 hashed.content)
  body ← read_file path
  parent ← parent_id a.rel_path
  remote ← drive (λ e n. e.update n a.file_id body.content)
  commit_upload op a.rel_path hash pre remote parent

-- From the temporary file to the target, and the commit.
unfoldable pub put_in_place : ℕ → Action → Bytes → Bytes → Bytes → Run Unit
unfolding version_of
put_in_place op a tmp target sum = do
  guarded_rename tmp target (exp_from_action a) refuse_vanished
  f ← read_file target
  set_path_id a.rel_path a.file_id
  version ← recall (version_of a.file_id a.version)
  done_with op (upsert_item (file_row a.file_id a.rel_path (size_of f) f.mtime_ns sum version))

unfoldable pub is_wrong : Action → Bytes → Bool
is_wrong a sum = not (a.md5 == []) && not (sum == a.md5)

-- What follows the making of the temporary file.
unfoldable pub download_into : ℕ → Action → Bytes → Bytes → Run Unit
unfolding put_in_place is_wrong
download_into op a tmp target = do
  body ← drive (λ e n. e.fetch n a.file_id)
  on_disk tmp (λ t d. write_file tmp (record { content = body; mtime_ns = t }) d)
  sum ← setting (λ e n. e.md5 body)
  if is_wrong a sum then fail wrong_content else put_in_place op a tmp target sum

unfoldable pub fetch_file : ℕ → Action → Run Unit
unfolding download_into
fetch_file op a = do
  target ← setting (λ e n. abs e a.rel_path)
  mkdir_all (dir_of target)
  tmp ← setting (λ e n. dir_of target ++ b'/' ∷ (temp_prefix ++ e.temp_suffix n))
  on_disk tmp (λ t d. create_new tmp (record { content = []; mtime_ns = t }) d)
  r ← attempt (download_into op a tmp target)
  attempt (remove_own_temp tmp)
  give r

abbrev or_missing : Option FileData → Failure ⊎ FileData
or_missing none = inl refused
or_missing (some f) = inr f

abbrev recorded : Action → ℤ → ℤ → Item
recorded a size mtime = record {
  drive_file_id = a.file_id;
  rel_path = a.rel_path;
  is_dir = a.is_dir;
  size = size;
  content_md5 = a.md5;
  local_mtime_ns = mtime;
  drive_md5 = a.md5;
  drive_version = a.version;
  synced_at = pos 0;
}

unfoldable pub commit_record : ℕ → Action → Item → Run Unit
commit_record op a item = do set_path_id a.rel_path a.file_id; done_with op (upsert_item item)

unfoldable pub adopt : ℕ → Action → Run Unit
unfolding commit_record
adopt op a = if a.is_dir then commit_record op a (recorded a a.size (pos 0)) else (do
  path ← setting (λ e n. abs e a.rel_path)
  info ← guarded_stat path (exp_from_action a) refuse_vanished
  f ← give (or_missing info)
  commit_record op a (recorded a (size_of f) f.mtime_ns))

unfoldable pub trash_remotely : ℕ → Action → Run Unit
trash_remotely op a = do drive (λ e n. e.trash n a.file_id); done_with op (commit_trashed a)

unfoldable pub trash_locally : ℕ → Action → Run Unit
trash_locally op a = do
  if a.is_dir then remove_dir a else remove_file a.rel_path (exp_from_action a)
  done_with op (commit_retired a)

unfoldable pub perform : ℕ → Action → Kind → Run Unit
unfolding make_local_dir make_remote_dir move_locally move_remotely back_up upload_new upload_again
    fetch_file adopt trash_remotely trash_locally
perform op a mkdir_local = make_local_dir op a
perform op a mkdir_remote = make_remote_dir op a
perform op a move_local = move_locally op a
perform op a move_remote = move_remotely op a
perform op a conflict_backup = back_up op a
perform op a upload = upload_new op a
perform op a update_remote = upload_again op a
perform op a download = fetch_file op a
perform op a record_row = adopt op a
perform op a trash_remote = trash_remotely op a
perform op a quarantine_local = trash_locally op a
perform op a forget = done_with op (delete_item_by_id a.file_id)

-- The move or backup that the action names has failed in this run.
unfoldable pub lost_protector : Action → Memory → Bool
lost_protector a m = not (a.protected_by == []) && Dict.contains a.protected_by m.failed_protectors

unfoldable pub execute : ℕ → Action → Run Unit
unfolding perform lost_protector
execute op a = do
  lost ← recall (lost_protector a)
  if lost then fail unprotected else perform op a a.kind

-- ===== src/Executor/Once/Actions.antt =====
-- internal/executor/executor.go: what each action leaves of the database.
use synckeeper.Base.{
  zero, suc, ℕ, Bool, true, false, Option, none, some, List, [], ◌∷◌, Bytes, bytes_eq, ◌⊎◌, inl,
  inr, length,
}
use synckeeper.Base.Dict.{Dict}
use synckeeper.DriveClient.Files.{File}
use synckeeper.Reconcile.Types.{
  Action, SubtreeEntry, Kind, mkdir_local, mkdir_remote, move_local, move_remote, conflict_backup,
  upload, update_remote, download, record_row, trash_remote, quarantine_local, forget,
}
use synckeeper.Reconcile.Validate.Ancestors.{ancestors}
use synckeeper.Store.Types.{Item}
use synckeeper.Store.Exec.{Exec}
use synckeeper.Disk.{FileData}
use synckeeper.Executor.Run.{Env, State, Failure, trash_unusable, unexpected, attempt}
use synckeeper.Executor.Run.Caught.{remove_own_temp-caught}
use synckeeper.Executor.Gate.{
  Expectation, VanishPolicy, guarded_stat, guarded_rename, make_one, mkdir_each, mkdir_all,
  read_file, sweep_each, sweep_invisible_leftovers, copy_over, or_copy, guarded_move_file,
  guarded_trash_path, guarded_trash_dir, verify_subtree, guarded_remove_empty_dir, remove_own_temp,
}
use synckeeper.Executor.Remove.{
  numbered_free, unique_rescue_dest, to_quarantine, note_quarantine_fallback, after_bin, bin_file,
  remove_file, remove_files, remove_dirs, remove_dir_per_item, after_bin_dir, bin_dir,
  remove_covered, remove_dir,
}
use synckeeper.Executor.Actions.{
  done_with, parent_id, set_path_id, rename_path_ids, make_local_dir, make_remote_dir,
  commit_local_move, move_guarded, move_if_absent, move_locally, move_remotely, back_up,
  commit_upload, upload_new, upload_again, put_in_place, download_into, fetch_file, commit_record,
  adopt, trash_remotely, trash_locally, perform, execute,
}
use synckeeper.Executor.Once.{
  IsCommitted, Quiet, Once, Quiet-on_disk, Quiet-bind, Quiet-if, Quiet-attempt, Quiet-setting,
  Once-bind, Once-if, Once-fail, Once-after, Once-done, quiet_rules,
}

guarded_stat-Quiet : (p : Bytes) (x : Expectation) (v : VanishPolicy) → Quiet (guarded_stat p x v)
unfolding guarded_stat
guarded_stat-Quiet p x v = search quiet_rules

guarded_rename-Quiet :
    (from to : Bytes) (x : Expectation) (v : VanishPolicy) → Quiet (guarded_rename from to x v)
unfolding guarded_rename
guarded_rename-Quiet from to x v = search (quiet_rules, guarded_stat-Quiet)

mkdir_each-Quiet : (ps : List Bytes) → Quiet (mkdir_each ps)
unfolding mkdir_each make_one
mkdir_each-Quiet [] = search quiet_rules
mkdir_each-Quiet (p ∷ ps) = search (quiet_rules, mkdir_each-Quiet ps)

mkdir_all-Quiet : (p : Bytes) → Quiet (mkdir_all p)
unfolding mkdir_all
mkdir_all-Quiet p = mkdir_each-Quiet (p ∷ ancestors (length p) p)

read_file-Quiet : (p : Bytes) → Quiet (read_file p)
unfolding read_file
read_file-Quiet p = search quiet_rules

sweep_each-Quiet : (dir dest : Bytes) (names : List Bytes) → Quiet (sweep_each dir dest names)
unfolding sweep_each
sweep_each-Quiet dir dest [] = search quiet_rules
sweep_each-Quiet dir dest (n ∷ names) =
    Quiet-bind _ _ (mkdir_all-Quiet dest)
      λ _. Quiet-bind _ _ (Quiet-on_disk _ _) λ _. sweep_each-Quiet dir dest names

sweep-Quiet : (dir dest : Bytes) → Quiet (sweep_invisible_leftovers dir dest)
unfolding sweep_invisible_leftovers
sweep-Quiet dir dest = search (quiet_rules, sweep_each-Quiet)

or_copy-Quiet : (from to : Bytes) (r : Failure ⊎ Unit {0}) → Quiet (or_copy from to r)
unfolding or_copy copy_over
or_copy-Quiet from to (inr _) = search quiet_rules
or_copy-Quiet from to (inl _) = search (quiet_rules, read_file-Quiet) depth 10

guarded_move_file-Quiet : (from to : Bytes) (x : Expectation) → Quiet (guarded_move_file from to x)
unfolding guarded_move_file
guarded_move_file-Quiet from to x = search (quiet_rules, guarded_stat-Quiet, or_copy-Quiet) depth 12

guarded_trash_path-Quiet : (p : Bytes) (x : Expectation) → Quiet (guarded_trash_path p x)
unfolding guarded_trash_path
guarded_trash_path-Quiet p x = search (quiet_rules, guarded_stat-Quiet)

guarded_trash_dir-Quiet : (p : Bytes) (c : Dict Bytes SubtreeEntry) → Quiet (guarded_trash_dir p c)
unfolding guarded_trash_dir verify_subtree
guarded_trash_dir-Quiet p c = search quiet_rules depth 10

numbered_free-Quiet : (fuel i : ℕ) (stem ext : Bytes) → Quiet (numbered_free fuel i stem ext)
unfolding numbered_free
numbered_free-Quiet zero i stem ext = search quiet_rules
numbered_free-Quiet (suc fuel) i stem ext = search (quiet_rules, numbered_free-Quiet fuel) depth 10

unique_rescue_dest-Quiet : (dest : Bytes) → Quiet (unique_rescue_dest dest)
unfolding unique_rescue_dest
unique_rescue_dest-Quiet dest = search (quiet_rules, numbered_free-Quiet) depth 12

to_quarantine-Quiet : (rel : Bytes) (x : Expectation) → Quiet (to_quarantine rel x)
unfolding to_quarantine note_quarantine_fallback
to_quarantine-Quiet rel x =
    search (quiet_rules, unique_rescue_dest-Quiet, mkdir_all-Quiet, guarded_move_file-Quiet) depth
      14

after_bin-Quiet :
    (rel : Bytes) (x : Expectation) (r : Failure ⊎ Unit {0}) → Quiet (after_bin rel x r)
unfolding after_bin
after_bin-Quiet rel x (inr _) = search quiet_rules
after_bin-Quiet rel x (inl trash_unusable) = to_quarantine-Quiet rel x
after_bin-Quiet rel x (inl _) = search quiet_rules

remove_file-Quiet : (rel : Bytes) (x : Expectation) → Quiet (remove_file rel x)
unfolding remove_file bin_file
remove_file-Quiet rel x =
    search (quiet_rules, to_quarantine-Quiet, guarded_trash_path-Quiet, after_bin-Quiet) depth 14

remove_files-Quiet : (entries : List SubtreeEntry) → Quiet (remove_files entries)
unfolding remove_files
remove_files-Quiet [] = search quiet_rules
remove_files-Quiet (x ∷ entries) =
    Quiet-if x.is_dir _ _ (remove_files-Quiet entries)
      (Quiet-bind _ _ (remove_file-Quiet x.rel_path _) λ _. remove_files-Quiet entries)

remove_dirs-Quiet : (dirs : List Bytes) → Quiet (remove_dirs dirs)
unfolding remove_dirs guarded_remove_empty_dir
remove_dirs-Quiet [] = search quiet_rules
remove_dirs-Quiet (rel ∷ dirs) = Quiet-bind _ _ (Quiet-setting _) λ path.
    Quiet-bind _ _ (Quiet-setting _) λ dest.
      Quiet-bind _ _ (sweep-Quiet path dest)
        λ _. Quiet-bind _ _ (Quiet-on_disk _ _) λ _. remove_dirs-Quiet dirs

remove_dir_per_item-Quiet : (a : Action) → Quiet (remove_dir_per_item a)
unfolding remove_dir_per_item
remove_dir_per_item-Quiet a = search (quiet_rules, remove_files-Quiet, remove_dirs-Quiet)

after_bin_dir-Quiet : (a : Action) (r : Failure ⊎ Unit {0}) → Quiet (after_bin_dir a r)
unfolding after_bin_dir
after_bin_dir-Quiet a (inr _) = search quiet_rules
after_bin_dir-Quiet a (inl unexpected) = remove_dir_per_item-Quiet a
after_bin_dir-Quiet a (inl trash_unusable) = remove_dir_per_item-Quiet a
after_bin_dir-Quiet a (inl _) = search quiet_rules

remove_covered-Quiet :
    (a : Action) (c : Option (Dict Bytes SubtreeEntry)) → Quiet (remove_covered a c)
unfolding remove_covered bin_dir
remove_covered-Quiet a none = search quiet_rules
remove_covered-Quiet a (some c) =
    search (quiet_rules, guarded_trash_dir-Quiet, after_bin_dir-Quiet, remove_dir_per_item-Quiet)
      depth 12

remove_dir-Quiet : (a : Action) → Quiet (remove_dir a)
unfolding remove_dir
remove_dir-Quiet a = remove_covered-Quiet a _

remove_own_temp-Quiet : (p : Bytes) → Quiet (remove_own_temp p)
unfolding remove_own_temp
remove_own_temp-Quiet p = search quiet_rules

set_path_id-Quiet : (rel id : Bytes) → Quiet (set_path_id rel id)
unfolding set_path_id
set_path_id-Quiet rel id = search quiet_rules

rename_path_ids-Quiet : (from to : Bytes) → Quiet (rename_path_ids from to)
unfolding rename_path_ids
rename_path_ids-Quiet from to = search quiet_rules

parent_id-Quiet : (rel : Bytes) → Quiet (parent_id rel)
unfolding parent_id
parent_id-Quiet rel = search quiet_rules

module _ (op : ℕ) where
  done_with-Once : (m : Exec Unit) → Once op (done_with op m)
  unfolding done_with
  done_with-Once m = Once-done op m

  commit_upload-Once :
      (rel hash : Bytes) (pre : FileData) (f : File) (parent : Bytes)
      → Once op (commit_upload op rel hash pre f parent)
  unfolding commit_upload
  commit_upload-Once rel hash pre f parent =
      Once-if op _ _ _ (Once-bind op _ _ (set_path_id-Quiet _ _) λ _. done_with-Once _)
        (Once-fail op _)

  commit_local_move-Once : (a : Action) → Once op (commit_local_move op a)
  unfolding commit_local_move
  commit_local_move-Once a = Once-bind op _ _ (rename_path_ids-Quiet _ _) λ _. done_with-Once _

  commit_record-Once : (a : Action) (it : Item) → Once op (commit_record op a it)
  unfolding commit_record
  commit_record-Once a it = Once-bind op _ _ (set_path_id-Quiet _ _) λ _. done_with-Once _

  ruleset once_rules = (
    quiet_rules, mkdir_all-Quiet, read_file-Quiet, guarded_stat-Quiet, guarded_rename-Quiet,
    set_path_id-Quiet, rename_path_ids-Quiet, parent_id-Quiet, remove_dir-Quiet, remove_file-Quiet,
    remove_own_temp-Quiet, Once-bind, Once-if, Once-fail, done_with-Once, commit_upload-Once,
    commit_local_move-Once, commit_record-Once,
  )

  make_local_dir-Once : (a : Action) → Once op (make_local_dir op a)
  unfolding make_local_dir
  make_local_dir-Once a = search once_rules depth 14

  make_remote_dir-Once : (a : Action) → Once op (make_remote_dir op a)
  unfolding make_remote_dir
  make_remote_dir-Once a = search once_rules depth 14

  move_guarded-Once : (a : Action) → Once op (move_guarded op a)
  unfolding move_guarded
  move_guarded-Once a = search once_rules depth 14

  move_if_absent-Once : (a : Action) (b : Bool) → Once op (move_if_absent op a b)
  unfolding move_if_absent
  move_if_absent-Once a false = move_guarded-Once a
  move_if_absent-Once a true = search (once_rules, move_guarded-Once) depth 10

  move_locally-Once : (a : Action) → Once op (move_locally op a)
  unfolding move_locally
  move_locally-Once a = search (once_rules, move_guarded-Once, move_if_absent-Once) depth 10

  move_remotely-Once : (a : Action) → Once op (move_remotely op a)
  unfolding move_remotely
  move_remotely-Once a = search once_rules depth 14

  back_up-Once : (a : Action) → Once op (back_up op a)
  unfolding back_up
  back_up-Once a = search once_rules depth 14

  upload_new-Once : (a : Action) → Once op (upload_new op a)
  unfolding upload_new
  upload_new-Once a = search once_rules depth 18

  upload_again-Once : (a : Action) → Once op (upload_again op a)
  unfolding upload_again
  upload_again-Once a = search once_rules depth 18

  put_in_place-Once :
      (a : Action) (tmp target sum : Bytes) → Once op (put_in_place op a tmp target sum)
  unfolding put_in_place
  put_in_place-Once a tmp target sum = search once_rules depth 14

  download_into-Once : (a : Action) (tmp target : Bytes) → Once op (download_into op a tmp target)
  unfolding download_into
  download_into-Once a tmp target = search (once_rules, put_in_place-Once) depth 14

  fetch_file-Once : (a : Action) → Once op (fetch_file op a)
  unfolding fetch_file
  fetch_file-Once a = Once-bind op _ _ (Quiet-setting _) λ target.
      Once-bind op _ _ (mkdir_all-Quiet _) λ _. Once-bind op _ _ (Quiet-setting _) λ tmp.
        Once-bind op _ _ (Quiet-on_disk _ _) λ _.
          Once-after op (download_into op a tmp target) (attempt (remove_own_temp tmp))
            (download_into-Once a tmp target) (Quiet-attempt _ (remove_own_temp-Quiet tmp))
            (remove_own_temp-caught tmp)

  adopt-Once : (a : Action) → Once op (adopt op a)
  unfolding adopt
  adopt-Once a = search once_rules depth 14

  trash_remotely-Once : (a : Action) → Once op (trash_remotely op a)
  unfolding trash_remotely
  trash_remotely-Once a = search once_rules

  trash_locally-Once : (a : Action) → Once op (trash_locally op a)
  unfolding trash_locally
  trash_locally-Once a = search once_rules

  perform-Once : (a : Action) (k : Kind) → Once op (perform op a k)
  unfolding perform
  perform-Once a mkdir_local = make_local_dir-Once a
  perform-Once a mkdir_remote = make_remote_dir-Once a
  perform-Once a move_local = move_locally-Once a
  perform-Once a move_remote = move_remotely-Once a
  perform-Once a conflict_backup = back_up-Once a
  perform-Once a upload = upload_new-Once a
  perform-Once a update_remote = upload_again-Once a
  perform-Once a download = fetch_file-Once a
  perform-Once a record_row = adopt-Once a
  perform-Once a trash_remote = trash_remotely-Once a
  perform-Once a quarantine_local = trash_locally-Once a
  perform-Once a forget = done_with-Once _

  pub execute-Once : (a : Action) → Once op (execute op a)
  unfolding execute
  execute-Once a = search (once_rules, perform-Once)

-- An action that succeeds has marked its operation done, in its one transaction; one that fails, at
-- whatever point, leaves the database as it was before it. Neither changes the failed protectors.
pub execute-IsCommitted :
    (e : Env) (op : ℕ) (a : Action) (s : State)
    → IsCommitted op s (execute op a e s).0 (execute op a e s).1
execute-IsCommitted e op a s = (execute-Once op a).at e s

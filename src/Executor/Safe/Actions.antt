-- ===== src/Executor/Safe/Actions.antt =====
-- internal/executor/executor.go: what each action may replace.
use synckeeper.Base.{
  Bool, true, false, Option, none, some, ◌∷◌, ◌++◌, Bytes, bytes_eq, ℕ, ◌≡◌, refl, subst, inl, In,
  arith,
}
use synckeeper.Names.{temp_prefix}
use synckeeper.Conflicts.{dir_of}
use synckeeper.Reconcile.Types.{
  Action, Kind, mkdir_local, mkdir_remote, move_local, move_remote, conflict_backup, upload,
  update_remote, download, record_row, trash_remote, quarantine_local, forget,
}
use synckeeper.DriveClient.Files.{File}
use synckeeper.Store.Types.{Item}
use synckeeper.Store.Exec.{Exec}
use synckeeper.Disk.{FileData}
use synckeeper.Disk.Files.{Spares, write_file-eq, create_new-eq, insert-Spares}
use synckeeper.Executor.Run.{wrong_content, fail, Env}
use synckeeper.Executor.Gate.{
  exp_from_action, absent, is_pinned, refuse_vanished, allow_vanished, child, is_invisible,
}
use synckeeper.Executor.Remove.{abs, quarantine_dest, dirs_of, remove_dir}
use synckeeper.Executor.Actions.{
  done_with, parent_id, set_path_id, rename_path_ids, make_local_dir, make_remote_dir,
  commit_local_move, move_guarded, move_if_absent, move_locally, move_remotely, back_up,
  commit_upload, upload_new, upload_again, download_into, fetch_file, version_of, is_wrong,
  put_in_place, commit_record, adopt, trash_remotely, trash_locally, perform, execute,
}
use synckeeper.Executor.Safe.{
  Safe-recall, Safe, Safe-on_disk, Safe-with, Safe-drive, Safe-stat, Safe-setting, Safe-bind,
  Safe-attempt, Safe-if, Safe-give, safe_rules,
}
use synckeeper.Executor.Safe.Gate.{
  mkdir_all-Safe, guarded_stat-Safe, read_file-Safe, guarded_rename-Safe,
}
use synckeeper.Executor.Safe.Remove.{
  remove_file-Safe, remove_dir_per_item-Safe, remove_covered-Safe, remove_own_temp-Safe,
}

-- Where a download or a local move puts its file.
unfoldable pub target_of : Action → Kind → Option Bytes
target_of a download = some a.rel_path
target_of a move_local = some a.new_rel_path
target_of a _ = none

abbrev pub temp_path : Env → Action → ℕ → Bytes
temp_path e a n = dir_of (abs e a.rel_path) ++ b'/' ∷ (temp_prefix ++ e.temp_suffix n)

-- The files that an action may replace or remove: the one at its target, if it is the file that the
-- plan has pinned; its own temporary file; and, of a local delete, an ignored leftover of the folder
-- that lies in the quarantine already, and a file that stands where a folder of it is to be removed.
pub data MayReplace (e : Env) (a : Action) : Bytes → FileData → Type 0 where
  pinned_target :
      (rel : Bytes) (f : FileData)
      → target_of a a.kind ≡ some rel
      → is_pinned (exp_from_action a) f ≡ true
      → MayReplace e a (abs e rel) f
  own_temp : (n : ℕ) (f : FileData) → a.kind ≡ download → MayReplace e a (temp_path e a n) f
  swept :
      (rel name : Bytes) (f : FileData)
      → a.kind ≡ quarantine_local
      → a.is_dir ≡ true
      → In rel (a.rel_path ∷ dirs_of a.subtree)
      → is_invisible e name ≡ true
      → MayReplace e a (child (quarantine_dest e rel) name) f
  for_folder :
      (rel : Bytes) (f : FileData)
      → a.kind ≡ quarantine_local
      → a.is_dir ≡ true
      → In rel (a.rel_path ∷ dirs_of a.subtree)
      → MayReplace e a (abs e rel) f

module _ {P : Bytes → FileData → Type 0} {e : Env} where
  set_path_id-Safe : (rel id : Bytes) → Safe P e (set_path_id rel id)
  unfolding set_path_id
  set_path_id-Safe rel id = search safe_rules

  rename_path_ids-Safe : (from to : Bytes) → Safe P e (rename_path_ids from to)
  unfolding rename_path_ids
  rename_path_ids-Safe from to = search safe_rules

  done_with-Safe : (op : ℕ) (m : Exec Unit) → Safe P e (done_with op m)
  unfolding done_with
  done_with-Safe op m = search safe_rules

  parent_id-Safe : (rel : Bytes) → Safe P e (parent_id rel)
  unfolding parent_id
  parent_id-Safe rel = search safe_rules

  commit_upload-Safe :
      (op : ℕ) (rel hash : Bytes) (pre : FileData) (f : File) (parent : Bytes)
      → Safe P e (commit_upload op rel hash pre f parent)
  unfolding commit_upload
  commit_upload-Safe op rel hash pre f parent =
      search (safe_rules, set_path_id-Safe, done_with-Safe)

  commit_local_move-Safe : (op : ℕ) (a : Action) → Safe P e (commit_local_move op a)
  unfolding commit_local_move
  commit_local_move-Safe op a = search (safe_rules, rename_path_ids-Safe, done_with-Safe)

  commit_record-Safe : (op : ℕ) (a : Action) (it : Item) → Safe P e (commit_record op a it)
  unfolding commit_record
  commit_record-Safe op a it = search (safe_rules, set_path_id-Safe, done_with-Safe)

  ruleset action_rules = (
    safe_rules, set_path_id-Safe, rename_path_ids-Safe, done_with-Safe, parent_id-Safe,
    commit_upload-Safe, commit_local_move-Safe, commit_record-Safe, mkdir_all-Safe, read_file-Safe,
    guarded_stat-Safe,
  )

  make_local_dir-Safe : (op : ℕ) (a : Action) → Safe P e (make_local_dir op a)
  unfolding make_local_dir
  make_local_dir-Safe op a = search action_rules depth 14

  make_remote_dir-Safe : (op : ℕ) (a : Action) → Safe P e (make_remote_dir op a)
  unfolding make_remote_dir
  make_remote_dir-Safe op a = search action_rules depth 14

  move_remotely-Safe : (op : ℕ) (a : Action) → Safe P e (move_remotely op a)
  unfolding move_remotely
  move_remotely-Safe op a = search action_rules depth 14

  upload_new-Safe : (op : ℕ) (a : Action) → Safe P e (upload_new op a)
  unfolding upload_new
  upload_new-Safe op a = search action_rules depth 16

  upload_again-Safe : (op : ℕ) (a : Action) → Safe P e (upload_again op a)
  unfolding upload_again
  upload_again-Safe op a = search action_rules depth 16

  adopt-Safe : (op : ℕ) (a : Action) → Safe P e (adopt op a)
  unfolding adopt
  adopt-Safe op a =
      Safe-if a.is_dir _ _ (λ _. search action_rules) (λ _. search action_rules depth 14)

  trash_remotely-Safe : (op : ℕ) (a : Action) → Safe P e (trash_remotely op a)
  unfolding trash_remotely
  trash_remotely-Safe op a = search action_rules

-- A local delete and a transfer, which replace files.
module _ {P : Bytes → FileData → Type 0} {e : Env} (op : ℕ) (a : Action)
    (may : (p : Bytes) (f : FileData) → MayReplace e a p f → P p f) where
  for_dir :
      a.kind ≡ quarantine_local
      → a.is_dir ≡ true
      → (rel : Bytes) → In rel (a.rel_path ∷ dirs_of a.subtree)
      → ((f : FileData) → P (abs e rel) f)
        × ((name : Bytes)
            → is_invisible e name ≡ true
            → (f : FileData) → P (child (quarantine_dest e rel) name) f)
  for_dir k dir rel m =
      ((λ f. may _ f (for_folder rel f k dir m)), λ name i f. may _ f (swept rel name f k dir m i))

  trash_locally-Safe : a.kind ≡ quarantine_local → Safe P e (trash_locally op a)
  unfolding trash_locally remove_dir
  trash_locally-Safe k =
      Safe-bind _ _
        (Safe-if a.is_dir _ _
          (λ dir. remove_covered-Safe a _ (remove_dir_per_item-Safe a (for_dir k dir)))
          (λ _. remove_file-Safe a.rel_path (exp_from_action a)))
        λ _. done_with-Safe op _

  back_up-Safe : Safe P e (back_up op a)
  unfolding back_up
  back_up-Safe =
      Safe-with (λ e n. abs e a.rel_path) _
        λ n.
          Safe-with (λ e n. abs e a.new_rel_path) _
            λ m.
              Safe-bind _ _
                (guarded_rename-Safe _ _ absent refuse_vanished (λ g h. absurd (ground arith)))
                λ _. done_with-Safe op _

  move_guarded-Safe : a.kind ≡ move_local → Safe P e (move_guarded op a)
  unfolding move_guarded target_of
  move_guarded-Safe k =
      Safe-with (λ e n. abs e a.rel_path) _
        λ n.
          Safe-with (λ e n. abs e a.new_rel_path) _
            λ m. Safe-bind _ _ (mkdir_all-Safe _) λ _.
              Safe-bind _ _
                (guarded_rename-Safe _ _ (exp_from_action a) allow_vanished
                  (λ g h. may _ g (pinned_target a.new_rel_path g (rw k refl) h)))
                λ _. commit_local_move-Safe op a

  move_if_absent-Safe : a.kind ≡ move_local → (b : Bool) → Safe P e (move_if_absent op a b)
  unfolding move_if_absent
  move_if_absent-Safe k false = move_guarded-Safe k
  move_if_absent-Safe k true = Safe-bind _ _ (Safe-setting _) λ to.
      Safe-bind _ _ (Safe-attempt _ (Safe-stat to))
        λ r. Safe-if _ _ _ (λ _. commit_local_move-Safe op a) (λ _. move_guarded-Safe k)

  move_locally-Safe : a.kind ≡ move_local → Safe P e (move_locally op a)
  unfolding move_locally
  move_locally-Safe k =
      Safe-if a.is_dir _ _
        (λ _.
          Safe-bind _ _ (Safe-setting _)
            λ from. Safe-bind _ _ (Safe-attempt _ (Safe-stat from)) λ r. move_if_absent-Safe k _)
        (λ _. move_guarded-Safe k)

  put_in_place-Safe :
      a.kind ≡ download
      → (tmp sum : Bytes) → Safe P e (put_in_place op a tmp (abs e a.rel_path) sum)
  unfolding put_in_place target_of
  put_in_place-Safe k tmp sum =
      Safe-bind _ _
        (guarded_rename-Safe tmp _ (exp_from_action a) refuse_vanished
          (λ g h. may _ g (pinned_target a.rel_path g (rw k refl) h)))
        λ _. Safe-bind _ _ (read_file-Safe (abs e a.rel_path)) λ f.
          Safe-bind _ _ (set_path_id-Safe a.rel_path a.file_id) λ _.
            Safe-bind _ _ (Safe-recall (version_of a.file_id a.version))
              λ version. done_with-Safe op _

  download_into-Safe :
      a.kind ≡ download
      → (n : ℕ) → Safe P e (download_into op a (temp_path e a n) (abs e a.rel_path))
  unfolding download_into
  download_into-Safe k n =
      let tmp = temp_path e a n in
      Safe-bind _ _ (Safe-drive _) λ body.
        Safe-bind _ _
          (Safe-on_disk tmp _
            (λ u d d' r. subst (Spares tmp d) (write_file-eq tmp _ d d' r) (insert-Spares tmp _ d))
            (λ g. may _ g (own_temp n g k)))
          λ _. Safe-bind _ _ (Safe-setting _) λ sum.
            Safe-if (is_wrong a sum) (fail wrong_content)
              (put_in_place op a tmp (abs e a.rel_path) sum) (λ _. Safe-give (inl wrong_content))
              (λ _. put_in_place-Safe k tmp sum)

  fetch_file-Safe : a.kind ≡ download → Safe P e (fetch_file op a)
  unfolding fetch_file
  fetch_file-Safe k =
      Safe-with (λ e n. abs e a.rel_path) _
        λ n. Safe-bind _ _ (mkdir_all-Safe _) λ _.
          Safe-with (λ e' n. dir_of (abs e a.rel_path) ++ b'/' ∷ (temp_prefix ++ e'.temp_suffix n))
            _
            λ m.
              Safe-bind _ _
                (Safe-on_disk (temp_path e a m) _
                  (λ u d d' r.
                    let (x, y) = create_new-eq (temp_path e a m) _ d d' r in
                    subst (Spares (temp_path e a m) d) y (insert-Spares (temp_path e a m) _ d))
                  (λ g. may _ g (own_temp m g k)))
                λ _. Safe-bind _ _ (Safe-attempt _ (download_into-Safe k m)) λ r.
                  Safe-bind _ _
                    (Safe-attempt _ (remove_own_temp-Safe _ (λ f t. may _ f (own_temp m f k))))
                    λ _. Safe-give r

perform-Safe :
    {P : Bytes → FileData → Type 0} (e : Env) (op : ℕ) (a : Action) (k : Kind)
    → ((p : Bytes) (f : FileData) → MayReplace e a p f → P p f)
    → a.kind ≡ k
    → Safe P e (perform op a k)
unfolding perform
perform-Safe e op a mkdir_local may k = make_local_dir-Safe op a
perform-Safe e op a mkdir_remote may k = make_remote_dir-Safe op a
perform-Safe e op a move_local may k = move_locally-Safe op a may k
perform-Safe e op a move_remote may k = move_remotely-Safe op a
perform-Safe e op a conflict_backup may k = back_up-Safe op a may
perform-Safe e op a upload may k = upload_new-Safe op a
perform-Safe e op a update_remote may k = upload_again-Safe op a
perform-Safe e op a download may k = fetch_file-Safe op a may k
perform-Safe e op a record_row may k = adopt-Safe op a
perform-Safe e op a trash_remote may k = trash_remotely-Safe op a
perform-Safe e op a quarantine_local may k = trash_locally-Safe op a may k
perform-Safe e op a forget may k = done_with-Safe op _

pub execute-Safe :
    {P : Bytes → FileData → Type 0} (e : Env) (op : ℕ) (a : Action)
    → ((p : Bytes) (f : FileData) → MayReplace e a p f → P p f)
    → Safe P e (execute op a)
unfolding execute
execute-Safe e op a may =
    Safe-bind _ _ (Safe-recall _)
      λ lost. Safe-if lost _ _ (λ _. Safe-give _) (λ _. perform-Safe e op a a.kind may refl)

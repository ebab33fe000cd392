-- ===== src/Tests/Execute.antt =====
-- Runs of the executor on a small disk.
use synckeeper.Base.{
  none, some, [], ◌∷◌, codes, ◌≡◌, refl, true, false, pos, inl, nat_eq, bytes_eq, int_eq,
  has_prefix,
}
use synckeeper.Base.Dict
use synckeeper.DriveClient.{not_found}
use synckeeper.DriveClient.Files.{File}
use synckeeper.Reconcile.Types.{Action, action, download, conflict_backup}
use synckeeper.Store.Types.{empty_db}
use synckeeper.Store.Exec.{Outside, reply, failed}
use synckeeper.Conflicts.{dir_of, base_of}
use synckeeper.Reconcile.Validate.Ancestors.{ancestors}
use synckeeper.Store.Exec.{ask, query, write, tx}
use synckeeper.Store.Ops.{complete_op, set_op_state}
use synckeeper.Store.Items.{upsert_item}
use synckeeper.Disk.{
  FileData, file, directory, is_blocked, rename, make_dir, create_new, write_file, remove,
}
use synckeeper.Executor.Gate.{
  exp_from_action, mkdir_all, guarded_rename, read_file, remove_own_temp,
}
use synckeeper.Executor.Remove.{under_root}
use synckeeper.Executor.Run.{
  stat_at, Env, State, Memory, refused, recall, setting, attempt, in_store, drive, look, give,
  remember, on_disk,
}
use synckeeper.Executor.Actions.{execute, set_path_id, done_with}
use synckeeper.Executor.Apply.{run_each, no_work}
use synckeeper.Executor.Once.{IsCommitted}
use synckeeper.Executor.Once.Actions.{execute-IsCommitted}

abbrev pub no_file : File
no_file = record {
  id = codes "1";
  name = codes "a";
  mime_type = [];
  md5 = codes "new";
  size = pos 3;
  version = pos 2;
  parents = [];
  trashed = false;
  modified_time = none;
}

abbrev pub calm : Outside
calm = record {
  sql_fails = λ n. false;
  now = λ n. pos 7;
  get = λ n id. failed not_found;
  list = λ n id. reply [];
  mkdir = λ n parent name. reply no_file;
  start_page_token = λ n. reply (codes "t1");
  changes = λ n token.
      reply (record { changes = []; next_page_token = []; new_start_token = codes "t2" });
}

-- The hash of a content is the content, and Drive has "new" in each file.
abbrev pub env : Env
env = record {
  outside = calm;
  move = λ n id parent name. reply no_file;
  upload = λ n parent name body. reply no_file;
  update = λ n id body. reply no_file;
  fetch = λ n id. reply (codes "new");
  trash = λ n id. reply tt;
  disk_fails = λ n. false;
  mtime_at = λ n. pos 9;
  temp_suffix = λ n. codes "1";
  md5 = λ c. c;
  bin_available = true;
  bin_fails = λ n. false;
  sync_dir = codes "/s";
  quarantine_dir = codes "/q";
  today = codes "2026-01-01";
  root_id = codes "r";
  matches = λ p n. some false;
  ignore = [];
  payload = λ a. [];
  rescue_tries = 9;
}

abbrev old_file : FileData
old_file = record { content = codes "old"; mtime_ns = pos 5 }

abbrev pub before : State
before = record {
  world = record { db = empty_db; calls = 0 };
  disk = (codes "/s", directory) ∷ (codes "/s/a", file old_file) ∷ [];
  bin = [];
  replaced = [];
  disk_calls = 0;
  memory = record {
    path_ids = ([], codes "r") ∷ [];
    failed_protectors = [];
    bumped_versions = [];
    quarantine_fell_to = 0;
  };
}

abbrev fetch_a : Action
fetch_a = record (action download (codes "a")) {
  file_id = codes "1";
  md5 = codes "new";
  local_exists = true;
  local_size = pos 3;
  local_mtime_ns = pos 5;
}

fetch_run :
    (execute 1 fetch_a env before).1.disk
    ≡ (codes "/s", directory)
      ∷ (codes "/s/a", file (record { content = codes "new"; mtime_ns = pos 9 }))
      ∷ []
unfolding execute synckeeper.Executor.Run.◌>>=◌ recall setting attempt in_store drive look give
    remember on_disk rename make_dir create_new write_file remove Dict.lookup Dict.insert
    synckeeper.Store.Exec.◌>>=◌ synckeeper.Store.Exec.pure ask query write tx complete_op
    upsert_item set_op_state bytes_eq nat_eq int_eq dir_of base_of has_prefix ancestors under_root
    mkdir_all guarded_rename read_file remove_own_temp stat_at is_blocked set_path_id done_with
    exp_from_action
fetch_run = refl

-- The file has changed since the scan.
touched_run : (execute 1 (record fetch_a { local_mtime_ns = pos 4 }) env before).0 ≡ inl refused
unfolding execute synckeeper.Executor.Run.◌>>=◌ recall setting attempt in_store drive look give
    remember on_disk rename make_dir create_new write_file remove Dict.lookup Dict.insert
    synckeeper.Store.Exec.◌>>=◌ synckeeper.Store.Exec.pure ask query write tx complete_op
    upsert_item set_op_state bytes_eq nat_eq int_eq dir_of base_of has_prefix ancestors under_root
    mkdir_all guarded_rename read_file remove_own_temp stat_at is_blocked set_path_id done_with
    exp_from_action
touched_run = refl

execute-IsCommitted_example :
    IsCommitted 1 before (execute 1 fetch_a env before).0 (execute 1 fetch_a env before).1
execute-IsCommitted_example = execute-IsCommitted env 1 fetch_a before

-- A backup of a file that is not there fails, and so does the download that it protects.
abbrev back_up_b : Action
back_up_b = record (action conflict_backup (codes "b")) { new_rel_path = codes "b2" }

abbrev fetch_b : Action
fetch_b = record (action download (codes "b")) { protected_by = codes "b" }

abbrev after_backup : State
after_backup = (run_each ((1, back_up_b) ∷ []) no_work env before).1

-- ===== src/Reconcile/Types.antt =====
-- internal/reconcile/types.go: the three snapshots, the plan's actions and the reported skips.
use synckeeper.Base.{Bytes, ℤ, pos, Bool, true, false, List, [], ℕ}
use synckeeper.Base.Dict.{Dict}

-- Baseline view of one path. An `int64` is a ℤ, a string its bytes.
pub record BaseItem : Type 0 where
  pub file_id : Bytes
  pub is_dir : Bool
  pub size : ℤ
  pub md5 : Bytes
  pub mtime_ns : ℤ
  pub drive_md5 : Bytes
  pub drive_version : ℤ

pub record LocalItem : Type 0 where
  pub is_dir : Bool
  pub size : ℤ
  pub mtime_ns : ℤ
  pub md5 : Bytes

pub record RemoteItem : Type 0 where
  pub file_id : Bytes
  pub is_dir : Bool
  pub size : ℤ
  pub md5 : Bytes
  pub version : ℤ
  pub modified_ns : ℤ

-- `stamp` is `Now` under the layout 2006-01-02_150405, the one use that is made of it.
-- A Go set of file ids is the list of its members.
pub record Input : Type 0 where
  pub base : Dict Bytes BaseItem
  pub local : Dict Bytes LocalItem
  pub remote : Dict Bytes RemoteItem
  pub machine : Bytes
  pub stamp : Bytes
  pub case_fold : Bool
  pub norm_fold : Bool
  pub prefer_newer : Bool
  pub shadowed_remote : List Bytes
  pub unreadable_local : List Bytes

-- The source's `Type`.
pub data Kind : Type 0 where
  mkdir_local : Kind
  mkdir_remote : Kind
  move_local : Kind
  move_remote : Kind
  conflict_backup : Kind
  upload : Kind
  update_remote : Kind
  download : Kind
  record_row : Kind
  trash_remote : Kind
  quarantine_local : Kind
  forget : Kind

pub record SubtreeEntry : Type 0 where
  pub rel_path : Bytes
  pub is_dir : Bool
  pub file_id : Bytes
  pub size : ℤ
  pub mtime_ns : ℤ

pub record Action : Type 0 where
  pub kind : Kind
  pub rel_path : Bytes
  pub new_rel_path : Bytes
  pub file_id : Bytes
  pub is_dir : Bool
  pub size : ℤ
  pub md5 : Bytes
  pub version : ℤ
  pub protected_by : Bytes
  pub subtree : List SubtreeEntry
  pub subtree_files : ℕ
  pub local_exists : Bool
  pub local_size : ℤ
  pub local_mtime_ns : ℤ

-- `Action{Type: k, RelPath: p}`, every other field at its zero value.
abbrev pub action : Kind → Bytes → Action
action k p = record {
  kind = k;
  rel_path = p;
  new_rel_path = [];
  file_id = [];
  is_dir = false;
  size = pos 0;
  md5 = [];
  version = pos 0;
  protected_by = [];
  subtree = [];
  subtree_files = 0;
  local_exists = false;
  local_size = pos 0;
  local_mtime_ns = pos 0;
}

-- `LocalExists: true, LocalSize: loc.Size, LocalMtimeNS: loc.MtimeNS`
abbrev pub pinned : LocalItem → Action → Action
pinned loc a = record a {
  local_exists = true;
  local_size = loc.size;
  local_mtime_ns = loc.mtime_ns;
}

-- The reasons that the planner reports, one constructor for each text.
pub data Reason : Type 0 where
  shadowed_file : Reason
  shadowed_folder : Reason
  unreadable_file : Reason
  unreadable_folder : Reason
  file_became_directory : Reason
  folder_here_file_in_drive : Reason
  file_here_folder_in_drive : Reason
  one_side_each : Reason

-- `Unreadable` and `Duplicate` are set by the scanner and the remote mirror, never here.
pub record Skip : Type 0 where
  pub rel_path : Bytes
  pub reason : Reason
  pub file_id : Bytes

abbrev pub is_move : Kind → Bool
is_move move_local = true
is_move move_remote = true
is_move conflict_backup = true
is_move _ = false

abbrev pub is_backup : Kind → Bool
is_backup conflict_backup = true
is_backup _ = false

abbrev pub is_delete : Kind → Bool
is_delete trash_remote = true
is_delete quarantine_local = true
is_delete forget = true
is_delete _ = false

-- What `executor` runs concurrently: the transfer stage.
abbrev pub is_transfer : Kind → Bool
is_transfer upload = true
is_transfer update_remote = true
is_transfer download = true
is_transfer record_row = true
is_transfer _ = false

abbrev pub is_mkdir : Kind → Bool
is_mkdir mkdir_local = true
is_mkdir mkdir_remote = true
is_mkdir _ = false

-- A delete that goes to a bin, which a directory delete may absorb.
abbrev pub is_binned : Kind → Bool
is_binned quarantine_local = true
is_binned trash_remote = true
is_binned _ = false

abbrev pub is_quarantine : Kind → Bool
is_quarantine quarantine_local = true
is_quarantine _ = false

abbrev pub is_trash : Kind → Bool
is_trash trash_remote = true
is_trash _ = false

-- ===== src/Store/Types.antt =====
-- internal/statedb: the rows of the tables, and the database as the tables together.
use synckeeper.Base.{Bool, List, [], Bytes, codes, ℤ, ℕ}
use synckeeper.Base.Dict.{Dict}

-- A row of `items`: the baseline state of a synced path.
pub record Item : Type 0 where
  pub drive_file_id : Bytes
  pub rel_path : Bytes
  pub is_dir : Bool
  pub size : ℤ
  pub content_md5 : Bytes
  pub local_mtime_ns : ℤ
  pub drive_md5 : Bytes
  pub drive_version : ℤ
  pub synced_at : ℤ

pub data OpState : Type 0 where
  planned in_progress done : OpState

-- A journal row.
pub record PendingOp : Type 0 where
  pub id : ℕ
  pub op_type : Bytes
  pub rel_path : Bytes
  pub file_id : Bytes
  pub payload : Bytes
  pub op_state : OpState

-- The cached metadata of one Drive file.
pub record RemoteNode : Type 0 where
  pub file_id : Bytes
  pub parent_id : Bytes
  pub name : Bytes
  pub mime_type : Bytes
  pub md5 : Bytes
  pub size : ℤ
  pub version : ℤ
  pub trashed : Bool
  pub modified_ns : ℤ

-- `last_op` is what `autoincrement` remembers of the journal's ids.
pub record Db : Type 0 where
  pub items : List Item
  pub ops : List PendingOp
  pub last_op : ℕ
  pub nodes : List RemoteNode
  pub meta : Dict Bytes Bytes

abbrev pub page_token : Bytes
page_token = codes "page_token"

abbrev pub root_folder_id : Bytes
root_folder_id = codes "root_folder_id"

abbrev pub root_folder_name : Bytes
root_folder_name = codes "root_folder_name"

abbrev pub empty_db : Db
empty_db = record { items = []; ops = []; last_op = 0; nodes = []; meta = [] }

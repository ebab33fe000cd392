-- ===== src/Tests/Cycle.antt =====
-- Runs of a cycle's planning half, of the changes feed and of Resolve after a failed read.
use synckeeper.Base.{
  sort_by, inr, ◌+◌, none, [], ◌∷◌, Bytes, codes, ◌≡◌, refl, true, false, pos, ltb, nat_eq,
  bytes_eq, int_eq, ◌==◌, arith,
}
use synckeeper.Names.{Unicode}
use synckeeper.DriveClient.{not_found}
use synckeeper.DriveClient.Files.{File, folder_mime_type, find_folder}
use synckeeper.Reconcile.Types.{RemoteItem}
use synckeeper.Store.Types.{Item, empty_db, root_folder_id, page_token}
use synckeeper.Store.Exec.{Outside, World, reply, failed}
use synckeeper.Store.Ensures.{Post}
use synckeeper.RemoteDelta.Changes.{consume_changes}
use synckeeper.RemoteDelta.Changes.Token.{IsMirrorChange, IsTaken, consume_changes-token}
use synckeeper.Root.{resolve}
use synckeeper.Root.Unread.{resolve_unread}
use synckeeper.Scanner.{unread}
use synckeeper.Engine.{Cycle, plan_cycle, count_tracked}
use synckeeper.Guards.SyncDir.{missing, ensure_sync_dir}
use synckeeper.Store.Exec.{ok, query, ◌>>=◌, pure, tx, write}
use synckeeper.Store.Items.{all_items, reset_baseline}
use synckeeper.Engine.Start.{start_cycle}
use synckeeper.Engine.Held.{executed}
use synckeeper.Engine.Gate.{IsModest, plan_cycle-IsModest}

abbrev plain : Unicode
plain = record { nfc = λ s. s; to_lower = λ s. s }

abbrev row_of : Bytes → Bytes → Item
row_of id path = record {
  drive_file_id = id;
  rel_path = path;
  is_dir = false;
  size = pos 3;
  content_md5 = codes "m";
  local_mtime_ns = pos 5;
  drive_md5 = codes "m";
  drive_version = pos 1;
  synced_at = pos 0;
}

abbrev remote_file : Bytes → RemoteItem
remote_file id = record {
  file_id = id;
  is_dir = false;
  size = pos 3;
  md5 = codes "m";
  version = pos 1;
  modified_ns = pos 0;
}

-- A folder here cannot be read; a file of it and another one are tracked, and the other is gone on
-- Drive.
abbrev locked : Cycle
locked = record {
  items = row_of (codes "1") (codes "d/a") ∷ row_of (codes "2") (codes "b") ∷ [];
  remote = (codes "d/a", remote_file (codes "1")) ∷ [];
  remote_skips = [];
  local =
      (codes "d", record { is_dir = true; size = pos 0; mtime_ns = pos 0; md5 = [] })
      ∷ (codes "b", record { is_dir = false; size = pos 3; mtime_ns = pos 5; md5 = codes "m" })
      ∷ [];
  local_skips = record { rel_path = codes "d"; reason = unread; unreadable = true } ∷ [];
  machine = codes "m";
  stamp = codes "t";
  case_fold = false;
  norm_fold = false;
  prefer_newer = false;
  trash_available = false;
  exceeds = λ d t. ltb t (d + d);
  confirm_deletes = false;
  defer_mass_delete = true;
  dry_run = false;
}

plan_cycle-IsModest_example : IsModest locked (executed (plan_cycle plain locked))
unfolding count_tracked
plan_cycle-IsModest_example =
    plan_cycle-IsModest plain locked refl refl (λ (e : 2 ≡ 0). absurd (omega arith))

abbrev named : File
named = record {
  id = codes "other";
  name = codes "sync";
  mime_type = folder_mime_type;
  md5 = [];
  size = pos 0;
  version = pos 1;
  parents = [];
  trashed = false;
  modified_time = none;
}

-- The first statement fails, and Drive has a folder of the name beside the one that is stored.
abbrev flaky : Outside
flaky = record {
  sql_fails = λ n. n == 0;
  now = λ n. pos 7;
  get = λ n id. failed not_found;
  list = λ n id. reply (named ∷ []);
  mkdir = λ n parent name. reply named;
  start_page_token = λ n. reply (codes "t1");
  changes = λ n token.
      reply (record { changes = []; next_page_token = []; new_start_token = codes "t2" });
}

abbrev linked : World
linked = record {
  db = record empty_db {
    items = row_of (codes "1") (codes "a") ∷ [];
    meta = (root_folder_id, codes "mine") ∷ (page_token, codes "t0") ∷ [];
  };
  calls = 0;
}

abbrev later : World
later = record linked { calls = 1 }

consume_changes-token_example :
    Post
      (λ _. IsTaken linked.db)
      (IsMirrorChange linked.db)
      (consume_changes 9 (codes "mine") flaky later).0
      (consume_changes 9 (codes "mine") flaky later).1.db
consume_changes-token_example = consume_changes-token 9 (codes "mine") flaky later

resolve_unread_example : (resolve 9 (codes "sync") flaky linked).1.db.items ≡ []
unfolding nat_eq bytes_eq find_folder
resolve_unread_example =
    resolve_unread 9 (codes "sync") flaky linked (named ∷ []) named refl (λ k lt. ground arith) refl
      refl (λ e. ground arith)

start_run : (start_cycle missing true flaky later).0 ≡ ok (inr [])
unfolding start_cycle all_items query ◌>>=◌ pure tx write reset_baseline nat_eq bytes_eq
    ensure_sync_dir sort_by
start_run = refl

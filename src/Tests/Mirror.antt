-- ===== src/Tests/Mirror.antt =====
-- Runs of internal/root, internal/remotedelta and internal/statedb on small worlds.
use synckeeper.Base.{
  none, some, List, [], ◌∷◌, ◌++◌, Bytes, codes, ◌≡◌, ◌≢◌, refl, true, false, pos, ◌⊎◌, nat_eq,
  bytes_eq, int_eq, ℤ, ◌==◌,
}
use synckeeper.Base.Dict
use synckeeper.DriveClient.{not_found}
use synckeeper.DriveClient.Files.{File, folder_mime_type}
use synckeeper.Reconcile.Types.{RemoteItem}
use synckeeper.Store.Types.{Item, RemoteNode, empty_db, root_folder_id}
use synckeeper.Store.Exec.{
  Outside, World, ok, stuck, reply, failed, tick, pure, tx, ◌>>=◌, attempt, query, ask, write,
}
use synckeeper.Store.Ensures.{Post}
use synckeeper.Store.Items.{
  upsert_item, delete_items_by_id, delete_item_by_id, rename_item_path, update_item_drive,
  reset_baseline, without_items,
}
use synckeeper.Store.Ops.{complete_op}
use synckeeper.Store.Meta.{get_meta, set_meta, delete_meta}
use synckeeper.RemoteDelta.Walk.{full_walk}
use synckeeper.RemoteDelta.Refresh.{force_full_walk}
use synckeeper.Store.Nodes.{clear_remote_nodes, delete_remote_nodes, without_nodes}
use synckeeper.Store.Like.{like, escape_like, has_prefix_fold}
use synckeeper.Store.Atomic.{complete_op_atomic, set_done}
use synckeeper.Store.Batches.{delete_batches_exact}
use synckeeper.Store.Pattern.{like-escape_like}
use synckeeper.Store.Unique.{UpsertEnds, stored_time, IsUnique, Stored, items_stay-IsUnique}
use synckeeper.RemoteDelta.Prune.{prune, reachable}
use synckeeper.RemoteDelta.Prune.Exact.{IsPruned, IsPruning, prune_exact}
use synckeeper.RemoteDelta.Snapshot.Kept.{IsKept}
use synckeeper.RemoteDelta.Snapshot.{Frame, gather_folder, Setting, Gathered, Frame, snapshot_of}
use synckeeper.RemoteDelta.Snapshot.Moves.{IsUnder, IsEntry, IsLocated}
use synckeeper.RemoteDelta.Snapshot.Accounted.{IsCovered, snapshot_exact}
use synckeeper.Root.{resolve}
use synckeeper.Root.Safe.{IsFound, IsSafe, resolve-IsSafe}

abbrev fresh : File
fresh = record {
  id = codes "new";
  name = codes "sync";
  mime_type = folder_mime_type;
  md5 = [];
  size = pos 0;
  version = pos 1;
  parents = [];
  trashed = false;
  modified_time = none;
}

-- Drive has lost the folder, and all else goes well.
abbrev gone : Outside
gone = record {
  sql_fails = λ n. false;
  now = λ n. pos 7;
  get = λ n id. failed not_found;
  list = λ n id. reply [];
  mkdir = λ n parent name. reply fresh;
  start_page_token = λ n. reply (codes "t1");
  changes = λ n token.
      reply (record { changes = []; next_page_token = []; new_start_token = codes "t2" });
}

abbrev row : Item
row = record {
  drive_file_id = codes "i1";
  rel_path = codes "a.txt";
  is_dir = false;
  size = pos 3;
  content_md5 = codes "m";
  local_mtime_ns = pos 5;
  drive_md5 = codes "m";
  drive_version = pos 1;
  synced_at = pos 0;
}

abbrev node : Bytes → Bytes → Bytes → Bytes → RemoteNode
node id parent name mime = record {
  file_id = id;
  parent_id = parent;
  name = name;
  mime_type = mime;
  md5 = [];
  size = pos 0;
  version = pos 1;
  trashed = false;
  modified_ns = pos 0;
}

-- A folder with a file, a file of an unknown parent, and two folders that hold one another.
abbrev mirror : List RemoteNode
mirror =
    node (codes "d") (codes "r") (codes "docs") folder_mime_type
    ∷ node (codes "f") (codes "d") (codes "a.txt") []
    ∷ node (codes "x") (codes "gone") (codes "b.txt") []
    ∷ node (codes "p") (codes "q") (codes "p") folder_mime_type
    ∷ node (codes "q") (codes "p") (codes "q") folder_mime_type
    ∷ []

abbrev tracked : World
tracked = record {
  db = record empty_db {
    items = row ∷ [];
    nodes = mirror;
    meta = (root_folder_id, codes "old") ∷ [];
  };
  calls = 0;
}

resolve_run :
    (resolve 9 (codes "sync") gone tracked).0
    ≡ ok (record { id = codes "new"; name = codes "sync"; created = true; renamed = false })
unfolding resolve nat_eq bytes_eq ◌>>=◌ attempt get_meta query Dict.lookup pure ask tx set_meta
    write reset_baseline delete_meta force_full_walk clear_remote_nodes full_walk
resolve_run = refl

reachable_run : reachable mirror (codes "r") ≡ some (codes "f" ∷ codes "d" ∷ [])
unfolding reachable nat_eq bytes_eq
reachable_run = refl

resolve-IsSafe_example :
    Post
      (IsFound tracked.db)
      (IsSafe tracked.db)
      (resolve 9 (codes "sync") gone tracked).0
      (resolve 9 (codes "sync") gone tracked).1.db
resolve-IsSafe_example = resolve-IsSafe 9 (codes "sync") gone tracked

prune_exact_example :
    ((prune (codes "r") gone tracked).0 ≢ stuck)
    × Post
        (λ _. IsPruned (codes "r") tracked.db)
        (IsPruning (codes "r") tracked.db)
        (prune (codes "r") gone tracked).0
        (prune (codes "r") gone tracked).1.db
prune_exact_example = prune_exact (codes "r") gone tracked

abbrev setting : Setting
setting = record {
  unicode = record { nfc = λ s. s; to_lower = λ s. s };
  matches = λ p s. some (p == s);
  ignore = codes "b.txt" ∷ [];
  case_fold = true;
  norm_fold = false;
}

snapshot_exact_example :
    (g : Gathered) × (snapshot_of setting mirror (codes "r") ≡ some g)
    × ((p : Bytes) (item : RemoteItem)
        → Dict.lookup p g.snapshot ≡ some item
        → IsEntry setting mirror (codes "r") p item)
    × IsCovered setting mirror (codes "r") g (record { id = codes "r"; rel_path = [] })
    × ((p : Bytes) (item : RemoteItem)
        → Dict.lookup p g.snapshot ≡ some item
        → item.is_dir ≡ true
        → (f : Frame) × (f.id ≡ item.file_id)
          × IsLocated mirror (codes "r") f
          × IsCovered setting mirror (codes "r") g f)
    × ((f : Frame) (h : Gathered) (n : RemoteNode)
        → IsUnder mirror f n
        → IsKept setting (gather_folder setting mirror f h) f.rel_path n)
snapshot_exact_example = snapshot_exact setting mirror (codes "r")

complete_op_atomic_example :
    (((complete_op 3 reset_baseline gone tracked).0 ≡ ok tt)
      × ((reset_baseline gone (tick tracked)).0 ≡ ok tt)
      × ((complete_op 3 reset_baseline gone tracked).1.db
          ≡ set_done 3 (reset_baseline gone (tick tracked)).1.db))
    ⊎ (((complete_op 3 reset_baseline gone tracked).0 ≢ ok tt)
        × ((complete_op 3 reset_baseline gone tracked).1.db ≡ tracked.db))
complete_op_atomic_example = complete_op_atomic 3 reset_baseline gone tracked

delete_batches_exact_example :
    ((delete_items_by_id (codes "i1" ∷ []) gone tracked).0 ≢ stuck)
    × Post
        (λ _ d. d ≡ record tracked.db { items = without_items (codes "i1" ∷ []) tracked.db.items })
        (λ _. Unit)
        (delete_items_by_id (codes "i1" ∷ []) gone tracked).0
        (delete_items_by_id (codes "i1" ∷ []) gone tracked).1.db
    × ((delete_remote_nodes (codes "i1" ∷ []) gone tracked).0 ≢ stuck)
    × Post
        (λ _ d. d ≡ record tracked.db { nodes = without_nodes (codes "i1" ∷ []) tracked.db.nodes })
        (λ _. Unit)
        (delete_remote_nodes (codes "i1" ∷ []) gone tracked).0
        (delete_remote_nodes (codes "i1" ∷ []) gone tracked).1.db
delete_batches_exact_example = delete_batches_exact (codes "i1" ∷ []) gone tracked

like-escape_like_example :
    like (escape_like (codes "a_b/") ++ codes "%") (codes "A_b/c")
    ≡ has_prefix_fold (codes "A_b/c") (codes "a_b/")
like-escape_like_example = like-escape_like (codes "a_b/") (codes "A_b/c")

items_stay-IsUnique_example :
    ((it : Item)
      → let z = upsert_item it gone tracked in
        Post (λ _. Stored it) (λ d. IsUnique d.items) z.0 z.1.db
        × UpsertEnds gone it (stored_time gone tracked it) tracked.db.items z.0 z.1.db.items)
    × ((id : Bytes) → IsUnique (delete_item_by_id id gone tracked).1.db.items)
    × ((ids : List Bytes) → IsUnique (delete_items_by_id ids gone tracked).1.db.items)
    × ((old_path new_path : Bytes)
        → IsUnique (rename_item_path old_path new_path gone tracked).1.db.items)
    × ((id md5 : Bytes) (version : ℤ)
        → IsUnique (update_item_drive id md5 version gone tracked).1.db.items)
    × IsUnique (reset_baseline gone tracked).1.db.items
items_stay-IsUnique_example = items_stay-IsUnique gone tracked (tt, tt)

-- ===== src/RemoteDelta/Walk.antt =====
-- internal/remotedelta/remotedelta.go: `toNode` and `fullWalk`.
pub mod Keeps
use synckeeper.Base.{
  ℕ, zero, suc, Option, none, some, List, [], ◌∷◌, ◌++◌, Bytes, ℤ, pos, codes, if◌then◌else◌,
}
use synckeeper.DriveClient.Files.{File, is_dir}
use synckeeper.Store.Types.{RemoteNode}
use synckeeper.Store.Exec.{Exec, Outside, pure, out_of_fuel, ask, ◌>>=◌, ◌>>◌}
use synckeeper.Store.Nodes.{upsert_remote_node}

-- MetaWalkDone
abbrev pub walk_done : Bytes
walk_done = codes "initial_walk_done"

-- A time that is not known has the stamp 0.
abbrev stamp : Option ℤ → ℤ
stamp none = pos 0
stamp (some t) = t

unfoldable pub to_node : File → Bytes → RemoteNode
to_node f parent = record {
  file_id = f.id;
  parent_id = parent;
  name = f.name;
  mime_type = f.mime_type;
  md5 = f.md5;
  size = f.size;
  version = f.version;
  trashed = f.trashed;
  modified_ns = stamp f.modified_time;
}

-- The inner loop: the rows of the children, and the queue with the folders among them.
unfoldable pub record_children : Bytes → List File → List Bytes → Exec (List Bytes)
unfolding to_node
record_children parent [] queue = pure queue
record_children parent (f ∷ files) queue = do
  upsert_remote_node (to_node f parent)
  record_children parent files (if is_dir f then queue ++ f.id ∷ [] else queue)

unfoldable pub full_walk : ℕ → List Bytes → Exec Unit
unfolding record_children
full_walk fuel [] = pure tt
full_walk zero (parent ∷ queue) = out_of_fuel
full_walk (suc fuel) (parent ∷ queue) = do
  children ← ask (λ o n. o.list n parent)
  queue' ← record_children parent children queue
  full_walk fuel queue'

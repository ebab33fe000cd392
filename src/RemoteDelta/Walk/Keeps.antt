-- ===== src/RemoteDelta/Walk/Keeps.antt =====
-- internal/remotedelta/remotedelta.go: a walk writes nothing but the mirror.
use synckeeper.Base.{ℕ, zero, suc, some, List, [], ◌∷◌, Bytes, subst, arith}
use synckeeper.DriveClient.Files.{File}
use synckeeper.Store.Types.{Db, RemoteNode}
use synckeeper.Store.Exec.{write}
use synckeeper.Store.Ensures.{
  Keeps, Ensures-pure, Ensures-out_of_fuel, Ensures-ask, Ensures-write, Ensures-bind,
}
use synckeeper.Store.Nodes.{upsert_remote_node, delete_remote_node, clear_remote_nodes}
use synckeeper.RemoteDelta.Walk.{full_walk, record_children}

-- A condition that does not look at the mirror.
abbrev pub IsMirrorFree : (Db → Type 0) → Type 0
IsMirrorFree P = (d : Db) (nodes : List RemoteNode) → P d → P (record d { nodes = nodes })

module _ {P : Db → Type 0} (free : IsMirrorFree P) where
  set_nodes-Keeps :
      (f : List RemoteNode → List RemoteNode)
      → Keeps P (write (λ d. some (record d { nodes = f d.nodes })))
  set_nodes-Keeps f =
      Ensures-write _ (λ d d' h e. subst P (ground arith) (free d (f d.nodes) h)) (λ d h. h)

  pub upsert_remote_node-Keeps : (n : RemoteNode) → Keeps P (upsert_remote_node n)
  unfolding upsert_remote_node
  upsert_remote_node-Keeps n = set_nodes-Keeps _

  pub delete_remote_node-Keeps : (id : Bytes) → Keeps P (delete_remote_node id)
  unfolding delete_remote_node
  delete_remote_node-Keeps id = set_nodes-Keeps _

  pub clear_remote_nodes-Keeps : Keeps P clear_remote_nodes
  unfolding clear_remote_nodes
  clear_remote_nodes-Keeps = set_nodes-Keeps (λ _. [])

  record_children-Keeps :
      (parent : Bytes) (files : List File) (queue : List Bytes)
      → Keeps P (record_children parent files queue)
  unfolding record_children
  record_children-Keeps parent [] queue = Ensures-pure queue (λ d h. h)
  record_children-Keeps parent (f ∷ files) queue =
      Ensures-bind (λ _. P) _ _ (upsert_remote_node-Keeps _)
        (λ _. record_children-Keeps parent files _)

  pub full_walk-Keeps : (fuel : ℕ) (queue : List Bytes) → Keeps P (full_walk fuel queue)
  unfolding full_walk
  full_walk-Keeps fuel [] = Ensures-pure tt (λ d h. h)
  full_walk-Keeps zero (parent ∷ queue) = Ensures-out_of_fuel (λ d h. h)
  full_walk-Keeps (suc fuel) (parent ∷ queue) =
      Ensures-bind (λ _. P) _ _ (Ensures-ask _ (λ a d h. h) (λ d h. h))
        (λ children.
          Ensures-bind (λ _. P) _ _ (record_children-Keeps parent children queue)
            (λ queue'. full_walk-Keeps fuel queue'))

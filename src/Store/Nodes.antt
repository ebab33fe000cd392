-- ===== src/Store/Nodes.antt =====
-- internal/statedb/remote_nodes.go: the table `remote_nodes`, the mirror of Drive's metadata.
use synckeeper.Base.{
  ℕ, zero, suc, Bool, not, some, List, [], ◌∷◌, Bytes, bytes_eq, ◌==◌, keep, any, take, drop,
  length, if◌then◌else◌,
}
use synckeeper.Base.Dict
use synckeeper.Store.Types.{RemoteNode}
use synckeeper.Store.Exec.{Exec, pure, query, write, out_of_fuel, ◌>>◌}

-- The row replaces that of its id, or comes last.
unfoldable pub put_node : RemoteNode → List RemoteNode → List RemoteNode
put_node n [] = n ∷ []
put_node n (m ∷ ms) = if m.file_id == n.file_id then n ∷ ms else m ∷ put_node n ms

-- UpsertRemoteNode, and UpsertRemoteNodeTx inside a transaction.
unfoldable pub upsert_remote_node : RemoteNode → Exec Unit
unfolding put_node
upsert_remote_node n = write (λ d. some (record d { nodes = put_node n d.nodes }))

unfoldable pub delete_remote_node : Bytes → Exec Unit
delete_remote_node id =
    write (λ d. some (record d { nodes = keep (λ n. not (n.file_id == id)) d.nodes }))

-- One `delete ... in (...)` statement.
abbrev pub without_nodes : List Bytes → List RemoteNode → List RemoteNode
without_nodes ids = keep (λ n. not (Dict.contains n.file_id ids))

-- `batch`
abbrev pub batch_size : ℕ
batch_size = 400

-- The rounds of a batched delete, whose statement takes at most 400 ids.
unfoldable pub batches : (List Bytes → Exec Unit) → ℕ → List Bytes → Exec Unit
batches delete fuel [] = pure tt
batches delete zero (id ∷ ids) = out_of_fuel
batches delete (suc fuel) (id ∷ ids) = do
  delete (take batch_size (id ∷ ids))
  batches delete fuel (drop batch_size (id ∷ ids))

unfoldable pub delete_node_batch : List Bytes → Exec Unit
delete_node_batch ids = write (λ d. some (record d { nodes = without_nodes ids d.nodes }))

unfoldable pub delete_remote_nodes : List Bytes → Exec Unit
unfolding batches delete_node_batch
delete_remote_nodes ids = batches delete_node_batch (length ids) ids

unfoldable pub clear_remote_nodes : Exec Unit
clear_remote_nodes = write (λ d. some (record d { nodes = [] }))

unfoldable pub has_remote_node : Bytes → Exec Bool
has_remote_node id = query (λ d. any (λ n. n.file_id == id) d.nodes)

unfoldable pub all_remote_nodes : Exec (List RemoteNode)
all_remote_nodes = query (λ d. d.nodes)

-- ===== src/RemoteDelta/Prune.antt =====
-- internal/remotedelta/remotedelta.go: `prune`, which drops the rows that no path of live rows
-- joins to the root folder.
pub mod Marks
pub mod Reached
pub mod Exact
use synckeeper.Base.{
  ℕ, zero, suc, ◌+◌, Bool, not, ◌&&◌, Option, none, some, List, [], ◌∷◌, ◌++◌, Bytes, bytes_eq,
  ◌==◌, keep, map, length, if◌then◌else◌,
}
use synckeeper.Base.Dict
use synckeeper.Store.Types.{RemoteNode}
use synckeeper.Store.Exec.{Exec, pure, out_of_fuel, ◌>>=◌, ◌>>◌}
use synckeeper.Store.Nodes.{all_remote_nodes, delete_remote_node}

-- `children[id]`
abbrev pub children_of : List RemoteNode → Bytes → List RemoteNode
children_of nodes id = keep (λ n. not n.trashed && n.parent_id == id) nodes

-- The sets of the search: what is reached, and what is to be looked at.
pub record Search : Type 0 where
  pub reached : List Bytes
  pub queue : List Bytes

unfoldable pub mark : RemoteNode → Search → Search
mark n s =
    if Dict.contains n.file_id s.reached
    then s
    else record { reached = n.file_id ∷ s.reached; queue = s.queue ++ n.file_id ∷ [] }

unfoldable pub mark_each : List RemoteNode → Search → Search
mark_each [] s = s
mark_each (n ∷ kids) s = mark_each kids (mark n s)

unfoldable pub search_loop : ℕ → List RemoteNode → List Bytes → List Bytes → Option (List Bytes)
unfolding mark_each mark
search_loop fuel nodes reached [] = some reached
search_loop zero nodes reached (id ∷ queue) = none
search_loop (suc fuel) nodes reached (id ∷ queue) =
    let s = mark_each (children_of nodes id) (record { reached = reached; queue = queue }) in
    search_loop fuel nodes s.reached s.queue

-- `reachable`: each round takes an id off the queue, and each row puts one on it at most once.
unfoldable pub reachable : List RemoteNode → Bytes → Option (List Bytes)
unfolding search_loop
reachable nodes root = search_loop (length nodes + 1) nodes [] (root ∷ [])

unfoldable pub drop_unreached : List Bytes → List RemoteNode → Exec Unit
drop_unreached reached [] = pure tt
drop_unreached reached (n ∷ nodes) =
    let rest = drop_unreached reached nodes in
    if Dict.contains n.file_id reached then rest else (do delete_remote_node n.file_id; rest)

unfoldable pub drop_rest : Option (List Bytes) → List RemoteNode → Exec Unit
drop_rest none nodes = out_of_fuel
drop_rest (some reached) nodes = drop_unreached reached nodes

unfoldable pub prune : Bytes → Exec Unit
unfolding drop_rest drop_unreached
prune root = do nodes ← all_remote_nodes; drop_rest (reachable nodes root) nodes

-- ===== src/Store/Reads.antt =====
-- internal/statedb: what reads nothing changes.
use synckeeper.Base.{Option, none, some, Bytes, ◌≡◌, refl, length}
use synckeeper.Store.Types.{Db}
use synckeeper.Store.Exec.{absent}
use synckeeper.Store.Ensures.{
  Ensures, Keeps, Ensures-pure, Ensures-raise, Ensures-query, Ensures-bind,
}
use synckeeper.Store.Meta.{get_meta, found, item_count}
use synckeeper.Store.Nodes.{has_remote_node, all_remote_nodes}

module _ {P : Db → Type 0} where
  found-Keeps : (v : Option Bytes) → Keeps P (found v)
  unfolding found
  found-Keeps none = Ensures-raise absent (λ d h. h)
  found-Keeps (some v) = Ensures-pure v (λ d h. h)

  pub get_meta-Keeps : (key : Bytes) → Keeps P (get_meta key)
  unfolding get_meta
  get_meta-Keeps key =
      Ensures-bind (λ _. P) _ _ (Ensures-query _ (λ d h. h) (λ d h. h)) λ v. found-Keeps v

  pub item_count_lem : Ensures P item_count (λ n d. P d × (n ≡ length d.items)) P
  unfolding item_count
  item_count_lem = Ensures-query _ (λ d h. (h, refl)) (λ d h. h)

  pub has_remote_node-Keeps : (id : Bytes) → Keeps P (has_remote_node id)
  unfolding has_remote_node
  has_remote_node-Keeps id = Ensures-query _ (λ d h. h) (λ d h. h)

  pub all_remote_nodes_lem : Ensures P all_remote_nodes (λ ns d. P d × (ns ≡ d.nodes)) P
  unfolding all_remote_nodes
  all_remote_nodes_lem = Ensures-query _ (λ d h. (h, refl)) (λ d h. h)

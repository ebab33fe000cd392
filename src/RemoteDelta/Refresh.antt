-- ===== src/RemoteDelta/Refresh.antt =====
-- internal/remotedelta/remotedelta.go: `Refresh` and `ForceFullWalk`.
use synckeeper.Base.{ℕ, [], ◌∷◌, Bytes, codes, ◌⊎◌, inl, inr}
use synckeeper.Store.Types.{page_token}
use synckeeper.Store.Exec.{
  Error, sql, absent, drive, no_token, Exec, pure, raise, ask, attempt, ◌>>=◌, ◌>>◌,
}
use synckeeper.Store.Meta.{get_meta, set_meta}
use synckeeper.Store.Nodes.{clear_remote_nodes}
use synckeeper.RemoteDelta.Walk.{walk_done, full_walk}
use synckeeper.RemoteDelta.Changes.{consume_changes}
use synckeeper.RemoteDelta.Prune.{prune}

-- The first sync has no marker yet.
unfoldable pub first_walk : ℕ → Bytes → (Error ⊎ Bytes) → Exec Unit
first_walk fuel root (inr marker) = pure tt
first_walk fuel root (inl absent) = do full_walk fuel (root ∷ []); set_meta walk_done (codes "1")
first_walk fuel root (inl sql) = raise sql
first_walk fuel root (inl (drive f)) = raise (drive f)
first_walk fuel root (inl no_token) = raise no_token

unfoldable pub refresh : ℕ → Bytes → Exec Unit
unfolding first_walk
refresh fuel root = do
  marker ← attempt (get_meta walk_done)
  first_walk fuel root marker
  consume_changes fuel root
  prune root

unfoldable pub force_full_walk : ℕ → Bytes → Exec Unit
force_full_walk fuel root = do
  token ← ask (λ o n. o.start_page_token n)
  clear_remote_nodes
  full_walk fuel (root ∷ [])
  set_meta page_token token
  set_meta walk_done (codes "1")

-- ===== src/RemoteDelta/Changes.antt =====
-- internal/remotedelta/remotedelta.go: `consumeChanges`.
pub mod Token
use synckeeper.Base.{
  ℕ, zero, suc, Bool, false, not, ◌&&◌, ◌||◌, Option, none, some, List, [], ◌∷◌, ◌++◌, Bytes,
  bytes_eq, ◌==◌, if◌then◌else◌,
}
use synckeeper.DriveClient.Files.{File, Change, ChangePage, is_dir}
use synckeeper.Store.Types.{page_token}
use synckeeper.Store.Exec.{Exec, no_token, pure, raise, out_of_fuel, ask, ◌>>=◌, ◌>>◌}
use synckeeper.Store.Meta.{get_meta, set_meta}
use synckeeper.Store.Nodes.{upsert_remote_node, delete_remote_node, has_remote_node}
use synckeeper.RemoteDelta.Walk.{to_node, full_walk}

-- `parent`, "" for a file without one.
abbrev pub first_parent : List Bytes → Bytes
first_parent [] = []
first_parent (p ∷ ps) = p

-- Is the folder new to the mirror while its parent is not?
unfoldable pub is_new_subtree : Bytes → File → Bytes → Exec Bool
is_new_subtree root f parent =
    if is_dir f
    then (do
      known ← has_remote_node f.id
      parent_known ←
          (if not (parent == root) && not (parent == [])
            then has_remote_node parent
            else pure (parent == root))
      pure (not known && parent_known))
    else pure false

-- The default case of the loop, with the walks that it asks for.
unfoldable pub apply_file : Bytes → File → List Bytes → Exec (List Bytes)
unfolding is_new_subtree
apply_file root f walks = do
  let parent = first_parent f.parents
  fresh ← is_new_subtree root f parent
  upsert_remote_node (to_node f parent)
  pure (if fresh then walks ++ f.id ∷ [] else walks)

unfoldable pub apply_change : Bytes → Bytes → Bool → Option File → List Bytes → Exec (List Bytes)
unfolding apply_file
apply_change root id removed none walks = do delete_remote_node id; pure walks
apply_change root id removed (some f) walks =
    if removed || f.trashed then (do delete_remote_node id; pure walks) else apply_file root f walks

unfoldable pub apply_changes : Bytes → List Change → List Bytes → Exec (List Bytes)
unfolding apply_change
apply_changes root [] walks = pure walks
apply_changes root (c ∷ changes) walks = do
  walks' ← apply_change root c.file_id c.removed c.file walks
  apply_changes root changes walks'

unfoldable pub walk_each : ℕ → List Bytes → Exec Unit
walk_each fuel [] = pure tt
walk_each fuel (id ∷ ids) = do full_walk fuel (id ∷ []); walk_each fuel ids

-- One page: its changes, and then the walks.
unfoldable pub take_page : ℕ → Bytes → ChangePage → Exec Unit
unfolding apply_changes walk_each
take_page fuel root page = do walks ← apply_changes root page.changes []; walk_each fuel walks

-- The rounds, with the fuel of the walks and that of the pages.
unfoldable pub read_pages : ℕ → ℕ → Bytes → Bytes → Exec Unit
unfolding take_page
read_pages walk_fuel zero root token = out_of_fuel
read_pages walk_fuel (suc fuel) root token = do
  page ← ask (λ o n. o.changes n token)
  take_page walk_fuel root page
  (let rest = read_pages walk_fuel fuel root page.next_page_token in
      if not (page.next_page_token == [])
      then rest
      else if not (page.new_start_token == [])
      then set_meta page_token page.new_start_token
      else raise no_token)

unfoldable pub consume_changes : ℕ → Bytes → Exec Unit
unfolding read_pages
consume_changes fuel root = do token ← get_meta page_token; read_pages fuel fuel root token

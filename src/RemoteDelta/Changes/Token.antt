-- ===== src/RemoteDelta/Changes/Token.antt =====
-- internal/remotedelta/remotedelta.go: the page token moves only when all pages are taken in.
use synckeeper.Base.{
  ℕ, zero, suc, Bool, false, not, ◌&&◌, ◌||◌, Option, none, some, List, [], ◌∷◌, Bytes, bytes_eq,
  ◌==◌, ◌≡◌, ◌≢◌, refl, arith, Bool-cases, inl, inr,
}
use synckeeper.Base.Dict
use synckeeper.DriveClient.Files.{File, Change, ChangePage, is_dir}
use synckeeper.Store.Types.{Db, page_token}
use synckeeper.Store.Exec.{Outside, World, no_token, pure, ◌>>◌}
use synckeeper.Store.Ensures.{
  Ensures, Keeps, Post, Ensures-pure, Ensures-raise, Ensures-out_of_fuel, Ensures-ask, Ensures-if,
  Ensures-write, Ensures-bind,
}
use synckeeper.Store.Reads.{get_meta-Keeps, has_remote_node-Keeps}
use synckeeper.Store.Nodes.{delete_remote_node}
use synckeeper.Store.Meta.{set_meta}
use synckeeper.RemoteDelta.Walk.Keeps.{
  IsMirrorFree, upsert_remote_node-Keeps, delete_remote_node-Keeps, full_walk-Keeps,
}
use synckeeper.RemoteDelta.Changes.{
  first_parent, is_new_subtree, apply_file, apply_change, apply_changes, walk_each, take_page,
  read_pages, consume_changes,
}

module _ {P : Db → Type 0} (free : IsMirrorFree P) where
  is_new_subtree-Keeps :
      (root : Bytes) (f : File) (parent : Bytes) → Keeps P (is_new_subtree root f parent)
  unfolding is_new_subtree
  is_new_subtree-Keeps root f parent =
      Ensures-if (is_dir f) _ _
        (λ _.
          Ensures-bind (λ _. P) _ _ (has_remote_node-Keeps f.id)
            λ known.
              Ensures-bind (λ _. P) _ _
                (Ensures-if (not (parent == root) && not (parent == [])) _ _
                  (λ _. has_remote_node-Keeps parent)
                  (λ _. Ensures-pure (parent == root) (λ d h. h)))
                λ parent_known. Ensures-pure (not known && parent_known) (λ d h. h))
        (λ _. Ensures-pure false (λ d h. h))

  apply_file-Keeps :
      (root : Bytes) (f : File) (walks : List Bytes) → Keeps P (apply_file root f walks)
  unfolding apply_file
  apply_file-Keeps root f walks =
      Ensures-bind (λ _. P) _ _ (is_new_subtree-Keeps root f (first_parent f.parents))
        λ fresh.
          Ensures-bind (λ _. P) _ _ (upsert_remote_node-Keeps free _) λ _. Ensures-pure _ (λ d h. h)

  dropped-Keeps : (id : Bytes) (walks : List Bytes) → Keeps P (do delete_remote_node id; pure walks)
  dropped-Keeps id walks =
      Ensures-bind (λ _. P) _ _ (delete_remote_node-Keeps free id)
        λ _. Ensures-pure walks (λ d h. h)

  apply_change-Keeps :
      (root id : Bytes) (removed : Bool) (file : Option File) (walks : List Bytes)
      → Keeps P (apply_change root id removed file walks)
  unfolding apply_change
  apply_change-Keeps root id removed none walks = dropped-Keeps id walks
  apply_change-Keeps root id removed (some f) walks =
      Ensures-if (removed || f.trashed) _ _ (λ _. dropped-Keeps id walks)
        (λ _. apply_file-Keeps root f walks)

  apply_changes-Keeps :
      (root : Bytes) (changes : List Change) (walks : List Bytes)
      → Keeps P (apply_changes root changes walks)
  unfolding apply_changes
  apply_changes-Keeps root [] walks = Ensures-pure walks (λ d h. h)
  apply_changes-Keeps root (c ∷ changes) walks =
      Ensures-bind (λ _. P) _ _ (apply_change-Keeps root c.file_id c.removed c.file walks)
        λ walks'. apply_changes-Keeps root changes walks'

  walk_each-Keeps : (fuel : ℕ) (ids : List Bytes) → Keeps P (walk_each fuel ids)
  unfolding walk_each
  walk_each-Keeps fuel [] = Ensures-pure tt (λ d h. h)
  walk_each-Keeps fuel (id ∷ ids) =
      Ensures-bind (λ _. P) _ _ (full_walk-Keeps free fuel (id ∷ [])) λ _. walk_each-Keeps fuel ids

  take_page-Keeps :
      (fuel : ℕ) (root : Bytes) (page : ChangePage) → Keeps P (take_page fuel root page)
  unfolding take_page
  take_page-Keeps fuel root page =
      Ensures-bind (λ _. P) _ _ (apply_changes-Keeps root page.changes [])
        λ walks. walk_each-Keeps fuel walks

-- Nothing but the mirror has changed.
abbrev pub IsMirrorChange : Db → Db → Type 0
IsMirrorChange old d = d ≡ record old { nodes = d.nodes }

-- And the token has moved on.
abbrev pub IsTaken : Db → Db → Type 0
IsTaken old d =
    (token : Bytes) × (token ≢ [])
    × (d ≡ record old { nodes = d.nodes; meta = Dict.insert page_token token old.meta })

mirror_free : (old : Db) → IsMirrorFree (IsMirrorChange old)
mirror_free old d nodes h = ground arith

save_token :
    (old : Db) (token : Bytes)
    → (token == []) ≡ false
    → Ensures
        (IsMirrorChange old)
        (set_meta page_token token)
        (λ _. IsTaken old)
        (IsMirrorChange old)
unfolding set_meta
save_token old token e =
    Ensures-write _ (λ d d' h q. (token, (λ z. absurd (ground arith)), ground arith)) (λ d h. h)

read_pages-IsTaken :
    (old : Db) (walk_fuel fuel : ℕ) (root token : Bytes)
    → Ensures
        (IsMirrorChange old)
        (read_pages walk_fuel fuel root token)
        (λ _. IsTaken old)
        (IsMirrorChange old)
unfolding read_pages
read_pages-IsTaken old walk_fuel zero root token = Ensures-out_of_fuel (λ d h. h)
read_pages-IsTaken old walk_fuel (suc fuel) root token =
    Ensures-bind (λ _. IsMirrorChange old) _ _ (Ensures-ask _ (λ a d h. h) (λ d h. h))
      λ page.
        Ensures-bind (λ _. IsMirrorChange old) _ _
          (take_page-Keeps (mirror_free old) walk_fuel root page)
          λ _. elim (Bool-cases (page.next_page_token == [])) [
            | inr more ↦ rw more (read_pages-IsTaken old walk_fuel fuel root page.next_page_token)
            | inl last ↦ rw last (elim (Bool-cases (page.new_start_token == [])) [
              | inr start ↦ rw start (save_token old page.new_start_token start)
              | inl none_left ↦ rw none_left (Ensures-raise no_token (λ d h. h))
            ])
          ]

consume_changes-IsTaken :
    (old : Db) (fuel : ℕ) (root : Bytes)
    → Ensures
        (IsMirrorChange old)
        (consume_changes fuel root)
        (λ _. IsTaken old)
        (IsMirrorChange old)
unfolding consume_changes
consume_changes-IsTaken old fuel root =
    Ensures-bind (λ _. IsMirrorChange old) _ _ (get_meta-Keeps page_token)
      λ token. read_pages-IsTaken old fuel fuel root token

-- Taking in the changes writes nothing but the mirror and the page token, and the token only in a run
-- that succeeds, to one that is not empty. A run that fails or is stuck, at whatever change, page or
-- walk, leaves the token as it was, so that the next one takes the same changes in again.
pub consume_changes-token :
    (fuel : ℕ) (root : Bytes) (o : Outside) (w : World)
    → Post
        (λ _. IsTaken w.db)
        (IsMirrorChange w.db)
        (consume_changes fuel root o w).0
        (consume_changes fuel root o w).1.db
consume_changes-token fuel root o w = (consume_changes-IsTaken w.db fuel root).at o w refl

-- ===== src/Reconcile/Plan/Remotes.antt =====
-- Pass 3 of `Plan`: new remote items that no earlier pass claimed.
use synckeeper.Base.{
  Bool, true, false, not, ◌||◌, Option, none, some, List, [], ◌∷◌, Bytes, bytes_eq, if◌then◌else◌,
}
use synckeeper.Base.Dict
use synckeeper.Base.Dict.{Dict}
use synckeeper.Reconcile.Types.{
  LocalItem, RemoteItem, Kind, Action, action, pinned, download, mkdir_local, move_local,
  conflict_backup, one_side_each,
}
use synckeeper.Reconcile.Index.{is_base_id, local_at}
use synckeeper.Reconcile.Draft.{Draft, nothing, merge, Scene, rewrite_ld, skipped, of_remote}

abbrev vacates : Kind → Bool
vacates move_local = true
vacates conflict_backup = true
vacates _ = false

-- The local paths that the moves empty before the transfers run.
unfoldable pub vacated : List Action → List Bytes
vacated [] = []
vacated (m ∷ ms) = let rest = vacated ms in if vacates m.kind then m.rel_path ∷ rest else rest

-- A new remote item at a path that is free on this side, or held by the same type.
unfoldable pub materialize : Scene → List Bytes → Bytes → RemoteItem → Option LocalItem → Draft
materialize s gone target r l =
    let pull = of_remote r r.file_id (action download target) in
    if r.is_dir
    then record nothing {
      mkdirs =
          record (action mkdir_local target) {
            file_id = r.file_id;
            is_dir = true;
            version = r.version;
          }
          ∷ [];
    }
    else record nothing {
      transfers =
          (elim l [
            | none ↦ pull
            | some loc ↦ if Dict.contains target gone then pull else pinned loc pull
          ])
          ∷ [];
    }

abbrev same_type : Bool → Bool → Bool
same_type true b = b
same_type false b = not b

-- One round of pass 3.
unfoldable pub remote_row : Scene → List Bytes → List Bytes → Bytes → RemoteItem → Draft
unfolding materialize is_base_id local_at rewrite_ld
remote_row s claimed gone rp r =
    if is_base_id s.input r.file_id || Dict.contains rp claimed
    then nothing
    else (elim (local_at s.input (rewrite_ld s rp)) [
      | none ↦ materialize s gone (rewrite_ld s rp) r none
      | some l ↦
          if same_type l.is_dir r.is_dir
          then materialize s gone (rewrite_ld s rp) r (some l)
          else skipped (rewrite_ld s rp) one_side_each
    ])

unfoldable pub remote_rows : Scene → List Bytes → List Bytes → Dict Bytes RemoteItem → Draft
unfolding remote_row
remote_rows s claimed gone [] = nothing
remote_rows s claimed gone ((rp, r) ∷ rows) =
    merge (remote_row s claimed gone rp r) (remote_rows s claimed gone rows)

-- ===== src/Reconcile/Plan/Dirs.antt =====
-- Pass 4 of `Plan`: baseline directories, once the file actions are known.
use synckeeper.Base.{
  Bool, true, not, ◌&&◌, ◌||◌, Option, none, some, List, [], ◌∷◌, Bytes, bytes_eq, ◌==◌,
  if◌then◌else◌, any,
}
use synckeeper.Base.Dict
use synckeeper.Base.Dict.{Dict}
use synckeeper.Reconcile.Types.{
  BaseItem, LocalItem, Input, Action, action, is_mkdir, is_transfer, is_move, mkdir_remote,
  quarantine_local, trash_remote, forget, shadowed_folder, unreadable_folder,
}
use synckeeper.Reconcile.Index.{RemoteRef, under, rem_by_id, is_base_id, local_at}
use synckeeper.Reconcile.DirMoves.{DirMove}
use synckeeper.Reconcile.Draft.{Draft, nothing, merge, Scene, rewrite, rewrite_ld, skipped}

-- The paths at which the planned actions create or keep content.
unfoldable pub creates : List Action → List Bytes
creates [] = []
creates (a ∷ more) =
    let rest = creates more in
    if is_mkdir a.kind || is_transfer a.kind
    then a.rel_path ∷ rest
    else if is_move a.kind
    then a.new_rel_path ∷ rest
    else rest

unfoldable pub has_create_under : List Bytes → Bytes → Bool
unfolding under
has_create_under made dir = any (λ p. under dir p) made

unfoldable pub remote_alive_under : Input → Bytes → Bool
unfolding under is_base_id
remote_alive_under i dir = any (λ (p, r). under dir p && not (is_base_id i r.file_id)) i.remote

-- `localMoveDstOf[p]`, where the last entry of a source counts.
move_target : List DirMove → Bytes → Option Bytes
move_target [] p = none
move_target (m ∷ ms) p = elim (move_target ms p) [
  | some t ↦ some t
  | none ↦ if m.source == p then some m.target else none
]

-- The directory's place after the local renames.
unfoldable pub dir_place : Scene → Bytes → Bytes
unfolding move_target rewrite_ld
dir_place s p = elim (move_target s.local_moves p) [ some t ↦ t | none ↦ rewrite_ld s p ]

dir_delete : Action → Draft
dir_delete a = record nothing { deletes = a ∷ [] }

-- The folder is trashed on Drive unless the plan makes, or Drive has, something under it.
unfoldable pub trash_dir : Scene → List Bytes → BaseItem → RemoteRef → Draft
unfolding has_create_under remote_alive_under dir_delete rewrite_ld
trash_dir s made b ra =
    if not (has_create_under made ra.path)
      && not (has_create_under made (rewrite_ld s ra.path))
      && not (remote_alive_under s.input ra.path)
    then dir_delete (record (action trash_remote ra.path) { file_id = b.file_id; is_dir = true })
    else nothing

-- Absent from its place here; a directory already at the remote path is the crashed half of a move.
unfoldable pub gone_here : Scene → List Bytes → BaseItem → RemoteRef → Option LocalItem → Draft
unfolding trash_dir
gone_here s made b ra none = trash_dir s made b ra
gone_here s made b ra (some l) = if l.is_dir then nothing else trash_dir s made b ra

-- The directory by what each side has.
unfoldable pub decide_dir :
    Scene → List Bytes → Bytes → BaseItem → Option LocalItem → Option RemoteRef → Draft
unfolding has_create_under dir_delete dir_place local_at rewrite gone_here
decide_dir s made p b (some l) (some ra) = nothing
decide_dir s made p b (some l) none =
    if has_create_under made p || has_create_under made (rewrite s p)
    then record nothing { mkdirs = record (action mkdir_remote p) { is_dir = true } ∷ [] }
    else dir_delete
        (record (action quarantine_local (dir_place s p)) { file_id = b.file_id; is_dir = true })
decide_dir s made p b none (some ra) = gone_here s made b ra (local_at s.input ra.path)
decide_dir s made p b none none =
    dir_delete (record (action forget p) { file_id = b.file_id; is_dir = true })

-- One round of pass 4.
unfoldable pub dir_row : Scene → List Bytes → Bytes → BaseItem → Draft
unfolding decide_dir rem_by_id local_at dir_place
dir_row s made p b =
    if not b.is_dir
    then nothing
    else if Dict.contains b.file_id s.input.shadowed_remote
    then record nothing {
      skips = record { rel_path = p; reason = shadowed_folder; file_id = b.file_id } ∷ [];
    }
    else if Dict.contains b.file_id s.input.unreadable_local
    then skipped p unreadable_folder
    else decide_dir s made p b (local_at s.input (dir_place s p)) (rem_by_id s.input b.file_id)

unfoldable pub dir_rows : Scene → List Bytes → Dict Bytes BaseItem → Draft
unfolding dir_row
dir_rows s made [] = nothing
dir_rows s made ((p, b) ∷ rows) = merge (dir_row s made p b) (dir_rows s made rows)

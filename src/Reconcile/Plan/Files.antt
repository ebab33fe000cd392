-- ===== src/Reconcile/Plan/Files.antt =====
-- Pass 1 of `Plan`: the baseline rows of files, each decided alone.
use synckeeper.Base.{
  Bool, not, ◌&&◌, ◌||◌, Option, none, some, [], ◌∷◌, Bytes, bytes_eq, int_eq, ◌==◌, if◌then◌else◌,
}
use synckeeper.Base.Dict
use synckeeper.Base.Dict.{Dict}
use synckeeper.Reconcile.Types.{
  BaseItem, LocalItem, RemoteItem, Action, action, pinned, upload, update_remote, download,
  record_row, move_local, conflict_backup, quarantine_local, forget, shadowed_file, unreadable_file,
  file_became_directory,
}
use synckeeper.Reconcile.Index.{
  RemoteRef, rem_by_id, local_at, in_base, new_remote_at, local_file_at,
}
use synckeeper.Reconcile.Draft.{
  Draft, nothing, merge, Scene, rewrite, rewrite_ld, copy_of, skipped, of_remote, guarded,
}

-- A conflict: the local file leaves for its copy, which is uploaded, and the remote item comes
-- down to `at`, both refused if the backup fails.
unfoldable pub conflict : Scene → Bytes → Bytes → RemoteItem → Bytes → Draft
unfolding copy_of
conflict s p at r id = record nothing {
  moves = record (action conflict_backup p) { new_rel_path = copy_of s p } ∷ [];
  transfers =
      guarded p (action upload (copy_of s p))
      ∷ guarded p (of_remote r id (action download at))
      ∷ [];
}

-- The file is alive on both sides at the remote's new path.
landed : Scene → Bytes → BaseItem → RemoteRef → LocalItem → Draft
unfolding conflict
landed s path_now b ra ln =
    let same = record nothing {
      transfers = pinned ln (of_remote ra.item b.file_id (action record_row path_now)) ∷ [];
    } in
    record (if ln.md5 == ra.item.md5
      then same
      else conflict s path_now path_now ra.item b.file_id) { resolved_local = path_now ∷ [] }

-- Local deleted, remote exists: an edit or a move beats the delete.
deleted_here : Bytes → Bytes → Bool → BaseItem → RemoteRef → Draft
deleted_here p path_now moved b ra =
    if not (ra.item.md5 == b.drive_md5) || moved
    then record nothing { transfers = of_remote ra.item b.file_id (action download path_now) ∷ [] }
    else record nothing { sources = record { path = p; row = b } ∷ [] }

unfoldable pub local_gone : Scene → Bytes → BaseItem → RemoteRef → Draft
unfolding landed deleted_here local_file_at rewrite rewrite_ld
local_gone s p b ra =
    let path_now = rewrite_ld s ra.path in
    let moved = not (path_now == rewrite s p) in
    elim (if moved && not (in_base s.input path_now)
      then local_file_at s.input path_now
      else none) [ some ln ↦ landed s path_now b ra ln | none ↦ deleted_here p path_now moved b ra ]

-- Remote deleted, local exists. `fresh` is a new remote item that took the path.
unfoldable pub remote_gone : Scene → Bytes → BaseItem → LocalItem → Option RemoteItem → Draft
unfolding conflict
remote_gone s at b loc (some fresh) =
    if loc.md5 == b.md5
    then nothing
    else if fresh.md5 == loc.md5
    then record nothing {
      transfers = pinned loc (of_remote fresh fresh.file_id (action record_row at)) ∷ [];
      claimed = at ∷ [];
    }
    else record (conflict s at at fresh fresh.file_id) { claimed = at ∷ [] }
remote_gone s at b loc none =
    if loc.md5 == b.md5
    then record nothing {
      deletes = pinned loc (record (action quarantine_local at) { file_id = b.file_id }) ∷ [];
    }
    else record nothing { transfers = action upload at ∷ [] }

-- The local move that follows a remote one; an untracked file at its destination is backed up.
unfoldable pub follow : Scene → Bytes → Bytes → BaseItem → Draft
unfolding copy_of local_at
follow s expected path_now b =
    let mv = record (action move_local expected) { new_rel_path = path_now; file_id = b.file_id } in
    elim (local_at s.input path_now) [
      | none ↦ record nothing { moves = mv ∷ [] }
      | some occ ↦
          if occ.is_dir
          then record nothing { moves = mv ∷ [] }
          else if in_base s.input path_now
          then record nothing { moves = pinned occ mv ∷ [] }
          else record nothing {
            moves =
                record (action conflict_backup path_now) { new_rel_path = copy_of s path_now }
                ∷ guarded path_now mv
                ∷ [];
            transfers = guarded path_now (action upload (copy_of s path_now)) ∷ [];
            backed_up = path_now ∷ [];
          }
    ]

-- The content row of a file that both sides have.
unfoldable pub settle : Scene → Bytes → Bytes → Bool → BaseItem → LocalItem → RemoteRef → Draft
unfolding conflict
settle s expected path_now moved b loc ra =
    let on_moved = λ (a : Action). if moved then guarded expected a else a in
    let row = λ (a : Action).
      pinned loc (record a { file_id = b.file_id; size = loc.size; version = ra.item.version }) in
    if loc.md5 == b.md5
    then (if ra.item.md5 == b.drive_md5
        then (if b.mtime_ns == loc.mtime_ns
              && (b.size == loc.size && b.drive_version == ra.item.version)
            then nothing
            else record nothing {
              transfers = on_moved (record (row (action record_row path_now)) { md5 = b.md5 }) ∷ [];
            })
        else record nothing {
          transfers = pinned loc (of_remote ra.item b.file_id (action download path_now)) ∷ [];
        })
    else if ra.item.md5 == b.drive_md5
    then record nothing {
      transfers = on_moved (record (action update_remote path_now) { file_id = b.file_id }) ∷ [];
    }
    else if loc.md5 == ra.item.md5
    then record nothing {
      transfers = on_moved (record (row (action record_row path_now)) { md5 = loc.md5 }) ∷ [];
    }
    else conflict s expected path_now ra.item b.file_id

-- `remoteMoved`, for an item that both sides have.
abbrev pub has_moved : Scene → Bytes → RemoteRef → Bool
has_moved s p ra = not (rewrite_ld s ra.path == rewrite s p)

abbrev pub is_true_conflict : BaseItem → LocalItem → RemoteRef → Bool
is_true_conflict b loc ra =
    not (loc.md5 == b.md5) && (not (ra.item.md5 == b.drive_md5) && not (loc.md5 == ra.item.md5))

-- A remote move becomes a local one, except in a true conflict.
unfoldable pub relocate : Scene → Bytes → BaseItem → LocalItem → RemoteRef → Draft
unfolding follow rewrite rewrite_ld
relocate s p b loc ra =
    if has_moved s p ra && not (is_true_conflict b loc ra)
    then follow s (rewrite s p) (rewrite_ld s ra.path) b
    else nothing

unfoldable pub both_alive : Scene → Bytes → BaseItem → LocalItem → RemoteRef → Draft
unfolding relocate settle rewrite rewrite_ld
both_alive s p b loc ra =
    merge (relocate s p b loc ra)
      (settle s (rewrite s p) (rewrite_ld s ra.path) (has_moved s p ra) b loc ra)

-- The row by what each side has: the local item at its post-rename path, the remote by id.
unfoldable pub decide : Scene → Bytes → BaseItem → Option LocalItem → Option RemoteRef → Draft
unfolding local_gone remote_gone both_alive rewrite_ld new_remote_at
decide s p b none none = record nothing {
  deletes = record (action forget p) { file_id = b.file_id } ∷ [];
}
decide s p b none (some ra) = local_gone s p b ra
decide s p b (some loc) none =
    if loc.is_dir
    then skipped p file_became_directory
    else remote_gone s (rewrite_ld s p) b loc (new_remote_at s.input (rewrite_ld s p))
decide s p b (some loc) (some ra) =
    if loc.is_dir then skipped p file_became_directory else both_alive s p b loc ra

-- One round of pass 1.
unfoldable pub file_row : Scene → Bytes → BaseItem → Draft
unfolding decide rem_by_id local_at
file_row s p b =
    if b.is_dir
    then nothing
    else if Dict.contains b.file_id s.input.shadowed_remote
    then record nothing {
      skips = record { rel_path = p; reason = shadowed_file; file_id = b.file_id } ∷ [];
    }
    else if Dict.contains b.file_id s.input.unreadable_local
    then skipped p unreadable_file
    else decide s p b (local_at s.input (rewrite_ld s p)) (rem_by_id s.input b.file_id)

unfoldable pub file_rows : Scene → Dict Bytes BaseItem → Draft
unfolding file_row
file_rows s [] = nothing
file_rows s ((p, b) ∷ rows) = merge (file_row s p b) (file_rows s rows)

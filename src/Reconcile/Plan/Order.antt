-- ===== src/Reconcile/Plan/Order.antt =====
-- The ordering at the end of `Plan`: the stages, each sorted.
use synckeeper.Base.{
  Bool, true, false, not, ◌&&◌, ◌||◌, List, ◌++◌, Bytes, nat_eq, bytes_eq, ◌==◌, if◌then◌else◌, ltb,
  any, keep, sort_by, bytes_ltb, count_slash,
}
use synckeeper.Reconcile.Types.{Kind, Action, Skip, move_local, mkdir_remote, is_backup}
use synckeeper.Reconcile.Index.{under}
use synckeeper.Reconcile.DirMoves.{DirMove}
use synckeeper.Reconcile.Draft.{Draft}

-- By depth, then by path.
unfoldable pub path_less : Bytes → Bytes → Bool
unfolding bytes_ltb count_slash
path_less p q =
    if count_slash p == count_slash q then bytes_ltb p q else ltb (count_slash p) (count_slash q)

abbrev pub by_depth_then_path : Action → Action → Bool
by_depth_then_path a b = path_less a.rel_path b.rel_path

-- Conflict backups first, then by depth and path.
abbrev pub move_files_less : Action → Action → Bool
move_files_less a b =
    if is_backup a.kind
    then (if is_backup b.kind then by_depth_then_path a b else true)
    else if is_backup b.kind
    then false
    else by_depth_then_path a b

abbrev pub by_path : Action → Action → Bool
by_path a b = bytes_ltb a.rel_path b.rel_path

-- Deletes go bottom-up.
abbrev pub bottom_up : Action → Action → Bool
bottom_up a b = path_less b.rel_path a.rel_path

abbrev pub is_move_local : Kind → Bool
is_move_local move_local = true
is_move_local _ = false

abbrev pub is_mkdir_remote : Kind → Bool
is_mkdir_remote mkdir_remote = true
is_mkdir_remote _ = false

abbrev pub is_local_dir_move : Action → Bool
is_local_dir_move m = m.is_dir && is_move_local m.kind

abbrev pub is_remote_dir_move : Action → Bool
is_remote_dir_move m = m.is_dir && not (is_move_local m.kind)

abbrev pub is_file_move : Action → Bool
is_file_move m = not m.is_dir

-- `underLocalMoveDst`
unfoldable pub under_local_move : List DirMove → Bytes → Bool
unfolding under
under_local_move ms q = any (λ m. q == m.target || under m.target q) ms

abbrev pub waits_for_reparent : List DirMove → Action → Bool
waits_for_reparent ms a = is_mkdir_remote a.kind && under_local_move ms a.rel_path

abbrev pub waits_not : List DirMove → Action → Bool
waits_not ms a = not (waits_for_reparent ms a)

-- The stages before the file moves, and the file moves.
unfoldable pub dir_stages : List DirMove → Draft → List Action
unfolding sort_by path_less under_local_move
dir_stages ms d =
    let mkdirs = sort_by by_depth_then_path d.mkdirs in
    sort_by by_depth_then_path (keep is_local_dir_move d.moves)
    ++ (keep (waits_not ms) mkdirs
        ++ (sort_by by_depth_then_path (keep is_remote_dir_move d.moves)
            ++ keep (waits_for_reparent ms) mkdirs))

unfoldable pub file_moves : Draft → List Action
unfolding sort_by path_less
file_moves d = sort_by move_files_less (keep is_file_move d.moves)

unfoldable pub order : List DirMove → Draft → List Action
unfolding dir_stages file_moves
order ms d =
    dir_stages ms d
    ++ (file_moves d ++ (sort_by by_path d.transfers ++ sort_by bottom_up d.deletes))

unfoldable pub order_skips : List Skip → List Skip
unfolding sort_by bytes_ltb
order_skips skips = sort_by (λ a b. bytes_ltb a.rel_path b.rel_path) skips

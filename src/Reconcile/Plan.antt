-- ===== src/Reconcile/Plan.antt =====
-- internal/reconcile/plan.go: `Plan`, its four passes in turn and the ordering.
pub mod Files
pub mod News
pub mod Remotes
pub mod Dirs
pub mod Order
use synckeeper.Base.{
  Bool, true, false, Option, none, some, List, [], ◌∷◌, ◌++◌, Bytes, bytes_eq, ◌==◌, if◌then◌else◌,
}
use synckeeper.Names.{Unicode}
use synckeeper.Reconcile.Types.{Input, Action, action, move_local, move_remote, Skip}
use synckeeper.Reconcile.Index.{sorted_rows, base_at}
use synckeeper.Reconcile.DirMoves.{DirMove}
use synckeeper.Reconcile.Draft.{Draft, nothing, merge, Scene, scene, rewrite}
use Files.{file_rows}
use News.{Pairing, add_sources, new_rows, unpaired}
use Remotes.{vacated, remote_rows}
use Dirs.{creates, dir_rows}
use Order.{order, order_skips}

-- The local moves that follow remote directory moves, from where moved ancestors put them.
unfoldable pub follow_dirs : Scene → List DirMove → List Action
unfolding rewrite
follow_dirs s [] = []
follow_dirs s (m ∷ ms) =
    let rest = follow_dirs s ms in
    if rewrite s m.source == m.target
    then rest
    else record (action move_local (rewrite s m.source)) { new_rel_path = m.target; is_dir = true }
      ∷ rest

-- One reparent for each local-driven directory move.
unfoldable pub reparents : Scene → List DirMove → List Action
unfolding base_at
reparents s [] = []
reparents s (m ∷ ms) =
    record (action move_remote m.source) {
      new_rel_path = m.target;
      file_id = (elim (base_at s.input m.source) [ some b ↦ b.file_id | none ↦ [] ]);
      is_dir = true;
    }
    ∷ reparents s ms

abbrev pub dir_moves : Scene → Draft
dir_moves s = record nothing { moves = follow_dirs s s.remote_moves ++ reparents s s.local_moves }

-- After pass 1.
unfoldable pub after_files : Scene → Draft
unfolding follow_dirs reparents file_rows sorted_rows
after_files s = merge (dir_moves s) (file_rows s (sorted_rows s.input.base))

-- After pass 2, the unpaired sources trashed.
unfoldable pub after_news : Scene → Draft
unfolding after_files add_sources new_rows unpaired sorted_rows
after_news s =
    let d = after_files s in
    let start : Pairing = record { waiting = add_sources d.sources []; paired = []; draft = d } in
    let st = new_rows s d start (sorted_rows s.input.local) in
    merge st.draft (record nothing { deletes = unpaired st.paired d.sources })

unfoldable pub after_remotes : Scene → Draft
unfolding after_news vacated remote_rows sorted_rows
after_remotes s =
    let d = after_news s in
    merge d (remote_rows s d.claimed (vacated d.moves) (sorted_rows s.input.remote))

-- `creates`: where the actions of the first three passes make or keep content.
unfoldable pub made_by : Scene → List Bytes
unfolding after_remotes creates
made_by s = let d = after_remotes s in creates (d.mkdirs ++ (d.moves ++ d.transfers))

unfoldable pub after_dirs : Scene → Draft
unfolding after_remotes made_by dir_rows sorted_rows
after_dirs s = merge (after_remotes s) (dir_rows s (made_by s) (sorted_rows s.input.base))

unfoldable pub plan_of : Scene → List Action × List Skip
unfolding after_dirs order order_skips
plan_of s = let d = after_dirs s in (order s.local_moves d, order_skips d.skips)

-- The planner over its input.
unfoldable pub plan : Unicode → Input → List Action × List Skip
unfolding plan_of scene
plan u i = plan_of (scene u i)

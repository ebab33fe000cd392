-- ===== src/Reconcile/Draft.antt =====
-- internal/reconcile/plan.go: what the passes of `Plan` append to, and what they look up.
use synckeeper.Base.{List, [], ◌∷◌, ◌++◌, Bytes, bytes_eq}
use synckeeper.Conflicts.{conflict_path}
use synckeeper.Names.{Unicode}
use synckeeper.Reconcile.Types.{
  BaseItem, RemoteItem, Input, Action, action, move_remote, Skip, Reason,
}
use synckeeper.Reconcile.DirMoves.{DirMove, mk_rewrite, remote_dir_moves, detect_local_dir_moves}

-- The source of a local move that pass 2 may pair.
pub record MoveSrc : Type 0 where
  pub path : Bytes
  pub row : BaseItem

-- The lists that the passes append to, and the sets that later passes read.
pub record Draft : Type 0 where
  pub skips : List Skip
  pub mkdirs : List Action
  pub moves : List Action
  pub transfers : List Action
  pub deletes : List Action
  pub claimed : List Bytes
  pub backed_up : List Bytes
  pub resolved_local : List Bytes
  pub sources : List MoveSrc

abbrev pub nothing : Draft
nothing = record {
  skips = [];
  mkdirs = [];
  moves = [];
  transfers = [];
  deletes = [];
  claimed = [];
  backed_up = [];
  resolved_local = [];
  sources = [];
}

-- What the second appends comes after what the first did.
abbrev pub merge : Draft → Draft → Draft
merge d e = record {
  skips = d.skips ++ e.skips;
  mkdirs = d.mkdirs ++ e.mkdirs;
  moves = d.moves ++ e.moves;
  transfers = d.transfers ++ e.transfers;
  deletes = d.deletes ++ e.deletes;
  claimed = d.claimed ++ e.claimed;
  backed_up = d.backed_up ++ e.backed_up;
  resolved_local = d.resolved_local ++ e.resolved_local;
  sources = d.sources ++ e.sources;
}

-- The input with the directory moves that both detectors found.
pub record Scene : Type 0 where
  pub input : Input
  pub unicode : Unicode
  pub remote_moves : List DirMove
  pub local_moves : List DirMove

unfoldable pub scene : Unicode → Input → Scene
unfolding remote_dir_moves detect_local_dir_moves
scene u i = record {
  input = i;
  unicode = u;
  remote_moves = remote_dir_moves i;
  local_moves = detect_local_dir_moves i (mk_rewrite (remote_dir_moves i));
}

-- `rewrite`: a baseline path's local place once the plan has run.
unfoldable pub rewrite : Scene → Bytes → Bytes
unfolding mk_rewrite
rewrite s p = mk_rewrite (s.remote_moves ++ s.local_moves) p

-- `rewriteLD`: only the local-driven moves.
unfoldable pub rewrite_ld : Scene → Bytes → Bytes
unfolding mk_rewrite
rewrite_ld s p = mk_rewrite s.local_moves p

-- `conflicts.Path(p, in.Machine, in.Now)`
unfoldable pub copy_of : Scene → Bytes → Bytes
unfolding conflict_path
copy_of s p = conflict_path p s.input.machine s.input.stamp

-- `remoteStepsAside`
unfoldable pub remote_steps_aside : Scene → Bytes → RemoteItem → Action
unfolding copy_of
remote_steps_aside s p r = record (action move_remote p) {
  new_rel_path = copy_of s p;
  file_id = r.file_id;
  md5 = r.md5;
  size = r.size;
}

abbrev pub skipped : Bytes → Reason → Draft
skipped p reason = record nothing {
  skips = record { rel_path = p; reason = reason; file_id = [] } ∷ [];
}

-- A download or record of a remote item: `FileID`, `MD5`, `Size`, `Version`.
abbrev pub of_remote : RemoteItem → Bytes → Action → Action
of_remote r id a = record a { file_id = id; md5 = r.md5; size = r.size; version = r.version }

abbrev pub guarded : Bytes → Action → Action
guarded p a = record a { protected_by = p }

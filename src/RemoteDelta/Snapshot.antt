-- ===== src/RemoteDelta/Snapshot.antt =====
-- internal/remotedelta/remotedelta.go: `Snapshot`, the remote side that the planner sees.
pub mod Moves
pub mod Kept
pub mod Accounted
use synckeeper.Base.{
  ℕ, zero, suc, ◌+◌, Bool, true, false, not, ◌&&◌, ◌||◌, Option, none, some, List, [], ◌∷◌, ◌++◌,
  Bytes, bytes_eq, ◌==◌, keep, any, length, sort_by, bytes_ltb, has_prefix, if◌then◌else◌,
}
use synckeeper.Base.Dict
use synckeeper.Base.Dict.{Dict}
use synckeeper.DriveClient.Files.{folder_mime_type, google_apps_prefix}
use synckeeper.Names.{NameError, Unicode, Match, ignored, validate, join, fold_key}
use synckeeper.Reconcile.Types.{RemoteItem}
use synckeeper.Store.Types.{RemoteNode}
use synckeeper.RemoteDelta.Prune.{children_of}

-- Why a row is reported and not synced; a collision comes with the name that was kept.
pub data SkipReason : Type 0 where
  google_native : SkipReason
  not_representable : SkipReason
  duplicate_name : SkipReason
  case_collision : Bytes → SkipReason
  norm_collision : Bytes → SkipReason
  fold_collision : Bytes → SkipReason

-- `Duplicate` is set for the reason `duplicate_name` and no other.
pub record Skipped : Type 0 where
  pub rel_path : Bytes
  pub reason : SkipReason
  pub file_id : Bytes

-- The arguments of Snapshot, and the libraries that it leans on.
pub record Setting : Type 0 where
  pub unicode : Unicode
  pub matches : Match
  pub ignore : List Bytes
  pub case_fold : Bool
  pub norm_fold : Bool

unfoldable pub fold_collision_reason : Setting → Bytes → Bytes → SkipReason
fold_collision_reason c name first =
    if c.case_fold
      && not
          (fold_key c.unicode name false c.norm_fold == fold_key c.unicode first false c.norm_fold)
    then case_collision first
    else if c.norm_fold
        && not (
            fold_key c.unicode name c.case_fold false == fold_key c.unicode first c.case_fold false)
    then norm_collision first
    else fold_collision first

pub record Frame : Type 0 where
  pub id : Bytes
  pub rel_path : Bytes

-- What the search has gathered: its results, the folders seen, and those to be looked at.
pub record Gathered : Type 0 where
  pub snapshot : Dict Bytes RemoteItem
  pub skips : List Skipped
  pub visited : List Bytes
  pub queue : List Frame

-- `seen` and `foldSeen` of one folder.
pub record Siblings : Type 0 where
  pub seen : List Bytes
  pub fold_seen : Dict Bytes Bytes

abbrev pub is_folder : RemoteNode → Bool
is_folder n = n.mime_type == folder_mime_type

abbrev pub is_native : RemoteNode → Bool
is_native n = has_prefix n.mime_type google_apps_prefix && not (is_folder n)

unfoldable pub remote_item : RemoteNode → RemoteItem
remote_item n = record {
  file_id = n.file_id;
  is_dir = is_folder n;
  size = n.size;
  md5 = n.md5;
  version = n.version;
  modified_ns = n.modified_ns;
}

-- What becomes of a row: it is passed over, reported, or kept under its fold key, if there is one.
pub data Verdict : Type 0 where
  pass : Verdict
  report : SkipReason → Bytes → Verdict
  admit : Option Bytes → Verdict

-- The test of the folded name.
unfoldable pub judge_fold : Setting → Siblings → RemoteNode → Verdict
unfolding fold_collision_reason
judge_fold c sib n =
    if c.case_fold || c.norm_fold
    then (let key = fold_key c.unicode n.name c.case_fold c.norm_fold in
        elim (Dict.lookup key sib.fold_seen) [
          | some first ↦ report (fold_collision_reason c n.name first) n.file_id
          | none ↦ admit (some key)
        ])
    else admit none

unfoldable pub is_invalid : Option NameError → Bool
is_invalid none = false
is_invalid (some e) = true

-- The switch, and the test of the folded name after it.
unfoldable pub judge : Setting → Siblings → RemoteNode → Verdict
unfolding judge_fold is_invalid
judge c sib n =
    if is_native n
    then report google_native []
    else if ignored c.matches c.ignore n.name
    then pass
    else if is_invalid (validate n.name)
    then report not_representable []
    else if Dict.contains n.name sib.seen
    then report duplicate_name n.file_id
    else judge_fold c sib n

unfoldable pub admit_folder : RemoteNode → Bytes → Gathered → Gathered
admit_folder n rel g =
    if is_folder n && not (Dict.contains n.file_id g.visited)
    then record g {
      visited = n.file_id ∷ g.visited;
      queue = g.queue ++ record { id = n.file_id; rel_path = rel } ∷ [];
    }
    else g

abbrev pub note_key : Option Bytes → Bytes → Dict Bytes Bytes → Dict Bytes Bytes
note_key none name keys = keys
note_key (some key) name keys = Dict.insert key name keys

unfoldable pub settle_row : Verdict → Bytes → RemoteNode → Siblings → Gathered → Siblings × Gathered
unfolding admit_folder
settle_row pass rel n sib g = (sib, g)
settle_row (report reason id) rel n sib g = (
  sib,
  record g { skips = g.skips ++ record { rel_path = rel; reason = reason; file_id = id } ∷ [] },
)
settle_row (admit key) rel n sib g = (
  record { seen = n.name ∷ sib.seen; fold_seen = note_key key n.name sib.fold_seen },
  admit_folder n rel (record g { snapshot = Dict.insert rel (remote_item n) g.snapshot }),
)

-- The loop over the children of one folder.
unfoldable pub gather_each : Setting → Bytes → List RemoteNode → Siblings → Gathered → Gathered
unfolding judge settle_row
gather_each c path [] sib g = g
gather_each c path (n ∷ kids) sib g =
    let (sib', g') = settle_row (judge c sib n) (join path n.name) n sib g in
    gather_each c path kids sib' g'

abbrev pub sorted_children : List RemoteNode → Bytes → List RemoteNode
sorted_children nodes id = sort_by (λ a b. bytes_ltb a.file_id b.file_id) (children_of nodes id)

abbrev pub no_siblings : Siblings
no_siblings = record { seen = []; fold_seen = [] }

-- One round of the search.
unfoldable pub gather_folder : Setting → List RemoteNode → Frame → Gathered → Gathered
unfolding gather_each
gather_folder c nodes f g = gather_each c f.rel_path (sorted_children nodes f.id) no_siblings g

unfoldable pub gather : ℕ → Setting → List RemoteNode → List Frame → Gathered → Option Gathered
unfolding gather_folder
gather fuel c nodes [] g = some g
gather zero c nodes (f ∷ queue) g = none
gather (suc fuel) c nodes (f ∷ queue) g =
    let g' = gather_folder c nodes f (record g { queue = queue }) in gather fuel c nodes g'.queue g'

-- Each round takes a frame off the queue, and each row puts one on it at most once.
unfoldable pub snapshot_of : Setting → List RemoteNode → Bytes → Option Gathered
unfolding gather
snapshot_of c nodes root =
    gather (length nodes + 1) c nodes (record { id = root; rel_path = [] } ∷ [])
      (record { snapshot = []; skips = []; visited = root ∷ []; queue = [] })

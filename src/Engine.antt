-- ===== src/Engine.antt =====
-- internal/engine/engine.go: how a cycle plans, from the snapshots to what the executor gets.
pub mod Start
pub mod Held
pub mod Gate
pub mod Scanned
use synckeeper.Base.{
  ℕ, ◌+◌, Bool, true, false, not, ◌&&◌, Option, none, some, List, [], ◌∷◌, ◌++◌, Bytes, bytes_eq,
  ◌==◌, keep, map, any, length, has_prefix, if◌then◌else◌,
}
use synckeeper.Base.Dict
use synckeeper.Base.Dict.{Dict}
use synckeeper.Names.{Unicode}
use synckeeper.Reconcile.Types.{
  BaseItem, LocalItem, RemoteItem, Input, Action, Kind, is_quarantine, is_trash,
}
use synckeeper.Reconcile.Plan.{plan}
use synckeeper.Reconcile.Collapse.{collapse_dir_deletes}
use synckeeper.Guards.{MassDelete, check_mass_delete}
use synckeeper.Store.Types.{Item}
use synckeeper.RemoteDelta.Snapshot.{Skipped}
use synckeeper.Scanner.{LocalSkip}

unfoldable pub base_item : Item → BaseItem
base_item it = record {
  file_id = it.drive_file_id;
  is_dir = it.is_dir;
  size = it.size;
  md5 = it.content_md5;
  mtime_ns = it.local_mtime_ns;
  drive_md5 = it.drive_md5;
  drive_version = it.drive_version;
}

-- The map `base`, row by row.
unfoldable pub base_onto : Dict Bytes BaseItem → List Item → Dict Bytes BaseItem
unfolding base_item
base_onto base [] = base
base_onto base (it ∷ items) = base_onto (Dict.insert it.rel_path (base_item it) base) items

-- Is the path below one of the folders?
unfoldable pub is_below : List Bytes → Bytes → Bool
is_below dirs path = any (λ dir. has_prefix path (dir ++ b'/' ∷ [])) dirs

-- The ids of the rows below one of the folders.
unfoldable pub ids_below : List Bytes → List Item → List Bytes
unfolding is_below
ids_below dirs [] = []
ids_below dirs (it ∷ items) =
    let rest = ids_below dirs items in
    if is_below dirs it.rel_path then it.drive_file_id ∷ rest else rest

abbrev pub with_id : List Skipped → List Skipped
with_id = keep (λ s. not (s.file_id == []))

unfoldable pub expand_shadowed : List Item → List Skipped → List Bytes
unfolding ids_below
expand_shadowed items skips =
    map (λ s. s.file_id) (with_id skips) ++ ids_below (map (λ s. s.rel_path) (with_id skips)) items

unfoldable pub expand_unreadable : List Item → List LocalSkip → List Bytes
unfolding ids_below
expand_unreadable items skips =
    ids_below (map (λ s. s.rel_path) (keep (λ s. s.unreadable) skips)) items

-- `withoutDeletes`
unfoldable pub without_deletes : List Action → List Action
without_deletes = keep (λ a. not (is_trash a.kind) && not (is_quarantine a.kind))

unfoldable pub count_tracked : List Item → ℕ
count_tracked items = length (keep (λ it. not it.is_dir) items)

-- What a cycle plans from: the baseline rows, both snapshots with their skips, the configuration and
-- the options. `exceeds` is the comparison of a share with the threshold.
pub record Cycle : Type 0 where
  pub items : List Item
  pub remote : Dict Bytes RemoteItem
  pub remote_skips : List Skipped
  pub local : Dict Bytes LocalItem
  pub local_skips : List LocalSkip
  pub machine : Bytes
  pub stamp : Bytes
  pub case_fold : Bool
  pub norm_fold : Bool
  pub prefer_newer : Bool
  pub trash_available : Bool
  pub exceeds : ℕ → ℕ → Bool
  pub confirm_deletes : Bool
  pub defer_mass_delete : Bool
  pub dry_run : Bool

unfoldable pub plan_input : Cycle → Input
unfolding base_onto expand_shadowed expand_unreadable
plan_input c = record {
  base = base_onto [] c.items;
  local = c.local;
  remote = c.remote;
  machine = c.machine;
  stamp = c.stamp;
  case_fold = c.case_fold;
  norm_fold = c.norm_fold;
  prefer_newer = c.prefer_newer;
  shadowed_remote = expand_shadowed c.items c.remote_skips;
  unreadable_local = expand_unreadable c.items c.local_skips;
}

-- How the planning half of a cycle ends: it stops with the guard's error, it stops as a dry run, or
-- the executor gets the actions. The plan comes with it for the report, and what the guard blocked.
pub data Planned : Type 0 where
  aborted : List Action → MassDelete → Planned
  shown : List Action → Option MassDelete → Planned
  runs : List Action → List Action → Option MassDelete → Planned

unfoldable pub finish : Bool → List Action → List Action → Option MassDelete → Planned
finish dry_run reported todo blocked =
    if dry_run then shown reported blocked else runs reported todo blocked

unfoldable pub after_guard : Cycle → List Action → Option MassDelete → Planned
unfolding finish without_deletes
after_guard c reported none = finish c.dry_run reported reported none
after_guard c reported (some e) =
    if c.defer_mass_delete
    then finish c.dry_run reported (without_deletes reported) (some e)
    else aborted reported e

-- The plan as it is reported, after the collapse.
unfoldable pub reported_plan : Unicode → Cycle → List Action
unfolding plan_input
reported_plan u c =
    let actions = (plan u (plan_input c)).0 in
    if c.trash_available then collapse_dir_deletes actions c.remote else actions

unfoldable pub guard_verdict : Unicode → Cycle → Option MassDelete
unfolding plan_input
guard_verdict u c =
    check_mass_delete c.exceeds (plan u (plan_input c)).0 (count_tracked c.items) c.confirm_deletes
      c.trash_available

unfoldable pub plan_cycle : Unicode → Cycle → Planned
unfolding after_guard
plan_cycle u c = after_guard c (reported_plan u c) (guard_verdict u c)

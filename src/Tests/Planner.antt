-- ===== src/Tests/Planner.antt =====
-- Runs of the planner.
use synckeeper.Base.{
  ◌≡◌, refl, true, false, List, [], ◌∷◌, map, nat_eq, All, pos, int_eq, Bytes, codes, bytes_eq,
}
use synckeeper.Names.{Unicode}
use synckeeper.Reconcile.Types.{
  BaseItem, LocalItem, RemoteItem, Input, Action, conflict_backup, upload, download, Kind,
  quarantine_local, trash_remote, move_remote, mkdir_remote, move_local, update_remote, is_delete,
}
use synckeeper.Reconcile.Plan.{plan}
use synckeeper.Reconcile.Proofs.Retires.{Retires}
use synckeeper.Reconcile.Proofs.Order.{Pairs, MayPrecede}
use synckeeper.Reconcile.Proofs.Guarded.{ComesAfterGuard}
use synckeeper.Reconcile.Proofs.Headline.{plan_of_empty_base, plan-MayPrecede, plan-ComesAfterGuard}

abbrev ascii : Unicode
ascii = record { nfc = λ s. s; to_lower = λ s. s }

abbrev tracked : Bytes → Bytes → BaseItem
tracked id md5 = record {
  file_id = id;
  is_dir = false;
  size = pos 3;
  md5 = md5;
  mtime_ns = pos 7;
  drive_md5 = md5;
  drive_version = pos 1;
}

abbrev tracked_dir : Bytes → BaseItem
tracked_dir id = record (tracked id []) { is_dir = true }

abbrev on_disk : Bytes → LocalItem
on_disk md5 = record { is_dir = false; size = pos 3; mtime_ns = pos 7; md5 = md5 }

abbrev in_drive : Bytes → Bytes → RemoteItem
in_drive id md5 = record {
  file_id = id;
  is_dir = false;
  size = pos 3;
  md5 = md5;
  version = pos 1;
  modified_ns = pos 0;
}

abbrev quiet : Input
quiet = record {
  base = [];
  local = [];
  remote = [];
  machine = codes "m";
  stamp = codes "t";
  case_fold = false;
  norm_fold = false;
  prefer_newer = false;
  shadowed_remote = [];
  unreadable_local = [];
}

-- Edited on both sides.
abbrev edited_twice : Input
edited_twice = record quiet {
  base = (codes "d/a.txt", tracked (codes "1") (codes "x")) ∷ [];
  local = (codes "d/a.txt", on_disk (codes "y")) ∷ [];
  remote = (codes "d/a.txt", in_drive (codes "1") (codes "z")) ∷ [];
}

abbrev outline : List Action → List (Kind × Bytes × Bytes × Bytes)
outline = map (λ a. (a.kind, a.rel_path, a.new_rel_path, a.protected_by))

conflict_run :
    outline (plan ascii edited_twice).0
    ≡ (conflict_backup, codes "d/a.txt", codes "d/a (conflict m t).txt", [])
      ∷ (upload, codes "d/a (conflict m t).txt", [], codes "d/a.txt")
      ∷ (download, codes "d/a.txt", [], codes "d/a.txt")
      ∷ []
unfolding plan bytes_eq int_eq nat_eq
conflict_run = refl

-- A folder with a file, gone on Drive; another file gone here.
abbrev gone_apart : Input
gone_apart = record quiet {
  base =
      (codes "d", tracked_dir (codes "1"))
      ∷ (codes "d/a", tracked (codes "2") (codes "x"))
      ∷ (codes "b", tracked (codes "3") (codes "y"))
      ∷ [];
  local =
      (codes "d", record (on_disk []) { is_dir = true }) ∷ (codes "d/a", on_disk (codes "x")) ∷ [];
  remote = (codes "b", in_drive (codes "3") (codes "y")) ∷ [];
}

gone_apart_run :
    outline (plan ascii gone_apart).0
    ≡ (quarantine_local, codes "d/a", [], [])
      ∷ (quarantine_local, codes "d", [], [])
      ∷ (trash_remote, codes "b", [], [])
      ∷ []
unfolding plan bytes_eq int_eq nat_eq
gone_apart_run = refl

-- A folder renamed here, with its file.
abbrev renamed : Input
renamed = record quiet {
  base = (codes "d", tracked_dir (codes "1")) ∷ (codes "d/a", tracked (codes "2") (codes "x")) ∷ [];
  local =
      (codes "e", record (on_disk []) { is_dir = true }) ∷ (codes "e/a", on_disk (codes "x")) ∷ [];
  remote =
      (codes "d", record (in_drive (codes "1") []) { is_dir = true })
      ∷ (codes "d/a", in_drive (codes "2") (codes "x"))
      ∷ [];
}

renamed_run : outline (plan ascii renamed).0 ≡ (move_remote, codes "d", codes "e", []) ∷ []
unfolding plan bytes_eq int_eq nat_eq
renamed_run = refl

-- A file moved in Drive onto an untracked local one, and another folder new on both sides.
abbrev reclaimed : Input
reclaimed = record quiet {
  base = (codes "a", tracked (codes "1") (codes "x")) ∷ [];
  local =
      (codes "a", on_disk (codes "w"))
      ∷ (codes "b", on_disk (codes "y"))
      ∷ (codes "n", record (on_disk []) { is_dir = true })
      ∷ (codes "n/m", record (on_disk []) { is_dir = true })
      ∷ [];
  remote = (codes "b", in_drive (codes "1") (codes "x")) ∷ [];
}

reclaimed_run :
    outline (plan ascii reclaimed).0
    ≡ (mkdir_remote, codes "n", [], [])
      ∷ (mkdir_remote, codes "n/m", [], [])
      ∷ (conflict_backup, codes "b", codes "b (conflict m t)", [])
      ∷ (move_local, codes "a", codes "b", codes "b")
      ∷ (update_remote, codes "b", [], codes "a")
      ∷ (upload, codes "b (conflict m t)", [], codes "b")
      ∷ []
unfolding plan bytes_eq int_eq nat_eq
reclaimed_run = refl

-- The two sides hold different files of one name, and nothing is tracked.
abbrev first_sync : Input
first_sync = record quiet {
  local = (codes "a", on_disk (codes "x")) ∷ (codes "b", on_disk (codes "y")) ∷ [];
  remote = (codes "a", in_drive (codes "1") (codes "z")) ∷ [];
}

plan_of_empty_base_example : All (λ a. is_delete a.kind ≡ false) (plan ascii first_sync).0
plan_of_empty_base_example = plan_of_empty_base ascii first_sync refl

plan-MayPrecede_example : Pairs MayPrecede (plan ascii reclaimed).0
plan-MayPrecede_example = plan-MayPrecede ascii reclaimed

plan-ComesAfterGuard_example : ComesAfterGuard [] (plan ascii reclaimed).0
plan-ComesAfterGuard_example = plan-ComesAfterGuard ascii reclaimed

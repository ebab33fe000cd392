-- ===== src/Tests/Disk.antt =====
-- Runs of the scanner, and a cycle on what it gave.
use synckeeper.Base.{
  none, some, [], ◌∷◌, Bytes, codes, ◌≡◌, refl, true, false, pos, inl, ◌⊎◌, nat_eq, bytes_eq,
  int_eq, has_prefix, ◌==◌, All,
}
use synckeeper.Base.Dict
use synckeeper.Names.{Unicode, join, ignored, validate}
use synckeeper.Reconcile.Types.{LocalItem}
use synckeeper.Store.Types.{Item}
use synckeeper.Scanner.{
  ScanConfig, ScanState, Listing, end, leaf, folder, regular, link, scan, dir_item, unread, is_link,
}
use synckeeper.Scanner.Covered.{IsCovered}
use synckeeper.Scanner.Rows.{HasRow}
use synckeeper.Scanner.Exact.{HasUnread, scan_exact}
use synckeeper.Engine.{Cycle, plan_cycle}
use synckeeper.Engine.Held.{Spares, executed}
use synckeeper.Engine.Scanned.{scan-plan_cycle}

abbrev exactly : ScanConfig
exactly = record {
  base =
      (
        codes "b",
        record {
          file_id = codes "2";
          is_dir = false;
          size = pos 3;
          md5 = codes "old";
          mtime_ns = pos 5;
          drive_md5 = codes "old";
          drive_version = pos 1;
        },
      )
      ∷ [];
  matches = λ p s. some (p == s);
  ignore = codes "tmp" ∷ [];
}

-- A locked folder, a file as it was last synced, a new one, a link, and a folder to be ignored.
abbrev disk : Listing
disk = folder (codes "a") false end (
    leaf (codes "b") (regular (some (record { size = pos 3; mtime_ns = pos 5 })) none) (
      leaf (codes "c")
        (regular (some (record { size = pos 1; mtime_ns = pos 6 })) (some (codes "new")))
        (leaf (codes "d") link
          (folder (codes "tmp") true (leaf (codes "e") (regular none none) end) end))))

abbrev scanned : ScanState
scanned = record {
  snapshot =
      (codes "a", dir_item)
      ∷ (codes "b", record { is_dir = false; size = pos 3; mtime_ns = pos 5; md5 = codes "old" })
      ∷ (codes "c", record { is_dir = false; size = pos 1; mtime_ns = pos 6; md5 = codes "new" })
      ∷ [];
  skips =
      record { rel_path = codes "a"; reason = unread; unreadable = true }
      ∷ record { rel_path = codes "d"; reason = is_link; unreadable = false }
      ∷ [];
}

scan_run : scan exactly true disk ≡ some scanned
unfolding scan nat_eq bytes_eq int_eq ignored validate join has_prefix Dict.lookup Dict.insert
scan_run = refl

scan_exact_example :
    (scan exactly true disk ≡ none → (true ≡ false) ⊎ HasUnread exactly disk)
    × ((s : ScanState)
        → scan exactly true disk ≡ some s
        → IsCovered exactly s [] disk
          × ((p : Bytes) (item : LocalItem)
              → Dict.lookup p s.snapshot ≡ some item
              → HasRow exactly [] disk p item))
scan_exact_example = scan_exact exactly true disk

abbrev letters : Unicode
letters = record { nfc = λ s. s; to_lower = λ s. s }

abbrev below : Item
below = record {
  drive_file_id = codes "1";
  rel_path = codes "a/x";
  is_dir = false;
  size = pos 3;
  content_md5 = codes "m";
  local_mtime_ns = pos 5;
  drive_md5 = codes "m";
  drive_version = pos 1;
  synced_at = pos 0;
}

abbrev round : Cycle
round = record {
  items = below ∷ [];
  remote =
      (
        codes "a/x",
        record {
          file_id = codes "1";
          is_dir = false;
          size = pos 3;
          md5 = codes "m";
          version = pos 1;
          modified_ns = pos 0;
        },
      )
      ∷ [];
  remote_skips = [];
  local = scanned.snapshot;
  local_skips = scanned.skips;
  machine = codes "m";
  stamp = codes "t";
  case_fold = false;
  norm_fold = false;
  prefer_newer = false;
  trash_available = true;
  exceeds = λ d t. false;
  confirm_deletes = false;
  defer_mass_delete = true;
  dry_run = false;
}

scan-plan_cycle_example : All (Spares (codes "1")) (executed (plan_cycle letters round))
unfolding nat_eq bytes_eq ignored validate join has_prefix
scan-plan_cycle_example =
    scan-plan_cycle letters exactly disk scanned round below (codes "a") scan_run refl (inl refl)
      (inl ((refl, refl), inl (refl, refl))) refl

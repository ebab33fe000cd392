-- ===== src/Engine/Scanned.antt =====
-- internal/scanner/scanner.go with internal/engine/engine.go: a folder that could not be read costs no
-- row below it its file.
use synckeeper.Base.{
  true, false, some, ◌++◌, ◌∷◌, [], Bytes, has_prefix, ◌≡◌, inl, inr, ◌⊎◌, All, In, subst, sym,
  bytes_eq,
}
use synckeeper.Names.{Unicode, join}
use synckeeper.Store.Types.{Item}
use synckeeper.Scanner.{ScanConfig, ScanState, Listing, end, leaf, folder, scan}
use synckeeper.Scanner.Covered.{IsCovered, IsSkipped}
use synckeeper.Scanner.Rows.{IsTaken}
use synckeeper.Scanner.Exact.{scan_exact}
use synckeeper.Engine.{Cycle, plan_cycle}
use synckeeper.Engine.Held.{Spares, executed, plan_cycle-Spares}

-- A folder that the scan enters, at the path, could not be read.
abbrev pub IsLocked : ScanConfig → Bytes → Listing → Bytes → Type 0
IsLocked c dir end p = ⊥
IsLocked c dir (leaf name k rest) p = IsLocked c dir rest p
IsLocked c dir (folder name readable kids rest) p =
    (IsTaken c name
      × (((join dir name ≡ p) × (readable ≡ false)) ⊎ IsLocked c (join dir name) kids p))
    ⊎ IsLocked c dir rest p

locked_skip :
    (c : ScanConfig) (s : ScanState) (dir : Bytes) (l : Listing) (p : Bytes)
    → IsCovered c s dir l
    → IsLocked c dir l p
    → IsSkipped s p true
locked_skip c s dir end p h k = absurd k
locked_skip c s dir (leaf name x rest) p (_, h) k = locked_skip c s dir rest p h k
locked_skip c s dir (folder name readable kids rest) p (_, _, h) (inr k) =
    locked_skip c s dir rest p h k
locked_skip c s dir (folder name readable kids rest) p (_, inside, _) (inl ((i, v), inl (e, r))) =
    let (_, held, _) = inside i v in subst (λ q. IsSkipped s q true) e (held r)
locked_skip c s dir (folder name readable kids rest) p (_, inside, _) (inl ((i, v), inr k)) =
    let (_, _, h) = inside i v in locked_skip c s (join dir name) kids p h k

-- A cycle that works on what a scan gave hands the executor no delete of a tracked row below a folder
-- that the scan entered and could not read, however deep the folder lies.
pub scan-plan_cycle :
    (u : Unicode) (c : ScanConfig) (tree : Listing) (s : ScanState) (y : Cycle) (it : Item)
    (dir : Bytes)
    → scan c true tree ≡ some s
    → y.local_skips ≡ s.skips
    → In it y.items
    → IsLocked c [] tree dir
    → has_prefix it.rel_path (dir ++ b'/' ∷ []) ≡ true
    → All (Spares it.drive_file_id) (executed (plan_cycle u y))
scan-plan_cycle u c tree s y it dir e same m locked below =
    let (covered, _) = (scan_exact c true tree).1 s e in
    let (k, i, at, unreadable) = locked_skip c s [] tree dir covered locked in
    plan_cycle-Spares u y it m (
      inl (
        k,
        subst (In k) (sym same) i,
        unreadable,
        subst (λ q. has_prefix it.rel_path (q ++ b'/' ∷ []) ≡ true) (sym at) below,
      ))

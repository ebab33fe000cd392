-- ===== src/Reconcile/Proofs/Retires.antt =====
-- What a delete of the plan may rest on.
use synckeeper.Base.{◌≡◌, true, false, none, some, nat_eq, In, int_eq, Bytes, bytes_eq}
use synckeeper.Reconcile.Types.{BaseItem, LocalItem, Action, trash_remote, quarantine_local, forget}
use synckeeper.Reconcile.Index.{RemoteRef, local_at, rem_by_id, new_remote_at}
use synckeeper.Reconcile.Draft.{Scene, rewrite, rewrite_ld}
use synckeeper.Reconcile.Plan.Dirs.{dir_place, has_create_under, remote_alive_under}
use synckeeper.Reconcile.Plan.{made_by}
use synckeeper.Reconcile.Proofs.Sources.{IsSeen}

-- The delete `a` retires the row `b` at `p`, which no snapshot hides.
abbrev pub IsOfRow : Scene → Action → Bytes → BaseItem → Type 0
IsOfRow s a p b =
    In (p, b) s.input.base × (a.file_id ≡ b.file_id) × (a.is_dir ≡ b.is_dir) × IsSeen s b

pub data Retires (s : Scene) (a : Action) : Type 0 where
  -- Gone on both sides: here from where the local directory moves put the row.
  forgotten_file :
      (p : Bytes) (b : BaseItem)
      → IsOfRow s a p b
      → a.kind ≡ forget
      → b.is_dir ≡ false
      → a.rel_path ≡ p
      → local_at s.input (rewrite_ld s p) ≡ none
      → rem_by_id s.input b.file_id ≡ none
      → Retires s a
  forgotten_dir :
      (p : Bytes) (b : BaseItem)
      → IsOfRow s a p b
      → a.kind ≡ forget
      → b.is_dir ≡ true
      → a.rel_path ≡ p
      → local_at s.input (dir_place s p) ≡ none
      → rem_by_id s.input b.file_id ≡ none
      → Retires s a
  -- Gone on Drive, where no new item took the path; here the file is as last synced, and the
  -- action pins its stat.
  quarantined_file :
      (p : Bytes) (b : BaseItem) (loc : LocalItem)
      → IsOfRow s a p b
      → a.kind ≡ quarantine_local
      → b.is_dir ≡ false
      → a.rel_path ≡ rewrite_ld s p
      → local_at s.input a.rel_path ≡ some loc
      → (loc.is_dir ≡ false) × (loc.md5 ≡ b.md5)
      → (a.local_exists ≡ true) × (a.local_size ≡ loc.size) × (a.local_mtime_ns ≡ loc.mtime_ns)
      → rem_by_id s.input b.file_id ≡ none
      → new_remote_at s.input a.rel_path ≡ none
      → Retires s a
  -- Gone here; on Drive the file is as last synced and where the plan expects it.
  trashed_file :
      (p : Bytes) (b : BaseItem) (ra : RemoteRef)
      → IsOfRow s a p b
      → a.kind ≡ trash_remote
      → b.is_dir ≡ false
      → a.rel_path ≡ p
      → local_at s.input (rewrite_ld s p) ≡ none
      → rem_by_id s.input b.file_id ≡ some ra
      → ra.item.md5 ≡ b.drive_md5
      → rewrite_ld s ra.path ≡ rewrite s p
      → Retires s a
  -- A folder gone on Drive, under which the plan creates nothing.
  quarantined_dir :
      (p : Bytes) (b : BaseItem) (l : LocalItem)
      → IsOfRow s a p b
      → a.kind ≡ quarantine_local
      → b.is_dir ≡ true
      → a.rel_path ≡ dir_place s p
      → local_at s.input a.rel_path ≡ some l
      → rem_by_id s.input b.file_id ≡ none
      → has_create_under (made_by s) p ≡ false
      → has_create_under (made_by s) (rewrite s p) ≡ false
      → Retires s a
  -- A folder gone here, under which the plan creates nothing and Drive has nothing new.
  trashed_dir :
      (p : Bytes) (b : BaseItem) (ra : RemoteRef)
      → IsOfRow s a p b
      → a.kind ≡ trash_remote
      → b.is_dir ≡ true
      → a.rel_path ≡ ra.path
      → local_at s.input (dir_place s p) ≡ none
      → rem_by_id s.input b.file_id ≡ some ra
      → has_create_under (made_by s) ra.path ≡ false
      → has_create_under (made_by s) (rewrite_ld s ra.path) ≡ false
      → remote_alive_under s.input ra.path ≡ false
      → Retires s a

-- The row that a delete retires.
pub retired_row :
    (s : Scene) (a : Action) → Retires s a → (p : Bytes) × (b : BaseItem) × In (p, b) s.input.base
retired_row s a (forgotten_file p b r _ _ _ _ _) = (p, b, r.0)
retired_row s a (forgotten_dir p b r _ _ _ _ _) = (p, b, r.0)
retired_row s a (quarantined_file p b _ r _ _ _ _ _ _ _ _) = (p, b, r.0)
retired_row s a (trashed_file p b _ r _ _ _ _ _ _ _) = (p, b, r.0)
retired_row s a (quarantined_dir p b _ r _ _ _ _ _ _ _) = (p, b, r.0)
retired_row s a (trashed_dir p b _ r _ _ _ _ _ _ _ _) = (p, b, r.0)

-- ===== src/Root.antt =====
-- internal/root/root.go: which Drive folder this machine syncs against.
pub mod Safe
pub mod Unread
use synckeeper.Base.{
  ℕ, Bool, true, false, not, ◌&&◌, Option, none, some, List, [], ◌∷◌, Bytes, codes, bytes_eq, ◌==◌,
  ltb, ◌⊎◌, inl, inr, if◌then◌else◌,
}
use synckeeper.DriveClient.{Failure, is_not_found}
use synckeeper.DriveClient.Files.{File, is_dir, find_folder}
use synckeeper.Store.Types.{root_folder_id, root_folder_name}
use synckeeper.Store.Exec.{
  Error, sql, absent, drive, no_token, Exec, Outside, pure, raise, ask, attempt, tx, ◌>>=◌, ◌>>◌,
}
use synckeeper.Store.Meta.{get_meta, set_meta, delete_meta, item_count}
use synckeeper.Store.Items.{reset_baseline}
use synckeeper.RemoteDelta.Walk.{walk_done}
use synckeeper.RemoteDelta.Refresh.{force_full_walk}

-- `Result`: the folder, and how it was found.
pub record Found : Type 0 where
  pub id : Bytes
  pub name : Bytes
  pub created : Bool
  pub renamed : Bool

-- The statements of commitIdentity's transaction.
unfoldable pub identity_steps : File → Bool → Exec Unit
identity_steps f changed = do
  set_meta root_folder_id f.id
  set_meta root_folder_name f.name
  if changed then (do reset_baseline; delete_meta walk_done) else pure tt

unfoldable pub commit_identity : File → Bool → Exec Unit
unfolding identity_steps
commit_identity f changed = tx (identity_steps f changed)

-- The recorded name, "" where there is none.
unfoldable pub recorded_name : (Error ⊎ Bytes) → Exec Bytes
recorded_name (inr name) = pure name
recorded_name (inl absent) = pure []
recorded_name (inl sql) = raise sql
recorded_name (inl (drive f)) = raise (drive f)
recorded_name (inl no_token) = raise no_token

unfoldable pub keep_folder : File → Exec Found
unfolding recorded_name
keep_folder f = do
  got ← attempt (get_meta root_folder_name)
  recorded ← recorded_name got
  (if recorded == f.name
      then pure (record { id = f.id; name = f.name; created = false; renamed = false })
      else (do
        set_meta root_folder_name f.name
        pure
            (record { id = f.id; name = f.name; created = false; renamed = not (recorded == []) })))

-- `create`: a fresh folder, and an empty baseline for the coming cycle.
unfoldable pub create : ℕ → Bytes → Exec Found
unfolding commit_identity
create fuel folder_name = do
  f ← ask (λ o n. o.mkdir n (codes "root") folder_name)
  commit_identity f true
  force_full_walk fuel f.id
  pure (record { id = f.id; name = f.name; created = true; renamed = false })

unfoldable pub mkdir_unless : Option File → Bytes → Bytes → Exec File
mkdir_unless (some f) parent name = pure f
mkdir_unless none parent name = ask (λ o n. o.mkdir n parent name)

-- driveclient.FindOrCreateFolder
unfoldable pub find_or_create_folder : Bytes → Bytes → Exec File
unfolding find_folder mkdir_unless
find_or_create_folder parent name = do
  children ← ask (λ o n. o.list n parent)
  mkdir_unless (find_folder name children) parent name

unfoldable pub resolve_by_name : ℕ → Bytes → Exec Found
unfolding find_or_create_folder commit_identity
resolve_by_name fuel folder_name = do
  f ← find_or_create_folder (codes "root") folder_name
  n ← item_count
  (if ltb 0 n
      then (do
        commit_identity f true
        force_full_walk fuel f.id
        pure (record { id = f.id; name = f.name; created = true; renamed = false }))
      else (do
        commit_identity f false
        pure (record { id = f.id; name = f.name; created = false; renamed = false })))

-- What the lookup of the stored id gave: a folder to keep, one that is gone, or a failure.
unfoldable pub judge : ℕ → Bytes → (Error ⊎ File) → Exec Found
unfolding keep_folder create is_dir is_not_found
judge fuel folder_name (inr f) =
    if is_dir f && not f.trashed then keep_folder f else create fuel folder_name
judge fuel folder_name (inl (drive x)) =
    if is_not_found (some x) then create fuel folder_name else raise (drive x)
judge fuel folder_name (inl sql) = raise sql
judge fuel folder_name (inl absent) = raise absent
judge fuel folder_name (inl no_token) = raise no_token

-- The first switch of Resolve, on the stored id.
unfoldable pub resolve_stored : ℕ → Bytes → (Error ⊎ Bytes) → Exec Found
unfolding judge resolve_by_name
resolve_stored fuel folder_name (inr id) =
    if id == []
    then resolve_by_name fuel folder_name
    else (do got ← attempt (ask (λ o n. o.get n id)); judge fuel folder_name got)
resolve_stored fuel folder_name (inl e) = resolve_by_name fuel folder_name

unfoldable pub resolve : ℕ → Bytes → Exec Found
unfolding resolve_stored
resolve fuel folder_name = do
  stored ← attempt (get_meta root_folder_id)
  resolve_stored fuel folder_name stored

-- ===== src/Engine/Start.antt =====
-- internal/engine/engine.go with internal/guards: a sync folder that is gone is not a deletion.
use synckeeper.Base.{
  Bool, true, ◌&&◌, List, [], length, ltb, if◌then◌else◌, ◌≡◌, ◌≢◌, ◌⊎◌, inl, inr, All, sort_by,
  bytes_ltb,
}
use synckeeper.Names.{Unicode}
use synckeeper.Reconcile.Types.{is_delete}
use synckeeper.Guards.SyncDir.{SyncStat, directory, missing, SyncDirError, ensure_sync_dir}
use synckeeper.Store.Types.{Item, Db}
use synckeeper.Store.Exec.{Exec, pure, tx, ◌>>=◌, ◌>>◌}
use synckeeper.Store.Ensures.{Ensures}
use synckeeper.Store.Items.{all_items, reset_baseline}
use synckeeper.Engine.{Cycle, plan_cycle}
use synckeeper.Engine.Held.{executed}

unfoldable pub start_items : (SyncDirError ⊎ Bool) → List Item → Exec (SyncDirError ⊎ List Item)
start_items (inl e) items = pure (inl e)
start_items (inr recreated) items =
    if recreated && ltb 0 (length items)
    then (do tx reset_baseline; pure (inr []))
    else pure (inr items)

-- The first steps of `Sync`: the rows that the cycle goes by, or the error of the sync folder.
unfoldable pub start_cycle : SyncStat → Bool → Exec (SyncDirError ⊎ List Item)
unfolding start_items
start_cycle dir mkdir_ok = do items ← all_items; start_items (ensure_sync_dir dir mkdir_ok) items

-- No cycle that goes by these rows hands the executor a delete.
abbrev pub DeletesNothing : List Item → Type 0
DeletesNothing items =
    (u : Unicode) (c : Cycle)
    → c.items ≡ items
    → All (λ a. is_delete a.kind ≢ true) (executed (plan_cycle u c))

-- How the first steps end: with an error of the sync folder and nothing changed; with the folder
-- there, nothing changed and the rows of the baseline in order; or with the folder recreated, the
-- baseline emptied with its journal or without a row before, and rows that delete nothing.
abbrev pub IsStarted : SyncStat → Db → (SyncDirError ⊎ List Item) → Db → Type 0
IsStarted dir old (inl e) d = d ≡ old
IsStarted dir old (inr items) d =
    ((dir ≡ directory true)
      × (d ≡ old)
      × (items ≡ sort_by (λ a b. bytes_ltb a.rel_path b.rel_path) old.items))
    ⊎ ((dir ≡ missing)
        × DeletesNothing items
        × (((old.items ≡ []) × (d ≡ old)) ⊎ (d ≡ record old { items = []; ops = [] })))

abbrev Read : Db → List Item → Db → Type 0
Read old items d = (d ≡ old) × (items ≡ sort_by (λ a b. bytes_ltb a.rel_path b.rel_path) old.items)

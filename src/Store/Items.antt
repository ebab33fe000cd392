-- ===== src/Store/Items.antt =====
-- internal/statedb/items.go: the table `items`, the baseline.
use synckeeper.Base.{
  Bool, not, ◌&&◌, ◌||◌, Option, none, some, List, [], ◌∷◌, ◌++◌, Bytes, bytes_eq, int_eq, ℤ, pos,
  ◌==◌, keep, any, map, length, drop, sort_by, bytes_ltb, has_prefix, if◌then◌else◌,
}
use synckeeper.Base.Dict
use synckeeper.Store.Types.{Db, Item}
use synckeeper.Store.Exec.{Exec, ok, pure, query, write, ◌>>=◌, ◌>>◌}
use synckeeper.Store.Nodes.{batches}
use synckeeper.Store.Like.{like, escape_like}

unfoldable pub all_items : Exec (List Item)
all_items = query (λ d. sort_by (λ a b. bytes_ltb a.rel_path b.rel_path) d.items)

-- `time.Now().Unix()`
unfoldable pub clock : Exec ℤ
clock o w = (ok (o.now w.calls), w)

abbrev pub claims : Item → Item → Bool
claims a b = a.drive_file_id == b.drive_file_id || a.rel_path == b.rel_path

-- An INSERT, refused where a row has the id or the path.
unfoldable pub insert_item : Item → Db → Option Db
insert_item it d =
    if any (claims it) d.items then none else some (record d { items = d.items ++ it ∷ [] })

unfoldable pub drop_claims : Item → Db → Option Db
drop_claims it d = some (record d { items = keep (λ i. not (claims it i)) d.items })

unfoldable pub put_item : Item → Exec Unit
unfolding insert_item drop_claims
put_item it = do write (drop_claims it); write (insert_item it)

unfoldable pub upsert_item : Item → Exec Unit
unfolding put_item clock
upsert_item it =
    if it.synced_at == pos 0
    then (do t ← clock; put_item (record it { synced_at = t }))
    else put_item it

unfoldable pub delete_item_by_id : Bytes → Exec Unit
delete_item_by_id id =
    write (λ d. some (record d { items = keep (λ i. not (i.drive_file_id == id)) d.items }))

abbrev pub without_items : List Bytes → List Item → List Item
without_items ids = keep (λ i. not (Dict.contains i.drive_file_id ids))

unfoldable pub delete_item_batch : List Bytes → Exec Unit
delete_item_batch ids = write (λ d. some (record d { items = without_items ids d.items }))

unfoldable pub delete_items_by_id : List Bytes → Exec Unit
unfolding delete_item_batch
delete_items_by_id ids = batches delete_item_batch (length ids) ids

unfoldable pub reset_baseline : Exec Unit
reset_baseline = do
  write (λ d. some (record d { items = [] }))
  write (λ d. some (record d { ops = [] }))

abbrev pub moved : (Item → Bool) → Bytes → Item → Item
moved test path i = if test i then record i { rel_path = path } else i

-- `update items set rel_path = ? where ...`, refused where it would leave two rows at the path.
unfoldable pub set_path : (Item → Bool) → Bytes → Db → Option Db
set_path test path d =
    if any test d.items && any (λ i. not (test i) && i.rel_path == path) d.items
    then none
    else some (record d { items = map (moved test path) d.items })

-- `strings.TrimPrefix`
unfoldable pub trim_prefix : Bytes → Bytes → Bytes
trim_prefix s prefix = if has_prefix s prefix then drop (length prefix) s else s

-- The loop over the rows that the query found.
unfoldable pub rename_all : Bytes → Bytes → List Item → Exec Unit
unfolding set_path trim_prefix
rename_all prefix new_path [] = pure tt
rename_all prefix new_path (r ∷ rens) = do
  write (
      set_path (λ i. i.drive_file_id == r.drive_file_id)
        (new_path ++ b'/' ∷ trim_prefix r.rel_path prefix))
  rename_all prefix new_path rens

unfoldable pub rename_item_path : Bytes → Bytes → Exec Unit
unfolding rename_all set_path
rename_item_path old_path new_path = do
  write (set_path (λ i. i.rel_path == old_path) new_path)
  let prefix = old_path ++ b'/' ∷ []
  rens ← query (λ d. keep (λ i. like (escape_like prefix ++ b'%' ∷ []) i.rel_path) d.items)
  rename_all prefix new_path rens

unfoldable pub update_item_drive : Bytes → Bytes → ℤ → Exec Unit
update_item_drive id md5 version = write (λ d. some (record d {
  items =
      map
        (λ i.
          if i.drive_file_id == id
          then record i { drive_md5 = md5; drive_version = version }
          else i)
        d.items;
}))

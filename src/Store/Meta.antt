-- ===== src/Store/Meta.antt =====
-- internal/statedb/statedb.go and items.go: the table `meta`, and the counts.
use synckeeper.Base.{ℕ, Bool, true, false, not, Option, none, some, Bytes, bytes_eq, length, keep}
use synckeeper.Base.Dict
use synckeeper.Store.Types.{OpState, planned, in_progress, done}
use synckeeper.Store.Exec.{Exec, pure, raise, absent, query, write, ◌>>=◌}

unfoldable pub found : Option Bytes → Exec Bytes
found none = raise absent
found (some v) = pure v

unfoldable pub get_meta : Bytes → Exec Bytes
unfolding found
get_meta key = do v ← query (λ d. Dict.lookup key d.meta); found v

-- SetMeta, and SetMetaTx inside a transaction.
unfoldable pub set_meta : Bytes → Bytes → Exec Unit
set_meta key value = write (λ d. some (record d { meta = Dict.insert key value d.meta }))

unfoldable pub delete_meta : Bytes → Exec Unit
delete_meta key = write (λ d. some (record d { meta = Dict.erase key d.meta }))

unfoldable pub item_count : Exec ℕ
item_count = query (λ d. length d.items)

abbrev pub is_done : OpState → Bool
is_done planned = false
is_done in_progress = false
is_done done = true

unfoldable pub pending_op_count : Exec ℕ
pending_op_count = query (λ d. length (keep (λ op. not (is_done op.op_state)) d.ops))

-- ===== src/Store/Ops.antt =====
-- internal/statedb/ops.go: the journal of planned operations.
use synckeeper.Base.{
  ℕ, ◌+◌, not, Option, some, List, [], ◌∷◌, ◌++◌, nat_eq, ◌==◌, keep, map, ltb, sort_by,
  if◌then◌else◌,
}
use synckeeper.Store.Types.{Db, PendingOp, OpState, planned, done}
use synckeeper.Store.Exec.{Exec, pure, query, write, tx, ◌>>=◌, ◌>>◌}
use synckeeper.Store.Meta.{is_done}

unfoldable pub insert_op : PendingOp → Db → Option Db
insert_op op d =
    let id = d.last_op + 1 in
    some (record d { last_op = id; ops = d.ops ++ record op { id = id; op_state = planned } ∷ [] })

-- The loop of AddOps, with `LastInsertId` after each INSERT.
unfoldable pub add_each : List PendingOp → Exec (List ℕ)
unfolding insert_op
add_each [] = pure []
add_each (op ∷ ops) = do
  write (insert_op op)
  id ← query (λ d. d.last_op)
  ids ← add_each ops
  pure (id ∷ ids)

unfoldable pub add_ops : List PendingOp → Exec (List ℕ)
unfolding add_each
add_ops ops = tx (add_each ops)

unfoldable pub set_op_state : ℕ → OpState → Exec Unit
set_op_state id state = write (λ d. some (record d {
  ops = map (λ op. if op.id == id then record op { op_state = state } else op) d.ops;
}))

-- `apply` is the baseline mutation, `pure tt` for a nil one.
unfoldable pub complete_op : ℕ → Exec Unit → Exec Unit
unfolding set_op_state
complete_op id apply = tx (do apply; set_op_state id done)

unfoldable pub stale_ops : Exec (List PendingOp)
stale_ops =
    query (λ d. sort_by (λ a b. ltb a.id b.id) (keep (λ op. not (is_done op.op_state)) d.ops))

unfoldable pub clear_ops : Exec Unit
clear_ops = write (λ d. some (record d { ops = [] }))

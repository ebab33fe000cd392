-- ===== src/Executor/Protection.antt =====
-- internal/executor/executor.go: an action does nothing once the move or backup that it names has
-- failed, and what a failed run leaves of the baseline.
use synckeeper.Base.{
  ℕ, ◌+◌, true, List, Bytes, bytes_eq, ◌≡◌, ◌⊎◌, inl, inr, In, All, map, nat_eq, ◌==◌,
  if◌then◌else◌,
}
use synckeeper.Reconcile.Types.{Kind}
use synckeeper.Store.Types.{in_progress, PendingOp}
use synckeeper.Executor.Run.{State, Failure}
use synckeeper.Executor.Apply.{Summary, is_protector}
use synckeeper.Executor.Once.{protectors_of}

-- The paths of the moves and backups among the errors are remembered.
abbrev IsNoted : List Bytes → Kind × Bytes × Failure → Type 0
IsNoted paths (k, p, f) = is_protector k ≡ true → In p paths

abbrev AreNoted : Summary → State → Type 0
AreNoted sum s = All (IsNoted (protectors_of s)) sum.errors

-- The same of a run's result, if it has one.
abbrev NotedResult : (Failure ⊎ Summary) → State → Type 0
NotedResult (inr sum) s = AreNoted sum s
NotedResult (inl f) s = Unit {0}

abbrev pub in_work : ℕ → PendingOp → PendingOp
in_work op x = if x.id == op then record x { op_state = in_progress } else x

-- Nothing but the journal has changed, by one statement: the operation is in work, or the statement
-- failed.
abbrev pub IsLeft : ℕ → State → State → Type 0
IsLeft op s t =
    (t.disk ≡ s.disk)
    × (t.bin ≡ s.bin)
    × ((t.world.db ≡ s.world.db)
        ⊎ (t.world.db ≡ record s.world.db { ops = map (in_work op) s.world.db.ops }))
    × (t.world.calls ≡ s.world.calls + 1)

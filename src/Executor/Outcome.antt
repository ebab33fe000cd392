-- ===== src/Executor/Outcome.antt =====
-- internal/executor/executor.go: what `Apply` reports, and when it fails.
pub mod Statements
pub mod Rescue
use synckeeper.Base.{ℕ, ◌+◌, true, none, some, List, [], ◌≡◌, ◌⊎◌, inl, inr, length, nat_eq}
use synckeeper.Reconcile.Types.{Action}
use synckeeper.Reconcile.Validate.{PlanError, validate_transfer_stage}
use synckeeper.Store.Types.{Db, PendingOp}
use synckeeper.Store.Exec.{Outside, Exec, pure, query, tx, ended}
use synckeeper.Store.Ops.{insert_op, add_each}
use synckeeper.Executor.Run.{is_endless, Env, State, Run, Failure, bad_plan}
use synckeeper.Executor.Apply.{Summary}
use synckeeper.Executor.Outcome.Statements.{HasFault, Yields}

-- One error for each failure, and so many actions in all.
abbrev pub IsCounted : ℕ → Summary → Type 0
IsCounted n sum = (sum.executed + sum.failed ≡ n) × (sum.failed ≡ length sum.errors)

-- The result of a run that goes on, or does not end.
abbrev CountedResult : ℕ → (Failure ⊎ Summary) → Type 0
CountedResult n (inr sum) = IsCounted n sum
CountedResult n (inl f) = is_endless f ≡ true

-- The end of a run: a report on all of the actions, or a failed statement.
Reported : Outside → ℕ → (Failure ⊎ Summary) → State → Type 0
Reported o n (inr sum) t = IsCounted n sum × (sum.failed ≡ 0 → t.world.db.ops ≡ [])
Reported o n (inl f) t = HasFault o ⊎ (is_endless f ≡ true)

module _ (e : Env) (n : ℕ) where
  abbrev Ends : (Failure ⊎ Summary) × State → Type 0
  Ends z = Reported e.outside n z.0 z.1

-- The report of a run, its failure, and what the run leaves.
abbrev pub IsReported : Env → List Action → State → (Failure ⊎ Summary) → State → Type 0
IsReported e plan s (inr sum) t =
    (validate_transfer_stage plan ≡ none)
    × IsCounted (length plan) sum
    × (sum.failed ≡ 0 → t.world.db.ops ≡ [])
IsReported e plan s (inl f) t =
    ((x : PlanError) × (validate_transfer_stage plan ≡ some x) × (f ≡ bad_plan x) × (t ≡ s))
    ⊎ ((validate_transfer_stage plan ≡ none) × (HasFault e.outside ⊎ (is_endless f ≡ true)))

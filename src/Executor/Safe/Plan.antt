-- ===== src/Executor/Safe/Plan.antt =====
-- internal/executor/executor.go: what the run of a whole plan may replace.
use synckeeper.Base.{ℕ, List, Bytes, ◌≡◌, In, length}
use synckeeper.Disk.{FileData}
use synckeeper.Reconcile.Types.{Action}
use synckeeper.Executor.Run.{Env, Run}
use synckeeper.Executor.Safe.{Safe}
use synckeeper.Executor.Safe.Actions.{MayReplace}

-- Some action of the plan may.
abbrev pub PlanMayReplace : Env → List Action → Bytes → FileData → Type 0
PlanMayReplace e plan p f = (a : Action) × In a plan × MayReplace e a p f

-- The workers take each of the transfers, and nothing else.
pub record IsSchedule (schedule : List (ℕ × Action) → List (ℕ × Action)) : Type 0 where
  pub taken : (xs : List (ℕ × Action)) (x : ℕ × Action) → In x (schedule xs) → In x xs
  pub counted : (xs : List (ℕ × Action)) → length (schedule xs) ≡ length xs

module _ (e : Env) (plan : List Action) where
  abbrev IsSafe : {A : Type 0} → Run A → Type 0
  IsSafe m = Safe (PlanMayReplace e plan) e m

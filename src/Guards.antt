-- ===== src/Guards.antt =====
-- internal/guards/guards.go: the mass-delete guard.
pub mod SyncDir
pub mod Counting
pub mod Collapse
use synckeeper.Base.{
  ℕ, ◌+◌, Bool, ◌&&◌, ◌||◌, Option, none, some, List, [], ◌∷◌, nat_eq, ◌==◌, if◌then◌else◌, ltb,
}
use synckeeper.Reconcile.Types.{Action, is_quarantine}

-- What one action removes from this machine, in files.
abbrev pub removal : Action → ℕ
removal a = if is_quarantine a.kind then (if a.is_dir then a.subtree_files else 1) else 0

unfoldable pub deletions : List Action → ℕ
deletions [] = 0
deletions (a ∷ plan) = removal a + deletions plan

-- The error that wraps `ErrMassDelete`, with the counts that it reports.
pub data MassDelete : Type 0 where
  mass_delete : ℕ → ℕ → MassDelete

-- `exceeds d t` is `float64(d)/float64(t) > threshold`.
unfoldable pub check_mass_delete :
    (ℕ → ℕ → Bool) → List Action → ℕ → Bool → Bool → Option MassDelete
unfolding deletions
check_mass_delete exceeds plan tracked_files confirmed bin_available =
    if confirmed || (tracked_files == 0 || bin_available)
    then none
    else if ltb 10 (deletions plan) && exceeds (deletions plan) tracked_files
    then some (mass_delete (deletions plan) tracked_files)
    else none

-- ===== src/Reconcile/Validate.antt =====
-- internal/reconcile/validate.go: `ValidateTransferStage`. The map of the file paths is the list
-- of its keys, whose order decides only which of several errors is returned.
pub mod Ancestors
pub mod Exact
use synckeeper.Base.{
  ℕ, zero, suc, Bool, true, false, not, Option, none, some, List, [], ◌∷◌, Bytes, bytes_eq, nat_eq,
  ◌==◌, if◌then◌else◌, length,
}
use synckeeper.Base.Dict
use synckeeper.Base.Dict.{Dict}
use synckeeper.Reconcile.Types.{Kind, Action, is_transfer}
use Ancestors.{ancestors}

pub data PlanError : Type 0 where
  same_path : Kind → Kind → Bytes → PlanError
  nested : Bytes → Bytes → PlanError

-- The first loop: the file paths of the transfer stage, or a clash.
pub data Scan : Type 0 where
  clash : PlanError → Scan
  files : List Bytes → Scan

unfoldable pub scan : List Action → Dict Bytes Kind → List Bytes → Scan
unfolding Dict.lookup Dict.insert
scan [] seen set = files set
scan (a ∷ plan) seen set =
    let next =
      scan plan (Dict.insert a.rel_path a.kind seen) (if a.is_dir then set else a.rel_path ∷ set) in
    let skip = scan plan seen set in
    if is_transfer a.kind
    then (elim (Dict.lookup a.rel_path seen) [
      | some prev ↦ clash (same_path prev a.kind a.rel_path)
      | none ↦ next
    ])
    else skip

-- The nearest strict ancestor of a path that is in the set.
unfoldable pub first_in : List Bytes → List Bytes → Option Bytes
first_in set [] = none
first_in set (q ∷ qs) = if Dict.contains q set then some q else first_in set qs

unfoldable pub find_nested : List Bytes → List Bytes → Option PlanError
unfolding first_in ancestors
find_nested set [] = none
find_nested set (p ∷ ps) =
    let rest = find_nested set ps in
    elim (first_in set (ancestors (length p) p)) [ some q ↦ some (nested q p) | none ↦ rest ]

unfoldable pub validate_transfer_stage : List Action → Option PlanError
unfolding scan find_nested
validate_transfer_stage plan = elim (scan plan [] []) [
  | clash e ↦ some e
  | files set ↦ find_nested set set
]

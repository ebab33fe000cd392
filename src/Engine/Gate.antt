-- ===== src/Engine/Gate.antt =====
-- internal/engine/engine.go with internal/guards: the executor never gets a mass delete unasked.
use synckeeper.Base.{
  ◌≤◌, ◌&&◌, not, ℕ, Bool, true, length, keep, All, sym, ◌∙◌, false, Option, none, some, List, [],
  ◌∷◌, nat_eq, ltb, ◌≡◌, ◌≢◌, refl, ◌⊎◌, inl, inr, arith, Bool-cases,
}
use synckeeper.Names.{Unicode}
use synckeeper.Reconcile.Types.{
  Action, Kind, is_quarantine, mkdir_local, mkdir_remote, move_local, move_remote, conflict_backup,
  upload, update_remote, download, record_row, trash_remote, quarantine_local, forget,
}
use synckeeper.Reconcile.Plan.{plan}
use synckeeper.Guards.{MassDelete, deletions, check_mass_delete}
use synckeeper.Engine.{
  Cycle, plan_cycle, plan_input, reported_plan, guard_verdict, after_guard, finish, without_deletes,
  count_tracked,
}
use synckeeper.Engine.Held.{executed, executed-All}
use synckeeper.Store.Types.{Item}
use synckeeper.Reconcile.Proofs.Staged.{IsBare}
use synckeeper.Reconcile.Proofs.Headline.{plan-IsBare}

deletions-without_deletes : (actions : List Action) → deletions (without_deletes actions) ≡ 0
unfolding deletions without_deletes
deletions-without_deletes [] = refl
deletions-without_deletes (a ∷ actions) = ground (arith, deletions-without_deletes actions)

-- The files on this machine that a list of actions deletes one by one.
abbrev is_local_delete : Kind → Bool
is_local_delete quarantine_local = true
is_local_delete _ = false

abbrev pub files_removed : List Action → ℕ
files_removed actions = length (keep (λ a. is_local_delete a.kind && not a.is_dir) actions)

abbrev pub tracked_files : List Item → ℕ
tracked_files items = length (keep (λ it. not it.is_dir) items)

-- Few files, or a share within the threshold, and no folder that stands for files.
abbrev pub IsModest : Cycle → List Action → Type 0
IsModest c actions =
    ((files_removed actions ≤ 10)
      ⊎ (c.exceeds (files_removed actions) (tracked_files c.items) ≡ false))
    × All IsBare actions

kind_lem : (k : Kind) → is_quarantine k ≡ is_local_delete k
kind_lem mkdir_local = refl
kind_lem mkdir_remote = refl
kind_lem move_local = refl
kind_lem move_remote = refl
kind_lem conflict_backup = refl
kind_lem upload = refl
kind_lem update_remote = refl
kind_lem download = refl
kind_lem record_row = refl
kind_lem trash_remote = refl
kind_lem quarantine_local = refl
kind_lem forget = refl

-- Where no folder stands for files, the guard's count is that of the files.
deletions_lem :
    (actions : List Action) → All IsBare actions → deletions actions ≡ files_removed actions
unfolding deletions
deletions_lem [] h = refl
deletions_lem (a ∷ actions) ((_, b), h) =
    ground (arith, b, kind_lem a.kind, deletions_lem actions h)

tracked_lem : (items : List Item) → count_tracked items ≡ tracked_files items
unfolding count_tracked
tracked_lem [] = refl
tracked_lem (it ∷ items) = ground (arith, tracked_lem items)

-- The guard's own bound.
abbrev IsBounded : Cycle → List Action → Type 0
IsBounded c actions =
    (deletions actions ≤ 10) ⊎ (c.exceeds (deletions actions) (count_tracked c.items) ≡ false)

no_deletions : deletions [] ≡ 0
unfolding deletions
no_deletions = refl

executed-IsBounded :
    (c : Cycle) (actions : List Action) (verdict : Option MassDelete)
    → (verdict ≡ none → IsBounded c actions)
    → IsBounded c (executed (after_guard c actions verdict))
unfolding executed after_guard finish
executed-IsBounded c actions none h = elim (Bool-cases c.dry_run) [
  | inl e ↦ rw e (inl (omega (arith, no_deletions)))
  | inr e ↦ rw e (h refl)
]
executed-IsBounded c actions (some x) h = elim (Bool-cases c.defer_mass_delete) [
  | inr e ↦ rw e (inl (omega (arith, no_deletions)))
  | inl e ↦ elim (Bool-cases c.dry_run) [
    | inl f ↦ rw (e, f) (inl (omega (arith, no_deletions)))
    | inr f ↦ rw (e, f) (inl (omega (arith, deletions-without_deletes actions)))
  ]
]

verdict-IsBounded :
    (u : Unicode) (c : Cycle)
    → c.confirm_deletes ≡ false
    → c.trash_available ≡ false
    → count_tracked c.items ≢ 0
    → guard_verdict u c ≡ none
    → IsBounded c (reported_plan u c)
unfolding guard_verdict reported_plan check_mass_delete
verdict-IsBounded u c nc nb t e =
    let d = deletions (plan u (plan_input c)).0 in
    rw nb (elim (Bool-cases (ltb 10 d)) [
      | inr few ↦ inl (ground arith)
      | inl many ↦ elim (Bool-cases (c.exceeds d (count_tracked c.items))) [
        | inr ok ↦ inr ok
        | inl over ↦ absurd (ground arith)
      ]
    ])

reported-IsBare :
    (u : Unicode) (c : Cycle) → c.trash_available ≡ false → All IsBare (reported_plan u c)
unfolding reported_plan
reported-IsBare u c nb = rw nb (plan-IsBare u (plan_input c))

-- Where no bin is at hand and the deletes are not confirmed, and some file is tracked, the actions
-- that the executor gets delete at most ten files from this machine, or a share of the tracked files
-- that is within the threshold, and no folder's delete stands for files; in a daemon's cycle too,
-- which goes on without the deletes.
pub plan_cycle-IsModest :
    (u : Unicode) (c : Cycle)
    → c.confirm_deletes ≡ false
    → c.trash_available ≡ false
    → tracked_files c.items ≢ 0
    → IsModest c (executed (plan_cycle u c))
unfolding plan_cycle
plan_cycle-IsModest u c nc nb t =
    let run = executed (after_guard c (reported_plan u c) (guard_verdict u c)) in
    let bare =
      executed-All IsBare c (reported_plan u c) (guard_verdict u c) (reported-IsBare u c nb) in
    let tracked : count_tracked c.items ≢ 0 = λ e. t (sym (tracked_lem c.items) ∙ e) in
    let bounded =
      executed-IsBounded c (reported_plan u c) (guard_verdict u c)
        (verdict-IsBounded u c nc nb tracked) in
    (
      elim bounded [
        | inl few ↦ inl (omega (arith, few, deletions_lem run bare))
        | inr ok ↦ inr (rw (sym (deletions_lem run bare), sym (tracked_lem c.items)) ok)
      ],
      bare,
    )

-- ===== src/Reconcile/Proofs/Headline.antt =====
-- The planner as a whole.
use synckeeper.Base.{
  ◌≡◌, subst, inl, inr, true, false, [], arith, nat_eq, Bool-cases, All, In, All-mono, int_eq,
  bytes_eq,
}
use synckeeper.Names.{Unicode}
use synckeeper.Reconcile.Types.{Input, Action, is_delete}
use synckeeper.Reconcile.Draft.{Scene, scene}
use synckeeper.Reconcile.Plan.{plan, plan_of, after_dirs}
use synckeeper.Reconcile.Proofs.Staged.{after_dirs-Staged, after_dirs-IsBare, IsBare}
use synckeeper.Reconcile.Proofs.Retires.{Retires, retired_row}
use synckeeper.Reconcile.Proofs.Deletes.{after_dirs-Justified}
use synckeeper.Reconcile.Proofs.Order.{Pairs, MayPrecede, order-All}
use synckeeper.Reconcile.Proofs.Sequence.{order-Pairs}
use synckeeper.Reconcile.Proofs.Shields.{after_dirs-IsShielded}
use synckeeper.Reconcile.Proofs.Guarded.{ComesAfterGuard, order-ComesAfterGuard}

plan_of-Retires : (s : Scene) → All (λ a. is_delete a.kind ≡ true → Retires s a) (plan_of s).0
unfolding plan_of
plan_of-Retires s =
    let (km, kv, kt, kd) = after_dirs-Staged s in
    let d = after_dirs s in
    order-All (λ a. is_delete a.kind ≡ true → Retires s a) s.local_moves d
      (All-mono _ _ d.mkdirs (λ a k e. absurd (ground arith)) km)
      (All-mono _ _ d.moves (λ a k e. absurd (ground arith)) kv)
      (All-mono _ _ d.transfers (λ a k e. absurd (ground arith)) kt)
      (All-mono _ _ d.deletes (λ a r _. r) (after_dirs-Justified s))

-- No action of a plan has a subtree before the collapse, nor a file counted in one.
pub plan-IsBare : (u : Unicode) (i : Input) → All IsBare (plan u i).0
unfolding plan plan_of
plan-IsBare u i =
    let s = scene u i in
    let (km, kv, kt, kd) = after_dirs-IsBare s in
    order-All IsBare s.local_moves (after_dirs s) km kv kt kd

pub plan_bare : (u : Unicode) (i : Input) → All (λ a. a.subtree ≡ []) (plan u i).0
plan_bare u i = All-mono _ _ (plan u i).0 (λ a h. h.0) (plan-IsBare u i)

pub plan-Retires :
    (u : Unicode) (i : Input)
    → All (λ a. is_delete a.kind ≡ true → Retires (scene u i) a) (plan u i).0
unfolding plan
plan-Retires u i = plan_of-Retires (scene u i)

-- With an empty baseline the plan deletes nothing, whatever the two sides hold.
pub plan_of_empty_base :
    (u : Unicode) (i : Input) → i.base ≡ [] → All (λ a. is_delete a.kind ≡ false) (plan u i).0
plan_of_empty_base u i e = All-mono _ _ (plan u i).0 kept (plan-Retires u i)
  where
    kept :
        (a : Action) → (is_delete a.kind ≡ true → Retires (scene u i) a) → is_delete a.kind ≡ false
    kept a r = elim (Bool-cases (is_delete a.kind)) [
      | inl d ↦
          let (p, b, m) = retired_row (scene u i) a (r d) in
          absurd (subst (λ rows. In (p, b) rows) e (unfold scene in m))
      | inr n ↦ n
    ]

-- In a plan only deletes follow a delete, and none but transfers and deletes a transfer; no delete
-- of a path follows that of a directory above it, and no folder is made on Drive before one that
-- contains it.
pub plan-MayPrecede : (u : Unicode) (i : Input) → Pairs MayPrecede (plan u i).0
unfolding plan plan_of
plan-MayPrecede u i =
    order-Pairs (scene u i).local_moves (after_dirs (scene u i)) (after_dirs-Staged (scene u i))

-- In a plan an action that names a protector comes after a file-level move or conflict backup
-- that acts on the path it names.
pub plan-ComesAfterGuard : (u : Unicode) (i : Input) → ComesAfterGuard [] (plan u i).0
unfolding plan plan_of
plan-ComesAfterGuard u i =
    order-ComesAfterGuard (scene u i).local_moves (after_dirs (scene u i))
      (after_dirs-IsShielded (scene u i))

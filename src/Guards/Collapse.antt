-- ===== src/Guards/Collapse.antt =====
-- The guard may run before or after the collapse: it counts the same files.
use synckeeper.Base.{
  ℕ, ◌≤◌, ◌≡◌, refl, Bool, ◌&&◌, none, some, List, [], ◌∷◌, arith, Bytes, bytes_eq, ◌==◌,
  if◌then◌else◌, All, All-In, inl, inr, Option-cases, sum_of, All-of_In,
}
use synckeeper.Base.Dict.{Dict}
use synckeeper.Reconcile.Types.{Action, Kind, RemoteItem, is_quarantine}
use synckeeper.Reconcile.Collapse.{
  absorber, root_for, kind_of, kind_eq, is_binned_dir, collapse_dir_deletes, collapse_with,
}
use synckeeper.Reconcile.Collapse.Roots.{
  Flat, roots_of, roots_of-Flat, root_for-some, absorber-some, absorber_root,
}
use synckeeper.Guards.{deletions, check_mass_delete}
use synckeeper.Guards.Counting.{IsFresh, IsCounted, holds, deletions-survivors_self}

-- How many directory deletes to a bin the plan has at a path.
abbrev pub dir_count : Bytes → List Action → ℕ
dir_count r = sum_of (λ o. if is_binned_dir o && o.rel_path == r then 1 else 0)

abbrev quarantines_at : Bytes → Action → ℕ
quarantines_at r o = if is_quarantine o.kind && (o.is_dir && r == o.rel_path) then 1 else 0

kind_of-some :
    (plan : List Action) (r : Bytes) (k : Kind) → kind_of plan r ≡ some k → 1 ≤ dir_count r plan
unfolding kind_of
kind_of-some [] r k h = absurd (ground arith)
kind_of-some (o ∷ plan) r k h = elim (Option-cases (kind_of plan r)) [
  | inl e ↦ ground arith
  | inr (j, e) ↦ ground (arith, kind_of-some plan r j e)
]

kind_of-none :
    (plan : List Action) (r : Bytes) → kind_of plan r ≡ none → sum_of (quarantines_at r) plan ≡ 0
unfolding kind_of
kind_of-none [] r h = refl
kind_of-none (o ∷ plan) r h = ground (arith, kind_of-none plan r)

kind_of_once :
    (plan : List Action) (r : Bytes) (k : Kind)
    → kind_of plan r ≡ some k
    → dir_count r plan ≤ 1
    → sum_of (quarantines_at r) plan ≡ (if is_quarantine k then 1 else 0)
unfolding kind_of
kind_of_once [] r k h u = absurd (ground arith)
kind_of_once (o ∷ plan) r k h u = elim (Option-cases (kind_of plan r)) [
  | inl e ↦ ground (arith, kind_of-none plan r e)
  | inr (j, e) ↦ ground (arith, kind_of-some plan r j e, kind_of_once plan r j e)
]

module _ (plan : List Action) (roots : List Bytes) (flat : Flat roots) where
  holds-quarantines_at :
      (r : Bytes) (o : Action)
      → root_for roots r ≡ none
      → holds (absorber plan roots) r o ≡ quarantines_at r o
  holds-quarantines_at r o h = ground (arith, absorber_root plan roots o)

  sum_of-holds :
      (r : Bytes) (os : List Action)
      → root_for roots r ≡ none
      → sum_of (holds (absorber plan roots) r) os ≡ sum_of (quarantines_at r) os
  sum_of-holds r [] h = refl
  sum_of-holds r (o ∷ os) h = omega (arith, holds-quarantines_at r o h, sum_of-holds r os h)

  absorber-IsCounted :
      ((r : Bytes) → dir_count r plan ≤ 1) → (a : Action) → IsCounted (absorber plan roots) plan a
  absorber-IsCounted once a r e =
      let (f, k, _) = absorber-some plan roots a r e in
      let apart =
        All-In (λ q. root_for roots q ≡ none) r roots flat (root_for-some roots a.rel_path r f).0 in
      omega (arith, sum_of-holds r plan apart, kind_of_once plan r a.kind k (once r))

deletions-collapse_with :
    (plan : List Action) (roots : List Bytes)
    → Flat roots
    → All IsFresh plan
    → ((r : Bytes) → dir_count r plan ≤ 1)
    → deletions (collapse_with plan roots) ≡ deletions plan
unfolding collapse_with
deletions-collapse_with plan [] flat f once = refl
deletions-collapse_with plan (r ∷ roots) flat f once =
    deletions-survivors_self (absorber plan (r ∷ roots)) plan f
      (All-of_In _ plan (λ a m. absorber-IsCounted plan (r ∷ roots) flat once a))

pub deletions-collapse :
    (plan : List Action) (remote : Dict Bytes RemoteItem)
    → All IsFresh plan
    → ((r : Bytes) → dir_count r plan ≤ 1)
    → deletions (collapse_dir_deletes plan remote) ≡ deletions plan
unfolding collapse_dir_deletes
deletions-collapse plan remote f once =
    deletions-collapse_with plan (roots_of plan remote) (roots_of-Flat plan remote) f once

-- In a plan whose directory deletes are empty as yet and have distinct paths, the collapse leaves
-- the mass-delete verdict as it was, the counts of its error included, for every threshold test.
pub check_mass_delete-collapse :
    (exceeds : ℕ → ℕ → Bool) (plan : List Action) (remote : Dict Bytes RemoteItem) (tracked : ℕ)
    (confirmed bin : Bool)
    → All IsFresh plan
    → ((r : Bytes) → dir_count r plan ≤ 1)
    → check_mass_delete exceeds (collapse_dir_deletes plan remote) tracked confirmed bin
      ≡ check_mass_delete exceeds plan tracked confirmed bin
unfolding check_mass_delete
check_mass_delete-collapse exceeds plan remote tracked confirmed bin f once =
    rw (deletions-collapse plan remote f once) refl

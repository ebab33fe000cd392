-- ===== src/Reconcile/Collapse/Origins.antt =====
-- What is true of every delete of a plan is true of all that the collapse makes of them.
use synckeeper.Base.{
  ◌≡◌, inl, inr, true, List, [], ◌∷◌, arith, Bytes, All, All-mono, All-In, some, sym, Any-In, subst,
  Bool-cases,
}
use synckeeper.Base.Dict.{Dict}
use synckeeper.Reconcile.Types.{Action, Kind, SubtreeEntry, RemoteItem, is_delete, is_binned}
use synckeeper.Reconcile.Collapse.{
  absorber, collapse_dir_deletes, collapse_with, covered, fill, entry_of,
}
use synckeeper.Reconcile.Collapse.Roots.{absorber-some, roots_of}
use synckeeper.Reconcile.Collapse.Content.{Absorbed, survivors_from, covered_from}

module _ (Q : Bytes → Type 0) where
  -- The id of a delete, and the ids that a collapsed one stands for.
  abbrev pub HasIds : Action → Type 0
  HasIds a = (is_delete a.kind ≡ true → Q a.file_id) × All (λ e. Q e.file_id) a.subtree

  fill-HasIds :
      (es : List SubtreeEntry) (a : Action)
      → All (λ e. Q e.file_id) es
      → HasIds a
      → HasIds (fill es a)
  unfolding fill
  fill-HasIds [] a h k = k
  fill-HasIds (e ∷ es) a h (id, ids) = elim (Bool-cases a.is_dir) [
    | inl d ↦ rw d (id, h)
    | inr d ↦ rw d (id, ids)
  ]

  binned_delete : (k : Kind) → is_binned k ≡ true → is_delete k ≡ true
  binned_delete k h = ground arith

  covered-HasIds :
      (plan : List Action) (roots : List Bytes) (r : Bytes)
      → All HasIds plan
      → All (λ e. Q e.file_id) (covered (absorber plan roots) r plan)
  covered-HasIds plan roots r h =
      All-mono (Absorbed (absorber plan roots) r plan) _ (covered (absorber plan roots) r plan)
        (λ e x.
          let (a, m, (p, q)) =
            Any-In (λ a. (e ≡ entry_of a) × (absorber plan roots a ≡ some r)) plan x in
          let (f, k, b) = absorber-some plan roots a r q in
          subst (λ (y : SubtreeEntry). Q y.file_id) (sym p)
            ((All-In HasIds a plan h m).0 (binned_delete a.kind b)))
        (covered_from (absorber plan roots) r plan)

  with_roots :
      (plan : List Action) (roots : List Bytes)
      → All HasIds plan
      → All HasIds (collapse_with plan roots)
  unfolding collapse_with
  with_roots plan [] h = h
  with_roots plan (r ∷ roots) h =
      let absorb = absorber plan (r ∷ roots) in
      survivors_from absorb HasIds plan plan (
        All-mono _ _ plan
          (λ o k _.
            fill-HasIds (covered absorb o.rel_path plan) o
              (covered-HasIds plan (r ∷ roots) o.rel_path h) k)
          h)

  pub collapse-HasIds :
      (plan : List Action) (remote : Dict Bytes RemoteItem)
      → All HasIds plan
      → All HasIds (collapse_dir_deletes plan remote)
  unfolding collapse_dir_deletes
  collapse-HasIds plan remote h = with_roots plan (roots_of plan remote) h

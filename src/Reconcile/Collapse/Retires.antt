-- ===== src/Reconcile/Collapse/Retires.antt =====
-- The collapse as a whole: what it keeps, and what a collapsed directory may stand for.
use synckeeper.Base.{
  ◌≡◌, refl, ◌⊎◌, inl, inr, true, false, not, some, List, [], ◌∷◌, arith, Bytes, bytes_eq, All,
  All-In, All-mono, Any, Any-mono, Any-of_In, In, length, keep, Bool-cases, Option-cases, not-any,
  any-eq_true,
}
use synckeeper.Base.Dict.{Dict}
use synckeeper.Reconcile.Types.{
  Action, Kind, SubtreeEntry, RemoteItem, is_binned, is_delete, quarantine_local, is_trash,
}
use synckeeper.Reconcile.Index.{under}
use synckeeper.Reconcile.Collapse.{
  absorber, kind_of, collapse_dir_deletes, collapse_with, covered, fill, entry_of, spares,
  deletes_only_under, remote_fully_covered, is_planned, is_remote_retired, count_files,
}
use synckeeper.Reconcile.Collapse.Roots.{
  Flat, roots_of, roots_of-Flat, roots_of-IsFree, IsFree, root_for-some, absorber-some,
}
use synckeeper.Reconcile.Collapse.Content.{
  SameStep, StandsFor, Absorbed, survivors-In, survivors_from, covered_from, fill-SameStep, stands,
}

count_files-keep : (es : List SubtreeEntry) → count_files es ≡ length (keep (λ e. not e.is_dir) es)
unfolding count_files
count_files-keep [] = refl
count_files-keep (e ∷ es) = ground (arith, count_files-keep es)

module _ (plan : List Action) (remote : Dict Bytes RemoteItem) where
  kept_with :
      (roots : List Bytes) (a : Action)
      → Flat roots
      → In a plan
      → Any (λ o. SameStep o a) (collapse_with plan roots)
        ⊎ Any (λ o. StandsFor o a) (collapse_with plan roots)
  unfolding collapse_with
  kept_with [] a flat m = inl (Any-of_In _ a plan m refl)
  kept_with (r ∷ roots) a flat m =
      let absorb = absorber plan (r ∷ roots) in
      elim (Option-cases (absorb a)) [
        | inl e ↦ inl (
            Any-of_In (λ o. SameStep o a) _ _ (survivors-In absorb plan plan a m e)
              (fill-SameStep (covered absorb a.rel_path plan) a))
        | inr (q, e) ↦ inr (stands plan (r ∷ roots) flat a q m e)
      ]

  -- Every action of the plan is still there, or it is a delete that a directory delete of the
  -- same kind above it stands for, with its path, id and scanned stat in that one's subtree.
  pub collapse-keeps :
      (a : Action)
      → In a plan
      → Any (λ o. SameStep o a) (collapse_dir_deletes plan remote)
        ⊎ Any (λ o. StandsFor o a) (collapse_dir_deletes plan remote)
  unfolding collapse_dir_deletes
  collapse-keeps a m = kept_with (roots_of plan remote) a (roots_of-Flat plan remote) m

  -- The action leaves the inside of `d` to deletes, at both of its ends.
  abbrev pub LeavesAlone : Bytes → Action → Type 0
  LeavesAlone d a =
      (is_delete a.kind ≡ true)
      ⊎ ((under d a.rel_path ≡ false) × ((a.new_rel_path ≡ []) ⊎ (under d a.new_rel_path ≡ false)))

  -- Each remote item under `d` is one that the plan retires.
  abbrev pub RemoteCovered : Bytes → Type 0
  RemoteCovered d =
      All
        (λ row.
          (under d row.0 ≡ false)
          ⊎ Any (λ a. (is_remote_retired a.kind ≡ true) × (a.rel_path ≡ row.0)) plan)
        remote

  -- The entry is a delete of the plan under `d`; a remote one only if Drive has no stranger there.
  abbrev pub IsAccounted : Bytes → SubtreeEntry → Type 0
  IsAccounted d e =
      Any
        (λ a.
          (e ≡ entry_of a)
          × (is_binned a.kind ≡ true)
          × (under d a.rel_path ≡ true)
          × ((a.kind ≡ quarantine_local) ⊎ RemoteCovered d))
        plan

  spares-LeavesAlone : (d : Bytes) (a : Action) → not (spares d a) ≡ false → LeavesAlone d a
  spares-LeavesAlone d a h = ground arith

  deletes_only_under-LeavesAlone :
      (d : Bytes) → deletes_only_under plan d ≡ true → All (LeavesAlone d) plan
  unfolding deletes_only_under
  deletes_only_under-LeavesAlone d h =
      All-mono _ _ plan (λ a e. spares-LeavesAlone d a e) (not-any (λ a. not (spares d a)) plan h)

  planned_from :
      (p : Bytes)
      → is_planned plan p ≡ true
      → Any (λ a. (is_remote_retired a.kind ≡ true) × (a.rel_path ≡ p)) plan
  unfolding is_planned
  planned_from p h = Any-mono _ _ plan (λ a e. ground arith) (any-eq_true _ plan h)

  remote_fully_covered-RemoteCovered :
      (d : Bytes) → remote_fully_covered plan remote d ≡ true → RemoteCovered d
  unfolding remote_fully_covered
  remote_fully_covered-RemoteCovered d h =
      All-mono _ _ remote
        (λ row e. elim (Bool-cases (is_planned plan row.0)) [
          | inl p ↦ inr (planned_from row.0 p)
          | inr n ↦ inl (ground arith)
        ])
        (not-any _ remote h)

  trash_or_quarantine :
      (k : Kind) → is_binned k ≡ true → (k ≡ quarantine_local) ⊎ (is_trash k ≡ true)
  trash_or_quarantine k h = ground arith

  -- What a directory with a subtree is entitled to.
  abbrev pub IsEntitled : Action → Type 0
  IsEntitled o =
      All (LeavesAlone o.rel_path) plan
      × All (IsAccounted o.rel_path) o.subtree
      × (o.subtree_files ≡ length (keep (λ e. not e.is_dir) o.subtree))

  module _ (roots : List Bytes) (free : All (IsFree plan remote) roots) where
    root_of :
        (a : Action) (r : Bytes)
        → absorber plan roots a ≡ some r
        → (IsFree plan remote r)
          × (under r a.rel_path ≡ true)
          × (kind_of plan r ≡ some a.kind)
          × (is_binned a.kind ≡ true)
    root_of a r e =
        let (f, k, b) = absorber-some plan roots a r e in
        let (m, c) = root_for-some roots a.rel_path r f in
        (All-In (IsFree plan remote) r roots free m, c, k, b)

    accounted :
        (a : Action) (r : Bytes) (e : SubtreeEntry)
        → (e ≡ entry_of a) × (absorber plan roots a ≡ some r)
        → (e ≡ entry_of a)
          × (is_binned a.kind ≡ true)
          × (under r a.rel_path ≡ true)
          × ((a.kind ≡ quarantine_local) ⊎ RemoteCovered r)
    accounted a r e (p, q) =
        let ((_, cover), c, k, b) = root_of a r q in
        (
          p,
          b,
          c,
          elim (trash_or_quarantine a.kind b) [
            | inl l ↦ inl l
            | inr t ↦ elim cover [
              | inl not_trash ↦ absurd (ground arith)
              | inr full ↦ inr (remote_fully_covered-RemoteCovered r full)
            ]
          ],
        )

    covered-IsAccounted : (r : Bytes) → All (IsAccounted r) (covered (absorber plan roots) r plan)
    covered-IsAccounted r =
        All-mono _ _ (covered (absorber plan roots) r plan)
          (λ e h. Any-mono _ _ plan (λ a x. accounted a r e x) h)
          (covered_from (absorber plan roots) r plan)

    first_alone :
        (r : Bytes) (e : SubtreeEntry)
        → Absorbed (absorber plan roots) r plan e
        → All (LeavesAlone r) plan
    first_alone r e h = go plan h
      where
        go :
            (more : List Action)
            → Any (λ a. (e ≡ entry_of a) × (absorber plan roots a ≡ some r)) more
            → All (LeavesAlone r) plan
        go [] x = absurd x
        go (a ∷ more) (inl (_, q)) = deletes_only_under-LeavesAlone r (root_of a r q).0.0
        go (a ∷ more) (inr x) = go more x

    filled-IsEntitled :
        (o : Action) (es : List SubtreeEntry)
        → o.subtree ≡ []
        → All (IsAccounted o.rel_path) es
        → All (Absorbed (absorber plan roots) o.rel_path plan) es
        → ((fill es o).subtree ≡ []) ⊎ IsEntitled (fill es o)
    unfolding fill
    filled-IsEntitled o [] n h k = inl n
    filled-IsEntitled o (e ∷ es) n h (k, ks) = elim (Bool-cases o.is_dir) [
      | inl d ↦ inr (entitled_dir o e es d (first_alone o.rel_path e k) h)
      | inr f ↦ inl (ground arith)
    ]
      where
        entitled_dir :
            (o : Action) (e : SubtreeEntry) (es : List SubtreeEntry)
            → o.is_dir ≡ true
            → All (LeavesAlone o.rel_path) plan
            → All (IsAccounted o.rel_path) (e ∷ es)
            → IsEntitled (fill (e ∷ es) o)
        entitled_dir o e es d alone all = rw (d) (alone, all, count_files-keep (e ∷ es))

  IsEntitled-with :
      (roots : List Bytes)
      → All (IsFree plan remote) roots
      → All (λ a. a.subtree ≡ []) plan
      → All (λ o. (o.subtree ≡ []) ⊎ IsEntitled o) (collapse_with plan roots)
  unfolding collapse_with
  IsEntitled-with [] free empty = All-mono _ _ plan (λ a h. inl h) empty
  IsEntitled-with (r ∷ roots) free empty =
      let absorb = absorber plan (r ∷ roots) in
      survivors_from absorb (λ o. (o.subtree ≡ []) ⊎ IsEntitled o) plan plan
        (All-mono _ _ plan
          (λ o n _.
            filled-IsEntitled (r ∷ roots) free o (covered absorb o.rel_path plan) n
              (covered-IsAccounted (r ∷ roots) free o.rel_path)
              (covered_from absorb o.rel_path plan))
          empty)

  -- In the collapse of a plan without subtrees, a directory with a subtree has none but deletes
  -- under it in the whole plan, each entry is a delete of the plan under it, Drive holds nothing
  -- else there if the entry is a remote one, and the file count is that of its file entries.
  pub collapse-IsEntitled :
      All (λ a. a.subtree ≡ []) plan
      → All (λ o. (o.subtree ≡ []) ⊎ IsEntitled o) (collapse_dir_deletes plan remote)
  unfolding collapse_dir_deletes
  collapse-IsEntitled empty =
      IsEntitled-with (roots_of plan remote) (roots_of-IsFree plan remote) empty

-- ===== src/Reconcile/Collapse/Roots.antt =====
-- The collapsing directories: they never nest, and each is free to go.
use synckeeper.Base.{
  ◌≡◌, refl, ◌⊎◌, inl, inr, true, false, none, some, List, [], ◌∷◌, ◌++◌, arith, Bytes, All,
  All-append, All-mono, In, Option-cases, Ordered, sort_by-Ordered, map, keep, Bool-cases,
}
use synckeeper.Base.Dict.{Dict}
use synckeeper.Reconcile.Types.{RemoteItem, Action, is_binned}
use synckeeper.Reconcile.Index.{under}
use synckeeper.Reconcile.Paths.{under_of_depth, path-IsOrder, depth_of_path_less}
use synckeeper.Reconcile.Plan.Order.{path_less}
use synckeeper.Reconcile.Collapse.{
  root_for, qualifies, choose_roots, dirs_of, deletes_only_under, remote_fully_covered, kind_of,
  is_trash_kind, is_binned_dir, absorber, kind_eq,
}

pub root_for-none :
    (roots : List Bytes) (p : Bytes) → root_for roots p ≡ none → All (λ r. under r p ≡ false) roots
unfolding root_for
root_for-none [] p h = tt
root_for-none (r ∷ roots) p h = elim (Bool-cases (under r p)) [
  | inl e ↦ absurd (ground arith)
  | inr e ↦ (e, root_for-none roots p (ground arith))
]

pub root_for_of_All :
    (roots : List Bytes) (p : Bytes) → All (λ r. under r p ≡ false) roots → root_for roots p ≡ none
unfolding root_for
root_for_of_All [] p h = refl
root_for_of_All (r ∷ roots) p (h, hs) = ground (arith, root_for_of_All roots p hs)

pub root_for-some :
    (roots : List Bytes) (p r : Bytes) → root_for roots p ≡ some r → In r roots × (under r p ≡ true)
unfolding root_for
root_for-some [] p r h = cc
root_for-some (q ∷ roots) p r h = elim (Bool-cases (under q p)) [
  | inl e ↦ (inl (ground arith), ground arith)
  | inr e ↦ let (m, c) = root_for-some roots p r (ground arith) in (inr m, c)
]

-- No root contains another.
abbrev pub Flat : List Bytes → Type 0
Flat roots = All (λ r. root_for roots r ≡ none) roots

module _ (plan : List Action) (remote : Dict Bytes RemoteItem) where
  -- The plan's business under a root is deletes alone, and Drive holds no stranger under it.
  abbrev pub IsFree : Bytes → Type 0
  IsFree r =
      (deletes_only_under plan r ≡ true)
      × ((is_trash_kind (kind_of plan r) ≡ false) ⊎ (remote_fully_covered plan remote r ≡ true))

  qualifies-IsFree :
      (roots : List Bytes) (d : Bytes) → qualifies plan remote roots d ≡ true → IsFree d
  unfolding qualifies
  qualifies-IsFree roots d h = (ground arith, ground arith)

  qualifies_apart :
      (roots : List Bytes) (d : Bytes)
      → qualifies plan remote roots d ≡ true
      → root_for roots d ≡ none
  unfolding qualifies
  qualifies_apart roots d h = ground arith

Flat-snoc :
    (roots : List Bytes) (d : Bytes)
    → Flat roots
    → root_for roots d ≡ none
    → All (λ r. under d r ≡ false) roots
    → Flat (roots ++ d ∷ [])
Flat-snoc roots d flat apart below =
    All-append _ roots (d ∷ [])
      (All_zip roots flat below λ r f b.
        root_for_of_All (roots ++ d ∷ []) r
          (All-append _ roots (d ∷ []) (root_for-none roots r f) (b, tt)))
      (
        root_for_of_All (roots ++ d ∷ []) d (
            All-append _ roots (d ∷ []) (root_for-none roots d apart)
              (under_of_depth d d (omega arith), tt)),
        tt,
      )
  where
    All_zip :
        (xs : List Bytes) {P Q : Bytes → Type 0}
        → All P xs
        → All Q xs
        → ((x : Bytes) → P x → Q x → root_for (roots ++ d ∷ []) x ≡ none)
        → All (λ x. root_for (roots ++ d ∷ []) x ≡ none) xs
    All_zip [] h k f = tt
    All_zip (x ∷ xs) (h, hs) (k, ks) f = (f x h k, All_zip xs hs ks f)

-- No remaining directory is shallower than a chosen root.
abbrev Behind : List Bytes → List Bytes → Type 0
Behind roots dirs = All (λ r. All (λ d. path_less d r ≡ false) dirs) roots

module _ (plan : List Action) (remote : Dict Bytes RemoteItem) (P : Bytes → Type 0)
    (good : (roots : List Bytes) (d : Bytes) → qualifies plan remote roots d ≡ true → P d) where
  choose_roots_inv :
      (dirs roots : List Bytes)
      → Flat roots
      → Ordered path_less dirs
      → Behind roots dirs
      → All P roots
      → Flat (choose_roots plan remote dirs roots) × All P (choose_roots plan remote dirs roots)
  unfolding choose_roots
  choose_roots_inv [] roots flat o b free = (flat, free)
  choose_roots_inv (d ∷ dirs) roots flat (od, o) b free =
      elim (Bool-cases (qualifies plan remote roots d)) [
        | inl e ↦ rw e (
            choose_roots_inv dirs (roots ++ d ∷ [])
              (Flat-snoc roots d flat (qualifies_apart plan remote roots d e)
                (All-mono _ _ roots (λ r h. under_of_depth d r (depth_of_path_less r d h.0)) b))
              o (All-append _ roots (d ∷ []) (All-mono _ _ roots (λ r h. h.1) b) (od, tt))
              (All-append _ roots (d ∷ []) free (good roots d e, tt)))
        | inr e ↦ rw e (choose_roots_inv dirs roots flat o (All-mono _ _ roots (λ r h. h.1) b) free)
      ]

module _ (plan : List Action) (remote : Dict Bytes RemoteItem) where
  abbrev pub roots_of : List Bytes
  roots_of = choose_roots plan remote (dirs_of plan) []

  dirs_of-Ordered : Ordered path_less (dirs_of plan)
  unfolding dirs_of
  dirs_of-Ordered =
      sort_by-Ordered path_less path-IsOrder (map (λ a. a.rel_path) (keep is_binned_dir plan))

  -- Collapsing directories never nest.
  pub roots_of-Flat : Flat roots_of
  roots_of-Flat =
      (choose_roots_inv plan remote (IsFree plan remote) (qualifies-IsFree plan remote)
        (dirs_of plan) [] tt dirs_of-Ordered tt tt).0

  pub roots_of-IsFree : All (IsFree plan remote) roots_of
  roots_of-IsFree =
      (choose_roots_inv plan remote (IsFree plan remote) (qualifies-IsFree plan remote)
        (dirs_of plan) [] tt dirs_of-Ordered tt tt).1

module _ (plan : List Action) (roots : List Bytes) where
  pub absorber-some :
      (a : Action) (r : Bytes)
      → absorber plan roots a ≡ some r
      → (root_for roots a.rel_path ≡ some r)
        × (kind_of plan r ≡ some a.kind)
        × (is_binned a.kind ≡ true)
  unfolding absorber
  absorber-some a r h = elim (Option-cases (root_for roots a.rel_path)) [
    | inl e ↦ absurd (ground arith)
    | inr (q, e) ↦ elim (Option-cases (kind_of plan q)) [
      | inl f ↦ absurd (ground arith)
      | inr (k, f) ↦ ground arith
    ]
  ]

  pub absorber_root : (o : Action) → root_for roots o.rel_path ≡ none → absorber plan roots o ≡ none
  unfolding absorber
  absorber_root o h = ground arith

-- ===== src/Reconcile/Collapse/Content.antt =====
-- What the collapse retires: exactly what the plan did, each delete in its own place or in the
-- subtree of one directory.
use synckeeper.Base.{
  ◌≡◌, refl, ap, ◌∙◌, subst, ◌⊎◌, inl, inr, true, Option, none, some, List, [], ◌∷◌, arith, Bytes,
  bytes_eq, All, All-In, All-mono, Any, Any-of_In, In, Option-cases,
}
use synckeeper.Reconcile.Types.{Action, Kind, SubtreeEntry}
use synckeeper.Reconcile.Index.{under}
use synckeeper.Reconcile.Collapse.{
  absorber, root_for, kind_of, kind_eq, survivors, covered, fill, entry_of,
}
use synckeeper.Reconcile.Collapse.Roots.{Flat, root_for-some, absorber-some, absorber_root}

-- The same step, whatever subtree it stands for.
abbrev pub SameStep : Action → Action → Type 0
SameStep o a =
    ◌≡◌ {A = Action} (record o { subtree = []; subtree_files = 0 })
      (record a { subtree = []; subtree_files = 0 })

-- The directory delete `o` stands for the delete `a`.
abbrev pub StandsFor : Action → Action → Type 0
StandsFor o a =
    (o.kind ≡ a.kind)
    × (o.is_dir ≡ true)
    × (under o.rel_path a.rel_path ≡ true)
    × In (entry_of a) o.subtree

module _ (absorb : Action → Option Bytes) where
  survivors_kept :
      (plan : List Action) (a : Action) (more : List Action)
      → absorb a ≡ none
      → survivors absorb plan (a ∷ more)
        ≡ fill (covered absorb a.rel_path plan) a ∷ survivors absorb plan more
  unfolding survivors
  survivors_kept plan a more e = ground arith

  survivors_absorbed :
      (plan : List Action) (a : Action) (more : List Action) (r : Bytes)
      → absorb a ≡ some r
      → survivors absorb plan (a ∷ more) ≡ survivors absorb plan more
  unfolding survivors
  survivors_absorbed plan a more r e = ground arith

  pub survivors-In :
      (plan more : List Action) (o : Action)
      → In o more
      → absorb o ≡ none
      → In (fill (covered absorb o.rel_path plan) o) (survivors absorb plan more)
  survivors-In plan [] o m e = absurd m
  survivors-In plan (a ∷ more) o (inl h) e =
      rw (survivors_kept plan a more (subst (λ x. absorb x ≡ none) h e))
        (inl (ap (λ (x : Action). fill (covered absorb x.rel_path plan) x) h))
  survivors-In plan (a ∷ more) o (inr m) e = elim (Option-cases (absorb a)) [
    | inl f ↦ rw (survivors_kept plan a more f) (inr (survivors-In plan more o m e))
    | inr (r, f) ↦ rw (survivors_absorbed plan a more r f) (survivors-In plan more o m e)
  ]

  pub survivors_from :
      (P : Action → Type 0) (plan more : List Action)
      → All (λ o. absorb o ≡ none → P (fill (covered absorb o.rel_path plan) o)) more
      → All P (survivors absorb plan more)
  survivors_from P plan [] h = nil
    where
      nil : All P (survivors absorb plan [])
      nil = unfold survivors in tt
  survivors_from P plan (a ∷ more) (h, hs) = elim (Option-cases (absorb a)) [
    | inl f ↦ rw (survivors_kept plan a more f) (h f, survivors_from P plan more hs)
    | inr (r, f) ↦ rw (survivors_absorbed plan a more r f) (survivors_from P plan more hs)
  ]

  covered_hit :
      (r : Bytes) (b : Action) (plan : List Action)
      → absorb b ≡ some r
      → covered absorb r (b ∷ plan) ≡ entry_of b ∷ covered absorb r plan
  unfolding covered
  covered_hit r b plan e = ground arith

  covered_cases :
      (r : Bytes) (b : Action) (plan : List Action)
      → (absorb b ≡ some r) ⊎ (covered absorb r (b ∷ plan) ≡ covered absorb r plan)
  unfolding covered
  covered_cases r b plan = ground arith

  covered-In :
      (r : Bytes) (plan : List Action) (a : Action)
      → In a plan
      → absorb a ≡ some r
      → In (entry_of a) (covered absorb r plan)
  covered-In r [] a m e = absurd m
  covered-In r (b ∷ plan) a (inl h) e =
      rw (covered_hit r b plan (subst (λ x. absorb x ≡ some r) h e)) (inl (ap entry_of h))
  covered-In r (b ∷ plan) a (inr m) e = elim (covered_cases r b plan) [
    | inl f ↦ rw (covered_hit r b plan f) (inr (covered-In r plan a m e))
    | inr f ↦ rw f (covered-In r plan a m e)
  ]

  -- The entry is that of an action which the directory absorbed.
  abbrev pub Absorbed : Bytes → List Action → SubtreeEntry → Type 0
  Absorbed r plan e = Any (λ a. (e ≡ entry_of a) × (absorb a ≡ some r)) plan

  pub covered_from :
      (r : Bytes) (plan : List Action) → All (Absorbed r plan) (covered absorb r plan)
  covered_from r [] = nil
    where
      nil : All (Absorbed r []) (covered absorb r [])
      nil = unfold covered in tt
  covered_from r (b ∷ plan) =
      let rest =
        All-mono (Absorbed r plan) (Absorbed r (b ∷ plan)) (covered absorb r plan) (λ e h. inr h)
          (covered_from r plan) in
      elim (covered_cases r b plan) [
        | inl f ↦ rw (covered_hit r b plan f) (inl (refl, f), rest)
        | inr f ↦ rw f rest
      ]

pub fill-SameStep : (es : List SubtreeEntry) (o : Action) → SameStep (fill es o) o
unfolding fill
fill-SameStep [] o = refl
fill-SameStep (e ∷ es) o = ground arith

fill-subtree :
    (es : List SubtreeEntry) (o : Action) (e : SubtreeEntry)
    → o.is_dir ≡ true
    → In e es
    → In e (fill es o).subtree
unfolding fill
fill-subtree [] o e d m = absurd m
fill-subtree (x ∷ es) o e d m = rw d m

pub fill_fields :
    (es : List SubtreeEntry) (o : Action)
    → ((fill es o).kind ≡ o.kind)
      × ((fill es o).is_dir ≡ o.is_dir)
      × ((fill es o).rel_path ≡ o.rel_path)
unfolding fill
fill_fields [] o = (refl, refl, refl)
fill_fields (e ∷ es) o = ground arith

kind_of-In :
    (plan : List Action) (r : Bytes) (k : Kind)
    → kind_of plan r ≡ some k
    → Any (λ o. (o.kind ≡ k) × (o.is_dir ≡ true) × (o.rel_path ≡ r)) plan
unfolding kind_of
kind_of-In [] r k h = absurd (ground arith)
kind_of-In (o ∷ plan) r k h = elim (Option-cases (kind_of plan r)) [
  | inl e ↦ inl (ground arith)
  | inr (j, e) ↦ inr (kind_of-In plan r k (ground arith))
]

module _ (plan : List Action) (roots : List Bytes) (flat : Flat roots) where
  abbrev pub absorb_by : Action → Option Bytes
  absorb_by = absorber plan roots

  -- A root that stands for `a` survives the collapse.
  pub stands :
      (a : Action) (r : Bytes)
      → In a plan
      → absorber plan roots a ≡ some r
      → Any (λ o. StandsFor o a) (survivors absorb_by plan plan)
  stands a r m e =
      let (f, k, _) = absorber-some plan roots a r e in
      let (root, inside) = root_for-some roots a.rel_path r f in
      let apart = All-In (λ q. root_for roots q ≡ none) r roots flat root in
      let (o, mo, (ok, od, op)) = found plan (kind_of-In plan r a.kind k) in
      let at : absorber plan roots o ≡ none = absorber_root plan roots o (rw op apart) in
      let es = covered absorb_by o.rel_path plan in
      let (fk, fd, fp) = fill_fields es o in
      Any-of_In (λ x. StandsFor x a) (fill es o) _ (survivors-In absorb_by plan plan o mo at)
        (
          fk ∙ ok,
          fd ∙ od,
          rw fp (rw op inside),
          fill-subtree es o (entry_of a) od (covered-In absorb_by o.rel_path plan a m (rw op e)),
        )
    where
      found :
          (os : List Action)
          → Any (λ o. (o.kind ≡ a.kind) × (o.is_dir ≡ true) × (o.rel_path ≡ r)) os
          → (o : Action) × In o os × ((o.kind ≡ a.kind) × (o.is_dir ≡ true) × (o.rel_path ≡ r))
      found [] h = absurd h
      found (o ∷ os) (inl h) = (o, inl refl, h)
      found (o ∷ os) (inr h) = let (x, mx, hx) = found os h in (x, inr mx, hx)

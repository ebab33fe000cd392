-- ===== src/Guards/Counting.antt =====
-- Counting the files of a plan before and after the collapse, for any absorption.
use synckeeper.Base.{
  ℕ, ◌+◌, ◌≡◌, refl, true, false, ◌&&◌, Option, none, some, List, [], ◌∷◌, arith, Bytes, bytes_eq,
  ◌==◌, if◌then◌else◌, All, inl, inr, Bool-cases, Option-cases, sum_of,
}
use synckeeper.Reconcile.Types.{Action, SubtreeEntry, is_quarantine}
use synckeeper.Reconcile.Collapse.{covered, count_files, fill, survivors}
use synckeeper.Guards.{removal, deletions}

-- A directory delete starts out empty.
abbrev pub IsFresh : Action → Type 0
IsFresh a = a.is_dir ≡ true → a.subtree_files ≡ 0

filled :
    (es : List SubtreeEntry) (o : Action)
    → IsFresh o
    → removal (fill es o)
      ≡ (if is_quarantine o.kind then (if o.is_dir then count_files es else 1) else 0)
unfolding fill count_files
filled [] o h = ground (arith, h)
filled (e ∷ es) o h = ground arith

module _ (absorb : Action → Option Bytes) where
  -- Is this the surviving quarantine of the directory `r`?
  abbrev pub holds : Bytes → Action → ℕ
  holds r o = elim (absorb o) [
    | some _ ↦ 0
    | none ↦ if is_quarantine o.kind && (o.is_dir && r == o.rel_path) then 1 else 0
  ]

  -- The files of `plan` that the survivors among `os` count.
  abbrev carried : List Action → List Action → ℕ
  carried os plan =
      sum_of
        (λ o. elim (absorb o) [
          | some _ ↦ 0
          | none ↦
              if is_quarantine o.kind && o.is_dir
              then count_files (covered absorb o.rel_path plan)
              else 0
        ])
        os

  -- What one absorbed action adds to a directory's count.
  abbrev share : Action → Bytes → ℕ
  share a r = elim (absorb a) [
    | none ↦ 0
    | some q ↦ if q == r then (if a.is_dir then 0 else 1) else 0
  ]

  count-covered :
      (r : Bytes) (a : Action) (plan : List Action)
      → count_files (covered absorb r (a ∷ plan)) ≡ share a r + count_files (covered absorb r plan)
  unfolding covered count_files
  count-covered r a plan = ground arith

  carried-nil : (os : List Action) → carried os [] ≡ 0
  unfolding covered count_files
  carried-nil [] = refl
  carried-nil (o ∷ os) = ground (arith, carried-nil os)

  abbrev shared : Action → List Action → ℕ
  shared a os =
      sum_of
        (λ o. elim (absorb o) [
          | some _ ↦ 0
          | none ↦ if is_quarantine o.kind && o.is_dir then share a o.rel_path else 0
        ])
        os

  carried-cons :
      (os : List Action) (a : Action) (plan : List Action)
      → carried os (a ∷ plan) ≡ shared a os + carried os plan
  carried-cons [] a plan = omega arith
  carried-cons (o ∷ os) a plan =
      ground (arith, carried-cons os a plan, count-covered o.rel_path a plan)

  shared-none : (a : Action) (os : List Action) → absorb a ≡ none → shared a os ≡ 0
  shared-none a [] e = refl
  shared-none a (o ∷ os) e = ground (arith, shared-none a os e)

  shared_dir : (a : Action) (os : List Action) → a.is_dir ≡ true → shared a os ≡ 0
  shared_dir a [] e = refl
  shared_dir a (o ∷ os) e = ground (arith, shared_dir a os e)

  shared_file :
      (a : Action) (r : Bytes) (os : List Action)
      → absorb a ≡ some r
      → a.is_dir ≡ false
      → shared a os ≡ sum_of (holds r) os
  shared_file a r [] e f = refl
  shared_file a r (o ∷ os) e f = ground (arith, shared_file a r os e f)

  -- Every absorbed file is counted by one survivor if it is a quarantine, and by none if not.
  abbrev pub IsCounted : List Action → Action → Type 0
  IsCounted plan a =
      (r : Bytes)
      → absorb a ≡ some r
      → sum_of (holds r) plan ≡ (if is_quarantine a.kind then 1 else 0)

  -- The removals that the absorption takes away.
  abbrev taken : Action → ℕ
  taken a = elim (absorb a) [
    | none ↦ 0
    | some _ ↦ if is_quarantine a.kind then (if a.is_dir then 0 else 1) else 0
  ]

  shared-taken : (plan : List Action) (a : Action) → IsCounted plan a → shared a plan ≡ taken a
  shared-taken plan a h = elim (Option-cases (absorb a)) [
    | inl e ↦ rw (shared-none a plan e) (ground arith)
    | inr (r, e) ↦ elim (Bool-cases a.is_dir) [
      | inl d ↦ rw (shared_dir a plan d) (ground arith)
      | inr d ↦ rw (shared_file a r plan e d) (rw (h r e) (ground arith))
    ]
  ]

  carried-taken :
      (plan more : List Action) → All (IsCounted plan) more → carried plan more ≡ sum_of taken more
  carried-taken plan [] h = carried-nil plan
  carried-taken plan (a ∷ more) (h, hs) =
      omega (arith, carried-cons plan a more, shared-taken plan a h, carried-taken plan more hs)

  -- What a survivor counts, once it has taken what it covers.
  abbrev stands_for : List Action → Action → ℕ
  stands_for plan o =
      if is_quarantine o.kind
      then (if o.is_dir then count_files (covered absorb o.rel_path plan) else 1)
      else 0

  removal-fill :
      (plan : List Action) (o : Action)
      → IsFresh o
      → removal (fill (covered absorb o.rel_path plan) o) ≡ stands_for plan o
  removal-fill plan o h = filled (covered absorb o.rel_path plan) o h

  deletions-survivors :
      (plan more : List Action)
      → All IsFresh more
      → deletions (survivors absorb plan more) + sum_of taken more
        ≡ carried more plan + deletions more
  unfolding survivors deletions
  deletions-survivors plan [] h = omega arith
  deletions-survivors plan (o ∷ more) (f, fs) =
      ground (arith, deletions-survivors plan more fs, removal-fill plan o f, f)

  -- The guard's count is the same before and after.
  pub deletions-survivors_self :
      (plan : List Action)
      → All IsFresh plan
      → All (IsCounted plan) plan
      → deletions (survivors absorb plan plan) ≡ deletions plan
  deletions-survivors_self plan f c =
      omega (arith, deletions-survivors plan plan f, carried-taken plan plan c)

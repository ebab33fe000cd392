-- ===== src/Reconcile/Validate/Exact.antt =====
-- The validator accepts exactly the plans whose transfer stage has no overlap.
use synckeeper.Base.{
  ◌≡◌, refl, sym, ◌≢◌, ◌↔◌, ◌⊎◌, inl, inr, true, false, none, some, List, [], ◌∷◌, arith,
  if◌then◌else◌, nat_eq, Bool-cases, Option-cases, length, All, Any, In, All-mono, All-In,
  All-of_In, int_eq, Bytes, bytes_eq,
}
use synckeeper.Base.Dict
use synckeeper.Base.Dict.{Dict}
use synckeeper.Reconcile.Types.{Kind, Action, is_transfer}
use synckeeper.Reconcile.Index.{under}
use synckeeper.Reconcile.Validate.{
  Scan, clash, files, scan, first_in, find_nested, validate_transfer_stage,
}
use synckeeper.Reconcile.Validate.Ancestors.{ancestors, ancestors_complete, ancestors_sound}

-- No two actions of the transfer stage are on one path.
abbrev pub DistinctPaths : List Action → Type 0
DistinctPaths [] = Unit
DistinctPaths (a ∷ plan) =
    (is_transfer a.kind ≡ true
      → All (λ b. is_transfer b.kind ≡ true → b.rel_path ≢ a.rel_path) plan)
    × DistinctPaths plan

-- A file-level action of the transfer stage is planned at the path.
abbrev pub HasFile : Bytes → List Action → Type 0
HasFile p plan = Any (λ a. (is_transfer a.kind ≡ true) × (a.is_dir ≡ false) × (a.rel_path ≡ p)) plan

-- No file of the transfer stage lies under another, which has a path.
abbrev pub NoNesting : List Action → Type 0
NoNesting plan = (q p : Bytes) → HasFile q plan → HasFile p plan → q ≢ [] → under q p ≡ false

abbrev Unseen : Dict Bytes Kind → List Action → Type 0
Unseen seen plan = All (λ b. is_transfer b.kind ≡ true → Dict.lookup b.rel_path seen ≡ none) plan

-- The set that the first loop builds.
files_onto : List Action → List Bytes → List Bytes
files_onto [] set = set
files_onto (a ∷ plan) set =
    files_onto plan
      (if is_transfer a.kind then (if a.is_dir then set else a.rel_path ∷ set) else set)

unseen_insert :
    (seen : Dict Bytes Kind) (a b : Action)
    → (is_transfer b.kind ≡ true
        → Dict.lookup b.rel_path (Dict.insert a.rel_path a.kind seen) ≡ none)
    → (is_transfer b.kind ≡ true → b.rel_path ≢ a.rel_path)
      × (is_transfer b.kind ≡ true → Dict.lookup b.rel_path seen ≡ none)
unseen_insert seen a b h = (
  λ t. ground (arith, h t, Dict.lookup-insert b.rel_path a.rel_path a.kind seen),
  λ t. ground (arith, h t, Dict.lookup-insert b.rel_path a.rel_path a.kind seen),
)

insert_unseen :
    (seen : Dict Bytes Kind) (a b : Action)
    → (is_transfer b.kind ≡ true → b.rel_path ≢ a.rel_path)
    → (is_transfer b.kind ≡ true → Dict.lookup b.rel_path seen ≡ none)
    → (is_transfer b.kind ≡ true
        → Dict.lookup b.rel_path (Dict.insert a.rel_path a.kind seen) ≡ none)
insert_unseen seen a b n h t =
    ground (arith, h t, n t, Dict.lookup-insert b.rel_path a.rel_path a.kind seen)

scan_files :
    (plan : List Action) (seen : Dict Bytes Kind) (set fs : List Bytes)
    → scan plan seen set ≡ files fs
    → DistinctPaths plan × Unseen seen plan × (files_onto plan set ≡ fs)
unfolding scan files_onto
scan_files [] seen set fs h = (tt, tt, ground arith)
scan_files (a ∷ plan) seen set fs h = elim (Bool-cases (is_transfer a.kind)) [
  | inl t ↦ elim (Option-cases (Dict.lookup a.rel_path seen)) [
    | inl e ↦
        let (d, u, f) =
          scan_files plan (Dict.insert a.rel_path a.kind seen)
            (if a.is_dir then set else a.rel_path ∷ set) fs (ground arith) in
        (
          ((λ _. All-mono _ _ plan (λ b x. (unseen_insert seen a b x).0) u), d),
          ((λ _. e), All-mono _ _ plan (λ b x. (unseen_insert seen a b x).1) u),
          ground arith,
        )
    | inr (k, e) ↦ absurd (ground arith)
  ]
  | inr t ↦
      let (d, u, f) = scan_files plan seen set fs (ground arith) in
      (((λ y. absurd (ground arith)), d), ((λ y. absurd (ground arith)), u), ground arith)
]

scan_of_distinct :
    (plan : List Action) (seen : Dict Bytes Kind) (set : List Bytes)
    → DistinctPaths plan
    → Unseen seen plan
    → scan plan seen set ≡ files (files_onto plan set)
unfolding scan files_onto
scan_of_distinct [] seen set d u = refl
scan_of_distinct (a ∷ plan) seen set (da, d) (ua, u) = elim (Bool-cases (is_transfer a.kind)) [
  | inl t ↦
      let next = Dict.insert a.rel_path a.kind seen in
      ground (
        arith,
        ua t,
        scan_of_distinct plan next (if a.is_dir then set else a.rel_path ∷ set) d
            (All_zip plan (da t) u),
      )
  | inr t ↦ ground (arith, scan_of_distinct plan seen set d u)
]
  where
    All_zip :
        (bs : List Action)
        → All (λ b. is_transfer b.kind ≡ true → b.rel_path ≢ a.rel_path) bs
        → Unseen seen bs
        → Unseen (Dict.insert a.rel_path a.kind seen) bs
    All_zip [] x y = tt
    All_zip (b ∷ bs) (x, xs) (y, ys) = (insert_unseen seen a b x y, All_zip bs xs ys)

files_onto-In :
    (plan : List Action) (set : List Bytes) (q : Bytes)
    → In q (files_onto plan set)
    → HasFile q plan ⊎ In q set
unfolding files_onto
files_onto-In [] set q m = inr m
files_onto-In (a ∷ plan) set q m = elim (files_onto-In plan _ q m) [
  | inl h ↦ inl (inr h)
  | inr k ↦ ground arith
]

files_onto_kept :
    (plan : List Action) (set : List Bytes) (q : Bytes) → In q set → In q (files_onto plan set)
unfolding files_onto
files_onto_kept [] set q m = m
files_onto_kept (a ∷ plan) set q m = files_onto_kept plan _ q (ground arith)

In-files_onto :
    (plan : List Action) (set : List Bytes) (q : Bytes)
    → HasFile q plan
    → In q (files_onto plan set)
unfolding files_onto
In-files_onto [] set q h = absurd h
In-files_onto (a ∷ plan) set q (inl (t, d, e)) =
    files_onto_kept plan _ q (rw t (rw d (inl (sym e))))
In-files_onto (a ∷ plan) set q (inr h) = In-files_onto plan _ q h

contains-In : (q : Bytes) (set : List Bytes) → (Dict.contains q set ≡ true) ↔ In q set
contains-In q [] = (λ h. absurd (ground arith), λ m. absurd m)
contains-In q (x ∷ set) = ground (arith, contains-In q set)

first_in-none : (set qs : List Bytes) → (first_in set qs ≡ none) ↔ All (λ q. ¬ In q set) qs
unfolding first_in
first_in-none set [] = (λ h. tt, λ h. refl)
first_in-none set (q ∷ qs) = elim (Bool-cases (Dict.contains q set)) [
  | inl e ↦ (λ h. absurd (ground arith), λ (n, ns). absurd (n ((contains-In q set).0 e)))
  | inr e ↦ (
    λ h. (
      (λ m. absurd (ground (arith, (contains-In q set).1 m))),
      (first_in-none set qs).0 (ground arith),
    ),
    λ (n, ns). ground (arith, (first_in-none set qs).1 ns),
  )
]

-- The set holds no strict ancestor of the path.
abbrev IsTop : List Bytes → Bytes → Type 0
IsTop set p = All (λ q. ¬ In q set) (ancestors (length p) p)

find_nested-none : (set ps : List Bytes) → (find_nested set ps ≡ none) ↔ All (IsTop set) ps
unfolding find_nested
find_nested-none set [] = (λ h. tt, λ h. refl)
find_nested-none set (p ∷ ps) = elim (Option-cases (first_in set (ancestors (length p) p))) [
  | inl e ↦ (
    λ h. ((first_in-none set _).0 e, (find_nested-none set ps).0 (ground arith)),
    λ (t, ts). ground (arith, (find_nested-none set ps).1 ts),
  )
  | inr (q, e) ↦ (
    λ h. absurd (ground arith),
    λ (t, ts). absurd (ground (arith, (first_in-none set (ancestors (length p) p)).1 t)),
  )
]

IsTop-NoNesting :
    (plan : List Action) → All (IsTop (files_onto plan [])) (files_onto plan []) → NoNesting plan
IsTop-NoNesting plan h q p hq hp n = elim (Bool-cases (under q p)) [
  | inl e ↦ absurd (
      All-In (λ x. ¬ In x set) q (ancestors (length p) p)
        (All-In (IsTop set) p set h (In-files_onto plan [] p hp))
        (ancestors_complete (length p) q p (omega arith) e n) (In-files_onto plan [] q hq))
  | inr e ↦ e
]
  where
    set : List Bytes
    set = files_onto plan []

NoNesting-IsTop :
    (plan : List Action) → NoNesting plan → All (IsTop (files_onto plan [])) (files_onto plan [])
NoNesting-IsTop plan h = All-of_In _ (files_onto plan []) λ p mp.
    All-of_In _ (ancestors (length p) p) λ q mq inside.
      let (u, n) = ancestors_sound (length p) q p mq in
      absurd (ground (arith, h q p (file_of q inside) (file_of p mp) n))
  where
    file_of : (x : Bytes) → In x (files_onto plan []) → HasFile x plan
    file_of x m = elim (files_onto-In plan [] x m) [ inl f ↦ f | inr z ↦ absurd z ]

-- The validator returns no error exactly if no two actions of the transfer stage are on one path
-- and no file-level one lies under another that has a path.
pub validate_transfer_stage_exact :
    (plan : List Action)
    → (validate_transfer_stage plan ≡ none) ↔ (DistinctPaths plan × NoNesting plan)
unfolding validate_transfer_stage
validate_transfer_stage_exact plan = (λ h. accepted h, λ (d, n). accepts d n)
  where
    settled :
        (s : Scan)
        → scan plan [] [] ≡ s
        → (elim s [ clash e ↦ some e | files set ↦ find_nested set set ]) ≡ none
        → DistinctPaths plan × NoNesting plan
    settled (clash e) p h = cc
    settled (files set) p h =
        let (d, _, f) = scan_files plan [] [] set p in
        (d, IsTop-NoNesting plan (rw f ((find_nested-none set set).0 h)))

    accepted : validate_transfer_stage plan ≡ none → DistinctPaths plan × NoNesting plan
    accepted h = settled (scan plan [] []) refl h

    unseen : (bs : List Action) → Unseen [] bs
    unseen [] = tt
    unseen (b ∷ bs) = ((λ _. unfold Dict.lookup in refl), unseen bs)

    accepts : DistinctPaths plan → NoNesting plan → validate_transfer_stage plan ≡ none
    accepts d n =
        rw (scan_of_distinct plan [] [] d (unseen plan), validate_transfer_stage)
          ((find_nested-none _ _).1 (NoNesting-IsTop plan n))

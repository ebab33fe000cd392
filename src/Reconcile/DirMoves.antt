-- ===== src/Reconcile/DirMoves.antt =====
-- internal/reconcile/plan.go: directory relocations, `mkRewrite` and `detectLocalDirMoves`.
use synckeeper.Base.{
  ℕ, suc, ◌-◌, Bool, true, false, not, ◌&&◌, ◌||◌, Option, none, some, List, [], ◌∷◌, ◌++◌, Bytes,
  int_eq, nat_eq, bytes_eq, ◌==◌, if◌then◌else◌, ltb, length, drop, take, any,
}
use synckeeper.Base.Dict
use synckeeper.Base.Dict.{Dict}
use synckeeper.Reconcile.Types.{BaseItem, LocalItem, Input}
use synckeeper.Reconcile.Index.{
  under, sorted_rows, rem_by_id, is_base_id, local_at, remote_at, in_base, is_some, local_file_at,
  pair_key,
}

pub record DirMove : Type 0 where
  pub source : Bytes
  pub target : Bytes

-- The loop of `mkRewrite`; `best` is the source's loop variable plus one, which starts at -1.
rewrite_loop : Bytes → ℕ → Bytes → List DirMove → Bytes
unfolding under
rewrite_loop p best out [] = out
rewrite_loop p best out (m ∷ ms) =
    let hit = under m.source p && ltb best (suc (length m.source)) in
    rewrite_loop p (if hit then suc (length m.source) else best)
      (if hit then m.target ++ drop (length m.source) p else out) ms

-- The path under its longest strictly containing moved ancestor.
unfoldable pub mk_rewrite : List DirMove → Bytes → Bytes
unfolding rewrite_loop
mk_rewrite ms p = rewrite_loop p 0 p ms

-- `invLD`: a new local path back to the baseline path that the local moves explain it by.
invert_loop : Bytes → ℕ → Bytes → List DirMove → Bytes
unfolding under
invert_loop q best out [] = out
invert_loop q best out (m ∷ ms) =
    let longer = ltb best (suc (length m.target)) in
    let exact = q == m.target && longer in
    let inside = under m.target q && longer in
    invert_loop q (if exact || inside then suc (length m.target) else best)
      (if exact then m.source else if inside then m.source ++ drop (length m.target) q else out) ms

unfoldable pub invert : List DirMove → Bytes → Bytes
unfolding invert_loop
invert ms q = invert_loop q 0 q ms

-- The folders whose id the remote reports at another path than the baseline.
remote_dir_moves_of : Input → Dict Bytes BaseItem → List DirMove
unfolding rem_by_id
remote_dir_moves_of i [] = []
remote_dir_moves_of i ((p, b) ∷ rows) =
    let rest = remote_dir_moves_of i rows in
    if not b.is_dir then rest else (elim (rem_by_id i b.file_id) [
      | none ↦ rest
      | some ra ↦ if ra.path == p then rest else record { source = p; target = ra.path } ∷ rest
    ])

unfoldable pub remote_dir_moves : Input → List DirMove
unfolding remote_dir_moves_of
remote_dir_moves i = remote_dir_moves_of i i.base

abbrev pub get_list : {A : Type 0} → Bytes → Dict Bytes (List A) → List A
get_list k d = elim (Dict.lookup k d) [ some xs ↦ xs | none ↦ [] ]

-- The move sources of the prediction: files gone locally whose remote is as the baseline has it.
is_candidate : Input → (Bytes → Bytes) → Bytes → BaseItem → Bool
unfolding rem_by_id local_at
is_candidate i rewrite_rd p b =
    not b.is_dir && not (is_some (local_at i p)) && (elim (rem_by_id i b.file_id) [
      | none ↦ false
      | some ra ↦ ra.item.md5 == b.drive_md5 && ra.path == rewrite_rd p
    ])

candidates_of :
    Input
    → (Bytes → Bytes)
    → Dict Bytes BaseItem
    → Dict Bytes (List Bytes)
    → Dict Bytes (List Bytes)
unfolding is_candidate pair_key Dict.insert Dict.lookup
candidates_of i rewrite_rd [] d = d
candidates_of i rewrite_rd ((p, b) ∷ rows) d =
    let key = pair_key b.md5 b.size in
    candidates_of i rewrite_rd rows
      (if is_candidate i rewrite_rd p b then Dict.insert key (get_list key d ++ p ∷ []) d else d)

-- Will a remote-driven move of this row back up an untracked file at its destination?
reclaims : Input → (Bytes → Bytes) → Bytes → BaseItem → Option Bytes
unfolding rem_by_id local_file_at
reclaims i rewrite_rd p b = if b.is_dir then none else (elim (local_file_at i p) [
  | none ↦ none
  | some loc ↦ elim (rem_by_id i b.file_id) [
    | none ↦ none
    | some ra ↦
        if ra.path == rewrite_rd p
        then none
        else if not (loc.md5 == b.md5)
            && not (ra.item.md5 == b.drive_md5)
            && not (loc.md5 == ra.item.md5)
        then none
        else if is_some (local_file_at i ra.path) && not (in_base i ra.path)
        then some ra.path
        else none
  ]
])

reclaimed_of : Input → (Bytes → Bytes) → Dict Bytes BaseItem → List Bytes
unfolding reclaims
reclaimed_of i rewrite_rd [] = []
reclaimed_of i rewrite_rd ((p, b) ∷ rows) =
    let rest = reclaimed_of i rewrite_rd rows in
    elim (reclaims i rewrite_rd p b) [ some q ↦ q ∷ rest | none ↦ rest ]

-- Does pass 2 of the prediction pair this local path at all?
is_pairable : Input → List Bytes → Bytes → LocalItem → Bool
unfolding remote_at is_base_id
is_pairable i reclaimed q l =
    not (in_base i q)
    && not (Dict.contains q reclaimed)
    && not l.is_dir
    && (elim (remote_at i q) [ none ↦ true | some r ↦ is_base_id i r.file_id || r.is_dir ])

-- The predicted pairs, source to destination: sorted new files take sources in order.
pairs_of :
    Input
    → List Bytes
    → Dict Bytes LocalItem
    → Dict Bytes (List Bytes)
    → Dict Bytes Bytes
    → Dict Bytes Bytes
unfolding is_pairable pair_key Dict.insert Dict.lookup
pairs_of i reclaimed [] d pairs = pairs
pairs_of i reclaimed ((q, l) ∷ rows) d pairs =
    let key = pair_key l.md5 l.size in
    let sources = if is_pairable i reclaimed q l then get_list key d else [] in
    pairs_of i reclaimed rows (elim sources [ [] ↦ d | _ ∷ more ↦ Dict.insert key more d ])
      (elim sources [ [] ↦ pairs | s ∷ _ ↦ Dict.insert s q pairs ])

-- `strings.TrimSuffix(dst, suffix)`
trim_suffix : Bytes → Bytes → Bytes
trim_suffix dst suffix =
    let n = length dst - length suffix in if drop n dst == suffix then take n dst else dst

-- The one place where the paired files under `d` landed; `none` is a scatter, [] no evidence.
landing : Bytes → Dict Bytes Bytes → Bytes → Option Bytes
unfolding trim_suffix under
landing d [] n = some n
landing d ((src, dst) ∷ pairs) n =
    let cut = trim_suffix dst (drop (length d) src) in
    let skip = landing d pairs n in
    let first = landing d pairs cut in
    if not (under d src)
    then skip
    else if cut == dst
    then none
    else if n == []
    then first
    else if n == cut
    then skip
    else none

-- Is the landing place a brand-new local directory whose name is free on the remote side?
is_free_target : Input → Bytes → Bool
unfolding local_at remote_at
is_free_target i n =
    (elim (local_at i n) [ some l ↦ l.is_dir | none ↦ false ])
    && not (in_base i n)
    && not (is_some (remote_at i n))

-- Where did the baseline directory `d` go, if that is explained by one local rename?
renamed_to : Input → Dict Bytes Bytes → Bytes → BaseItem → Option Bytes
unfolding landing is_free_target rem_by_id local_at
renamed_to i pairs d b =
    if not b.is_dir || is_some (local_at i d) then none else (elim (rem_by_id i b.file_id) [
      | none ↦ none
      | some ra ↦ if not (ra.path == d) then none else (elim (landing d pairs []) [
        | none ↦ none
        | some n ↦ if n == [] then none else if is_free_target i n then some n else none
      ])
    ])

collapse_moves : Input → Dict Bytes Bytes → Dict Bytes BaseItem → List DirMove → List DirMove
unfolding renamed_to under
collapse_moves i pairs [] out = out
collapse_moves i pairs ((d, b) ∷ rows) out = collapse_moves i pairs rows (
    if any (λ m. under m.source d) out then out else (elim (renamed_to i pairs d b) [
      | none ↦ out
      | some n ↦ out ++ record { source = d; target = n } ∷ []
    ]))

unfoldable pub detect_local_dir_moves : Input → (Bytes → Bytes) → List DirMove
unfolding candidates_of reclaimed_of pairs_of collapse_moves sorted_rows
detect_local_dir_moves i rewrite_rd =
    let sources = candidates_of i rewrite_rd (sorted_rows i.base) [] in
    let reclaimed = reclaimed_of i rewrite_rd i.base in
    let pairs = pairs_of i reclaimed (sorted_rows i.local) sources [] in
    elim sources [ [] ↦ [] | _ ∷ _ ↦ collapse_moves i pairs (sorted_rows i.base) [] ]

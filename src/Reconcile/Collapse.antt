-- ===== src/Reconcile/Collapse.antt =====
-- internal/reconcile/collapse.go: `CollapseDirDeletes`.
pub mod Roots
pub mod Content
pub mod Retires
pub mod Origins
use synckeeper.Base.{
  ℕ, suc, Bool, true, false, not, ◌&&◌, ◌||◌, Option, none, some, List, [], ◌∷◌, ◌++◌, map, Bytes,
  bytes_eq, ◌==◌, Eq, if◌then◌else◌, any, keep, sort_by,
}
use synckeeper.Base.Dict.{Dict}
use synckeeper.Reconcile.Types.{
  RemoteItem, Kind, Action, SubtreeEntry, is_binned, is_delete, is_trash, trash_remote, forget,
}
use synckeeper.Reconcile.Index.{under}
use synckeeper.Reconcile.Plan.Order.{path_less}

kind_dec : Discrete Kind
kind_dec = hlevel

instance unfoldable pub kind_eq : Eq Kind
unfolding kind_dec
kind_eq = record { dec = kind_dec }

abbrev pub is_binned_dir : Action → Bool
is_binned_dir a = is_binned a.kind && a.is_dir

-- `dirs`, shallowest first.
unfoldable pub dirs_of : List Action → List Bytes
unfolding sort_by path_less
dirs_of plan = sort_by path_less (map (λ a. a.rel_path) (keep is_binned_dir plan))

-- `kindOf[d] == k`, where the last action of a path counts.
unfoldable pub kind_of : List Action → Bytes → Option Kind
kind_of [] d = none
kind_of (a ∷ plan) d = elim (kind_of plan d) [
  | some k ↦ some k
  | none ↦ if is_binned_dir a && a.rel_path == d then some a.kind else none
]

-- `rootFor`: the collapsing directory that strictly contains `p`.
unfoldable pub root_for : List Bytes → Bytes → Option Bytes
unfolding under
root_for [] p = none
root_for (r ∷ roots) p = if under r p then some r else root_for roots p

-- Does the action leave the inside of `dir` to deletes?
abbrev pub spares : Bytes → Action → Bool
spares dir a =
    is_delete a.kind
    || not (under dir a.rel_path || (not (a.new_rel_path == []) && under dir a.new_rel_path))

-- `deletesOnlyUnder`
unfoldable pub deletes_only_under : List Action → Bytes → Bool
unfolding under
deletes_only_under plan dir = not (any (λ a. not (spares dir a)) plan)

abbrev pub is_remote_retired : Kind → Bool
is_remote_retired trash_remote = true
is_remote_retired forget = true
is_remote_retired _ = false

-- `planned`
unfoldable pub is_planned : List Action → Bytes → Bool
is_planned plan p = any (λ a. is_remote_retired a.kind && a.rel_path == p) plan

-- `remoteFullyCovered`
unfoldable pub remote_fully_covered : List Action → Dict Bytes RemoteItem → Bytes → Bool
unfolding under is_planned
remote_fully_covered plan remote dir =
    not (any (λ (p, _). under dir p && not (is_planned plan p)) remote)

abbrev pub is_trash_kind : Option Kind → Bool
is_trash_kind none = false
is_trash_kind (some k) = is_trash k

-- Does a directory become a root, beside those already chosen?
unfoldable pub qualifies : List Action → Dict Bytes RemoteItem → List Bytes → Bytes → Bool
unfolding root_for deletes_only_under remote_fully_covered kind_of
qualifies plan remote roots d =
    (elim (root_for roots d) [ some _ ↦ false | none ↦ true ])
    && (deletes_only_under plan d
        && (not (is_trash_kind (kind_of plan d)) || remote_fully_covered plan remote d))

unfoldable pub choose_roots :
    List Action → Dict Bytes RemoteItem → List Bytes → List Bytes → List Bytes
unfolding qualifies
choose_roots plan remote [] roots = roots
choose_roots plan remote (d ∷ dirs) roots =
    choose_roots plan remote dirs (if qualifies plan remote roots d then roots ++ d ∷ [] else roots)

-- The root that absorbs an action of the plan.
unfoldable pub absorber : List Action → List Bytes → Action → Option Bytes
unfolding root_for kind_of kind_eq
absorber plan roots a =
    if is_binned a.kind
    then (elim (root_for roots a.rel_path) [
      | none ↦ none
      | some r ↦ elim (kind_of plan r) [
        | none ↦ none
        | some k ↦ if k == a.kind then some r else none
      ]
    ])
    else none

abbrev pub entry_of : Action → SubtreeEntry
entry_of a = record {
  rel_path = a.rel_path;
  is_dir = a.is_dir;
  file_id = a.file_id;
  size = a.local_size;
  mtime_ns = a.local_mtime_ns;
}

-- `covered[r]`, in the plan's order.
unfoldable pub covered : (Action → Option Bytes) → Bytes → List Action → List SubtreeEntry
covered absorb r [] = []
covered absorb r (a ∷ plan) =
    let rest = covered absorb r plan in
    elim (absorb a) [ none ↦ rest | some q ↦ if q == r then entry_of a ∷ rest else rest ]

unfoldable pub count_files : List SubtreeEntry → ℕ
count_files [] = 0
count_files (e ∷ es) = let n = count_files es in if e.is_dir then n else suc n

-- The second loop over `out`: a root takes what it absorbed.
unfoldable pub fill : List SubtreeEntry → Action → Action
unfolding count_files
fill [] a = a
fill (e ∷ es) a =
    if a.is_dir then record a { subtree = e ∷ es; subtree_files = count_files (e ∷ es) } else a

unfoldable pub survivors : (Action → Option Bytes) → List Action → List Action → List Action
unfolding covered fill
survivors absorb plan [] = []
survivors absorb plan (a ∷ more) =
    let rest = survivors absorb plan more in
    elim (absorb a) [ some _ ↦ rest | none ↦ fill (covered absorb a.rel_path plan) a ∷ rest ]

unfoldable pub collapse_with : List Action → List Bytes → List Action
unfolding absorber survivors
collapse_with plan [] = plan
collapse_with plan (r ∷ roots) = survivors (absorber plan (r ∷ roots)) plan plan

unfoldable pub collapse_dir_deletes : List Action → Dict Bytes RemoteItem → List Action
unfolding collapse_with dirs_of choose_roots
collapse_dir_deletes plan remote = collapse_with plan (choose_roots plan remote (dirs_of plan) [])

-- ===== src/Tests/Stages.antt =====
-- Runs of the collapse, the guard and the validator.
use synckeeper.Base.{
  ℕ, ◌*◌, ◌≡◌, refl, ◌↔◌, ◌⊎◌, inl, inr, true, false, none, some, List, [], ◌∷◌, map, arith, ltb,
  nat_eq, length, All, Any, pos, int_eq, Bytes, codes, bytes_eq,
}
use synckeeper.Reconcile.Types.{
  RemoteItem, Action, Kind, action, quarantine_local, trash_remote, upload, download,
}
use synckeeper.Reconcile.Collapse.{collapse_dir_deletes, kind_eq}
use synckeeper.Reconcile.Collapse.Content.{SameStep, StandsFor}
use synckeeper.Reconcile.Collapse.Retires.{IsEntitled, collapse-keeps, collapse-IsEntitled}
use synckeeper.Reconcile.Validate.{nested, validate_transfer_stage}
use synckeeper.Reconcile.Validate.Exact.{DistinctPaths, NoNesting, validate_transfer_stage_exact}
use synckeeper.Guards.{mass_delete, check_mass_delete}
use synckeeper.Guards.Collapse.{check_mass_delete-collapse}

abbrev gone : Bytes → Action
gone p = record (action quarantine_local p) { local_exists = true; local_size = pos 3 }

-- A folder with two files.
abbrev removed : List Action
removed =
    gone (codes "d/b")
    ∷ gone (codes "d/a")
    ∷ record (action quarantine_local (codes "d")) { is_dir = true }
    ∷ []

abbrev outline : List Action → List (Kind × Bytes × ℕ × ℕ)
outline = map (λ a. (a.kind, a.rel_path, length a.subtree, a.subtree_files))

collapse_run : outline (collapse_dir_deletes removed []) ≡ (quarantine_local, codes "d", 2, 2) ∷ []
unfolding collapse_dir_deletes bytes_eq nat_eq
collapse_run = refl

-- A file that Drive holds and the plan does not trash keeps the folder from collapsing.
abbrev trashed : List Action
trashed =
    action trash_remote (codes "d/a")
    ∷ record (action trash_remote (codes "d")) { is_dir = true }
    ∷ []

abbrev stranger : RemoteItem
stranger = record {
  file_id = codes "9";
  is_dir = false;
  size = pos 1;
  md5 = codes "q";
  version = pos 1;
  modified_ns = pos 0;
}

stranger_run : collapse_dir_deletes trashed ((codes "d/x", stranger) ∷ []) ≡ trashed
unfolding collapse_dir_deletes bytes_eq nat_eq
stranger_run = refl

abbrev many : List Action
many =
    gone (codes "1")
    ∷ gone (codes "2")
    ∷ gone (codes "3")
    ∷ gone (codes "4")
    ∷ gone (codes "5")
    ∷ gone (codes "6")
    ∷ gone (codes "7")
    ∷ gone (codes "8")
    ∷ gone (codes "9")
    ∷ gone (codes "x")
    ∷ gone (codes "y")
    ∷ []

guard_run : check_mass_delete (λ d t. ltb t (d * 2)) many 20 false false ≡ some (mass_delete 11 20)
unfolding check_mass_delete nat_eq
guard_run = refl

abbrev overlap : List Action
overlap = action upload (codes "d/e/a") ∷ action download (codes "d") ∷ []

overlap_run : validate_transfer_stage overlap ≡ some (nested (codes "d") (codes "d/e/a"))
unfolding validate_transfer_stage bytes_eq nat_eq
overlap_run = refl

abbrev apart : List Action
apart = action upload (codes "d/a") ∷ action download (codes "d/b") ∷ []

validate_transfer_stage_exact_example :
    (validate_transfer_stage apart ≡ none) ↔ (DistinctPaths apart × NoNesting apart)
validate_transfer_stage_exact_example = validate_transfer_stage_exact apart

check_mass_delete-collapse_example :
    check_mass_delete (λ d t. ltb t (d * 2)) (collapse_dir_deletes removed []) 3 false false
    ≡ check_mass_delete (λ d t. ltb t (d * 2)) removed 3 false false
check_mass_delete-collapse_example =
    check_mass_delete-collapse (λ d t. ltb t (d * 2)) removed [] 3 false false
      ((λ _. refl), ((λ _. refl), ((λ _. refl), tt))) (λ r. ground arith)

collapse-keeps_example :
    Any (λ o. SameStep o (gone (codes "d/a"))) (collapse_dir_deletes removed [])
    ⊎ Any (λ o. StandsFor o (gone (codes "d/a"))) (collapse_dir_deletes removed [])
collapse-keeps_example = collapse-keeps removed [] (gone (codes "d/a")) (inr (inl refl))

collapse-IsEntitled_example :
    All (λ o. (o.subtree ≡ []) ⊎ IsEntitled removed [] o) (collapse_dir_deletes removed [])
collapse-IsEntitled_example = collapse-IsEntitled removed [] (refl, (refl, (refl, tt)))

-- ===== src/Executor/Safe/Remove.antt =====
-- internal/executor/executor.go: what the removal of local content may replace.
use synckeeper.Base.{
  ℕ, zero, suc, true, Option, none, some, List, [], ◌∷◌, Bytes, bytes_eq, ◌≡◌, subst, ◌⊎◌, inl, inr,
  In, All, All-keep_test, All-sort_by, All-of_In, All-mono, arith, Bool-cases, keep, has_prefix,
  sort_by,
}
use synckeeper.Base.Dict.{Dict}
use synckeeper.Names.{temp_prefix}
use synckeeper.Conflicts.{base_of}
use synckeeper.Reconcile.Types.{Action, SubtreeEntry}
use synckeeper.Disk.{Disk, FileData, rename, remove, names_in}
use synckeeper.Disk.Files.{rename-Spares, remove-Spares}
use synckeeper.Executor.Run.{Env, Failure, trash_unusable, unexpected}
use synckeeper.Executor.Gate.{
  Expectation, child, is_invisible, sweep_each, sweep_invisible_leftovers, leftovers,
  remove_own_temp,
}
use synckeeper.Executor.Remove.{
  abs, quarantine_dest, to_quarantine, note_quarantine_fallback, after_bin, bin_file, remove_file,
  remove_files, remove_dirs, dirs_of, deeper, remove_dir_per_item, after_bin_dir, bin_dir,
  remove_covered, numbered_free, unique_rescue_dest,
}
use synckeeper.Executor.Safe.{
  Safe, Safe-on_disk, Safe-with, Safe-seen, Safe-given, Safe-bind, Safe-attempt, Safe-if, Safe-give,
  safe_rules,
}
use synckeeper.Executor.Safe.Gate.{
  mkdir_all-Safe, guarded_trash_path-Safe, guarded_trash_dir-Safe, guarded_remove_empty_dir-Safe,
}
use synckeeper.Executor.Safe.Copy.{guarded_move_file-Safe}

leftovers_lem :
    (P : Bytes → FileData → Type 0) (e : Env) (dest dir : Bytes) (d : Disk) (names : List Bytes)
    → ((name : Bytes) → is_invisible e name ≡ true → (f : FileData) → P (child dest name) f)
    → leftovers e dir d ≡ inr names
    → All (λ name. (f : FileData) → P (child dest name) f) names
unfolding leftovers
leftovers_lem P e dest dir d names h r =
    subst (All (λ name. (f : FileData) → P (child dest name) f)) (ground arith) (
      All-mono _ _ (keep (is_invisible e) (names_in dir d)) h
        (All-keep_test (is_invisible e) (names_in dir d)))

module _ {P : Bytes → FileData → Type 0} {e : Env} where
  sweep_each-Safe :
      (dir dest : Bytes) (names : List Bytes)
      → All (λ name. (f : FileData) → P (child dest name) f) names
      → Safe P e (sweep_each dir dest names)
  unfolding sweep_each
  sweep_each-Safe dir dest [] h = search safe_rules
  sweep_each-Safe dir dest (name ∷ names) (h, hs) = Safe-bind _ _ (mkdir_all-Safe dest) λ _.
      Safe-bind _ _
        (Safe-on_disk (child dest name) (λ t d. rename (child dir name) (child dest name) d)
          (λ t d d' r. rename-Spares (child dir name) (child dest name) d d' r) h)
        λ _. sweep_each-Safe dir dest names hs

  sweep-Safe :
      (dir dest : Bytes)
      → ((name : Bytes) → is_invisible e name ≡ true → (f : FileData) → P (child dest name) f)
      → Safe P e (sweep_invisible_leftovers dir dest)
  unfolding sweep_invisible_leftovers
  sweep-Safe dir dest h =
      Safe-seen (λ e d. leftovers e dir d) _
        λ d.
          Safe-given (leftovers e dir d) _
            λ names r. sweep_each-Safe dir dest names (leftovers_lem P e dest dir d names h r)

  numbered_free-Safe : (fuel i : ℕ) (stem ext : Bytes) → Safe P e (numbered_free fuel i stem ext)
  unfolding numbered_free
  numbered_free-Safe zero i stem ext = search safe_rules
  numbered_free-Safe (suc fuel) i stem ext = search (safe_rules, numbered_free-Safe fuel) depth 10

  unique_rescue_dest-Safe : (dest : Bytes) → Safe P e (unique_rescue_dest dest)
  unfolding unique_rescue_dest
  unique_rescue_dest-Safe dest = search (safe_rules, numbered_free-Safe) depth 12

  to_quarantine-Safe : (rel : Bytes) (x : Expectation) → Safe P e (to_quarantine rel x)
  unfolding to_quarantine note_quarantine_fallback
  to_quarantine-Safe rel x =
      search (safe_rules, unique_rescue_dest-Safe, mkdir_all-Safe, guarded_move_file-Safe) depth 14

  after_bin-Safe :
      (rel : Bytes) (x : Expectation) (r : Failure ⊎ Unit {0}) → Safe P e (after_bin rel x r)
  unfolding after_bin
  after_bin-Safe rel x (inr _) = search safe_rules
  after_bin-Safe rel x (inl trash_unusable) = to_quarantine-Safe rel x
  after_bin-Safe rel x (inl _) = search safe_rules

  pub remove_file-Safe : (rel : Bytes) (x : Expectation) → Safe P e (remove_file rel x)
  unfolding remove_file bin_file
  remove_file-Safe rel x =
      search (safe_rules, to_quarantine-Safe, guarded_trash_path-Safe, after_bin-Safe) depth 14

  remove_files-Safe : (entries : List SubtreeEntry) → Safe P e (remove_files entries)
  unfolding remove_files
  remove_files-Safe [] = search safe_rules
  remove_files-Safe (x ∷ entries) =
      Safe-if x.is_dir _ _ (λ _. remove_files-Safe entries)
        (λ _. Safe-bind _ _ (remove_file-Safe x.rel_path _) λ _. remove_files-Safe entries)

  remove_dirs-Safe :
      (dirs : List Bytes)
      → All
          (λ rel.
            ((f : FileData) → P (abs e rel) f)
            × ((name : Bytes)
                → is_invisible e name ≡ true
                → (f : FileData) → P (child (quarantine_dest e rel) name) f))
          dirs
      → Safe P e (remove_dirs dirs)
  unfolding remove_dirs
  remove_dirs-Safe [] h = search safe_rules
  remove_dirs-Safe (rel ∷ dirs) ((h, g), hs) =
      Safe-with (λ e n. abs e rel) _
        λ n.
          Safe-with (λ e n. quarantine_dest e rel) _
            λ m. Safe-bind _ _ (sweep-Safe (abs e rel) (quarantine_dest e rel) g) λ _.
              Safe-bind _ _ (guarded_remove_empty_dir-Safe (abs e rel) h)
                λ _. remove_dirs-Safe dirs hs

  pub remove_dir_per_item-Safe :
      (a : Action)
      → ((rel : Bytes)
          → In rel (a.rel_path ∷ dirs_of a.subtree)
          → ((f : FileData) → P (abs e rel) f)
            × ((name : Bytes)
                → is_invisible e name ≡ true
                → (f : FileData) → P (child (quarantine_dest e rel) name) f))
      → Safe P e (remove_dir_per_item a)
  unfolding remove_dir_per_item
  remove_dir_per_item-Safe a h = Safe-bind _ _ (remove_files-Safe a.subtree) λ _.
      remove_dirs-Safe (sort_by deeper (a.rel_path ∷ dirs_of a.subtree)) (
        All-sort_by _ deeper (a.rel_path ∷ dirs_of a.subtree)
          (All-of_In _ (a.rel_path ∷ dirs_of a.subtree) h))

  after_bin_dir-Safe :
      (a : Action) (r : Failure ⊎ Unit {0})
      → Safe P e (remove_dir_per_item a)
      → Safe P e (after_bin_dir a r)
  unfolding after_bin_dir
  after_bin_dir-Safe a (inr _) h = search safe_rules
  after_bin_dir-Safe a (inl unexpected) h = h
  after_bin_dir-Safe a (inl trash_unusable) h = h
  after_bin_dir-Safe a (inl _) h = search safe_rules

  pub remove_covered-Safe :
      (a : Action) (covered : Option (Dict Bytes SubtreeEntry))
      → Safe P e (remove_dir_per_item a)
      → Safe P e (remove_covered a covered)
  unfolding remove_covered bin_dir
  remove_covered-Safe a none h = search safe_rules
  remove_covered-Safe a (some covered) h =
      Safe-with (λ e n. e.bin_available) _
        λ n.
          Safe-if e.bin_available _ _
            (λ _.
              Safe-with (λ e n. abs e a.rel_path) _
                λ m.
                  Safe-bind _ _ (Safe-attempt _ (guarded_trash_dir-Safe (abs e a.rel_path) covered))
                    λ r. after_bin_dir-Safe a r h)
            (λ _. h)

  pub remove_own_temp-Safe :
      (p : Bytes)
      → ((f : FileData) → has_prefix (base_of p) temp_prefix ≡ true → P p f)
      → Safe P e (remove_own_temp p)
  unfolding remove_own_temp
  remove_own_temp-Safe p h = elim (Bool-cases (has_prefix (base_of p) temp_prefix)) [
    | inl b ↦
        rw b (Safe-on_disk p (λ t d. remove p d) (λ t d d' r. remove-Spares p d d' r) (λ g. h g b))
    | inr b ↦ rw b (Safe-give _)
  ]

-- ===== src/Executor/Remove.antt =====
-- internal/executor/executor.go: how content that Drive has deleted leaves the sync folder.
use synckeeper.Base.{
  ℕ, zero, suc, ◌+◌, ◌-◌, Bool, true, false, Option, none, some, List, [], ◌∷◌, ◌++◌, Bytes, codes,
  bytes_eq, nat_eq, ◌==◌, pos, length, take, ltb, sort_by, bytes_ltb, count_slash, has_prefix, drop,
  if◌then◌else◌, ◌⊎◌, inl, inr,
}
use synckeeper.Base.Dict
use synckeeper.Base.Dict.{Dict}
use synckeeper.Conflicts.{dir_of, base_of, ext_of}
use synckeeper.Reconcile.Types.{Action, SubtreeEntry}
use synckeeper.Reconcile.Index.{itoa}
use synckeeper.Disk.{Node}
use synckeeper.Executor.Run.{
  Env, Run, Failure, trash_unusable, unexpected, bad_subtree, endless, pure, fail, stat_at, setting,
  remember, attempt, ◌>>=◌, ◌>>◌,
}
use synckeeper.Executor.Gate.{
  Expectation, guarded_trash_path, guarded_trash_dir, guarded_move_file, mkdir_all,
  sweep_invisible_leftovers, guarded_remove_empty_dir,
}

-- `filepath.Join` of a root and a rel_path.
unfoldable pub under_root : Bytes → Bytes → Bytes
under_root root rel = if rel == [] then root else root ++ b'/' ∷ rel

abbrev pub abs : Env → Bytes → Bytes
abs e rel = under_root e.sync_dir rel

unfoldable pub quarantine_dest : Env → Bytes → Bytes
unfolding under_root
quarantine_dest e rel = under_root (e.quarantine_dir ++ b'/' ∷ e.today) rel

-- `os.IsNotExist` of the error of `os.Lstat`.
abbrev pub is_gone : (Failure ⊎ Option Node) → Bool
is_gone (inr none) = true
is_gone _ = false

-- The names with a number that `uniqueRescueDest` tries, from the number on. An `os.Lstat` that fails
-- otherwise than with a missing entry is followed by the next number, without end if all do.
unfoldable pub numbered_free : ℕ → ℕ → Bytes → Bytes → Run Bytes
numbered_free zero i stem ext = fail endless
numbered_free (suc fuel) i stem ext =
    let cand = stem ++ (codes " (" ++ (itoa (pos i) ++ (codes ")" ++ ext))) in
    let rest = numbered_free fuel (i + 1) stem ext in
    attempt (stat_at cand) >>= λ r. if is_gone r then pure cand else rest

unfoldable pub unique_rescue_dest : Bytes → Run Bytes
unfolding numbered_free
unique_rescue_dest dest = do
  r ← attempt (stat_at dest)
  fuel ← setting (λ e n. e.rescue_tries)
  let ext = ext_of (base_of dest)
  let stem = take (length dest - length ext) dest
  if is_gone r then pure dest else numbered_free fuel 2 stem ext

unfoldable pub note_quarantine_fallback : Run Unit
note_quarantine_fallback =
    remember (λ m. record m { quarantine_fell_to = m.quarantine_fell_to + 1 })

unfoldable pub to_quarantine : Bytes → Expectation → Run Unit
unfolding unique_rescue_dest
to_quarantine rel exp = do
  note_quarantine_fallback
  wanted ← setting (λ e n. quarantine_dest e rel)
  dest ← unique_rescue_dest wanted
  mkdir_all (dir_of dest)
  path ← setting (λ e n. abs e rel)
  guarded_move_file path dest exp

-- What becomes of a file after the bin was tried: the quarantine takes what the bin refused.
unfoldable pub after_bin : Bytes → Expectation → (Failure ⊎ Unit {0}) → Run Unit
unfolding to_quarantine
after_bin rel exp (inr _) = pure tt
after_bin rel exp (inl trash_unusable) = to_quarantine rel exp
after_bin rel exp (inl f) = fail f

unfoldable pub bin_file : Bytes → Expectation → Run Unit
unfolding after_bin
bin_file rel exp = do
  path ← setting (λ e n. abs e rel)
  r ← attempt (guarded_trash_path path exp)
  after_bin rel exp r

unfoldable pub remove_file : Bytes → Expectation → Run Unit
unfolding bin_file
remove_file rel exp = do
  available ← setting (λ e n. e.bin_available)
  if available then bin_file rel exp else to_quarantine rel exp

abbrev pinned_entry : SubtreeEntry → Expectation
pinned_entry x = record { present = true; size = x.size; mtime_ns = x.mtime_ns }

-- The files of the subtree, one by one.
unfoldable pub remove_files : List SubtreeEntry → Run Unit
unfolding remove_file
remove_files [] = pure tt
remove_files (x ∷ entries) =
    if x.is_dir
    then remove_files entries
    else (do remove_file x.rel_path (pinned_entry x); remove_files entries)

unfoldable pub dirs_of : List SubtreeEntry → List Bytes
dirs_of [] = []
dirs_of (x ∷ entries) = let rest = dirs_of entries in if x.is_dir then x.rel_path ∷ rest else rest

abbrev pub deeper : Bytes → Bytes → Bool
deeper a b =
    if count_slash a == count_slash b then bytes_ltb b a else ltb (count_slash b) (count_slash a)

unfoldable pub remove_dirs : List Bytes → Run Unit
remove_dirs [] = pure tt
remove_dirs (rel ∷ dirs) = do
  path ← setting (λ e n. abs e rel)
  dest ← setting (λ e n. quarantine_dest e rel)
  sweep_invisible_leftovers path dest
  guarded_remove_empty_dir path
  remove_dirs dirs

unfoldable pub remove_dir_per_item : Action → Run Unit
unfolding remove_files remove_dirs dirs_of
remove_dir_per_item a = do
  remove_files a.subtree
  remove_dirs (sort_by deeper (a.rel_path ∷ dirs_of a.subtree))

-- The map `covered`, onto what is there; none where an entry is not below the folder.
unfoldable pub cover :
    Bytes → List SubtreeEntry → Dict Bytes SubtreeEntry → Option (Dict Bytes SubtreeEntry)
cover prefix [] covered = some covered
cover prefix (x ∷ entries) covered =
    let rest = cover prefix entries (Dict.insert (drop (length prefix) x.rel_path) x covered) in
    if has_prefix x.rel_path prefix then rest else none

unfoldable pub after_bin_dir : Action → (Failure ⊎ Unit {0}) → Run Unit
unfolding remove_dir_per_item
after_bin_dir a (inr _) = pure tt
after_bin_dir a (inl unexpected) = remove_dir_per_item a
after_bin_dir a (inl trash_unusable) = remove_dir_per_item a
after_bin_dir a (inl f) = fail f

unfoldable pub bin_dir : Action → Dict Bytes SubtreeEntry → Run Unit
unfolding after_bin_dir
bin_dir a covered = do
  path ← setting (λ e n. abs e a.rel_path)
  r ← attempt (guarded_trash_dir path covered)
  after_bin_dir a r

unfoldable pub remove_covered : Action → Option (Dict Bytes SubtreeEntry) → Run Unit
unfolding bin_dir
remove_covered a none = fail bad_subtree
remove_covered a (some covered) = do
  available ← setting (λ e n. e.bin_available)
  if available then bin_dir a covered else remove_dir_per_item a

unfoldable pub remove_dir : Action → Run Unit
unfolding remove_covered cover
remove_dir a = remove_covered a (cover (a.rel_path ++ b'/' ∷ []) a.subtree [])

-- ===== src/Executor/Gate.antt =====
-- internal/executor/localwrite.go: the local-write gate.
use synckeeper.Base.{
  Bool, true, false, not, ◌&&◌, ◌||◌, Option, none, some, List, [], ◌∷◌, ◌++◌, Bytes, bytes_eq,
  ◌==◌, ℤ, pos, int_eq, length, drop, any, keep, map, has_prefix, if◌then◌else◌, ◌⊎◌, inl, inr,
}
use synckeeper.Base.Dict
use synckeeper.Base.Dict.{Dict}
use synckeeper.Names.{ignored, temp_prefix}
use synckeeper.Conflicts.{base_of}
use synckeeper.Reconcile.Types.{Action, SubtreeEntry}
use synckeeper.Reconcile.Index.{split_segments}
use synckeeper.Reconcile.Validate.Ancestors.{ancestors}
use synckeeper.Disk.{
  Disk, Node, FileData, file, directory, other, size_of, lstat, is_directory, make_dir, rename,
  remove, write_file, names_in, below,
}
use synckeeper.Executor.Run.{
  Env, Run, Failure, io, refused, unexpected, give, pure, fail, look, on_disk, attempt,
  move_to_trash, stat_at, ◌>>=◌, ◌>>◌,
}

-- The zero value means "absent".
pub record Expectation : Type 0 where
  pub present : Bool
  pub size : ℤ
  pub mtime_ns : ℤ

abbrev pub absent : Expectation
absent = record { present = false; size = pos 0; mtime_ns = pos 0 }

unfoldable pub exp_from_action : Action → Expectation
exp_from_action a = record {
  present = a.local_exists;
  size = a.local_size;
  mtime_ns = a.local_mtime_ns;
}

pub data VanishPolicy : Type 0 where
  refuse_vanished : VanishPolicy
  allow_vanished : VanishPolicy

abbrev pub refuses : VanishPolicy → Bool
refuses refuse_vanished = true
refuses allow_vanished = false

-- The file is the one that the scan saw.
abbrev pub is_pinned : Expectation → FileData → Bool
is_pinned exp f = exp.present && (size_of f == exp.size && f.mtime_ns == exp.mtime_ns)

-- What `guardedStat` makes of `os.Lstat`.
unfoldable pub stat_verdict : Expectation → VanishPolicy → Option Node → Failure ⊎ Option FileData
stat_verdict exp v (some (file f)) = if is_pinned exp f then inr (some f) else inl refused
stat_verdict exp v (some directory) = inl refused
stat_verdict exp v (some other) = inl refused
stat_verdict exp v none = if exp.present && refuses v then inl refused else inr none

unfoldable pub guarded_stat : Bytes → Expectation → VanishPolicy → Run (Option FileData)
unfolding stat_verdict
guarded_stat abs exp v = do cur ← stat_at abs; give (stat_verdict exp v cur)

unfoldable pub guarded_rename : Bytes → Bytes → Expectation → VanishPolicy → Run Unit
unfolding guarded_stat
guarded_rename from to exp v = do guarded_stat to exp v; on_disk to (λ t d. rename from to d)

unfoldable pub guarded_remove_empty_dir : Bytes → Run Unit
guarded_remove_empty_dir abs = on_disk abs (λ t d. remove abs d)

unfoldable pub make_one : Bytes → Run Unit
make_one p = on_disk p (λ t d. make_dir p (lstat p d) d)

-- `os.MkdirAll`: the directories above, the nearest first in the list, then the directory.
unfoldable pub mkdir_each : List Bytes → Run Unit
unfolding make_one
mkdir_each [] = pure tt
mkdir_each (p ∷ above) = do mkdir_each above; make_one p

unfoldable pub mkdir_all : Bytes → Run Unit
unfolding mkdir_each
mkdir_all p = mkdir_each (p ∷ ancestors (length p) p)

abbrev pub child : Bytes → Bytes → Bytes
child dir name = dir ++ b'/' ∷ name

-- `names.Ignored(name, ignore) || strings.HasPrefix(name, names.TempPrefix)`
abbrev pub is_invisible : Env → Bytes → Bool
is_invisible e name = ignored e.matches e.ignore name || has_prefix name temp_prefix

unfoldable pub sweep_each : Bytes → Bytes → List Bytes → Run Unit
unfolding mkdir_all
sweep_each dir dest [] = pure tt
sweep_each dir dest (name ∷ names) = do
  mkdir_all dest
  on_disk (child dest name) (λ t d. rename (child dir name) (child dest name) d)
  sweep_each dir dest names

-- The names in the directory that the plan cannot see; an error where it cannot be read.
unfoldable pub leftovers : Env → Bytes → Disk → Failure ⊎ List Bytes
unfolding names_in
leftovers e dir d =
    if is_directory (lstat dir d) then inr (keep (is_invisible e) (names_in dir d)) else inl io

unfoldable pub sweep_invisible_leftovers : Bytes → Bytes → Run Unit
unfolding leftovers sweep_each
sweep_invisible_leftovers dir dest = do
  found ← look (λ e d. leftovers e dir d)
  names ← give found
  sweep_each dir dest names

abbrev pub content_of : Option Node → Failure ⊎ FileData
content_of (some (file f)) = inr f
content_of _ = inl io

-- `os.ReadFile` in effect: `os.Open` and all of the content.
unfoldable pub read_file : Bytes → Run FileData
read_file p = do n ← look (λ e d. lstat p d); give (content_of n)

-- Across file systems: the copy, and then the removal.
unfoldable pub copy_over : Bytes → Bytes → Run Unit
unfolding read_file
copy_over from to = do
  f ← read_file from
  on_disk to (λ t d. write_file to (record { content = []; mtime_ns = t }) d)
  on_disk to (λ t d. write_file to (record { content = f.content; mtime_ns = t }) d)
  on_disk from (λ t d. remove from d)

abbrev pub free : Option Node → Failure ⊎ Unit {0}
free none = inr tt
free (some n) = inl refused

unfoldable pub or_copy : Bytes → Bytes → (Failure ⊎ Unit {0}) → Run Unit
unfolding copy_over
or_copy from to (inr _) = pure tt
or_copy from to (inl _) = copy_over from to

unfoldable pub guarded_move_file : Bytes → Bytes → Expectation → Run Unit
unfolding guarded_stat or_copy
guarded_move_file from to exp = do
  guarded_stat from exp refuse_vanished
  there ← stat_at to
  give (free there)
  r ← attempt (on_disk to (λ t d. rename from to d))
  or_copy from to r

unfoldable pub guarded_trash_path : Bytes → Expectation → Run Unit
unfolding guarded_stat
guarded_trash_path abs exp =
    if exp.present
    then (do guarded_stat abs exp refuse_vanished; move_to_trash abs)
    else move_to_trash abs

abbrev entry_matches : Option SubtreeEntry → Node → Bool
entry_matches none n = false
entry_matches (some x) directory = x.is_dir
entry_matches (some x) (file f) = not x.is_dir && (size_of f == x.size && f.mtime_ns == x.mtime_ns)
entry_matches (some x) other = false

-- What stands below the directory, by its path from there.
unfoldable pub entries_below : Bytes → Disk → Dict Bytes Node
entries_below dir d =
    map (λ (p, n). (drop (length (dir ++ b'/' ∷ [])) p, n)) (keep (λ (p, _). below dir p) d)

-- An ignored name hides all that is below it.
unfoldable pub is_visible : Env → Bytes → Bool
is_visible e rel = not (any (is_invisible e) (split_segments rel))

-- The walk of `verifySubtree`, entry by entry.
unfoldable pub subtree_holds : Env → Dict Bytes SubtreeEntry → Dict Bytes Node → Bool
unfolding is_visible
subtree_holds e covered [] = true
subtree_holds e covered ((rel, n) ∷ entries) =
    (not (is_visible e rel) || entry_matches (Dict.lookup rel covered) n)
    && subtree_holds e covered entries

unfoldable pub subtree_verdict : Env → Bytes → Dict Bytes SubtreeEntry → Disk → Failure ⊎ Unit {0}
unfolding subtree_holds entries_below
subtree_verdict e dir covered d =
    if subtree_holds e covered (entries_below dir d)
    then verdict_of (lstat dir d)
    else inl unexpected
  where
    verdict_of : Option Node → Failure ⊎ Unit {0}
    verdict_of none = inl io
    verdict_of (some n) = inr tt

unfoldable pub verify_subtree : Bytes → Dict Bytes SubtreeEntry → Run Unit
unfolding subtree_verdict
verify_subtree dir covered = do r ← look (λ e d. subtree_verdict e dir covered d); give r

unfoldable pub guarded_trash_dir : Bytes → Dict Bytes SubtreeEntry → Run Unit
unfolding verify_subtree
guarded_trash_dir abs covered = do verify_subtree abs covered; move_to_trash abs

unfoldable pub remove_own_temp : Bytes → Run Unit
remove_own_temp abs =
    if has_prefix (base_of abs) temp_prefix then on_disk abs (λ t d. remove abs d) else fail refused

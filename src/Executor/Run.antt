-- ===== src/Executor/Run.antt =====
-- What the actions of internal/executor run in: the settings of the run, the database and Drive, the
-- local disk and the system's bin, and the executor's own maps. Every call may fail, and what was done
-- before a failure stays done.
pub mod Caught
use synckeeper.Base.{
  ℕ, ◌+◌, Bool, true, false, not, ◌||◌, Option, none, some, List, [], ◌∷◌, ◌++◌, Bytes, bytes_eq,
  ◌==◌, ℤ, if◌then◌else◌, ◌⊎◌, inl, inr, keep,
}
use synckeeper.Base.Dict.{Dict}
use synckeeper.DriveClient.Files.{File}
use synckeeper.Names.{Match}
use synckeeper.Reconcile.Types.{Action}
use synckeeper.Reconcile.Validate.{PlanError}
use synckeeper.Disk.{Disk, Node, FileData, file, directory, lstat, is_blocked, take_out, below}
use synckeeper.Store.Exec.{Error, Result, ok, err, stuck, Reply, Outside, World, Exec, ask}

pub data Failure : Type 0 where
  store : Error → Failure
  endless : Failure
  io : Failure
  refused : Failure
  trash_unusable : Failure
  unexpected : Failure
  wrong_content : Failure
  no_parent : Failure
  unprotected : Failure
  bad_subtree : Failure
  bad_plan : PlanError → Failure

abbrev pub is_endless : Failure → Bool
is_endless endless = true
is_endless _ = false

-- The settings and the outside: the calls of Drive that only the executor makes, by the number of the
-- call, and for each call of the disk whether it fails and what time a file that it writes gets.
-- `today` is the formatted date, `temp_suffix` what `os.CreateTemp` puts for the star, and
-- `rescue_tries` the fuel of the search for a free rescue name, which in the code may never end.
pub record Env : Type 0 where
  pub outside : Outside
  pub move : ℕ → Bytes → Bytes → Bytes → Reply File
  pub upload : ℕ → Bytes → Bytes → Bytes → Reply File
  pub update : ℕ → Bytes → Bytes → Reply File
  pub fetch : ℕ → Bytes → Reply Bytes
  pub trash : ℕ → Bytes → Reply Unit
  pub disk_fails : ℕ → Bool
  pub mtime_at : ℕ → ℤ
  pub temp_suffix : ℕ → Bytes
  pub md5 : Bytes → Bytes
  pub bin_available : Bool
  pub bin_fails : ℕ → Bool
  pub sync_dir : Bytes
  pub quarantine_dir : Bytes
  pub today : Bytes
  pub root_id : Bytes
  pub matches : Match
  pub ignore : List Bytes
  pub payload : Action → Bytes
  pub rescue_tries : ℕ

-- The executor's fields that change.
pub record Memory : Type 0 where
  pub path_ids : Dict Bytes Bytes
  pub failed_protectors : List Bytes
  pub bumped_versions : Dict Bytes ℤ
  pub quarantine_fell_to : ℕ

-- `replaced` is a history, which no action reads: the files that a call took from their paths to put
-- another in their place, or to remove them.
pub record State : Type 0 where
  pub world : World
  pub disk : Disk
  pub bin : Disk
  pub replaced : List (Bytes × FileData)
  pub disk_calls : ℕ
  pub memory : Memory

abbrev pub Run : Type 0 → Type 0
Run A = Env → State → (Failure ⊎ A) × State

abbrev pub called : State → State
called s = record s { disk_calls = s.disk_calls + 1 }

module _ {A : Type 0} where
  unfoldable pub give : (Failure ⊎ A) → Run A
  give r e s = (r, s)

  abbrev pub pure : A → Run A
  pure a = give (inr a)

  abbrev pub fail : Failure → Run A
  fail f = give (inl f)

  abbrev pub result_of : Result A → Failure ⊎ A
  result_of (ok a) = inr a
  result_of (err x) = inl (store x)
  result_of stuck = inl endless

  -- What the database or Drive is asked.
  unfoldable pub in_store : (Env → Exec A) → Run A
  in_store m e s = let (r, w) = m e e.outside s.world in (result_of r, record s { world = w })

  unfoldable pub drive : (Env → ℕ → Reply A) → Run A
  unfolding in_store
  drive call = in_store (λ e. ask (λ o n. call e n))

  -- A call that reads the disk.
  unfoldable pub look : (Env → Disk → A) → Run A
  look f e s = (if e.disk_fails s.disk_calls then inl io else inr (f e s.disk), called s)

  unfoldable pub setting : (Env → ℕ → A) → Run A
  setting f e s = (inr (f e s.disk_calls), s)

  unfoldable pub recall : (Memory → A) → Run A
  recall f e s = (inr (f s.memory), s)

  -- What does not end is no error that the code could go on from.
  abbrev pub caught : (Failure ⊎ A) → Failure ⊎ (Failure ⊎ A)
  caught (inr a) = inr (inr a)
  caught (inl f) = if is_endless f then inl f else inr (inl f)

  -- The error as a value.
  unfoldable pub attempt : Run A → Run (Failure ⊎ A)
  attempt m e s = let (r, s') = m e s in (caught r, s')

-- `os.Lstat`; none is `os.IsNotExist`.
unfoldable pub stat_at : Bytes → Run (Option Node)
stat_at p e s = (
  if e.disk_fails s.disk_calls || is_blocked p s.disk then inl io else inr (lstat p s.disk),
  called s,
)

abbrev pub file_at : Bytes → Option Node → List (Bytes × FileData)
file_at p (some (file f)) = (p, f) ∷ []
file_at p _ = []

unfoldable pub changed : Bytes → Option Disk → State → (Failure ⊎ Unit {0}) × State
changed p none s = (inl io, s)
changed p (some d) s =
    (inr tt, record s { disk = d; replaced = s.replaced ++ file_at p (lstat p s.disk) })

-- A call that changes the disk. The path is the one where it may replace or remove what is there, and
-- the number is the time that a file it writes is given.
unfoldable pub on_disk : Bytes → (ℤ → Disk → Option Disk) → Run Unit
unfolding changed
on_disk p f e s =
    if e.disk_fails s.disk_calls
    then (inl io, called s)
    else changed p (f (e.mtime_at s.disk_calls) s.disk) (called s)

unfoldable pub remember : (Memory → Memory) → Run Unit
remember f e s = (inr tt, record s { memory = f s.memory })

-- An entry, with all that is below it if it is a directory, leaves the disk for the bin.
unfoldable pub binned : Bytes → Option Node → State → (Failure ⊎ Unit {0}) × State
binned p none s = (inl trash_unusable, s)
binned p (some directory) s = (
  inr tt,
  record s {
    disk = keep (λ (q, _). not (p == q || below p q)) s.disk;
    bin = s.bin ++ keep (λ (q, _). p == q || below p q) s.disk;
  },
)
binned p (some n) s = (inr tt, record s { disk = take_out p s.disk; bin = s.bin ++ (p, n) ∷ [] })

-- `trash.Trasher.MoveToTrash`
unfoldable pub move_to_trash : Bytes → Run Unit
unfolding binned
move_to_trash p e s =
    if e.bin_fails s.disk_calls
    then (inl trash_unusable, called s)
    else binned p (lstat p s.disk) (called s)

module _ {A B : Type 0} where
  abbrev pub continue : (Failure ⊎ A) → (A → Run B) → Run B
  continue (inr a) f e s = f a e s
  continue (inl x) f e s = (inl x, s)

  infixl 10 ◌>>=◌ ◌>>◌
  unfoldable pub ◌>>=◌ : Run A → (A → Run B) → Run B
  ◌>>=◌ m f e s = let (r, s') = m e s in continue r f e s'

  abbrev pub ◌>>◌ : Run A → Run B → Run B
  m >> n = m >>= λ _. n

-- ===== src/Lib.antt =====
-- A model of synckeeper, a two-way sync between a local folder and a Google Drive folder, with
-- the theorems that make its planner safe.
--
-- The program scans the folder, mirrors Drive's metadata, and hands three snapshots (baseline,
-- local, remote) to the planner of internal/reconcile, a pure function. The mass-delete guard of
-- internal/guards counts the plan, the collapse folds a deleted folder's deletes into one action,
-- and the executor runs the result after the validator has accepted its concurrent stage.
--
-- Files:
-- - Base and below: strings as lists of bytes (Strings), Go maps as association lists (Dict),
--   int64 as a signed number (Int), stable sorting (Sort), lists and tests.
-- - Names: internal/names/names.go (Validate, Join, FoldKey).
-- - Conflicts: internal/conflicts/conflicts.go (Path).
-- - Reconcile/Types: internal/reconcile/types.go.
-- - Reconcile/Index, Reconcile/DirMoves, Reconcile/Draft, Reconcile/Plan and below:
--   internal/reconcile/plan.go. Index has the maps that Plan builds, itoa and pairKey; DirMoves
--   has mkRewrite, invLD and detectLocalDirMoves; Plan/Files, Plan/News, Plan/Remotes and
--   Plan/Dirs are the passes 1 to 4; Plan/Order is the ordering; Plan joins them.
-- - Reconcile/Validate and below: internal/reconcile/validate.go.
-- - Reconcile/Collapse and below: internal/reconcile/collapse.go.
-- - Guards and below: internal/guards/guards.go; Guards/SyncDir is EnsureSyncDir.
-- - DriveClient: internal/driveclient/retry.go and IsNotFound of errors.go; DriveClient/Attempts,
--   the theorem on the retry loop.
-- - DriveClient/Files: the files and changes of internal/driveclient/driveclient.go.
-- - Store: internal/statedb. Store/Types has the rows, Store/Exec the calls that may fail and the
--   transactions, Store/Meta, Store/Items, Store/Ops and Store/Nodes the tables (statedb.go,
--   items.go, ops.go, remote_nodes.go), Store/Like the patterns of SQLite's LIKE; Store/Ensures and
--   Store/Total have the rules to reason by, and Store/Reads, Store/Atomic, Store/Batches,
--   Store/Pattern and Store/Unique the theorems.
-- - RemoteDelta: internal/remotedelta/remotedelta.go. RemoteDelta/Walk, RemoteDelta/Changes,
--   RemoteDelta/Prune, RemoteDelta/Snapshot and RemoteDelta/Refresh have its functions, and the
--   modules below them the proofs: RemoteDelta/Snapshot/Kept is on the round of a folder.
-- - Root and below: internal/root/root.go; Root/Unread is about a failed read of the stored id.
-- - Engine: the planning half of Sync of internal/engine/engine.go, from the rows and the snapshots to
--   what the executor gets; Engine/Held, Engine/Gate and Engine/Scanned have its theorems.
--   Engine/Start is the beginning of Sync, to the reset of the baseline.
-- - Scanner: internal/scanner/scanner.go; Scanner/Covered, Scanner/Rows and Scanner/Exact have its
--   theorems. What filepath.WalkDir finds, with each file's stat and hash, is a Listing.
-- - Disk: a local disk as the calls of Go's os and path/filepath see it; Disk/Files, what they keep.
-- - Executor: internal/executor. Executor/Gate is localwrite.go; Executor/Remove, Executor/Actions
--   and Executor/Apply are executor.go, with the rows that it commits in Executor/Commits, and
--   Executor/Run what an action runs in, and Executor/Run/Caught what its handlers of errors let
--   through; Executor/Recover and Executor/Cleanup are the recovery after
--   a crash, its database part and the whole. Executor/Safe and below, Executor/Once and below,
--   Executor/Protection, Executor/Outcome and below, and Executor/Cleaned have the theorems;
--   Executor/Outcome/Rescue is on the search of uniqueRescueDest, and Executor/Seeded and below and
--   Executor/Recovered lead to the last.
-- - Reconcile/Paths and Reconcile/Proofs: lemmas on paths, and the planner's theorems.
-- - Tests: runs on small inputs, and the theorems applied to them.
--
-- How the code is read: a round of a pass is a function to a Draft, the lists that the round
-- appends to; rounds are merged in order, so each theorem on a draft is an induction over the
-- rounds. Slices and maps that a round only reads are arguments. A map that the code iterates
-- unsorted is a list in any order, and the theorems hold for each. Sorted keys are the rows in key
-- order. The conflict stamp is the formatted time; Unicode normalisation and lower case are
-- parameters, and so is the guard's comparison of a quotient of floats with the threshold. An
-- error is what errors.Is and errors.As tell of it; the calls, the jitter and the context of the
-- retry loop are parameters. Skip reasons are an enumeration. The order of skips with equal paths,
-- which sort.Slice leaves open, is that of a stable sort.
--
-- The code that reads and writes the database or calls Drive is an action of Store/Exec: it takes
-- the outside, which says of every SQL statement whether it fails and of every call of Drive what
-- comes back, and the world, which is the database and the number of calls made. A transaction
-- that fails puts the old database back. A crash is an outside where all calls fail from some call
-- on.
--
-- An action of the executor is a run of Executor/Run, on a state that has the database, the disk,
-- the bin, the executor's own maps, and a history of the files that were replaced or removed,
-- which no action reads. Every call of the disk may fail, by its number, and what was done before
-- stays done; links are not followed, and a stat below a file fails, with an error that is not that
-- of a missing entry. The bin does what the interface trash.Trasher promises. The
-- workers take the transfers in any order, which is a parameter, each as a whole. The time that a
-- written file gets, the name of a temporary file, the date and the hash are parameters.
--
-- Fuel: ancestors takes the path's length, and each step shortens the path; itoa takes the 20
-- bytes of its buffer, which hold every int64. The retry loop takes one unit for each of its five
-- attempts. The searches of prune and Snapshot take one unit more than there are rows, and are
-- proved to end. The search of uniqueRescueDest, which goes on without end while
-- os.Lstat fails otherwise than with a missing entry, has a fuel that the settings of the run give,
-- and a run that uses it up is endless, which nothing catches. A walk of Drive and the pages of its
-- changes have a fuel that the caller gives, since Drive may go on without end; a run that uses it up
-- is stuck, and is no success.
--
-- Not modelled: the executor's test checkpoints and fsync; the rest of the engine's cycle, the
-- daemon, the login, the calls of Drive and the views; the instance lock of internal/guards; the
-- migrations and the daemon's tables of internal/statedb. They act on the file system, the network
-- or a terminal.
pub mod Base
pub mod Disk
pub mod Names
pub mod Conflicts
pub mod Reconcile
pub mod Guards
pub mod DriveClient
pub mod Store
pub mod RemoteDelta
pub mod Root
pub mod Scanner
pub mod Executor
pub mod Engine
mod Tests

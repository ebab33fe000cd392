-- ===== src/Disk.antt =====
-- The local file system, as internal/executor uses it through `os` and `path/filepath`: files,
-- directories and other entries by their paths, and what the calls make of them. A symbolic link is an
-- other entry and is not followed.
pub mod Files
use synckeeper.Base.{
  ℕ, Bool, true, false, not, ◌&&◌, ◌||◌, Option, none, some, List, [], ◌∷◌, ◌++◌, Bytes, codes,
  bytes_eq, nat_eq, ◌==◌, ℤ, pos, length, drop, any, keep, map, has_prefix, if◌then◌else◌,
}
use synckeeper.Base.Dict
use synckeeper.Base.Dict.{Dict}
use synckeeper.Conflicts.{dir_of, base_of}

pub record FileData : Type 0 where
  pub content : Bytes
  pub mtime_ns : ℤ

pub data Node : Type 0 where
  file : FileData → Node
  directory : Node
  other : Node

abbrev pub Disk : Type 0
Disk = Dict Bytes Node

abbrev pub size_of : FileData → ℤ
size_of f = pos (length f.content)

-- Is the path below the directory?
unfoldable pub below : Bytes → Bytes → Bool
below dir path = has_prefix path (dir ++ b'/' ∷ [])

-- The entry at the path is gone.
unfoldable pub take_out : Bytes → Disk → Disk
take_out p [] = []
take_out p ((q, n) ∷ d) = if p == q then d else (q, n) ∷ take_out p d

-- What is at the path.
abbrev pub lstat : Bytes → Disk → Option Node
lstat = Dict.lookup

abbrev pub is_directory : Option Node → Bool
is_directory (some directory) = true
is_directory _ = false

-- The path lies below an entry that is no directory: `os.Lstat` gives ENOTDIR, for which
-- `os.IsNotExist` is false.
unfoldable pub is_blocked : Bytes → Disk → Bool
unfolding below
is_blocked p d = any (λ (q, n). below q p && not (is_directory (some n))) d

-- `os.Mkdir` where nothing is; none for an error.
unfoldable pub make_dir : Bytes → Option Node → Disk → Option Disk
make_dir p none d = some (Dict.insert p directory d)
make_dir p (some directory) d = some d
make_dir p (some (file f)) d = none
make_dir p (some other) d = none

-- The entry and those below it get the new path.
unfoldable pub relocate : Bytes → Bytes → Bytes → Bytes
unfolding below
relocate from to p =
    if p == from
    then to
    else if below from p
    then to ++ b'/' ∷ drop (length (from ++ b'/' ∷ [])) p
    else p

unfoldable pub relocated : Bytes → Bytes → Disk → Disk
unfolding relocate
relocated from to = map (λ (p, n). (relocate from to p, n))

-- `os.Rename` of a directory: onto nothing, or onto an empty directory.
unfoldable pub rename_dir : Bytes → Bytes → Option Node → Disk → Option Disk
unfolding relocated
rename_dir from to none d = if below from to then none else some (relocated from to d)
rename_dir from to (some directory) d =
    if from == to
    then some d
    else if below from to || any (λ (p, _). below to p) d
    then none
    else some (relocated from to (take_out to d))
rename_dir from to (some (file f)) d = none
rename_dir from to (some other) d = none

-- `os.Rename` of anything else: over what is there, unless it is a directory.
unfoldable pub rename_entry : Bytes → Bytes → Node → Option Node → Disk → Option Disk
unfolding take_out
rename_entry from to n (some directory) d = none
rename_entry from to n target d =
    if from == to then some d else some (Dict.insert to n (take_out from d))

unfoldable pub rename_node : Bytes → Bytes → Option Node → Disk → Option Disk
unfolding rename_dir rename_entry
rename_node from to none d = none
rename_node from to (some directory) d = rename_dir from to (lstat to d) d
rename_node from to (some n) d = rename_entry from to n (lstat to d) d

-- `os.Rename`
unfoldable pub rename : Bytes → Bytes → Disk → Option Disk
unfolding rename_node
rename from to d =
    if is_directory (lstat (dir_of to) d) then rename_node from to (lstat from d) d else none

unfoldable pub remove_node : Bytes → Option Node → Disk → Option Disk
unfolding take_out
remove_node p none d = none
remove_node p (some directory) d = if any (λ (q, _). below p q) d then none else some (take_out p d)
remove_node p (some n) d = some (take_out p d)

-- `os.Remove`: a directory only if it is empty.
unfoldable pub remove : Bytes → Disk → Option Disk
unfolding remove_node
remove p d = remove_node p (lstat p d) d

-- `os.Create`, and what a writer leaves.
unfoldable pub write_node : Bytes → FileData → Option Node → Disk → Option Disk
write_node p f (some directory) d = none
write_node p f (some other) d = none
write_node p f target d = some (Dict.insert p (file f) d)

unfoldable pub write_file : Bytes → FileData → Disk → Option Disk
unfolding write_node
write_file p f d = if is_directory (lstat (dir_of p) d) then write_node p f (lstat p d) d else none

-- `os.CreateTemp`, for a name: only where nothing is.
unfoldable pub create_node : Bytes → FileData → Option Node → Disk → Option Disk
create_node p f none d = some (Dict.insert p (file f) d)
create_node p f (some n) d = none

unfoldable pub create_new : Bytes → FileData → Disk → Option Disk
unfolding create_node
create_new p f d = if is_directory (lstat (dir_of p) d) then create_node p f (lstat p d) d else none

-- The names that `os.ReadDir` gives.
unfoldable pub names_in : Bytes → Disk → List Bytes
names_in dir d = map (λ (p, _). base_of p) (keep (λ (p, _). dir_of p == dir) d)

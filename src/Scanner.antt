-- ===== src/Scanner.antt =====
-- internal/scanner/scanner.go: the local snapshot.
pub mod Covered
pub mod Rows
pub mod Exact
use synckeeper.Base.{
  Bool, true, false, not, ◌&&◌, Option, none, some, List, [], ◌∷◌, ◌++◌, Bytes, bytes_eq, ◌==◌, ℤ,
  pos, int_eq, if◌then◌else◌,
}
use synckeeper.Base.Dict
use synckeeper.Base.Dict.{Dict}
use synckeeper.Names.{Match, NameError, ignored, validate, join}
use synckeeper.Reconcile.Types.{BaseItem, LocalItem}

pub data ScanReason : Type 0 where
  is_link : ScanReason
  not_regular : ScanReason
  bad_name : NameError → ScanReason
  unread : ScanReason

-- The fields of a skip that the scanner sets.
pub record LocalSkip : Type 0 where
  pub rel_path : Bytes
  pub reason : ScanReason
  pub unreadable : Bool

pub record Stat : Type 0 where
  pub size : ℤ
  pub mtime_ns : ℤ

-- An entry that is no directory. A regular file has what `Info` and `hashFile` give, none for an error.
pub data Leaf : Type 0 where
  regular : Option Stat → Option Bytes → Leaf
  link : Leaf
  special : Leaf

-- What `filepath.WalkDir` finds in a directory, in its order: entries with their names. A directory
-- comes with whether it could be read, and with the entries that were read of it.
pub data Listing : Type 0 where
  end : Listing
  leaf : Bytes → Leaf → Listing → Listing
  folder : Bytes → Bool → Listing → Listing → Listing

-- The arguments of Scan but the root.
pub record ScanConfig : Type 0 where
  pub base : Dict Bytes BaseItem
  pub matches : Match
  pub ignore : List Bytes

pub record ScanState : Type 0 where
  pub snapshot : Dict Bytes LocalItem
  pub skips : List LocalSkip

abbrev pub dir_item : LocalItem
dir_item = record { is_dir = true; size = pos 0; mtime_ns = pos 0; md5 = [] }

unfoldable pub add_skip : Bytes → ScanReason → Bool → ScanState → ScanState
add_skip rel why unreadable s = record s {
  skips = s.skips ++ record { rel_path = rel; reason = why; unreadable = unreadable } ∷ [];
}

unfoldable pub add_item : Bytes → LocalItem → ScanState → ScanState
add_item rel item s = record s { snapshot = Dict.insert rel item s.snapshot }

-- What the tests on an entry's name and kind say.
pub data Ruling : Type 0 where
  passed_over : Ruling
  reported : ScanReason → Ruling
  taken : Ruling

unfoldable pub name_ruling : Option NameError → Ruling
name_ruling none = taken
name_ruling (some e) = reported (bad_name e)

unfoldable pub leaf_ruling : Bytes → Leaf → Ruling
unfolding name_ruling
leaf_ruling name (regular st sum) = name_ruling (validate name)
leaf_ruling name link = reported is_link
leaf_ruling name special = reported not_regular

unfoldable pub rule : ScanConfig → Bytes → Ruling → Ruling
rule c name r = if ignored c.matches c.ignore name then passed_over else r

-- The baseline's hash is trusted where the stat is the baseline's.
unfoldable pub known_md5 : Option BaseItem → Stat → Option Bytes → Option Bytes
known_md5 none st sum = sum
known_md5 (some b) st sum =
    if not b.is_dir && (b.size == st.size && b.mtime_ns == st.mtime_ns) then some b.md5 else sum

unfoldable pub file_item : Bytes → Stat → Option Bytes → ScanState → Option ScanState
file_item rel st none s = none
file_item rel st (some md5) s =
    some (
      add_item rel (record { is_dir = false; size = st.size; mtime_ns = st.mtime_ns; md5 = md5 }) s)

unfoldable pub take_file : ScanConfig → Bytes → Leaf → ScanState → Option ScanState
unfolding file_item known_md5
take_file c rel (regular none sum) s = none
take_file c rel (regular (some st) sum) s =
    file_item rel st (known_md5 (Dict.lookup rel c.base) st sum) s
take_file c rel link s = none
take_file c rel special s = none

-- The first call for a directory, and the second one where it could not be read.
unfoldable pub enter : Bytes → Bool → ScanState → ScanState
unfolding add_item add_skip
enter rel readable s =
    let s' = add_item rel dir_item s in
    if readable then s' else add_item rel dir_item (add_skip rel unread true s')

unfoldable pub apply_ruling : Ruling → Bytes → ScanState → Option ScanState → Option ScanState
unfolding add_skip
apply_ruling passed_over rel s inside = some s
apply_ruling (reported why) rel s inside = some (add_skip rel why false s)
apply_ruling taken rel s inside = inside

unfoldable pub and_then : Option ScanState → (ScanState → Option ScanState) → Option ScanState
and_then none f = none
and_then (some s) f = f s

-- The calls of the function that Scan gives to `filepath.WalkDir`, below one directory.
unfoldable pub walk : ScanConfig → Bytes → Listing → ScanState → Option ScanState
unfolding rule apply_ruling and_then enter take_file leaf_ruling
walk c dir end s = some s
walk c dir (leaf name k rest) s =
    and_then
      (apply_ruling (rule c name (leaf_ruling name k)) (join dir name) s
        (take_file c (join dir name) k s))
      (λ t. walk c dir rest t)
walk c dir (folder name readable kids rest) s =
    let inside = walk c (join dir name) kids (enter (join dir name) readable s) in
    and_then (apply_ruling (rule c name (name_ruling (validate name))) (join dir name) s inside)
      (λ t. walk c dir rest t)

-- none for an error. A root that cannot be read is one.
unfoldable pub scan : ScanConfig → Bool → Listing → Option ScanState
unfolding walk
scan c root_readable tree =
    let found = walk c [] tree (record { snapshot = []; skips = [] }) in
    if root_readable then found else none

-- ===== src/Names.antt =====
-- internal/names: rel_paths, valid names and the fold of names that collide on disk.
use synckeeper.Base.{
  Bool, false, ◌||◌, Option, none, some, List, [], ◌∷◌, ◌++◌, Bytes, codes, bytes_eq, nat_eq, ◌==◌,
  if◌then◌else◌, any, has_prefix,
}

-- Why `Validate` rejects a name.
pub data NameError : Type 0 where
  invalid : NameError
  bad_characters : NameError

-- `strings.ContainsAny(name, "/\x00")`
abbrev has_separator : Bytes → Bool
has_separator = any (λ c. c == b'/' || c == 0)

unfoldable pub validate : Bytes → Option NameError
validate name =
    if name == [] || name == codes "." || name == codes ".."
    then some invalid
    else if has_separator name
    then some bad_characters
    else none

-- The child rel_path; the parent [] is the sync root.
unfoldable pub join : Bytes → Bytes → Bytes
join parent name = if parent == [] then name else parent ++ b'/' ∷ name

-- TempPrefix
abbrev pub temp_prefix : Bytes
temp_prefix = codes ".synckeeper.tmp."

-- Go's `path.Match`, pattern first; none for a malformed pattern.
abbrev pub Match : Type 0
Match = Bytes → Bytes → Option Bool

abbrev is_match : Option Bool → Bool
is_match none = false
is_match (some b) = b

unfoldable pub ignored : Match → List Bytes → Bytes → Bool
ignored matches patterns name =
    has_prefix name temp_prefix || any (λ p. is_match (matches p name)) patterns

-- golang.org/x/text/unicode/norm's `norm.NFC.String` and `strings.ToLower`, over bytes.
pub record Unicode : Type 0 where
  pub nfc : Bytes → Bytes
  pub to_lower : Bytes → Bytes

unfoldable pub fold_key : Unicode → Bytes → Bool → Bool → Bytes
fold_key u name case_fold norm_fold =
    let name' = if norm_fold then u.nfc name else name in
    if case_fold then (if norm_fold then u.nfc (u.to_lower name') else u.to_lower name') else name'

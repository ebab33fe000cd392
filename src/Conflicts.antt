-- ===== src/Conflicts.antt =====
-- internal/conflicts: the name of a conflict copy. `path.Dir`, `path.Base` and `path.Ext` are
-- written for rel_paths, which are clean and neither begin nor end with a slash.
use synckeeper.Base.{
  ℕ, ◌-◌, Option, none, some, [], ◌∷◌, ◌++◌, Bytes, codes, nat_eq, bytes_eq, ◌==◌, if◌then◌else◌,
  length, take,
}

-- What stands before and after the last occurrence of a byte.
unfoldable pub split_last : ℕ → Bytes → Option (Bytes × Bytes)
split_last c [] = none
split_last c (x ∷ s) = elim (split_last c s) [
  | some (a, b) ↦ some (x ∷ a, b)
  | none ↦ if x == c then some ([], s) else none
]

unfoldable pub dir_of : Bytes → Bytes
unfolding split_last
dir_of p = elim (split_last b'/' p) [ some (a, _) ↦ a | none ↦ codes "." ]

unfoldable pub base_of : Bytes → Bytes
unfolding split_last
base_of p = elim (split_last b'/' p) [ some (_, b) ↦ b | none ↦ p ]

unfoldable pub ext_of : Bytes → Bytes
unfolding split_last
ext_of base = elim (split_last b'.' base) [ some (_, b) ↦ b'.' ∷ b | none ↦ [] ]

-- `t` is already formatted by `t.Format("2006-01-02_150405")`.
unfoldable pub conflict_path : Bytes → Bytes → Bytes → Bytes
unfolding dir_of base_of ext_of
conflict_path rel_path machine t =
    let dir = dir_of rel_path in
    let base = base_of rel_path in
    let ext = ext_of base in
    let stem = take (length base - length ext) base in
    let name =
      stem ++ (codes " (conflict " ++ (machine ++ (codes " " ++ (t ++ (codes ")" ++ ext))))) in
    if dir == codes "." then name else dir ++ (codes "/" ++ name)

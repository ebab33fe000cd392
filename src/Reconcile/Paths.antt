-- ===== src/Reconcile/Paths.antt =====
-- Facts about rel_paths that the planner's proofs share: containment, depth and the orders.
use synckeeper.Base.{
  ◌+◌, ◌≤◌, ◌<◌, ◌≡◌, ap, ◌∙◌, true, false, [], ◌∷◌, ◌++◌, arith, Bytes, bytes_eq, nat_eq, length,
  drop, has_prefix_split, count_slash, count_slash-append, IsOrder, bytes-IsOrder,
}
use synckeeper.Reconcile.Index.{under}
use synckeeper.Reconcile.Plan.Order.{path_less}

-- What a path is, under a directory.
pub under_split :
    (d p : Bytes) → under d p ≡ true → p ≡ (d ++ b'/' ∷ []) ++ drop (length (d ++ b'/' ∷ [])) p
unfolding under
under_split d p h = has_prefix_split p (d ++ b'/' ∷ []) h

count_slash_dir : (d : Bytes) → count_slash (d ++ b'/' ∷ []) ≡ count_slash d + 1
unfolding count_slash nat_eq
count_slash_dir d = count_slash-append d (b'/' ∷ [])

-- A path lies deeper than a directory that contains it.
pub under_depth : (d p : Bytes) → under d p ≡ true → count_slash d < count_slash p
under_depth d p h =
    let tail = drop (length (d ++ b'/' ∷ [])) p in
    let e : count_slash p ≡ count_slash (d ++ b'/' ∷ []) + count_slash tail =
      ap count_slash (under_split d p h) ∙ count_slash-append (d ++ b'/' ∷ []) tail in
    omega (arith, e, count_slash_dir d)

pub under_of_depth : (d p : Bytes) → count_slash p ≤ count_slash d → under d p ≡ false
under_of_depth d p h = ground (arith, under_depth d p)

path_asymm : (p q : Bytes) → path_less p q ≡ true → path_less q p ≡ false
unfolding path_less
path_asymm p q h = ground (arith, bytes-IsOrder.asymm p q)

path_le_trans :
    (p q r : Bytes) → path_less q p ≡ false → path_less r q ≡ false → path_less r p ≡ false
unfolding path_less
path_le_trans p q r h k = ground (arith, bytes-IsOrder.le_trans p q r)

pub path-IsOrder : IsOrder path_less
path-IsOrder = record { asymm = path_asymm; le_trans = path_le_trans }

pub depth_of_path_less : (p q : Bytes) → path_less q p ≡ false → count_slash p ≤ count_slash q
unfolding path_less
depth_of_path_less p q h = ground arith

-- ===== src/Reconcile/Proofs/Sequence.antt =====
-- The stages of the plan in sequence.
use synckeeper.Base.{
  ◌≡◌, Bool, true, false, ◌||◌, List, [], ◌∷◌, ◌++◌, arith, nat_eq, keep, All, All-append, All-mono,
  All-keep, All-keep_test, sort_by, Ordered, All-sort_by, IsOrder, sort_by-Ordered, int_eq, Bytes,
  bytes_eq,
}
use synckeeper.Reconcile.Types.{Action, is_delete, is_mkdir, is_transfer, mkdir_remote}
use synckeeper.Reconcile.Index.{under}
use synckeeper.Reconcile.DirMoves.{DirMove}
use synckeeper.Reconcile.Draft.{Draft}
use synckeeper.Reconcile.Paths.{under_of_depth, depth_of_path_less, path-IsOrder}
use synckeeper.Reconcile.Validate.Ancestors.{under_trans}
use synckeeper.Reconcile.Plan.Order.{
  by_depth_then_path, bottom_up, by_path, move_files_less, is_local_dir_move, is_remote_dir_move,
  is_file_move, under_local_move, waits_for_reparent, waits_not, dir_stages, file_moves, order,
}
use synckeeper.Reconcile.Proofs.Staged.{Staged}
use synckeeper.Reconcile.Proofs.Order.{
  Pairs, Pairs-append, Pairs-All, Pairs-mono, Pairs-keep, All-cross, MayPrecede, IsMove, IsEarly,
  early_then_move, move_then_early, early_then_late, transfer_then_late, mkdir_then_mkdir,
  delete_then_delete,
}

Ordered-Pairs :
    (less : Action → Action → Bool) (xs : List Action)
    → Ordered less xs
    → Pairs (λ x y. less y x ≡ false) xs
Ordered-Pairs less [] o = tt
Ordered-Pairs less (x ∷ xs) (h, hs) = (h, Ordered-Pairs less xs hs)

by_depth-IsOrder : IsOrder by_depth_then_path
by_depth-IsOrder = record {
  asymm = λ x y h. path-IsOrder.asymm x.rel_path y.rel_path h;
  le_trans = λ x y z h k. path-IsOrder.le_trans x.rel_path y.rel_path z.rel_path h k;
}

bottom_up-IsOrder : IsOrder bottom_up
bottom_up-IsOrder = record {
  asymm = λ x y h. path-IsOrder.asymm y.rel_path x.rel_path h;
  le_trans = λ x y z h k. path-IsOrder.le_trans z.rel_path y.rel_path x.rel_path k h;
}

-- What waits for a reparent is under no folder that does not.
under_local_move-under :
    (ms : List DirMove) (q p : Bytes)
    → under q p ≡ true
    → under_local_move ms q ≡ true
    → under_local_move ms p ≡ true
unfolding under_local_move
under_local_move-under [] q p h k = k
under_local_move-under (m ∷ ms) q p h k =
    ground (arith, under_local_move-under ms q p h, under_trans m.target q p)

waits_then_waits_not :
    (ms : List DirMove) (x y : Action)
    → waits_not ms x ≡ true
    → waits_for_reparent ms y ≡ true
    → x.kind ≡ mkdir_remote
    → under y.rel_path x.rel_path ≡ false
waits_then_waits_not ms x y h k e = ground (arith, under_local_move-under ms y.rel_path x.rel_path)

module _ (ms : List DirMove) (d : Draft) (st : Staged d) where
  abbrev mkdirs : List Action
  mkdirs = sort_by by_depth_then_path d.mkdirs

  abbrev IsMkdir : Action → Type 0
  IsMkdir a = is_mkdir a.kind ≡ true

  mkdirs-IsMkdir : All IsMkdir mkdirs
  mkdirs-IsMkdir = All-sort_by IsMkdir by_depth_then_path d.mkdirs st.0

  mkdirs-Pairs : Pairs MayPrecede mkdirs
  mkdirs-Pairs =
      Pairs-mono _ MayPrecede IsMkdir
        (λ x y h k l. mkdir_then_mkdir x y h k (λ _ _.
          under_of_depth y.rel_path x.rel_path (depth_of_path_less x.rel_path y.rel_path l)))
        mkdirs mkdirs-IsMkdir
        (Ordered-Pairs by_depth_then_path mkdirs
          (sort_by-Ordered by_depth_then_path by_depth-IsOrder d.mkdirs))

  moves_of :
      (p : Action → Bool) (less : Action → Action → Bool)
      → All IsMove (sort_by less (keep p d.moves))
  moves_of p less = All-sort_by IsMove less _ (All-keep IsMove p d.moves st.1)

  moves-Pairs : (xs : List Action) → All IsMove xs → Pairs MayPrecede xs
  moves-Pairs xs h =
      Pairs-All MayPrecede IsMove (λ x y a b. early_then_move x y (ground arith) b) xs h

  abbrev local_dirs : List Action
  local_dirs = sort_by by_depth_then_path (keep is_local_dir_move d.moves)

  abbrev remote_dirs : List Action
  remote_dirs = sort_by by_depth_then_path (keep is_remote_dir_move d.moves)

  IsEarly-of_moves : (xs : List Action) → All IsMove xs → All IsEarly xs
  IsEarly-of_moves xs h = All-mono IsMove IsEarly xs (λ a k. ground arith) h

  IsEarly-of_mkdirs : (xs : List Action) → All IsMkdir xs → All IsEarly xs
  IsEarly-of_mkdirs xs h = All-mono IsMkdir IsEarly xs (λ a k. ground arith) h

  -- Mkdirs that wait for no reparent, and those that do.
  abbrev IsPlain : Action → Type 0
  IsPlain a = IsMkdir a × (waits_not ms a ≡ true)

  abbrev IsWaiting : Action → Type 0
  IsWaiting a = IsMkdir a × (waits_for_reparent ms a ≡ true)

  both : (P Q : Action → Type 0) (xs : List Action) → All P xs → All Q xs → All (λ a. P a × Q a) xs
  both P Q [] h k = tt
  both P Q (x ∷ xs) (h, hs) (k, ks) = ((h, k), both P Q xs hs ks)

  plain : All IsPlain (keep (waits_not ms) mkdirs)
  plain =
      both _ _ _ (All-keep IsMkdir (waits_not ms) mkdirs mkdirs-IsMkdir)
        (All-keep_test (waits_not ms) mkdirs)

  waiting : All IsWaiting (keep (waits_for_reparent ms) mkdirs)
  waiting =
      both _ _ _ (All-keep IsMkdir (waits_for_reparent ms) mkdirs mkdirs-IsMkdir)
        (All-keep_test (waits_for_reparent ms) mkdirs)

  abbrev plains : List Action
  plains = keep (waits_not ms) mkdirs

  abbrev waitings : List Action
  waitings = keep (waits_for_reparent ms) mkdirs

  waiting-IsMkdir : All IsMkdir waitings
  waiting-IsMkdir = All-mono IsWaiting IsMkdir waitings (λ a h. h.0) waiting

  plain-IsMkdir : All IsMkdir plains
  plain-IsMkdir = All-mono IsPlain IsMkdir plains (λ a h. h.0) plain

  tail-Pairs : Pairs MayPrecede (remote_dirs ++ waitings)
  tail-Pairs =
      Pairs-append MayPrecede remote_dirs waitings
        (moves-Pairs remote_dirs (moves_of is_remote_dir_move by_depth_then_path))
        (Pairs-keep MayPrecede (waits_for_reparent ms) mkdirs mkdirs-Pairs)
        (All-cross MayPrecede IsMove IsEarly move_then_early remote_dirs waitings
          (moves_of is_remote_dir_move by_depth_then_path)
          (IsEarly-of_mkdirs waitings waiting-IsMkdir))

  plains-Pairs : Pairs MayPrecede (plains ++ (remote_dirs ++ waitings))
  plains-Pairs =
      Pairs-append MayPrecede plains (remote_dirs ++ waitings)
        (Pairs-keep MayPrecede (waits_not ms) mkdirs mkdirs-Pairs) tail-Pairs
        (All-mono _ _ plains
          (λ x h.
            All-append (MayPrecede x) remote_dirs waitings
              (All-mono _ _ remote_dirs (λ y k. early_then_move x y (ground arith) k)
                (moves_of is_remote_dir_move by_depth_then_path))
              (All-mono _ _ waitings
                (λ y k. mkdir_then_mkdir x y h.0 k.0 (λ e _. waits_then_waits_not ms x y h.1 k.1 e))
                waiting))
          plain)

  dir_stages-IsEarly : All IsEarly (dir_stages ms d)
  unfolding dir_stages
  dir_stages-IsEarly =
      All-append IsEarly local_dirs _
        (IsEarly-of_moves local_dirs (moves_of is_local_dir_move by_depth_then_path))
        (All-append IsEarly plains _ (IsEarly-of_mkdirs plains plain-IsMkdir) (
          All-append IsEarly remote_dirs waitings
            (IsEarly-of_moves remote_dirs (moves_of is_remote_dir_move by_depth_then_path))
            (IsEarly-of_mkdirs waitings waiting-IsMkdir)))

  dir_stages-Pairs : Pairs MayPrecede (dir_stages ms d)
  unfolding dir_stages
  dir_stages-Pairs =
      Pairs-append MayPrecede local_dirs _
        (moves-Pairs local_dirs (moves_of is_local_dir_move by_depth_then_path)) plains-Pairs
        (All-cross MayPrecede IsMove IsEarly move_then_early local_dirs _
          (moves_of is_local_dir_move by_depth_then_path)
          (All-append IsEarly plains _ (IsEarly-of_mkdirs plains plain-IsMkdir) (
            All-append IsEarly remote_dirs waitings
              (IsEarly-of_moves remote_dirs (moves_of is_remote_dir_move by_depth_then_path))
              (IsEarly-of_mkdirs waitings waiting-IsMkdir))))

  abbrev IsLate : Action → Type 0
  IsLate a = (is_transfer a.kind || is_delete a.kind) ≡ true

  abbrev late : List Action
  late = sort_by by_path d.transfers ++ sort_by bottom_up d.deletes

  transfers-All : All (λ a. is_transfer a.kind ≡ true) (sort_by by_path d.transfers)
  transfers-All = All-sort_by _ by_path d.transfers st.2

  deletes-All : All (λ a. is_delete a.kind ≡ true) (sort_by bottom_up d.deletes)
  deletes-All = All-sort_by _ bottom_up d.deletes st.3

  late-IsLate : All IsLate late
  late-IsLate =
      All-append IsLate (sort_by by_path d.transfers) _
        (All-mono _ IsLate (sort_by by_path d.transfers) (λ a h. ground arith) transfers-All)
        (All-mono _ IsLate (sort_by bottom_up d.deletes) (λ a h. ground arith) deletes-All)

  late-Pairs : Pairs MayPrecede late
  late-Pairs =
      Pairs-append MayPrecede (sort_by by_path d.transfers) (sort_by bottom_up d.deletes)
        (Pairs-All MayPrecede (λ a. is_transfer a.kind ≡ true)
          (λ x y h k. transfer_then_late x y h (ground arith)) _ transfers-All)
        (Pairs-mono _ MayPrecede (λ a. is_delete a.kind ≡ true)
          (λ x y h k l. delete_then_delete x y h k l) _ deletes-All
          (Ordered-Pairs bottom_up _ (sort_by-Ordered bottom_up bottom_up-IsOrder d.deletes)))
        (All-cross MayPrecede (λ a. is_transfer a.kind ≡ true) (λ a. is_delete a.kind ≡ true)
          (λ x y h k. transfer_then_late x y h (ground arith)) _ _ transfers-All deletes-All)

  file_moves-IsMove : All IsMove (file_moves d)
  unfolding file_moves
  file_moves-IsMove = moves_of is_file_move move_files_less

  -- The stages of a draft stand in an order that `MayPrecede` allows.
  pub order-Pairs : Pairs MayPrecede (order ms d)
  unfolding order
  order-Pairs =
      Pairs-append MayPrecede (dir_stages ms d) (file_moves d ++ late) dir_stages-Pairs
        (Pairs-append MayPrecede (file_moves d) late (moves-Pairs (file_moves d) file_moves-IsMove)
          late-Pairs
          (All-cross MayPrecede IsEarly IsLate early_then_late (file_moves d) late
            (IsEarly-of_moves (file_moves d) file_moves-IsMove) late-IsLate))
        (All-mono _ _ (dir_stages ms d)
          (λ x h.
            All-append (MayPrecede x) (file_moves d) late
              (All-mono _ _ (file_moves d) (λ y k. early_then_move x y h k) file_moves-IsMove)
              (All-mono _ _ late (λ y k. early_then_late x y h k) late-IsLate))
          dir_stages-IsEarly)

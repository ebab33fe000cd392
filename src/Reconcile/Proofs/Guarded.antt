-- ===== src/Reconcile/Proofs/Guarded.antt =====
-- Whatever names a protector stands after it in the plan.
use synckeeper.Base.{
  ◌≡◌, ◌⊎◌, inl, inr, Bool, true, false, List, [], ◌∷◌, ◌++◌, arith, nat_eq, Bool-cases, keep, All,
  Any, All-append, All-mono, Any-mono, All-keep, sort_by, Ordered, All-sort_by, Any-sort_by,
  IsOrder, sort_by-Ordered, int_eq, Bytes, bytes_eq,
}
use synckeeper.Reconcile.Types.{Action, is_backup}
use synckeeper.Reconcile.DirMoves.{DirMove}
use synckeeper.Reconcile.Draft.{Draft}
use synckeeper.Reconcile.Plan.Order.{
  by_depth_then_path, bottom_up, by_path, move_files_less, is_local_dir_move, is_remote_dir_move,
  is_file_move, waits_for_reparent, waits_not, dir_stages, file_moves, order,
}
use synckeeper.Reconcile.Paths.{path-IsOrder}
use synckeeper.Reconcile.Proofs.Shields.{
  Shields, IsBackupOf, Unguarded, MoveGuard, Guard, IsShielded,
}

-- Each action's protector, if it names one, is among those before it; `seen` is the newest first.
abbrev pub ComesAfterGuard : List Action → List Action → Type 0
ComesAfterGuard seen [] = Unit
ComesAfterGuard seen (a ∷ plan) = Guard seen a × ComesAfterGuard (a ∷ seen) plan

onto : List Action → List Action → List Action
onto [] seen = seen
onto (x ∷ xs) seen = onto xs (x ∷ seen)

Any-onto : (P : Action → Type 0) (xs seen : List Action) → Any P seen → Any P (onto xs seen)
unfolding onto
Any-onto P [] seen h = h
Any-onto P (x ∷ xs) seen h = Any-onto P xs (x ∷ seen) (inr h)

onto-Any : (P : Action → Type 0) (xs seen : List Action) → Any P xs → Any P (onto xs seen)
unfolding onto
onto-Any P [] seen h = absurd h
onto-Any P (x ∷ xs) seen (inl h) = Any-onto P xs (x ∷ seen) (inl h)
onto-Any P (x ∷ xs) seen (inr h) = onto-Any P xs (x ∷ seen) h

ComesAfterGuard-append :
    (seen xs ys : List Action)
    → ComesAfterGuard seen xs
    → ComesAfterGuard (onto xs seen) ys
    → ComesAfterGuard seen (xs ++ ys)
unfolding onto
ComesAfterGuard-append seen [] ys hx hy = hy
ComesAfterGuard-append seen (x ∷ xs) ys (h, hx) hy =
    (h, ComesAfterGuard-append (x ∷ seen) xs ys hx hy)

Guard-weaken : (x : Action) (seen : List Action) (a : Action) → Guard seen a → Guard (x ∷ seen) a
Guard-weaken x seen a (inl u) = inl u
Guard-weaken x seen a (inr h) = inr (inr h)

guarded_by_seen : (seen xs : List Action) → All (Guard seen) xs → ComesAfterGuard seen xs
guarded_by_seen seen [] h = tt
guarded_by_seen seen (x ∷ xs) (h, hs) =
    (h, guarded_by_seen (x ∷ seen) xs (All-mono _ _ xs (Guard-weaken x seen) hs))

unguarded : (seen xs : List Action) → All Unguarded xs → ComesAfterGuard seen xs
unguarded seen xs h = guarded_by_seen seen xs (All-mono Unguarded (Guard seen) xs (λ a u. inl u) h)

IsBackupOf-Shields : (p : Bytes) (m : Action) → IsBackupOf p m → Shields p m
IsBackupOf-Shields p m (k, d, e) = (ground arith, d, e)

-- The backup that a move waits for has gone by, or is still to come.
abbrev Pending : List Action → List Action → Action → Type 0
Pending seen ms m =
    Unguarded m
    ⊎ ((is_backup m.kind ≡ false)
        × (Any (Shields m.protected_by) seen ⊎ Any (IsBackupOf m.protected_by) ms))

-- No backup comes behind a move that is none.
no_later_backup :
    (x : Action) (p : Bytes) (ms : List Action)
    → is_backup x.kind ≡ false
    → All (λ y. move_files_less y x ≡ false) ms
    → ¬ Any (IsBackupOf p) ms
no_later_backup x p [] k h m = m
no_later_backup x p (y ∷ ms) k (h, hs) (inl (b, _, _)) = absurd (ground arith)
no_later_backup x p (y ∷ ms) k (h, hs) (inr m) = no_later_backup x p ms k hs m

pass :
    (x : Action) (seen ms : List Action) (m : Action)
    → Pending seen (x ∷ ms) m
    → Pending (x ∷ seen) ms m
pass x seen ms m (inl u) = inl u
pass x seen ms m (inr (k, inl h)) = inr (k, inl (inr h))
pass x seen ms m (inr (k, inr (inl h))) = inr (k, inl (inl (IsBackupOf-Shields m.protected_by x h)))
pass x seen ms m (inr (k, inr (inr h))) = inr (k, inr h)

backups_first :
    (seen ms : List Action)
    → Ordered move_files_less ms
    → All (Pending seen ms) ms
    → ComesAfterGuard seen ms
backups_first seen [] o h = tt
backups_first seen (x ∷ ms) (ox, o) (h, hs) =
    (first h, backups_first (x ∷ seen) ms o (All-mono _ _ ms (pass x seen ms) hs))
  where
    first : Pending seen (x ∷ ms) x → Guard seen x
    first (inl u) = inl u
    first (inr (k, inl g)) = inr g
    first (inr (k, inr (inl (b, _, _)))) = absurd (ground arith)
    first (inr (k, inr (inr m))) = absurd (no_later_backup x x.protected_by ms k ox m)

move_files-IsOrder : IsOrder move_files_less
move_files-IsOrder = record {
  asymm = λ x y h. ground (arith, path-IsOrder.asymm x.rel_path y.rel_path);
  le_trans = λ x y z h k. ground (arith, path-IsOrder.le_trans x.rel_path y.rel_path z.rel_path);
}

Any-keep :
    (P : Action → Type 0) (p : Action → Bool) (xs : List Action)
    → Any (λ x. P x × (p x ≡ true)) xs
    → Any P (keep p xs)
Any-keep P p [] h = absurd h
Any-keep P p (x ∷ xs) (inl (h, e)) = rw e (inl h)
Any-keep P p (x ∷ xs) (inr h) = elim (Bool-cases (p x)) [
  | inl e ↦ rw e (inr (Any-keep P p xs h))
  | inr e ↦ rw e (Any-keep P p xs h)
]

-- Directory moves wait for nothing.
dir_move_free :
    (moves : List Action) (p : Action → Bool)
    → ((m : Action) → p m ≡ true → m.is_dir ≡ true)
    → All (MoveGuard moves) moves
    → All Unguarded (keep p moves)
dir_move_free moves p dir h = go moves h
  where
    go : (ms : List Action) → All (MoveGuard moves) ms → All Unguarded (keep p ms)
    go [] k = tt
    go (m ∷ ms) (k, ks) = elim (Bool-cases (p m)) [
      | inl e ↦ rw e (free m (dir m e) k, go ms ks)
      | inr e ↦ rw e (go ms ks)
    ]
      where
        free : (m : Action) → m.is_dir ≡ true → MoveGuard moves m → Unguarded m
        free m d (inl u) = u
        free m d (inr (_, f, _)) = absurd (ground arith)

module _ (ms : List DirMove) (d : Draft) (h : IsShielded d) where
  dir_stages-Unguarded : All Unguarded (dir_stages ms d)
  unfolding dir_stages
  dir_stages-Unguarded =
      let mk = All-sort_by Unguarded by_depth_then_path d.mkdirs h.on_mkdirs in
      All-append Unguarded _ _
        (All-sort_by Unguarded by_depth_then_path _
          (dir_move_free d.moves is_local_dir_move (λ m e. ground arith) h.on_moves))
        (All-append Unguarded _ _ (All-keep Unguarded (waits_not ms) _ mk) (
          All-append Unguarded _ _
            (All-sort_by Unguarded by_depth_then_path _
              (dir_move_free d.moves is_remote_dir_move (λ m e. ground arith) h.on_moves))
            (All-keep Unguarded (waits_for_reparent ms) _ mk)))

  -- A file-level move of the draft is in the file stage.
  in_file_moves :
      (P : Action → Type 0)
      → ((m : Action) → P m → m.is_dir ≡ false)
      → Any P d.moves
      → Any P (file_moves d)
  unfolding file_moves
  in_file_moves P f a =
      Any-sort_by P move_files_less _ (
        Any-keep P is_file_move d.moves
          (Any-mono P _ d.moves (λ m p. (p, ground (arith, f m p))) a))

  file_moves-Pending : (seen : List Action) → All (Pending seen (file_moves d)) (file_moves d)
  file_moves-Pending seen = sorted
    where
      pending : (m : Action) → MoveGuard d.moves m → Pending seen (file_moves d) m
      pending m (inl u) = inl u
      pending m (inr (k, f, a)) =
          inr (k, inr (in_file_moves (IsBackupOf m.protected_by) (λ x b. b.1) a))

      kept : All (Pending seen (file_moves d)) (keep is_file_move d.moves)
      kept =
          All-mono _ _ (keep is_file_move d.moves) pending
            (All-keep (MoveGuard d.moves) is_file_move d.moves h.on_moves)

      sorted : All (Pending seen (file_moves d)) (file_moves d)
      sorted = unfold file_moves in All-sort_by _ move_files_less _ kept

  file_moves-Ordered : Ordered move_files_less (file_moves d)
  unfolding file_moves
  file_moves-Ordered =
      sort_by-Ordered move_files_less move_files-IsOrder (keep is_file_move d.moves)

  pub order-ComesAfterGuard : ComesAfterGuard [] (order ms d)
  unfolding order
  order-ComesAfterGuard =
      let dirs = onto (dir_stages ms d) [] in
      let seen = onto (file_moves d) dirs in
      ComesAfterGuard-append [] (dir_stages ms d) _
        (unguarded [] (dir_stages ms d) dir_stages-Unguarded)
        (ComesAfterGuard-append dirs (file_moves d) _
          (backups_first dirs (file_moves d) file_moves-Ordered (file_moves-Pending dirs))
          (ComesAfterGuard-append seen (sort_by by_path d.transfers) _
            (guarded_by_seen seen _ (
              All-mono _ _ (sort_by by_path d.transfers) (shielded dirs)
                (All-sort_by (Guard d.moves) by_path d.transfers h.on_transfers)))
            (unguarded _ _ (All-sort_by Unguarded bottom_up d.deletes h.on_deletes))))
    where
      shielded :
          (dirs : List Action) (a : Action) → Guard d.moves a → Guard (onto (file_moves d) dirs) a
      shielded dirs a (inl u) = inl u
      shielded dirs a (inr m) =
          inr
            (onto-Any _ (file_moves d) dirs (in_file_moves (Shields a.protected_by) (λ x b. b.1) m))

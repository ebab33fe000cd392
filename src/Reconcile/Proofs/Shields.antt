-- ===== src/Reconcile/Proofs/Shields.antt =====
-- The protector that an action names is planned: the draft's invariant, round by round.
use synckeeper.Base.{
  ◌≡◌, refl, ◌⊎◌, inl, inr, Bool, true, false, not, ◌&&◌, Option, none, some, List, [], ◌∷◌, ◌++◌,
  arith, if◌then◌else◌, nat_eq, Bool-cases, All, Any, All-append, All-mono, Any-append_left,
  Any-append_right, int_eq, Bytes, bytes_eq,
}
use synckeeper.Reconcile.Types.{
  BaseItem, LocalItem, RemoteItem, Action, is_move, is_backup, Reason, file_became_directory,
}
use synckeeper.Reconcile.Index.{RemoteRef, new_remote_at}
use synckeeper.Reconcile.DirMoves.{DirMove}
use synckeeper.Reconcile.Draft.{Draft, nothing, merge, Scene, rewrite, rewrite_ld, skipped}
use synckeeper.Reconcile.Plan.Files.{
  local_gone, remote_gone, follow, settle, relocate, has_moved, is_true_conflict, both_alive,
  decide, file_row,
}
use synckeeper.Reconcile.Plan.News.{new_dir, meet_exact, meet_fold, meet}
use synckeeper.Reconcile.Plan.Remotes.{remote_row}
use synckeeper.Reconcile.Plan.Dirs.{dir_row}
use synckeeper.Reconcile.Plan.{follow_dirs, reparents, after_dirs, made_by}
use synckeeper.Reconcile.Proofs.Sources.{file_row_cases}
use synckeeper.Reconcile.Proofs.Passes.{HoldsOnRounds, after_dirs-I}

-- A file-level move or backup that acts on the path.
abbrev pub Shields : Bytes → Action → Type 0
Shields p m = (is_move m.kind ≡ true) × (m.is_dir ≡ false) × (m.rel_path ≡ p)

abbrev pub IsBackupOf : Bytes → Action → Type 0
IsBackupOf p m = (is_backup m.kind ≡ true) × (m.is_dir ≡ false) × (m.rel_path ≡ p)

abbrev pub Unguarded : Action → Type 0
Unguarded a = a.protected_by ≡ []

-- A move waits for nothing, or it is no backup, of a file, and a backup of its path is planned.
abbrev pub MoveGuard : List Action → Action → Type 0
MoveGuard moves m =
    Unguarded m
    ⊎ ((is_backup m.kind ≡ false) × (m.is_dir ≡ false) × Any (IsBackupOf m.protected_by) moves)

abbrev pub Guard : List Action → Action → Type 0
Guard moves a = Unguarded a ⊎ Any (Shields a.protected_by) moves

pub record IsShielded (d : Draft) : Type 0 where
  pub on_mkdirs : All Unguarded d.mkdirs
  pub on_moves : All (MoveGuard d.moves) d.moves
  pub on_transfers : All (Guard d.moves) d.transfers
  pub on_deletes : All Unguarded d.deletes

MoveGuard-left : (xs ys : List Action) (m : Action) → MoveGuard xs m → MoveGuard (xs ++ ys) m
MoveGuard-left xs ys m (inl u) = inl u
MoveGuard-left xs ys m (inr (k, f, h)) = inr (k, f, Any-append_left _ xs ys h)

MoveGuard-right : (xs ys : List Action) (m : Action) → MoveGuard ys m → MoveGuard (xs ++ ys) m
MoveGuard-right xs ys m (inl u) = inl u
MoveGuard-right xs ys m (inr (k, f, h)) = inr (k, f, Any-append_right _ xs ys h)

Guard-left : (xs ys : List Action) (a : Action) → Guard xs a → Guard (xs ++ ys) a
Guard-left xs ys a (inl u) = inl u
Guard-left xs ys a (inr h) = inr (Any-append_left _ xs ys h)

Guard-right : (xs ys : List Action) (a : Action) → Guard ys a → Guard (xs ++ ys) a
Guard-right xs ys a (inl u) = inl u
Guard-right xs ys a (inr h) = inr (Any-append_right _ xs ys h)

pub merge-IsShielded : (d e : Draft) → IsShielded d → IsShielded e → IsShielded (merge d e)
merge-IsShielded d e x y = record {
  on_mkdirs = All-append _ d.mkdirs e.mkdirs x.on_mkdirs y.on_mkdirs;
  on_moves =
      All-append _ d.moves e.moves
        (All-mono _ _ d.moves (MoveGuard-left d.moves e.moves) x.on_moves)
        (All-mono _ _ e.moves (MoveGuard-right d.moves e.moves) y.on_moves);
  on_transfers =
      All-append _ d.transfers e.transfers
        (All-mono _ _ d.transfers (Guard-left d.moves e.moves) x.on_transfers)
        (All-mono _ _ e.transfers (Guard-right d.moves e.moves) y.on_transfers);
  on_deletes = All-append _ d.deletes e.deletes x.on_deletes y.on_deletes;
}

nothing-IsShielded : IsShielded nothing
nothing-IsShielded = record { on_mkdirs = tt; on_moves = tt; on_transfers = tt; on_deletes = tt }

skip_or_IsShielded :
    (b : Bool) (p : Bytes) (k : Reason) (d : Draft)
    → IsShielded d
    → IsShielded (if b then skipped p k else d)
skip_or_IsShielded true p k d h = record {
  on_mkdirs = tt;
  on_moves = tt;
  on_transfers = tt;
  on_deletes = tt;
}
skip_or_IsShielded false p k d h = h

module _ (s : Scene) where
  local_gone-IsShielded :
      (p : Bytes) (b : BaseItem) (ra : RemoteRef) → IsShielded (local_gone s p b ra)
  unfolding local_gone
  local_gone-IsShielded p b ra = ground arith

  remote_gone-IsShielded :
      (at : Bytes) (b : BaseItem) (loc : LocalItem) (fresh : Option RemoteItem)
      → IsShielded (remote_gone s at b loc fresh)
  unfolding remote_gone
  remote_gone-IsShielded at b loc none = ground arith
  remote_gone-IsShielded at b loc (some r) = ground arith

  follow-IsShielded : (expected now : Bytes) (b : BaseItem) → IsShielded (follow s expected now b)
  unfolding follow
  follow-IsShielded expected now b = ground arith

  follow-Shields :
      (expected now : Bytes) (b : BaseItem) → Any (Shields expected) (follow s expected now b).moves
  unfolding follow
  follow-Shields expected now b = ground arith

  -- What settling a row waits for: its own backup, or the move of the row.
  settle-transfers :
      (expected now : Bytes) (moved : Bool) (b : BaseItem) (loc : LocalItem) (ra : RemoteRef)
      → All
          (λ a.
            Guard (settle s expected now moved b loc ra).moves a
            ⊎ ((moved ≡ true) × (is_true_conflict b loc ra ≡ false) × (a.protected_by ≡ expected)))
          (settle s expected now moved b loc ra).transfers
  unfolding settle
  settle-transfers expected now false b loc ra = ground arith
  settle-transfers expected now true b loc ra = ground arith

  settle_rest :
      (expected now : Bytes) (moved : Bool) (b : BaseItem) (loc : LocalItem) (ra : RemoteRef)
      → (All Unguarded (settle s expected now moved b loc ra).mkdirs)
        × (All Unguarded (settle s expected now moved b loc ra).moves)
        × (All Unguarded (settle s expected now moved b loc ra).deletes)
  unfolding settle
  settle_rest expected now moved b loc ra = ground arith

  relocate-IsShielded :
      (p : Bytes) (b : BaseItem) (loc : LocalItem) (ra : RemoteRef)
      → IsShielded (relocate s p b loc ra)
  unfolding relocate
  relocate-IsShielded p b loc ra =
      elim (Bool-cases (has_moved s p ra && not (is_true_conflict b loc ra))) [
        | inl e ↦ rw e (follow-IsShielded (rewrite s p) (rewrite_ld s ra.path) b)
        | inr e ↦ rw e nothing-IsShielded
      ]

  relocate-Shields :
      (p : Bytes) (b : BaseItem) (loc : LocalItem) (ra : RemoteRef)
      → has_moved s p ra ≡ true
      → is_true_conflict b loc ra ≡ false
      → Any (Shields (rewrite s p)) (relocate s p b loc ra).moves
  unfolding relocate
  relocate-Shields p b loc ra m c =
      rw (m, c) (follow-Shields (rewrite s p) (rewrite_ld s ra.path) b)

  both_alive-IsShielded :
      (p : Bytes) (b : BaseItem) (loc : LocalItem) (ra : RemoteRef)
      → IsShielded (both_alive s p b loc ra)
  unfolding both_alive
  both_alive-IsShielded p b loc ra =
      let r = relocate s p b loc ra in
      let e = settle s (rewrite s p) (rewrite_ld s ra.path) (has_moved s p ra) b loc ra in
      let (um, uv, ud) =
        settle_rest (rewrite s p) (rewrite_ld s ra.path) (has_moved s p ra) b loc ra in
      let k = relocate-IsShielded p b loc ra in
      record {
        on_mkdirs = All-append Unguarded r.mkdirs e.mkdirs k.on_mkdirs um;
        on_moves =
            All-append _ r.moves e.moves
              (All-mono _ _ r.moves (MoveGuard-left r.moves e.moves) k.on_moves)
              (All-mono Unguarded _ e.moves (λ a u. inl u) uv);
        on_transfers =
            All-append _ r.transfers e.transfers
              (All-mono _ _ r.transfers (Guard-left r.moves e.moves) k.on_transfers)
              (All-mono _ _ e.transfers (shielded e.moves) (
                settle-transfers (rewrite s p) (rewrite_ld s ra.path) (has_moved s p ra) b loc ra));
        on_deletes = All-append Unguarded r.deletes e.deletes k.on_deletes ud;
      }
    where
      shielded :
          (ys : List Action) (a : Action)
          → Guard ys a
            ⊎ ((has_moved s p ra ≡ true)
                × (is_true_conflict b loc ra ≡ false)
                × (a.protected_by ≡ rewrite s p))
          → Guard ((relocate s p b loc ra).moves ++ ys) a
      shielded ys a (inl g) = Guard-right (relocate s p b loc ra).moves ys a g
      shielded ys a (inr (m, c, q)) = inr (
          rw q
            (Any-append_left _ (relocate s p b loc ra).moves ys (relocate-Shields p b loc ra m c)))

  decide-IsShielded :
      (p : Bytes) (b : BaseItem) (l : Option LocalItem) (r : Option RemoteRef)
      → IsShielded (decide s p b l r)
  unfolding decide
  decide-IsShielded p b none none = record {
    on_mkdirs = tt;
    on_moves = tt;
    on_transfers = tt;
    on_deletes = (refl, tt);
  }
  decide-IsShielded p b none (some ra) = local_gone-IsShielded p b ra
  decide-IsShielded p b (some loc) none =
      skip_or_IsShielded loc.is_dir p file_became_directory _
        (remote_gone-IsShielded (rewrite_ld s p) b loc (new_remote_at s.input (rewrite_ld s p)))
  decide-IsShielded p b (some loc) (some ra) =
      skip_or_IsShielded loc.is_dir p file_became_directory _ (both_alive-IsShielded p b loc ra)

  file_row-IsShielded : (p : Bytes) (b : BaseItem) → IsShielded (file_row s p b)
  file_row-IsShielded p b = elim (file_row_cases s p b) [
    | inl e ↦ rw e nothing-IsShielded
    | inr (inl e) ↦
        rw e (record { on_mkdirs = tt; on_moves = tt; on_transfers = tt; on_deletes = tt })
    | inr (inr (inl e)) ↦
        rw e (record { on_mkdirs = tt; on_moves = tt; on_transfers = tt; on_deletes = tt })
    | inr (inr (inr (d, v, e))) ↦ rw e (decide-IsShielded p b _ _)
  ]

  new_dir-IsShielded : (target : Bytes) → IsShielded (new_dir s target)
  unfolding new_dir
  new_dir-IsShielded target = ground arith

  meet_exact-IsShielded :
      (target : Bytes) (loc : LocalItem) (r : RemoteItem) → IsShielded (meet_exact s target loc r)
  unfolding meet_exact
  meet_exact-IsShielded target loc r = ground arith

  meet_fold-IsShielded :
      (target : Bytes) (loc : LocalItem) (ref : RemoteRef) → IsShielded (meet_fold s target loc ref)
  unfolding meet_fold
  meet_fold-IsShielded target loc ref = ground arith

  meet-IsShielded :
      (target : Bytes) (loc : LocalItem) (e : Draft) → meet s target loc ≡ some e → IsShielded e
  unfolding meet
  meet-IsShielded target loc e h =
      ground (arith, meet_exact-IsShielded target loc, meet_fold-IsShielded target loc)

  remote_row-IsShielded :
      (claimed gone : List Bytes) (p : Bytes) (r : RemoteItem)
      → IsShielded (remote_row s claimed gone p r)
  unfolding remote_row
  remote_row-IsShielded claimed gone p r = ground arith

  dir_row-IsShielded :
      (made : List Bytes) (p : Bytes) (b : BaseItem) → IsShielded (dir_row s made p b)
  unfolding dir_row
  dir_row-IsShielded made p b = ground arith

  follow_dirs-Unguarded : (ms : List DirMove) → All Unguarded (follow_dirs s ms)
  unfolding follow_dirs
  follow_dirs-Unguarded [] = tt
  follow_dirs-Unguarded (m ∷ ms) = ground (arith, follow_dirs-Unguarded ms)

  reparents-Unguarded : (ms : List DirMove) → All Unguarded (reparents s ms)
  unfolding reparents
  reparents-Unguarded [] = tt
  reparents-Unguarded (m ∷ ms) = (refl, reparents-Unguarded ms)

  rounds-IsShielded : HoldsOnRounds s IsShielded
  rounds-IsShielded = record {
    none_yet = nothing-IsShielded;
    merged = merge-IsShielded;
    dirs_moved = record {
      on_mkdirs = tt;
      on_moves =
          All-mono Unguarded _ (follow_dirs s s.remote_moves ++ reparents s s.local_moves)
            (λ a u. inl u)
            (All-append Unguarded (follow_dirs s s.remote_moves) (reparents s s.local_moves)
              (follow_dirs-Unguarded s.remote_moves) (reparents-Unguarded s.local_moves));
      on_transfers = tt;
      on_deletes = tt;
    };
    on_file = λ p b m. file_row-IsShielded p b;
    on_folder = new_dir-IsShielded;
    on_meeting = meet-IsShielded;
    on_upload = λ target. record {
      on_mkdirs = tt;
      on_moves = tt;
      on_transfers = (inl refl, tt);
      on_deletes = tt;
    };
    on_pair = λ src target loc m. record {
      on_mkdirs = tt;
      on_moves = (inl refl, tt);
      on_transfers = tt;
      on_deletes = tt;
    };
    on_trash = λ src m. record {
      on_mkdirs = tt;
      on_moves = tt;
      on_transfers = tt;
      on_deletes = (refl, tt);
    };
    on_remote = remote_row-IsShielded;
    on_dir = λ p b m. dir_row-IsShielded (made_by s) p b;
  }

  pub after_dirs-IsShielded : IsShielded (after_dirs s)
  after_dirs-IsShielded = after_dirs-I s IsShielded rounds-IsShielded

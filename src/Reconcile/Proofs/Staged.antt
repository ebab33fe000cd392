-- ===== src/Reconcile/Proofs/Staged.antt =====
-- Each list of the draft holds the actions of its stage, through all four passes.
use synckeeper.Base.{
  ◌≡◌, refl, inl, inr, Bool, true, false, Option, none, some, List, [], ◌∷◌, arith, if◌then◌else◌,
  nat_eq, All, All-mono, All-append, int_eq, Bytes, bytes_eq,
}
use synckeeper.Reconcile.Types.{
  Action, BaseItem, LocalItem, RemoteItem, is_mkdir, is_move, is_transfer, is_delete, Reason,
  file_became_directory,
}
use synckeeper.Reconcile.Index.{RemoteRef, new_remote_at}
use synckeeper.Reconcile.Draft.{Draft, merge, Scene, rewrite, rewrite_ld, skipped}
use synckeeper.Reconcile.Plan.Files.{
  local_gone, remote_gone, follow, settle, relocate, has_moved, both_alive, decide, file_row,
}
use synckeeper.Reconcile.Plan.News.{new_dir, meet_exact, meet_fold, meet}
use synckeeper.Reconcile.DirMoves.{DirMove}
use synckeeper.Reconcile.Plan.Remotes.{remote_row}
use synckeeper.Reconcile.Plan.Dirs.{dir_row}
use synckeeper.Reconcile.Plan.{follow_dirs, reparents, after_dirs, made_by}
use synckeeper.Reconcile.Proofs.Sources.{file_row_cases}
use synckeeper.Reconcile.Proofs.Passes.{HoldsOnRounds, after_dirs-I}

abbrev pub Staged : Draft → Type 0
Staged d =
    All (λ a. is_mkdir a.kind ≡ true) d.mkdirs
    × All (λ a. is_move a.kind ≡ true) d.moves
    × All (λ a. is_transfer a.kind ≡ true) d.transfers
    × All (λ a. is_delete a.kind ≡ true) d.deletes

-- No action has a subtree yet, nor counts a file of one.
abbrev pub IsBare : Action → Type 0
IsBare a = (a.subtree ≡ []) × (a.subtree_files ≡ 0)

-- The stages of bare actions.
abbrev Drafted : Draft → Type 0
Drafted d =
    All (λ a. (is_mkdir a.kind ≡ true) × IsBare a) d.mkdirs
    × All (λ a. (is_move a.kind ≡ true) × IsBare a) d.moves
    × All (λ a. (is_transfer a.kind ≡ true) × IsBare a) d.transfers
    × All (λ a. (is_delete a.kind ≡ true) × IsBare a) d.deletes

merge-Drafted : (d e : Draft) → Drafted d → Drafted e → Drafted (merge d e)
merge-Drafted d e (a, b, c, f) (a', b', c', f') = (
  All-append _ d.mkdirs e.mkdirs a a',
  All-append _ d.moves e.moves b b',
  All-append _ d.transfers e.transfers c c',
  All-append _ d.deletes e.deletes f f',
)

skip_or_Drafted :
    (b : Bool) (p : Bytes) (k : Reason) (d : Draft)
    → Drafted d
    → Drafted (if b then skipped p k else d)
skip_or_Drafted true p k d h = (tt, tt, tt, tt)
skip_or_Drafted false p k d h = h

module _ (s : Scene) where
  follow_dirs-moves :
      (ms : List DirMove) → All (λ a. (is_move a.kind ≡ true) × IsBare a) (follow_dirs s ms)
  unfolding follow_dirs
  follow_dirs-moves [] = tt
  follow_dirs-moves (m ∷ ms) = ground (arith, follow_dirs-moves ms)

  reparents-moves :
      (ms : List DirMove) → All (λ a. (is_move a.kind ≡ true) × IsBare a) (reparents s ms)
  unfolding reparents
  reparents-moves [] = tt
  reparents-moves (m ∷ ms) = ((refl, (refl, refl)), reparents-moves ms)

  local_gone-Drafted : (p : Bytes) (b : BaseItem) (ra : RemoteRef) → Drafted (local_gone s p b ra)
  unfolding local_gone
  local_gone-Drafted p b ra = ground arith

  remote_gone-Drafted :
      (at : Bytes) (b : BaseItem) (loc : LocalItem) (fresh : Option RemoteItem)
      → Drafted (remote_gone s at b loc fresh)
  unfolding remote_gone
  remote_gone-Drafted at b loc none = ground arith
  remote_gone-Drafted at b loc (some r) = ground arith

  follow-Drafted : (expected now : Bytes) (b : BaseItem) → Drafted (follow s expected now b)
  unfolding follow
  follow-Drafted expected now b = ground arith

  settle-Drafted :
      (expected now : Bytes) (moved : Bool) (b : BaseItem) (loc : LocalItem) (ra : RemoteRef)
      → Drafted (settle s expected now moved b loc ra)
  unfolding settle
  settle-Drafted expected now moved b loc ra = ground arith

  relocate-Drafted :
      (p : Bytes) (b : BaseItem) (loc : LocalItem) (ra : RemoteRef)
      → Drafted (relocate s p b loc ra)
  unfolding relocate
  relocate-Drafted p b loc ra =
      ground (arith, follow-Drafted (rewrite s p) (rewrite_ld s ra.path) b)

  both_alive-Drafted :
      (p : Bytes) (b : BaseItem) (loc : LocalItem) (ra : RemoteRef)
      → Drafted (both_alive s p b loc ra)
  unfolding both_alive
  both_alive-Drafted p b loc ra =
      merge-Drafted (relocate s p b loc ra)
        (settle s (rewrite s p) (rewrite_ld s ra.path) (has_moved s p ra) b loc ra)
        (relocate-Drafted p b loc ra)
        (settle-Drafted (rewrite s p) (rewrite_ld s ra.path) (has_moved s p ra) b loc ra)

  decide-Drafted :
      (p : Bytes) (b : BaseItem) (l : Option LocalItem) (r : Option RemoteRef)
      → Drafted (decide s p b l r)
  unfolding decide
  decide-Drafted p b none none = (tt, tt, tt, ((refl, (refl, refl)), tt))
  decide-Drafted p b none (some ra) = local_gone-Drafted p b ra
  decide-Drafted p b (some loc) none =
      skip_or_Drafted loc.is_dir p file_became_directory _
        (remote_gone-Drafted (rewrite_ld s p) b loc (new_remote_at s.input (rewrite_ld s p)))
  decide-Drafted p b (some loc) (some ra) =
      skip_or_Drafted loc.is_dir p file_became_directory _ (both_alive-Drafted p b loc ra)

  file_row-Drafted : (p : Bytes) (b : BaseItem) → Drafted (file_row s p b)
  file_row-Drafted p b = elim (file_row_cases s p b) [
    | inl e ↦ rw e (tt, tt, tt, tt)
    | inr (inl e) ↦ rw e (tt, tt, tt, tt)
    | inr (inr (inl e)) ↦ rw e (tt, tt, tt, tt)
    | inr (inr (inr (d, v, e))) ↦ rw e (decide-Drafted p b _ _)
  ]

  new_dir-Drafted : (target : Bytes) → Drafted (new_dir s target)
  unfolding new_dir
  new_dir-Drafted target = ground arith

  meet_exact-Drafted :
      (target : Bytes) (loc : LocalItem) (r : RemoteItem) → Drafted (meet_exact s target loc r)
  unfolding meet_exact
  meet_exact-Drafted target loc r = ground arith

  meet_fold-Drafted :
      (target : Bytes) (loc : LocalItem) (ref : RemoteRef) → Drafted (meet_fold s target loc ref)
  unfolding meet_fold
  meet_fold-Drafted target loc ref = ground arith

  meet-Drafted :
      (target : Bytes) (loc : LocalItem) (e : Draft) → meet s target loc ≡ some e → Drafted e
  unfolding meet
  meet-Drafted target loc e h =
      ground (arith, meet_exact-Drafted target loc, meet_fold-Drafted target loc)

  remote_row-Drafted :
      (claimed gone : List Bytes) (p : Bytes) (r : RemoteItem)
      → Drafted (remote_row s claimed gone p r)
  unfolding remote_row
  remote_row-Drafted claimed gone p r = ground arith

  dir_row-Drafted : (made : List Bytes) (p : Bytes) (b : BaseItem) → Drafted (dir_row s made p b)
  unfolding dir_row
  dir_row-Drafted made p b = ground arith

  rounds-Drafted : HoldsOnRounds s Drafted
  rounds-Drafted = record {
    none_yet = (tt, tt, tt, tt);
    merged = merge-Drafted;
    dirs_moved = (
      tt,
      All-append _ (follow_dirs s s.remote_moves) (reparents s s.local_moves)
          (follow_dirs-moves s.remote_moves) (reparents-moves s.local_moves),
      tt,
      tt,
    );
    on_file = λ p b m. file_row-Drafted p b;
    on_folder = new_dir-Drafted;
    on_meeting = meet-Drafted;
    on_upload = λ target. (tt, tt, ((refl, (refl, refl)), tt), tt);
    on_pair = λ src target loc m. (tt, ((refl, (refl, refl)), tt), tt, tt);
    on_trash = λ src m. (tt, tt, tt, ((refl, (refl, refl)), tt));
    on_remote = remote_row-Drafted;
    on_dir = λ p b m. dir_row-Drafted (made_by s) p b;
  }

  after_dirs-Drafted : Drafted (after_dirs s)
  after_dirs-Drafted = after_dirs-I s Drafted rounds-Drafted

  pub after_dirs-Staged : Staged (after_dirs s)
  after_dirs-Staged =
      let (m, v, t, k) = after_dirs-Drafted in
      let d = after_dirs s in
      (
        All-mono _ _ d.mkdirs (λ a h. h.0) m,
        All-mono _ _ d.moves (λ a h. h.0) v,
        All-mono _ _ d.transfers (λ a h. h.0) t,
        All-mono _ _ d.deletes (λ a h. h.0) k,
      )

  pub after_dirs-IsBare :
      let d = after_dirs s in
      All IsBare d.mkdirs × All IsBare d.moves × All IsBare d.transfers × All IsBare d.deletes
  after_dirs-IsBare =
      let (m, v, t, k) = after_dirs-Drafted in
      let d = after_dirs s in
      (
        All-mono _ _ d.mkdirs (λ a h. h.1) m,
        All-mono _ _ d.moves (λ a h. h.1) v,
        All-mono _ _ d.transfers (λ a h. h.1) t,
        All-mono _ _ d.deletes (λ a h. h.1) k,
      )

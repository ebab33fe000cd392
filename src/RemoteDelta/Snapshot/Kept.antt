-- ===== src/RemoteDelta/Snapshot/Kept.antt =====
-- internal/remotedelta/remotedelta.go: the round of one folder loses none of its rows.
use synckeeper.Base.{
  true, false, Option, some, List, [], ◌∷◌, ◌++◌, Bytes, bytes_eq, ◌==◌, ◌≡◌, ◌≢◌, ==_refl,
  Any-append_right, if◌then◌else◌, refl, sym, subst, ap, ◌∙◌, ◌⊎◌, inl, inr, arith, In,
  Any-append_left, Bool-cases,
}
use synckeeper.Base.Dict
use synckeeper.Base.Dict.{lookup-insert, In-contains}
use synckeeper.Names.{ignored, join}
use synckeeper.Store.Types.{RemoteNode}
use synckeeper.RemoteDelta.Snapshot.{
  Setting, Gathered, Siblings, Skipped, SkipReason, Verdict, pass, report, admit, is_folder,
  remote_item, judge, judge_fold, settle_row, admit_folder, gather_each,
}

-- The row itself is in the snapshot at its path, or the path is reported with the row's own id or with none,
-- or its name is one to ignore.
abbrev pub IsKept : Setting → Gathered → Bytes → RemoteNode → Type 0
IsKept c g path n =
    (Dict.lookup (join path n.name) g.snapshot ≡ some (remote_item n))
    ⊎ ((s : Skipped) × In s g.skips
        × (s.rel_path ≡ join path n.name)
        × ((s.file_id ≡ n.file_id) ⊎ (s.file_id ≡ [])))
    ⊎ (ignored c.matches c.ignore n.name ≡ true)

join-differs : (path a b : Bytes) → a ≢ b → join path a ≢ join path b
unfolding join
join-differs path a b n e = elim (Bool-cases (path == [])) [
  | inl q ↦ n (ground (arith, e))
  | inr q ↦ n (drop_path path (ground (arith, e)))
]
  where
    drop_path : (p : Bytes) → p ++ b'/' ∷ a ≡ p ++ b'/' ∷ b → a ≡ b
    drop_path [] q = cc
    drop_path (x ∷ p) q = drop_path p (cc)

admit_folder_same :
    (n : RemoteNode) (rel : Bytes) (g : Gathered)
    → ((admit_folder n rel g).snapshot ≡ g.snapshot) × ((admit_folder n rel g).skips ≡ g.skips)
unfolding admit_folder
admit_folder_same n rel g = elim (Bool-cases (is_folder n)) [
  | inr b ↦ rw b (refl, refl)
  | inl b ↦ elim (Bool-cases (Dict.contains n.file_id g.visited)) [
    | inl d ↦ rw (b, d) (refl, refl)
    | inr d ↦ rw (b, d) (refl, refl)
  ]
]

-- A row is admitted only under a name that no sibling before it took.
judge-admit :
    (c : Setting) (sib : Siblings) (n : RemoteNode) (key : Option Bytes)
    → judge c sib n ≡ admit key
    → Dict.contains n.name sib.seen ≡ false
unfolding judge
judge-admit c sib n key h = elim (Bool-cases (Dict.contains n.name sib.seen)) [
  | inr b ↦ b
  | inl b ↦ absurd (ground (arith, h, b))
]

judge-report :
    (c : Setting) (sib : Siblings) (n : RemoteNode) (reason : SkipReason) (id : Bytes)
    → judge c sib n ≡ report reason id
    → (id ≡ n.file_id) ⊎ (id ≡ [])
unfolding judge judge_fold
judge-report c sib n reason id h = ground (arith, h)

judge-pass :
    (c : Setting) (sib : Siblings) (n : RemoteNode)
    → judge c sib n ≡ pass
    → ignored c.matches c.ignore n.name ≡ true
unfolding judge judge_fold
judge-pass c sib n e = ground arith

module _ (c : Setting) (path : Bytes) where
  insert_here :
      (n : RemoteNode) (g : Gathered)
      → let h =
          admit_folder n
            (join path n.name)
            (record g { snapshot = Dict.insert (join path n.name) (remote_item n) g.snapshot }) in
        (p : Bytes)
        → Dict.lookup p h.snapshot
          ≡ (if p == join path n.name then some (remote_item n) else Dict.lookup p g.snapshot)
  insert_here n g p =
      ap (λ d. Dict.lookup p d) (admit_folder_same n (join path n.name) _).0
      ∙ lookup-insert p (join path n.name) (remote_item n) g.snapshot

  -- An entry under a name that was taken stays.
  settle_row-entry :
      (v : Verdict) (k x : RemoteNode) (sib : Siblings) (g : Gathered)
      → ((key : Option Bytes) → v ≡ admit key → Dict.contains k.name sib.seen ≡ false)
      → Dict.contains x.name sib.seen ≡ true
      → let (sib', g') = settle_row v (join path k.name) k sib g in
        (Dict.contains x.name sib'.seen ≡ true)
        × (Dict.lookup (join path x.name) g'.snapshot ≡ Dict.lookup (join path x.name) g.snapshot)
  unfolding settle_row
  settle_row-entry pass k x sib g h m = (m, refl)
  settle_row-entry (report reason id) k x sib g h m = (m, refl)
  settle_row-entry (admit key) k x sib g h m =
      let new = h key refl in
      let other : x.name ≢ k.name = λ e. ground (arith, new, m, e) in
      let apart : (join path x.name == join path k.name) ≡ false =
        elim (Bool-cases (join path x.name == join path k.name)) [
          | inr b ↦ b
          | inl b ↦ absurd (join-differs path x.name k.name other (ground arith))
        ] in
      (ground (arith, m), insert_here k g (join path x.name) ∙ rw apart refl)

  gather_each-entry :
      (kids : List RemoteNode) (x : RemoteNode) (sib : Siblings) (g : Gathered)
      → Dict.contains x.name sib.seen ≡ true
      → Dict.lookup (join path x.name) (gather_each c path kids sib g).snapshot
        ≡ Dict.lookup (join path x.name) g.snapshot
  unfolding gather_each
  gather_each-entry [] x sib g m = refl
  gather_each-entry (k ∷ kids) x sib g m =
      let r = settle_row (judge c sib k) (join path k.name) k sib g in
      let (m', e) = settle_row-entry (judge c sib k) k x sib g (judge-admit c sib k) m in
      gather_each-entry kids x r.0 r.1 m' ∙ e

  settle_row-skips :
      (v : Verdict) (k : RemoteNode) (sib : Siblings) (g : Gathered) (s : Skipped)
      → In s g.skips
      → In s (settle_row v (join path k.name) k sib g).1.skips
  unfolding settle_row
  settle_row-skips pass k sib g s i = i
  settle_row-skips (report reason id) k sib g s i = Any-append_left _ g.skips _ i
  settle_row-skips (admit key) k sib g s i =
      subst (λ ss. In s ss) (sym (admit_folder_same k (join path k.name) _).1) i

  gather_each-skips :
      (kids : List RemoteNode) (sib : Siblings) (g : Gathered) (s : Skipped)
      → In s g.skips
      → In s (gather_each c path kids sib g).skips
  unfolding gather_each
  gather_each-skips [] sib g s i = i
  gather_each-skips (k ∷ kids) sib g s i =
      let r = settle_row (judge c sib k) (join path k.name) k sib g in
      gather_each-skips kids r.0 r.1 s (settle_row-skips (judge c sib k) k sib g s i)

  -- The first row, by its verdict.
  first-IsKept :
      (k : RemoteNode) (kids : List RemoteNode) (sib : Siblings) (g : Gathered) (v : Verdict)
      → judge c sib k ≡ v
      → let r = settle_row v (join path k.name) k sib g in
        IsKept c (gather_each c path kids r.0 r.1) path k
  unfolding settle_row
  first-IsKept k kids sib g pass q = inr (inr (judge-pass c sib k q))
  first-IsKept k kids sib g (report reason id) q =
      let s : Skipped = record { rel_path = join path k.name; reason = reason; file_id = id } in
      inr (
        inl (
          s,
          gather_each-skips kids sib (record g { skips = g.skips ++ s ∷ [] }) s
              (Any-append_right _ g.skips _ (inl refl)),
          refl,
          judge-report c sib k reason id q,
        ))
  first-IsKept k kids sib g (admit key) q =
      let r = settle_row (admit key) (join path k.name) k sib g in
      inl (
        gather_each-entry kids k r.0 r.1 (ground arith)
        ∙ (insert_here k g (join path k.name) ∙ rw (==_refl (join path k.name)) refl))

  pub gather_each-IsKept :
      (kids : List RemoteNode) (sib : Siblings) (g : Gathered) (n : RemoteNode)
      → In n kids
      → IsKept c (gather_each c path kids sib g) path n
  unfolding gather_each
  gather_each-IsKept (k ∷ kids) sib g n (inl e) =
      subst (IsKept c (gather_each c path (k ∷ kids) sib g) path) (sym e)
        (first-IsKept k kids sib g (judge c sib k) refl)
  gather_each-IsKept (k ∷ kids) sib g n (inr i) =
      let r = settle_row (judge c sib k) (join path k.name) k sib g in
      gather_each-IsKept kids r.0 r.1 n i
  gather_each-IsKept [] sib g n i = absurd i

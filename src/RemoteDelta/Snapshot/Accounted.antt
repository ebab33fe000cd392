-- ===== src/RemoteDelta/Snapshot/Accounted.antt =====
-- internal/remotedelta/remotedelta.go: the snapshot has nothing but live rows at their paths, and no
-- live row under a kept folder is lost without a report.
use synckeeper.Base.{
  ℕ, zero, suc, ◌+◌, ◌≤◌, true, some, List, [], ◌∷◌, Bytes, bytes_eq, length, ◌≡◌, refl, sym, subst,
  ◌⊎◌, inl, inr, arith, In, All-In, All-of_In, Any-sort_by, All-sort_by, In-keep, keep-In,
  Bool-cases, length-append, length-keep,
}
use synckeeper.Base.Dict
use synckeeper.Names.{join}
use synckeeper.Reconcile.Types.{RemoteItem}
use synckeeper.Store.Types.{RemoteNode}
use synckeeper.RemoteDelta.Prune.{children_of}
use synckeeper.RemoteDelta.Prune.Marks.{unmarked, unmarked_lt}
use synckeeper.RemoteDelta.Snapshot.{
  Setting, Frame, Gathered, Siblings, Verdict, pass, report, admit, is_folder, judge, settle_row,
  admit_folder, gather_each, gather_folder, gather, snapshot_of, sorted_children, no_siblings,
}
use synckeeper.RemoteDelta.Snapshot.Kept.{IsKept, gather_each-IsKept}
use synckeeper.RemoteDelta.Snapshot.Moves.{
  IsUnder, IsLocated, at_root, IsEntry, IsAccounted, IsAccounted-Moves, gather_each-Moves,
}

sorted_children-IsUnder :
    (nodes : List RemoteNode) (f : Frame) (n : RemoteNode)
    → In n (sorted_children nodes f.id)
    → IsUnder nodes f n
sorted_children-IsUnder nodes f n m =
    All-In (IsUnder nodes f) n _
      (All-sort_by (IsUnder nodes f) _ _ (
        All-of_In _ (children_of nodes f.id)
          λ k i. let (i', t) = keep-In _ k nodes i in (i', ground arith, ground arith)))
      m

IsUnder-sorted :
    (nodes : List RemoteNode) (f : Frame) (n : RemoteNode)
    → IsUnder nodes f n
    → In n (sorted_children nodes f.id)
IsUnder-sorted nodes f n (m, t, p) = Any-sort_by _ _ _ (In-keep _ n nodes m (ground arith))

abbrev measure : List RemoteNode → Gathered → ℕ
measure nodes g = length g.queue + unmarked g.visited nodes

admit_folder-measure :
    (nodes : List RemoteNode) (n : RemoteNode) (rel : Bytes) (g : Gathered)
    → In n nodes
    → measure nodes (admit_folder n rel g) ≤ measure nodes g
unfolding admit_folder
admit_folder-measure nodes n rel g m = elim (Bool-cases (is_folder n)) [
  | inr e ↦ rw e (omega arith)
  | inl e ↦ elim (Bool-cases (Dict.contains n.file_id g.visited)) [
    | inl k ↦ rw (e, k) (omega arith)
    | inr k ↦
        rw (e, k)
          (omega (
            arith,
            unmarked_lt n g.visited nodes m k,
            length-append g.queue (record { id = n.file_id; rel_path = rel } ∷ []),
          ))
  ]
]

settle_row-measure :
    (nodes : List RemoteNode) (v : Verdict) (rel : Bytes) (n : RemoteNode) (sib : Siblings)
    (g : Gathered)
    → In n nodes
    → measure nodes (settle_row v rel n sib g).1 ≤ measure nodes g
unfolding settle_row
settle_row-measure nodes pass rel n sib g m = omega arith
settle_row-measure nodes (report reason id) rel n sib g m = omega arith
settle_row-measure nodes (admit key) rel n sib g m = admit_folder-measure nodes n rel _ m

gather_each-measure :
    (nodes : List RemoteNode) (c : Setting) (path : Bytes) (kids : List RemoteNode) (sib : Siblings)
    (g : Gathered)
    → ((n : RemoteNode) → In n kids → In n nodes)
    → measure nodes (gather_each c path kids sib g) ≤ measure nodes g
unfolding gather_each
gather_each-measure nodes c path [] sib g h = omega arith
gather_each-measure nodes c path (k ∷ kids) sib g h =
    let r = settle_row (judge c sib k) (join path k.name) k sib g in
    omega (
      arith,
      gather_each-measure nodes c path kids r.0 r.1 (λ n i. h n (inr i)),
      settle_row-measure nodes (judge c sib k) (join path k.name) k sib g (h k (inl refl)),
    )

module _ (c : Setting) (nodes : List RemoteNode) (root : Bytes) where
  -- Every live row of the folder is accounted for.
  abbrev pub IsCovered : Gathered → Frame → Type 0
  IsCovered g f = (n : RemoteNode) → IsUnder nodes f n → IsAccounted c g f.rel_path n

  abbrev root_frame : Frame
  root_frame = record { id = root; rel_path = [] }

  record IsGathered (g : Gathered) : Type 0 where
    located : (f : Frame) → In f g.queue → IsLocated nodes root f
    rooted : In root_frame g.queue ⊎ IsCovered g root_frame
    seen :
        (x : Bytes)
        → In x g.visited
        → (f : Frame) × (f.id ≡ x) × IsLocated nodes root f × (In f g.queue ⊎ IsCovered g f)
    entries :
        (p : Bytes) (item : RemoteItem)
        → Dict.lookup p g.snapshot ≡ some item
        → IsEntry c nodes root p item × (item.is_dir ≡ true → In item.file_id g.visited)

  -- One round, for the frame that leaves the queue.
  round-IsGathered :
      (f : Frame) (queue : List Frame) (g : Gathered)
      → IsGathered (record g { queue = f ∷ queue })
      → IsGathered (gather_folder c nodes f (record g { queue = queue }))
  unfolding gather_folder
  round-IsGathered f queue g i =
      let at = i.located f (inl refl) in
      let (m, covers) =
        gather_each-Moves c nodes root f (sorted_children nodes f.id) no_siblings
          (record g { queue = queue }) at (sorted_children-IsUnder nodes f) in
      let h =
        gather_each c f.rel_path (sorted_children nodes f.id) no_siblings
          (record g { queue = queue }) in
      let later : (k : Frame)
          → In k (f ∷ queue) ⊎ IsCovered (record g { queue = f ∷ queue }) k
          → In k h.queue ⊎ IsCovered h k =
        λ k a. elim a [
          | inl (inr q) ↦ inl (m.queue k q)
          | inl (inl e) ↦
              inr (subst (IsCovered h) (sym e) (λ n u. covers n (IsUnder-sorted nodes f n u)))
          | inr cov ↦ inr (λ n u. IsAccounted-Moves c nodes root k.rel_path n m (cov n u))
        ] in
      record {
        located = λ k q. elim (m.queue_new k q) [ inl r ↦ i.located k (inr r) | inr l ↦ l ];
        rooted = later root_frame i.rooted;
        seen = λ x q. elim (m.visited_new x q) [
          | inl r ↦ let (k, e, l, a) = i.seen x r in (k, e, l, later k a)
          | inr (k, q', e) ↦
              (k, e, elim (m.queue_new k q') [ inl r ↦ i.located k (inr r) | inr l ↦ l ], inl q')
        ];
        entries = λ p item e. elim (m.entry_new p item e) [
          | inl r ↦ let (a, b) = i.entries p item r in (a, λ d. m.visited item.file_id (b d))
          | inr r ↦ r
        ];
      }

  gather_lem :
      (fuel : ℕ) (queue : List Frame) (g : Gathered)
      → IsGathered (record g { queue = queue })
      → length queue + unmarked g.visited nodes ≤ fuel
      → (r : Gathered) × (gather fuel c nodes queue g ≡ some r)
        × IsGathered (record r { queue = [] })
  unfolding gather gather_folder
  gather_lem fuel [] g i h = (g, refl, i)
  gather_lem zero (f ∷ queue) g i h = absurd (omega arith)
  gather_lem (suc fuel) (f ∷ queue) g i h =
      let g' =
        gather_each c f.rel_path (sorted_children nodes f.id) no_siblings
          (record g { queue = queue }) in
      gather_lem fuel g'.queue g' (round-IsGathered f queue g i) (
        omega (
          arith,
          gather_each-measure nodes c f.rel_path (sorted_children nodes f.id) no_siblings
              (record g { queue = queue }) (λ n m. (sorted_children-IsUnder nodes f n m).0),
        ))

start :
    (c : Setting) (nodes : List RemoteNode) (root : Bytes)
    → IsGathered c nodes root (record {
      snapshot = [];
      skips = [];
      visited = root ∷ [];
      queue = record { id = root; rel_path = [] } ∷ [];
    })
unfolding Dict.lookup
start c nodes root = record {
  located = λ f m. elim m [ inl e ↦ at_root (ground arith) (ground arith) | inr x ↦ absurd x ];
  rooted = inl (inl refl);
  seen = λ x m. elim m [
    | inl e ↦ (record { id = root; rel_path = [] }, sym e, at_root refl refl, inl (inl refl))
    | inr y ↦ absurd y
  ];
  entries = λ p item e. absurd (cc);
}

-- `Snapshot` ends, whatever the mirror holds, cycles included. Each entry is a live row that may be
-- synced, at its name under the path of its folder. Each live row of the root, and of each folder in
-- the snapshot at a path of that folder, is accounted for: the snapshot has its path, or its path
-- is reported, or its name is to be ignored. And the round of a folder, whatever was gathered before,
-- leaves each live row of it in the snapshot as itself, or its path reported with the row's own id or
-- with none, or its name is to be ignored.
pub snapshot_exact :
    (c : Setting) (nodes : List RemoteNode) (root : Bytes)
    → (g : Gathered) × (snapshot_of c nodes root ≡ some g)
      × ((p : Bytes) (item : RemoteItem)
          → Dict.lookup p g.snapshot ≡ some item
          → IsEntry c nodes root p item)
      × IsCovered c nodes root g (record { id = root; rel_path = [] })
      × ((p : Bytes) (item : RemoteItem)
          → Dict.lookup p g.snapshot ≡ some item
          → item.is_dir ≡ true
          → (f : Frame) × (f.id ≡ item.file_id)
            × IsLocated nodes root f
            × IsCovered c nodes root g f)
      × ((f : Frame) (h : Gathered) (n : RemoteNode)
          → IsUnder nodes f n
          → IsKept c (gather_folder c nodes f h) f.rel_path n)
unfolding snapshot_of gather_folder
snapshot_exact c nodes root =
    let (g, e, i) =
      gather_lem c nodes root (length nodes + 1) _ _ (start c nodes root)
        (omega (arith, length-keep _ nodes)) in
    (
      g,
      e,
      (λ p item h. (i.entries p item h).0),
      elim i.rooted [ inl x ↦ absurd x | inr x ↦ x ],
      (λ p item h d.
          let (f, q, l, a) = i.seen item.file_id ((i.entries p item h).1 d) in
          (f, q, l, elim a [ inl x ↦ absurd x | inr x ↦ x ])),
      (λ f h n u.
          gather_each-IsKept c f.rel_path (sorted_children nodes f.id) no_siblings h n
            (IsUnder-sorted nodes f n u)),
    )

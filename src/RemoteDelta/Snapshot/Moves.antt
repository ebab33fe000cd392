-- ===== src/RemoteDelta/Snapshot/Moves.antt =====
-- internal/remotedelta/remotedelta.go: what the loop over the children of a folder does.
use synckeeper.Base.{
  true, false, Option, none, some, List, [], ◌∷◌, Bytes, bytes_eq, ◌==◌, ◌≡◌, refl, sym, subst, ap,
  ◌∙◌, ◌⊎◌, inl, inr, arith, In, Any-append_left, Any-append_right, Any-append_cases, Bool-cases,
  ==_refl,
}
use synckeeper.Base.Dict
use synckeeper.Base.Dict.{contains-In, lookup-insert}
use synckeeper.Names.{ignored, validate, join}
use synckeeper.Reconcile.Types.{RemoteItem}
use synckeeper.Store.Types.{RemoteNode}
use synckeeper.RemoteDelta.Snapshot.{
  Setting, Frame, Gathered, Siblings, Skipped, Verdict, pass, report, admit, is_folder, is_native,
  remote_item, judge, judge_fold, is_invalid, settle_row, admit_folder, gather_each,
}

-- A live row under the folder of the frame.
abbrev pub IsUnder : List RemoteNode → Frame → RemoteNode → Type 0
IsUnder nodes f n = In n nodes × (n.trashed ≡ false) × (n.parent_id ≡ f.id)

-- The folder of the frame is the root, or a live one at the path that the frame says.
pub data IsLocated (nodes : List RemoteNode) (root : Bytes) : Frame → Type 0 where
  at_root : {f : Frame} → f.id ≡ root → f.rel_path ≡ [] → IsLocated nodes root f
  at_child :
      {f g : Frame}
      → IsLocated nodes root f
      → (n : RemoteNode) → IsUnder nodes f n
      → is_folder n ≡ true
      → g.id ≡ n.file_id
      → g.rel_path ≡ join f.rel_path n.name
      → IsLocated nodes root g

-- The row may be synced: neither a Google document, nor ignored, nor of a name that no disk takes.
abbrev pub IsSyncable : Setting → RemoteNode → Type 0
IsSyncable c n =
    (is_native n ≡ false) × (ignored c.matches c.ignore n.name ≡ false) × (validate n.name ≡ none)

abbrev pub IsEntry : Setting → List RemoteNode → Bytes → Bytes → RemoteItem → Type 0
IsEntry c nodes root path item =
    (f : Frame) × (n : RemoteNode) × IsLocated nodes root f
    × IsUnder nodes f n
    × IsSyncable c n
    × (path ≡ join f.rel_path n.name)
    × (item ≡ remote_item n)

abbrev pub Has : Gathered → Bytes → Type 0
Has g path = (item : RemoteItem) × (Dict.lookup path g.snapshot ≡ some item)

-- The row is in the snapshot, or reported, or its name is one to ignore.
abbrev pub IsAccounted : Setting → Gathered → Bytes → RemoteNode → Type 0
IsAccounted c g path n =
    Has g (join path n.name)
    ⊎ ((s : Skipped) × In s g.skips × (s.rel_path ≡ join path n.name))
    ⊎ (ignored c.matches c.ignore n.name ≡ true)

module _ (c : Setting) (nodes : List RemoteNode) (root : Bytes) where
  -- From one state of the search to a later one.
  pub record Moves (g h : Gathered) : Type 0 where
    pub has : (p : Bytes) → Has g p → Has h p
    pub skips : (s : Skipped) → In s g.skips → In s h.skips
    pub visited : (x : Bytes) → In x g.visited → In x h.visited
    pub queue : (f : Frame) → In f g.queue → In f h.queue
    pub visited_new :
        (x : Bytes) → In x h.visited → In x g.visited ⊎ ((f : Frame) × In f h.queue × (f.id ≡ x))
    pub queue_new : (f : Frame) → In f h.queue → In f g.queue ⊎ IsLocated nodes root f
    pub entry_new :
        (p : Bytes) (item : RemoteItem)
        → Dict.lookup p h.snapshot ≡ some item
        → (Dict.lookup p g.snapshot ≡ some item)
          ⊎ (IsEntry c nodes root p item × (item.is_dir ≡ true → In item.file_id h.visited))

  pub Moves-refl : (g : Gathered) → Moves g g
  Moves-refl g = record {
    has = λ p h. h;
    skips = λ P h. h;
    visited = λ x h. h;
    queue = λ P h. h;
    visited_new = λ x h. inl h;
    queue_new = λ f h. inl h;
    entry_new = λ p i h. inl h;
  }

  pub Moves-trans : {g h k : Gathered} → Moves g h → Moves h k → Moves g k
  Moves-trans a b = record {
    has = λ p m. b.has p (a.has p m);
    skips = λ P m. b.skips P (a.skips P m);
    visited = λ x m. b.visited x (a.visited x m);
    queue = λ P m. b.queue P (a.queue P m);
    visited_new = λ x m. elim (b.visited_new x m) [
      | inr q ↦ inr q
      | inl q ↦ elim (a.visited_new x q) [
        | inl r ↦ inl r
        | inr (f, m', e) ↦ inr (f, b.queue f m', e)
      ]
    ];
    queue_new = λ f m. elim (b.queue_new f m) [ inr q ↦ inr q | inl q ↦ a.queue_new f q ];
    entry_new = λ p i m. elim (b.entry_new p i m) [
      | inr q ↦ inr q
      | inl q ↦ elim (a.entry_new p i q) [
        | inl r ↦ inl r
        | inr (r, v) ↦ inr (r, λ d. b.visited i.file_id (v d))
      ]
    ];
  }

  -- The verdicts, as the rest needs them.
  judge-pass :
      (sib : Siblings) (n : RemoteNode)
      → judge c sib n ≡ pass
      → ignored c.matches c.ignore n.name ≡ true
  unfolding judge judge_fold
  judge-pass sib n e = ground arith

  judge-admit :
      (sib : Siblings) (n : RemoteNode) (key : Option Bytes)
      → judge c sib n ≡ admit key
      → IsSyncable c n
  unfolding judge judge_fold is_invalid
  judge-admit sib n key e = ground arith

  -- A folder joins the queue at its path, unless it was seen before.
  admit_folder-Moves :
      (f : Frame) (n : RemoteNode) (g : Gathered)
      → IsLocated nodes root f
      → IsUnder nodes f n
      → Moves g (admit_folder n (join f.rel_path n.name) g)
        × (is_folder n ≡ true → In n.file_id (admit_folder n (join f.rel_path n.name) g).visited)
  unfolding admit_folder
  admit_folder-Moves f n g at under = elim (Bool-cases (is_folder n)) [
    | inr e ↦ rw e (Moves-refl g, λ t. absurd (ground arith))
    | inl e ↦ elim (Bool-cases (Dict.contains n.file_id g.visited)) [
      | inl k ↦ rw (e, k) (Moves-refl g, λ t. contains-In n.file_id g.visited k)
      | inr k ↦
          rw (e, k)
            (
              record {
                has = λ p h. h;
                skips = λ s h. h;
                visited = λ x h. inr h;
                queue = λ h m. Any-append_left _ g.queue _ m;
                visited_new = λ x h. elim h [
                  | inr q ↦ inl q
                  | inl q ↦ inr (new_frame, Any-append_right _ g.queue _ (inl refl), sym q)
                ];
                queue_new = λ h m. elim (Any-append_cases _ g.queue _ m) [
                  | inl q ↦ inl q
                  | inr (inl q) ↦ inr (rw q (located e))
                  | inr (inr q) ↦ absurd q
                ];
                entry_new = λ p i h. inl h;
              },
              λ t. inl refl,
            )
    ]
  ]
    where
      new_frame : Frame
      new_frame = record { id = n.file_id; rel_path = join f.rel_path n.name }

      located : is_folder n ≡ true → IsLocated nodes root new_frame
      located e = at_child at n under e refl refl

  insert-Moves :
      (f : Frame) (n : RemoteNode) (g : Gathered)
      → IsLocated nodes root f
      → IsUnder nodes f n
      → IsSyncable c n
      → (is_folder n ≡ true → In n.file_id g.visited)
      → Moves g
          (record g { snapshot = Dict.insert (join f.rel_path n.name) (remote_item n) g.snapshot })
  unfolding remote_item
  insert-Moves f n g at under ok seen = record {
    has = λ p (i, h). elim (Bool-cases (p == join f.rel_path n.name)) [
      | inl e ↦ (remote_item n, lookup-insert p _ (remote_item n) g.snapshot ∙ rw e)
      | inr e ↦ (i, lookup-insert p _ (remote_item n) g.snapshot ∙ rw e h)
    ];
    skips = λ s h. h;
    visited = λ x h. h;
    queue = λ h m. m;
    visited_new = λ x h. inl h;
    queue_new = λ h m. inl m;
    entry_new = λ p i h. elim (Bool-cases (p == join f.rel_path n.name)) [
      | inr e ↦
          inl (ground (arith, lookup-insert p (join f.rel_path n.name) (remote_item n) g.snapshot))
      | inl e ↦
          let q : i ≡ remote_item n =
            ground (arith, lookup-insert p (join f.rel_path n.name) (remote_item n) g.snapshot) in
          inr (
            (f, n, at, under, ok, ground arith, q),
            λ d. rw (ap (λ (r : RemoteItem). r.file_id) q) (seen (ground arith)),
          )
    ];
  }

  -- The snapshot's write and the queue's may be swapped.
  admit_folder-insert :
      (rel : Bytes) (n : RemoteNode) (g : Gathered)
      → record (admit_folder n rel g) {
        snapshot = Dict.insert rel (remote_item n) (admit_folder n rel g).snapshot;
      }
        ≡ admit_folder n rel (record g { snapshot = Dict.insert rel (remote_item n) g.snapshot })
  unfolding admit_folder
  admit_folder-insert rel n g = ground arith

  pub admit-Moves :
      (f : Frame) (n : RemoteNode) (g : Gathered)
      → IsLocated nodes root f
      → IsUnder nodes f n
      → IsSyncable c n
      → let rel = join f.rel_path n.name in
        Moves g
          (admit_folder n rel (record g { snapshot = Dict.insert rel (remote_item n) g.snapshot }))
        × Has
            (admit_folder n rel
              (record g { snapshot = Dict.insert rel (remote_item n) g.snapshot }))
            rel
  admit-Moves f n g at under ok =
      let rel = join f.rel_path n.name in
      let (first, seen) = admit_folder-Moves f n g at under in
      let second = insert-Moves f n (admit_folder n rel g) at under ok seen in
      subst (λ h. Moves g h × Has h rel) (admit_folder-insert rel n g)
        (
          Moves-trans first second,
          (
            remote_item n,
            lookup-insert rel rel (remote_item n) (admit_folder n rel g).snapshot ∙ rw ==_refl refl,
          ),
        )

  -- One row, by its verdict.
  settle_row-Moves :
      (v : Verdict) (sib : Siblings) (f : Frame) (n : RemoteNode) (g : Gathered)
      → v ≡ judge c sib n
      → IsLocated nodes root f
      → IsUnder nodes f n
      → let h = (settle_row v (join f.rel_path n.name) n sib g).1 in
        Moves g h × IsAccounted c h f.rel_path n
  unfolding settle_row
  settle_row-Moves pass sib f n g e at under = (Moves-refl g, inr (inr (judge-pass sib n (sym e))))
  settle_row-Moves (report reason id) sib f n g e at under = (
    record {
      has = λ p h. h;
      skips = λ s h. Any-append_left _ g.skips _ h;
      visited = λ x h. h;
      queue = λ h m. m;
      visited_new = λ x h. inl h;
      queue_new = λ h m. inl m;
      entry_new = λ p i h. inl h;
    },
    inr (inl (_, Any-append_right _ g.skips _ (inl refl), refl)),
  )
  settle_row-Moves (admit key) sib f n g e at under =
      let (m, h) = admit-Moves f n g at under (judge-admit sib n key (sym e)) in (m, inl h)

  pub IsAccounted-Moves :
      (path : Bytes) (n : RemoteNode) {g h : Gathered}
      → Moves g h
      → IsAccounted c g path n
      → IsAccounted c h path n
  IsAccounted-Moves path n m (inl a) = inl (m.has _ a)
  IsAccounted-Moves path n m (inr (inl (s, i, e))) = inr (inl (s, m.skips s i, e))
  IsAccounted-Moves path n m (inr (inr a)) = inr (inr a)

  -- All children of the folder are accounted for once it has been gone through.
  pub gather_each-Moves :
      (f : Frame) (kids : List RemoteNode) (sib : Siblings) (g : Gathered)
      → IsLocated nodes root f
      → ((n : RemoteNode) → In n kids → IsUnder nodes f n)
      → let h = gather_each c f.rel_path kids sib g in
        Moves g h × ((n : RemoteNode) → In n kids → IsAccounted c h f.rel_path n)
  unfolding gather_each
  gather_each-Moves f [] sib g at under = (Moves-refl g, λ n i. absurd i)
  gather_each-Moves f (k ∷ kids) sib g at under =
      let r = settle_row (judge c sib k) (join f.rel_path k.name) k sib g in
      let (m, a) = settle_row-Moves (judge c sib k) sib f k g refl at (under k (inl refl)) in
      let (ms, as') = gather_each-Moves f kids r.0 r.1 at (λ n i. under n (inr i)) in
      (
        Moves-trans m ms,
        λ n i. elim i [ inr j ↦ as' n j | inl e ↦ IsAccounted-Moves f.rel_path n ms (rw e a) ],
      )

-- ===== src/Executor/Safe/Copy.antt =====
-- internal/executor/localwrite.go: the move of a file, by a copy where a rename is refused.
use synckeeper.Base.{
  ◌||◌, Option, none, some, List, [], ◌++◌, Bytes, bytes_eq, ℤ, ◌≡◌, ◌≢◌, refl, sym, subst, ◌∙◌,
  ◌⊎◌, inl, inr, In, Any-append_left, arith, Bool-cases, Option-cases,
}
use synckeeper.Base.Dict
use synckeeper.Base.Dict.{lookup-insert, lookup_absent}
use synckeeper.Disk.{
  Disk, Node, FileData, file, directory, other, lstat, is_blocked, rename, remove, remove_node,
  write_file, take_out,
}
use synckeeper.Disk.Files.{rename-Spares, write_file-eq, insert-In, inserted-In, take_out-In}
use synckeeper.Executor.Run.{
  Env, State, Run, io, on_disk, called, changed, file_at, look, stat_at, give, attempt, continue,
  ◌>>=◌,
}
use synckeeper.Executor.Gate.{
  Expectation, refuse_vanished, copy_over, or_copy, guarded_move_file, read_file, content_of, free,
}
use synckeeper.Executor.Safe.{IsFine, Safe, Safe-bind}
use synckeeper.Executor.Safe.Gate.{guarded_stat-Safe}

abbrev after_disk : Bytes → Disk → State → State
after_disk p d s = record (called s) {
  disk = d;
  replaced = s.replaced ++ file_at p (lstat p s.disk);
}

on_disk-Cases :
    (p : Bytes) (f : ℤ → Disk → Option Disk) (e : Env) (s : State)
    → (on_disk p f e s ≡ (inl io, called s))
      ⊎ ((t : ℤ) × (d : Disk) × (f t s.disk ≡ some d)
          × (on_disk p f e s ≡ (inr tt, after_disk p d s)))
unfolding on_disk changed
on_disk-Cases p f e s = elim (Bool-cases (e.disk_fails s.disk_calls)) [
  | inl b ↦ inl (rw b refl)
  | inr b ↦ elim (Option-cases (f (e.mtime_at s.disk_calls) s.disk)) [
    | inl n ↦ inl (rw (b, n) refl)
    | inr (d, n) ↦ inr (e.mtime_at s.disk_calls, d, n, rw (b, n) refl)
  ]
]

-- The files stay at their paths.
abbrev Stays : Disk → Disk → Type 0
Stays d d' = (q : Bytes) (g : FileData) → In (q, file g) d → In (q, file g) d'

fine_stays :
    (P : Bytes → FileData → Type 0) (c : Bytes) (s t : State)
    → Stays s.disk t.disk
    → s.bin ≡ t.bin
    → ((p : Bytes) (f : FileData) → In (p, f) s.replaced → In (p, f) t.replaced)
    → IsFine P c s
    → IsFine P c t
fine_stays P c s t h b r (inr (p, f, m, ec, x)) = inr (p, f, r p f m, ec, x)
fine_stays P c s t h b r (inl (q, f, ec, inl m)) = inl (q, f, ec, inl (h q f m))
fine_stays P c s t h b r (inl (q, f, ec, inr m)) =
    inl (q, f, ec, inr (subst (λ z. In (q, file f) z) b m))

insert-Stays :
    (p : Bytes) (n : Node) (d : Disk)
    → ((g : FileData) → lstat p d ≢ some (file g))
    → Stays d (Dict.insert p n d)
insert-Stays p n d h q g m = elim (insert-In p q (file g) n d m) [
  | inl k ↦ k
  | inr (_, k) ↦ absurd (h g k)
]

remove_file-eq :
    (p : Bytes) (f : FileData) (d d' : Disk)
    → lstat p d ≡ some (file f)
    → remove p d ≡ some d'
    → take_out p d ≡ d'
unfolding remove remove_node
remove_file-eq p f d d' l e = ground arith

differs :
    (from to : Bytes) (f : FileData) (d : Disk)
    → lstat to d ≡ none
    → lstat from d ≡ some (file f)
    → from ≢ to
differs from to f d n l e = ground arith

-- The disk after the copy.
abbrev copied : Bytes → FileData → ℤ → ℤ → Disk → Disk
copied to f t t' d =
    Dict.insert to (file (record { content = f.content; mtime_ns = t' }))
      (Dict.insert to (file (record { content = []; mtime_ns = t })) d)

not_at : (to q : Bytes) (n : Node) (d : Disk) → lstat to d ≡ none → In (q, n) d → q ≢ to
not_at to q n d e m x = lookup_absent to n d e (subst (λ z. In (z, n) d) x m)

copied-Stays :
    (to : Bytes) (f : FileData) (t t' : ℤ) (d : Disk)
    → lstat to d ≡ none
    → Stays d (copied to f t t' d)
copied-Stays to f t t' d e q g m =
    let a : FileData = record { content = []; mtime_ns = t } in
    let b : FileData = record { content = f.content; mtime_ns = t' } in
    elim (insert-In to q (file g) (file b) (Dict.insert to (file a) d)
      (insert-Stays to (file a) d (λ x k. ground arith) q g m)) [
        | inl k ↦ k
        | inr (x, _) ↦ absurd (not_at to q (file g) d e m x)
      ]

lookup_kept :
    (from to : Bytes) (f : FileData) (t t' : ℤ) (d : Disk)
    → lstat to d ≡ none
    → lstat from d ≡ some (file f)
    → lstat from (copied to f t t' d) ≡ some (file f)
lookup_kept from to f t t' d n l =
    let x : from ≢ to = differs from to f d n l in
    let a : FileData = record { content = []; mtime_ns = t } in
    let b : FileData = record { content = f.content; mtime_ns = t' } in
    ground (
      arith,
      lookup-insert from to (file b) (Dict.insert to (file a) d),
      lookup-insert from to (file a) d,
    )

-- And after the removal, some file has the content of each.
copied-held :
    (from to : Bytes) (f : FileData) (t t' : ℤ) (d : Disk)
    → lstat to d ≡ none
    → lstat from d ≡ some (file f)
    → (q : Bytes) (g : FileData) → In (q, file g) d
    → (k : Bytes) × (h : FileData) × (h.content ≡ g.content)
      × In (k, file h) (take_out from (copied to f t t' d))
copied-held from to f t t' d n l q g m =
    let a : FileData = record { content = []; mtime_ns = t } in
    let b : FileData = record { content = f.content; mtime_ns = t' } in
    let x : from ≢ to = differs from to f d n l in
    elim (take_out-In from q (file g) (copied to f t t' d) (copied-Stays to f t t' d n q g m)) [
      | inl k ↦ (q, g, refl, k)
      | inr (z, k) ↦
          elim (take_out-In from to (file b) (copied to f t t' d)
            (inserted-In to (file b) (Dict.insert to (file a) d))) [
              | inl i ↦ (to, b, ground (arith, lookup_kept from to f t t' d n l), i)
              | inr (w, _) ↦ absurd (x (sym w))
            ]
    ]

more :
    (p : Bytes) (f : FileData) (xs ys : List (Bytes × FileData))
    → In (p, f) xs
    → In (p, f) (xs ++ ys)
more p f xs ys m = Any-append_left _ xs ys m

module _ (P : Bytes → FileData → Type 0) (e : Env) (from to : Bytes) (c : Bytes) where
  -- The removal, after the copy.
  removal_lem :
      (s : State) (f : FileData) (t t' : ℤ) (d : Disk)
      → lstat to d ≡ none
      → lstat from d ≡ some (file f)
      → s.disk ≡ copied to f t t' d
      → (IsFine P c s)
      → (IsFine P c (record s { disk = d }))
      → IsFine P c (on_disk from (λ t d. remove from d) e s).1
  removal_lem s f t t' d n l sd fine orig = elim (on_disk-Cases from (λ t d. remove from d) e s) [
    | inl r ↦ rw r fine
    | inr (u, d', x, r) ↦ rw r (gone d' x orig)
  ]
    where
      gone :
          (d' : Disk)
          → remove from s.disk ≡ some d'
          → IsFine P c (record s { disk = d })
          → IsFine P c (after_disk from d' s)
      gone d' x (inr (p, g, m, ec, k)) = inr (p, g, more p g s.replaced _ m, ec, k)
      gone d' x (inl (q, g, ec, inr m)) = inl (q, g, ec, inr m)
      gone d' x (inl (q, g, ec, inl m)) =
          let (k, h, eh, i) = copied-held from to f t t' d n l q g m in
          let there : lstat from s.disk ≡ some (file f) =
            rw sd (lookup_kept from to f t t' d n l) in
          let r : take_out from (copied to f t t' d) ≡ d' =
            subst (λ z. take_out from z ≡ d') sd (remove_file-eq from f s.disk d' there x) in
          inl (k, h, eh ∙ ec, inl (subst (λ z. In (k, file h) z) r i))

  wider :
      (s : State) (d : Disk) (p : Bytes) (v : Disk)
      → IsFine P c (record s { disk = d })
      → IsFine P c (record (after_disk p v s) { disk = d })
  wider s d p v k =
      fine_stays P c (record s { disk = d }) (record (after_disk p v s) { disk = d }) (λ q g m. m)
        refl (λ q g m. more q g s.replaced _ m) k

  -- The writing of the content, and the removal.
  writing_lem :
      (s : State) (f : FileData) (t : ℤ) (d : Disk)
      → lstat to d ≡ none
      → lstat from d ≡ some (file f)
      → s.disk ≡ Dict.insert to (file (record { content = []; mtime_ns = t })) d
      → IsFine P c s
      → IsFine P c (record s { disk = d })
      → IsFine P c
          ((on_disk to (λ t d. write_file to (record { content = f.content; mtime_ns = t }) d)
              >>= λ _. on_disk from (λ t d. remove from d))
            e s).1
  unfolding ◌>>=◌
  writing_lem s f t d n l sd fine orig =
      elim (on_disk-Cases to (λ t d. write_file to (record { content = f.content; mtime_ns = t }) d)
        e s) [
          | inl r ↦ rw r fine
          | inr (u, d', x, r) ↦
              let eq =
                write_file-eq to (record { content = f.content; mtime_ns = u }) s.disk d' x in
              let now : d' ≡ copied to f t u d = sym (
                subst
                  (λ z. Dict.insert to (file (record { content = f.content; mtime_ns = u })) z ≡ d')
                  sd eq) in
              rw r (
                removal_lem (after_disk to d' s) f t u d n l now
                  (fine_stays P c (record s { disk = d }) (after_disk to d' s)
                    (λ q g m.
                      subst (λ z. In (q, file g) z) (sym now) (copied-Stays to f t u d n q g m))
                    refl (λ q g m. more q g s.replaced _ m) orig)
                  (wider s d to d' orig))
        ]

  copying_lem :
      (s : State) (f : FileData)
      → lstat to s.disk ≡ none
      → lstat from s.disk ≡ some (file f)
      → IsFine P c s
      → IsFine P c
          ((on_disk to (λ t d. write_file to (record { content = []; mtime_ns = t }) d) >>= λ _.
              (on_disk to (λ t d. write_file to (record { content = f.content; mtime_ns = t }) d)
                >>= λ _. on_disk from (λ t d. remove from d)))
            e s).1
  unfolding ◌>>=◌
  copying_lem s f n l k =
      elim (on_disk-Cases to (λ t d. write_file to (record { content = []; mtime_ns = t }) d) e s) [
        | inl r ↦ rw r k
        | inr (t, d', x, r) ↦
            let empty : FileData = record { content = []; mtime_ns = t } in
            let now : d' ≡ Dict.insert to (file empty) s.disk =
              sym (write_file-eq to empty s.disk d' x) in
            rw r (
              writing_lem (after_disk to d' s) f t s.disk n l now
                (fine_stays P c s (after_disk to d' s)
                  (λ q g m.
                    subst (λ z. In (q, file g) z) (sym now)
                      (insert-Stays to (file empty) s.disk (λ x k. ground arith) q g m))
                  refl (λ q g m. more q g s.replaced _ m) k)
                (wider s s.disk to d' k))
      ]

  copy_lem :
      (s : State) → lstat to s.disk ≡ none → IsFine P c s → IsFine P c (copy_over from to e s).1
  unfolding copy_over read_file ◌>>=◌ look give
  copy_lem s n k = elim (Bool-cases (e.disk_fails s.disk_calls)) [
    | inl b ↦ rw b k
    | inr b ↦ rw b (read (lstat from s.disk) refl)
  ]
    where
      rest : FileData → Run (Unit {0})
      rest f = on_disk to (λ t d. write_file to (record { content = []; mtime_ns = t }) d) >>= λ _.
          (on_disk to (λ t d. write_file to (record { content = f.content; mtime_ns = t }) d)
            >>= λ _. on_disk from (λ t d. remove from d))

      read :
          (m : Option Node)
          → lstat from s.disk ≡ m
          → IsFine P c (continue (content_of m) rest e (called s)).1
      read none l = k
      read (some directory) l = k
      read (some other) l = k
      read (some (file f)) l = copying_lem (called s) f n l k

  rename_lem :
      (s : State)
      → lstat to s.disk ≡ none
      → IsFine P c s
      → IsFine P c ((attempt (on_disk to (λ t d. rename from to d)) >>= or_copy from to) e s).1
  unfolding attempt or_copy ◌>>=◌ give
  rename_lem s n k = elim (on_disk-Cases to (λ t d. rename from to d) e s) [
    | inl r ↦ rw r (copy_lem (called s) n k)
    | inr (t, d, x, r) ↦ rw r (moved d x k)
  ]
    where
      moved :
          (d : Disk)
          → rename from to s.disk ≡ some d
          → IsFine P c s
          → IsFine P c (after_disk to d s)
      moved d x (inr (p, g, m, ec, h)) = inr (p, g, more p g s.replaced _ m, ec, h)
      moved d x (inl (q, g, ec, inr m)) = inl (q, g, ec, inr m)
      moved d x (inl (q, g, ec, inl m)) = elim ((rename-Spares from to s.disk d x).at g (q, m)) [
        | inl (q', m') ↦ inl (q', g, ec, inl m')
        | inr z ↦ absurd (ground arith)
      ]

  free_lem :
      (s : State)
      → IsFine P c s
      → IsFine P c
          ((stat_at to >>= λ there.
              (give (free there) >>= λ _.
              (attempt (on_disk to (λ t d. rename from to d)) >>= or_copy from to)))
            e s).1
  unfolding ◌>>=◌ stat_at give
  free_lem s k = elim (Bool-cases (e.disk_fails s.disk_calls || is_blocked to s.disk)) [
    | inl b ↦ rw b k
    | inr b ↦ rw b (elim (Option-cases (lstat to s.disk)) [
      | inr (m, l) ↦ rw l k
      | inl l ↦ rw l (rename_lem (called s) l k)
    ])
  ]

-- A file that moves out of the sync folder keeps its content, whatever fails on the way.
pub guarded_move_file-Safe :
    {P : Bytes → FileData → Type 0} {e : Env} (from to : Bytes) (x : Expectation)
    → Safe P e (guarded_move_file from to x)
unfolding guarded_move_file
guarded_move_file-Safe {P} {e} from to x =
    Safe-bind _ _ (guarded_stat-Safe from x refuse_vanished)
      λ _. record { at = λ s c k. free_lem P e from to c s k }

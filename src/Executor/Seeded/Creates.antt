-- ===== src/Executor/Seeded/Creates.antt =====
-- internal/executor/executor.go: `seedOrphanCreates` seeds each create, one operation after
-- another.
use synckeeper.Base.{
  true, Option, none, some, List, [], ◌∷◌, Bytes, bytes_eq, ◌==◌, ◌≡◌, refl, sym, ◌∙◌, inl, inr,
  All, All-mono, arith, Bool-cases,
}
use synckeeper.Base.Dict
use synckeeper.Base.Dict.{Dict, lookup-insert}
use synckeeper.DriveClient.{is_not_found}
use synckeeper.DriveClient.Files.{File}
use synckeeper.Store.Types.{Db, PendingOp}
use synckeeper.Store.Exec.{
  Outside, Reply, reply, failed, ask, attempt, answered, caught, ◌>>=◌, raise, pure, World,
}
use synckeeper.Executor.Actions.{parent_dir}
use synckeeper.Executor.Recover.{Known, is_create, listing, list_once, seed_in, seed_one, seed_ops}
use synckeeper.Executor.Seeded.{
  IsListed, Grows, Grows-refl, Meets, Meets-pure, Meets-if, Meets-bind, Meets-kept, Meets-mono,
  Meets-from, IfOk,
}
use synckeeper.Executor.Seeded.Listings.{
  IsFolderAt, IsMirrored, IsSeeded, IsTracked, IsSound, seed_each-Meets,
}

answer_lem :
    (o : Outside) (parent : Bytes) (w : World) (r : Reply (List File))
    → o.list w.calls parent ≡ r
    → let z = list_once parent none o w in
      Grows o w.db z.1.db × IfOk o (λ fs d. IsListed o parent fs) z.0 z.1.db
unfolding list_once ◌>>=◌ attempt ask answered caught listing raise pure
answer_lem o parent w (reply fs) q = rw q (Grows-refl w.db, (w.calls, inl q))
answer_lem o parent w (failed f) q = elim (Bool-cases (is_not_found (some f))) [
  | inl b ↦ rw (q, b) (Grows-refl w.db, (w.calls, inr (refl, (f, q, b))))
  | inr b ↦ rw (q, b) (Grows-refl w.db, inr (w.calls, parent, f, q, b))
]

module _ (o : Outside) (base : Dict Bytes Bytes) where
  list_once-Meets :
      (parent : Bytes) (k : Known)
      → IsSound o base k
      → Meets o
          (λ _. Unit {0})
          (list_once parent (Dict.lookup parent k.listed))
          (λ fs d. IsListed o parent fs)
  unfolding list_once
  list_once-Meets parent k s = of (Dict.lookup parent k.listed) (λ fs q. s.listed parent fs q)
    where
      of :
          (v : Option (List File))
          → ((fs : List File) → v ≡ some fs → IsListed o parent fs)
          → Meets o (λ _. Unit {0}) (list_once parent v) (λ fs d. IsListed o parent fs)
      of (some fs) h = Meets-pure fs λ d p. h fs refl
      of none h = record { at = λ w p. answer_lem o parent w (o.list w.calls parent) refl }

  insert-IsSound :
      (parent : Bytes) (fs : List File) (k : Known) (paths : Dict Bytes Bytes)
      → IsListed o parent fs
      → IsSound o base k
      → IsTracked o base paths
      → IsSound o base (record { paths = paths; listed = Dict.insert parent fs k.listed })
  insert-IsSound parent fs k paths l s t = record {
    tracked = t;
    listed = λ g fs' q. elim (Bool-cases (g == parent)) [
      | inl b ↦ listed_here g fs' b q
      | inr b ↦ s.listed g fs' (sym (lookup-insert g parent fs k.listed ∙ rw b refl) ∙ q)
    ];
  }
    where
      listed_here :
          (g : Bytes) (fs' : List File)
          → (g == parent) ≡ true
          → Dict.lookup g (Dict.insert parent fs k.listed) ≡ some fs'
          → IsListed o g fs'
      listed_here g fs' b q =
          let p : some fs ≡ Dict.lookup g (Dict.insert parent fs k.listed) =
            sym (lookup-insert g parent fs k.listed ∙ rw b refl) in
          let e : fs' ≡ fs = ground (arith, p, q) in
          let e' : g ≡ parent = ground arith in rw (e, e') l

  -- The operation's folder, if it was known, was listed, and its children of the name are in the
  -- mirror.
  abbrev pub IsHandled : Db → PendingOp → Type 0
  IsHandled d op =
      is_create op ≡ true
      → (known : Bytes) → Dict.lookup (parent_dir op.rel_path) base ≡ some known
      → (p : Bytes) × IsFolderAt o (parent_dir op.rel_path) known p × IsSeeded o op.rel_path p d

  IsHandled-stays : (op : PendingOp) (d d' : Db) → Grows o d d' → IsHandled d op → IsHandled d' op
  IsHandled-stays op d d' g h c known q =
      let (p, k, (fs, l, a)) = h c known q in
      (p, k, (fs, l, All-mono _ _ fs (λ f m n. g.nodes f.id (m n)) a))

  seed_in-Meets :
      (op : PendingOp) (parent : Bytes) (k : Known)
      → IsSound o base k
      → Meets o
          (λ _. Unit {0})
          (seed_in op (some parent) k)
          (λ k' d. IsSound o base k' × IsSeeded o op.rel_path parent d)
  unfolding seed_in
  seed_in-Meets op parent k s =
      Meets-bind (λ fs d. IsListed o parent fs) _ _ (list_once-Meets parent k s)
        λ fs. Meets-from λ l.
          Meets-bind (λ paths d. IsTracked o base paths × All (IsMirrored o op.rel_path d) fs) _ _
            (seed_each-Meets o base op.rel_path parent fs l fs k.paths (λ f i. i) s.tracked)
            λ paths. Meets-pure _ λ d (t, a). (insert-IsSound parent fs k paths l s t, (fs, l, a))

  seed_one-Meets :
      (op : PendingOp) (k : Known)
      → IsSound o base k
      → Meets o (λ _. Unit {0}) (seed_one op k) (λ k' d. IsSound o base k' × IsHandled d op)
  unfolding seed_one seed_in
  seed_one-Meets op k s =
      Meets-if (is_create op) _ _
        (λ b. of (Dict.lookup (parent_dir op.rel_path) k.paths) (λ known q. s.tracked.at _ known q))
        (λ b. Meets-pure k λ d p. (s, λ c. absurd (ground (arith, b, c))))
    where
      of :
          (v : Option Bytes)
          → ((known : Bytes)
              → Dict.lookup (parent_dir op.rel_path) base ≡ some known
              → (p : Bytes) × (v ≡ some p) × IsFolderAt o (parent_dir op.rel_path) known p)
          → Meets o (λ _. Unit {0}) (seed_in op v k) (λ k' d. IsSound o base k' × IsHandled d op)
      of none h =
          Meets-pure k
            λ d p. (s, λ c known q. let (x, e, _) = h known q in absurd (ground (arith, e)))
      of (some parent) h =
          Meets-mono (λ _. Unit) _ _ (λ d p. p)
            (λ k' d (s', z).
              (s', λ c known q. let (x, e, y) = h known q in (parent, (ground (arith, e, y)), z)))
            (seed_in-Meets op parent k s)

  pub seed_ops-Meets :
      (ops : List PendingOp) (k : Known)
      → IsSound o base k
      → Meets o (λ _. Unit {0}) (seed_ops ops k) (λ k' d. All (IsHandled d) ops)
  unfolding seed_ops
  seed_ops-Meets [] k s = Meets-pure k λ d p. tt
  seed_ops-Meets (op ∷ ops) k s =
      Meets-bind (λ k' d. IsSound o base k' × IsHandled d op) _ _ (seed_one-Meets op k s)
        λ k'.
          Meets-mono _ _ _ (λ d p. p) (λ x d (a, h). (h, a))
            (Meets-kept (λ d. IsHandled d op) _ (IsHandled-stays op)
              (Meets-from λ s'. seed_ops-Meets ops k' s'))

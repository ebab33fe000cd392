-- ===== src/Executor/Recovered.antt =====
-- internal/executor/executor.go: what `CleanStaleState` leaves behind.
use synckeeper.Base.{
  Bool, true, false, some, List, [], ◌∷◌, Bytes, bytes_eq, ◌≡◌, refl, ◌⊎◌, inl, inr, In, All-In,
  arith, bytes_ltb, Bool-cases, sort_by, Any-sort_by, In-keep,
}
use synckeeper.Base.Dict
use synckeeper.Base.Dict.{Dict}
use synckeeper.Store.Types.{Db, Item, PendingOp}
use synckeeper.Store.Exec.{Result, ok, err, stuck, Outside, World, write, written, continue, ◌>>=◌}
use synckeeper.Store.Meta.{is_done}
use synckeeper.Store.Items.{all_items}
use synckeeper.Store.Ops.{stale_ops, clear_ops}
use synckeeper.Executor.Actions.{parent_dir}
use synckeeper.Executor.Apply.{ids_of_rows}
use synckeeper.Executor.Recover.{
  is_create, seed_orphan_creates, seed_any, seed_stale, recover_store,
}
use synckeeper.Executor.Seeded.{
  HasTrouble, Grows, IfOk, Meets, Meets-pure, Meets-query, Meets-bind, Meets-mono, Meets-from,
  Meets-with,
}
use synckeeper.Executor.Seeded.Listings.{IsFolderAt, IsSeeded, IsSound}
use synckeeper.Executor.Seeded.Creates.{IsHandled, seed_ops-Meets}

abbrev start_ids : Bytes → List Item → Dict Bytes Bytes
start_ids root items = ids_of_rows items (([], root) ∷ [])

-- The folder ids by path that the baseline has, the root's with them.
abbrev pub known_ids : Bytes → Db → Dict Bytes Bytes
known_ids root d = start_ids root (sort_by (λ a b. bytes_ltb a.rel_path b.rel_path) d.items)

start-IsSound :
    (o : Outside) (base : Dict Bytes Bytes) → IsSound o base (record { paths = base; listed = [] })
unfolding Dict.lookup
start-IsSound o base = record {
  tracked = record { at = λ rel known q. (known, q, inl refl) };
  listed = λ g fs q. absurd (ground (arith, q));
}

-- The operation's folder was listed, and its children of the name are in the mirror.
abbrev pub IsDone : Outside → PendingOp → Bytes → Db → Type 0
IsDone o op known d =
    (p : Bytes) × IsFolderAt o (parent_dir op.rel_path) known p × IsSeeded o op.rel_path p d

-- What a recovery leaves, after its success or failure.
abbrev pub IsRecovered : Outside → PendingOp → Bytes → Db → Bool → Db → Type 0
IsRecovered o op known d good d' =
    (d'.items ≡ d.items)
    × (d'.meta ≡ d.meta)
    × (((good ≡ false) × HasTrouble o × (d'.ops ≡ d.ops))
        ⊎ ((good ≡ true) × (d'.ops ≡ []) × IsDone o op known d'))

abbrev pub is_ok : {A : Type 0} → Result A → Bool
is_ok (ok a) = true
is_ok (err x) = false
is_ok stuck = false

module _ (o : Outside) (root : Bytes) (op : PendingOp) (known : Bytes)
    (c : is_create op ≡ true) where
  abbrev IsIn : Dict Bytes Bytes → Type 0
  IsIn ids = Dict.lookup (parent_dir op.rel_path) ids ≡ some known

  seed_orphan_creates-Meets :
      (stale : List PendingOp)
      → In op stale
      → Meets o
          (λ d. IsIn (known_ids root d))
          (seed_orphan_creates root stale)
          (λ _ d. IsDone o op known d)
  unfolding seed_orphan_creates all_items
  seed_orphan_creates-Meets stale i =
      Meets-bind (λ items d. IsIn (start_ids root items)) _ _ (Meets-query _ λ d q. q)
        λ items. Meets-from λ q.
          Meets-bind (λ _. IsDone o op known) _ _
            (Meets-mono (λ _. Unit {0}) _ _ (λ d p. p)
              (λ k d a. All-In (IsHandled o (start_ids root items) d) op stale a i c known q)
              (seed_ops-Meets o (start_ids root items) stale _ (start-IsSound o _)))
            λ k. Meets-pure tt λ d p. p

  seed_any-Meets :
      (stale : List PendingOp)
      → In op stale
      → Meets o (λ d. IsIn (known_ids root d)) (seed_any root stale) (λ _ d. IsDone o op known d)
  unfolding seed_any
  seed_any-Meets [] i = absurd i
  seed_any-Meets (x ∷ stale) i = seed_orphan_creates-Meets (x ∷ stale) i

  abbrev IsStale : Db → Type 0
  IsStale d = In op d.ops × (is_done op.op_state ≡ false) × IsIn (known_ids root d)

  seed_stale-Meets : Meets o IsStale (seed_stale root) (λ _ d. IsDone o op known d)
  unfolding seed_stale stale_ops
  seed_stale-Meets =
      Meets-bind (λ stale d. In op stale × IsIn (known_ids root d)) _ _
        (Meets-query _ λ d (i, n, q). (Any-sort_by _ _ _ (In-keep _ op d.ops i (rw n refl)), q))
        λ stale. Meets-with (seed_any-Meets stale)

  clear_lem :
      (d : Db) (w : World)
      → Grows o d w.db
      → IsDone o op known w.db
      → let z = clear_ops o w in IsRecovered o op known d (is_ok z.0) z.1.db
  unfolding clear_ops write written
  clear_lem d w g h = elim (Bool-cases (o.sql_fails w.calls)) [
    | inl b ↦ rw b (g.items, g.meta, inl (refl, inl (w.calls, b), g.ops))
    | inr b ↦ rw b (g.items, g.meta, inr (refl, refl, h))
  ]

  pub recover_store-IsRecovered :
      (w : World)
      → IsStale w.db
      → let z = recover_store root o w in IsRecovered o op known w.db (is_ok z.0) z.1.db
  unfolding recover_store ◌>>=◌
  recover_store-IsRecovered w h =
      let (g, k) = seed_stale-Meets.at w h in of (seed_stale root o w).0 (seed_stale root o w).1 g k
    where
      of :
          (r : Result Unit) (w' : World)
          → Grows o w.db w'.db
          → IfOk o (λ _. IsDone o op known) r w'.db
          → let z = continue r (λ _. clear_ops) o w' in
            IsRecovered o op known w.db (is_ok z.0) z.1.db
      of (ok a) w' g k = clear_lem w.db w' g k
      of (err x) w' g k = (g.items, g.meta, inl (refl, k, g.ops))
      of stuck w' g k = (g.items, g.meta, inl (refl, k, g.ops))

-- ===== src/RemoteDelta/Prune/Exact.antt =====
-- internal/remotedelta/remotedelta.go: `prune` keeps the rows that hang on the root, and no other.
use synckeeper.Base.{
  true, false, not, List, [], ◌∷◌, Bytes, bytes_eq, ◌==◌, keep, ◌≡◌, ◌≢◌, refl, sym, subst, ◌⊎◌,
  inl, inr, ◌↔◌, arith, In, In-keep, keep-In, Bool-cases,
}
use synckeeper.Base.Dict
use synckeeper.Base.Dict.{contains-In, In-contains}
use synckeeper.Store.Types.{Db, RemoteNode, empty_db}
use synckeeper.Store.Exec.{Outside, World, stuck}
use synckeeper.Store.Ensures.{
  Ensures, Post, Ensures-pure, Ensures-write, Ensures-bind, Ensures-mono, Ensures-each,
}
use synckeeper.Store.Total.{IsTotal, pure-IsTotal, query-IsTotal, write-IsTotal, >>=-IsTotal}
use synckeeper.Store.Reads.{all_remote_nodes_lem}
use synckeeper.Store.Nodes.{delete_remote_node, all_remote_nodes}
use synckeeper.RemoteDelta.Prune.{drop_unreached, drop_rest, reachable, prune}
use synckeeper.RemoteDelta.Prune.Reached.{Reaches, reachable_lem}

-- Nothing but unreached rows of the mirror is gone.
abbrev pub IsPruning : Bytes → Db → Db → Type 0
IsPruning root old d =
    (d ≡ record old { nodes = d.nodes })
    × ((n : RemoteNode) → In n old.nodes → Reaches old.nodes root n.file_id → In n d.nodes)
    × ((n : RemoteNode) → In n d.nodes → In n old.nodes)

abbrev pub IsPruned : Bytes → Db → Db → Type 0
IsPruned root old d =
    (d ≡ record old { nodes = d.nodes })
    × ((n : RemoteNode) → In n d.nodes ↔ (In n old.nodes × Reaches old.nodes root n.file_id))

module _ (root : Bytes) (old : Db) (r : List Bytes)
    (found : (id : Bytes) → In id r ↔ Reaches old.nodes root id) where
  abbrev Stage : List RemoteNode → Db → Type 0
  Stage todo d =
      IsPruning root old d × ((n : RemoteNode) → In n d.nodes → In n.file_id r ⊎ In n todo)

  drop_one :
      (n : RemoteNode) (todo : List RemoteNode) (d : Db)
      → Dict.contains n.file_id r ≡ false
      → Stage (n ∷ todo) d
      → Stage todo (record d { nodes = keep (λ m. not (m.file_id == n.file_id)) d.nodes })
  drop_one n todo d out ((same, all, old_row), known) = (
    (
      ground arith,
      (λ m i h. In-keep _ m d.nodes (all m i h) (elim (Bool-cases (m.file_id == n.file_id)) [
        | inl e ↦ absurd (ground (arith, In-contains m.file_id r ((found m.file_id).1 h)))
        | inr e ↦ ground arith
      ])),
      (λ m i. old_row m (keep-In _ m d.nodes i).0),
    ),
    (λ m i.
        let (i', t) = keep-In _ m d.nodes i in
        elim (known m i') [
          | inl k ↦ inl k
          | inr (inr k) ↦ inr k
          | inr (inl e) ↦ absurd (ground arith)
        ]),
  )

  pass_one :
      (n : RemoteNode) (todo : List RemoteNode) (d : Db)
      → Dict.contains n.file_id r ≡ true
      → Stage (n ∷ todo) d
      → Stage todo d
  pass_one n todo d e (p, known) = (
    p,
    (λ m i. elim (known m i) [
      | inl k ↦ inl k
      | inr (inr k) ↦ inr k
      | inr (inl q) ↦ inl (subst (λ x. In x.file_id r) (sym q) (contains-In n.file_id r e))
    ]),
  )

  drop_unreached-Stage :
      (todo : List RemoteNode)
      → Ensures (Stage todo) (drop_unreached r todo) (λ _. Stage []) (IsPruning root old)
  unfolding drop_unreached delete_remote_node
  drop_unreached-Stage [] = Ensures-pure tt (λ d h. h)
  drop_unreached-Stage (n ∷ todo) = elim (Bool-cases (Dict.contains n.file_id r)) [
    | inl e ↦ rw e (
        Ensures-mono _ (drop_unreached-Stage todo) (λ d h. pass_one n todo d e h) (λ a d h. h)
          (λ d h. h))
    | inr e ↦ rw e (
        Ensures-bind (λ _. Stage todo) _ _
          (Ensures-write _ (λ d d' h q. subst (Stage todo) (ground arith) (drop_one n todo d e h))
            (λ d h. h.0))
          (λ _. drop_unreached-Stage todo))
  ]

  drop_unreached-IsTotal : (todo : List RemoteNode) → IsTotal (drop_unreached r todo)
  unfolding drop_unreached delete_remote_node
  drop_unreached-IsTotal [] = pure-IsTotal tt
  drop_unreached-IsTotal (n ∷ todo) = elim (Bool-cases (Dict.contains n.file_id r)) [
    | inl e ↦ rw e (drop_unreached-IsTotal todo)
    | inr e ↦ rw e (>>=-IsTotal _ _ (write-IsTotal _) (λ _. drop_unreached-IsTotal todo))
  ]

  pub finished : (d : Db) → Stage [] d → IsPruned root old d
  finished d ((same, all, old_row), known) = (
    same,
    λ n. (
      (λ i. (old_row n i, elim (known n i) [ inl k ↦ (found n.file_id).0 k | inr k ↦ absurd k ])),
      (λ (i, h). all n i h),
    ),
  )

same-IsPruning : (root : Bytes) (old d : Db) → d ≡ old → IsPruning root old d
same-IsPruning root old d h = (ground arith, (λ n i k. ground arith), (λ n i. ground arith))

-- The ids found are a value of the database alone, so the rest of `prune` starts from them.
drop_rest-IsPruned :
    (root : Bytes) (old : Db)
    → Ensures
        (λ d. d ≡ old)
        (drop_rest (reachable old.nodes root) old.nodes)
        (λ _. IsPruned root old)
        (IsPruning root old)
unfolding drop_rest
drop_rest-IsPruned root old =
    let (r, e, found) = reachable_lem old.nodes root in
    rw e (
      Ensures-mono _ (drop_unreached-Stage root old r found old.nodes)
        (λ d h. (same-IsPruning root old d h, (λ n i. inr (ground arith))))
        (λ a d h. finished root old r found d h) (λ d h. h))

prune-IsPruned :
    (root : Bytes) (old : Db)
    → Ensures (λ d. d ≡ old) (prune root) (λ _. IsPruned root old) (IsPruning root old)
unfolding prune
prune-IsPruned root old =
    Ensures-bind (λ ns d. (d ≡ old) × (ns ≡ old.nodes)) _ _
      (Ensures-mono _ all_remote_nodes_lem (λ d h. h) (λ a d h. ground arith)
        (λ d h. same-IsPruning root old d h))
      λ ns. Ensures-each _ λ d h.
        Ensures-mono _
          (subst
            (λ xs.
              Ensures (λ x. x ≡ old) (drop_rest (reachable xs root) xs) (λ _. IsPruned root old)
                (IsPruning root old))
            (sym h.1) (drop_rest-IsPruned root old))
          (λ x k. ground (arith, h.0)) (λ a x k. k) (λ x k. k)

prune-IsTotal : (root : Bytes) → IsTotal (prune root)
unfolding prune drop_rest all_remote_nodes
prune-IsTotal root = >>=-IsTotal _ _ (query-IsTotal _) λ ns.
    let (r, e, found) = reachable_lem ns root in
    rw e (drop_unreached-IsTotal root (record empty_db { nodes = ns }) r found ns)

-- `prune` ends, whatever the mirror holds, cycles and repeated ids included. If it succeeds, the
-- mirror has just the rows that live rows join to the root, and the rest of the database is as it
-- was. If a statement fails, no row that hangs on the root is gone and none is new.
pub prune_exact :
    (root : Bytes) (o : Outside) (w : World)
    → ((prune root o w).0 ≢ stuck)
      × Post
          (λ _. IsPruned root w.db)
          (IsPruning root w.db)
          (prune root o w).0
          (prune root o w).1.db
prune_exact root o w = ((prune-IsTotal root).at o w, (prune-IsPruned root w.db).at o w refl)

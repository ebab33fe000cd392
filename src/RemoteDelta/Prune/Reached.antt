-- ===== src/RemoteDelta/Prune/Reached.antt =====
-- internal/remotedelta/remotedelta.go: what the search of `prune` finds.
use synckeeper.Base.{
  ℕ, zero, suc, ◌+◌, ◌≤◌, false, some, List, [], ◌∷◌, Bytes, bytes_eq, length, ◌≡◌, refl, subst,
  ◌⊎◌, inl, inr, ◌↔◌, arith, In, Any, length-keep, keep-In, In-keep, Any-In,
}
use synckeeper.Store.Types.{RemoteNode}
use synckeeper.RemoteDelta.Prune.Marks.{
  mark_each-keeps, mark_each-reached, mark_each-new, mark_each-measure, unmarked,
}
use synckeeper.RemoteDelta.Prune.{Search, children_of, mark_each, search_loop, reachable}

-- A live row hangs on `parent`, and its id is `id`.
abbrev pub IsChild : List RemoteNode → Bytes → Bytes → Type 0
IsChild nodes parent id =
    (n : RemoteNode) × In n nodes × (n.trashed ≡ false) × (n.parent_id ≡ parent) × (n.file_id ≡ id)

-- A chain of live rows joins the id to the root.
pub data Reaches (nodes : List RemoteNode) (root : Bytes) : Bytes → Type 0 where
  top : {id : Bytes} → IsChild nodes root id → Reaches nodes root id
  below :
      {parent id : Bytes}
      → Reaches nodes root parent
      → IsChild nodes parent id
      → Reaches nodes root id

module _ (nodes : List RemoteNode) (root : Bytes) where
  abbrev IsKnown : Bytes → Type 0
  IsKnown id = (id ≡ root) ⊎ Reaches nodes root id

  -- The children of an id that has been looked at are reached.
  abbrev IsClosedAt : List Bytes → Bytes → Type 0
  IsClosedAt reached id = (child : Bytes) → IsChild nodes id child → In child reached

  abbrev IsFrontier : Search → Type 0
  IsFrontier s =
      ((id : Bytes) → In id s.reached → Reaches nodes root id)
      × ((id : Bytes) → In id s.queue → IsKnown id)
      × ((id : Bytes) → (id ≡ root) ⊎ In id s.reached → In id s.queue ⊎ IsClosedAt s.reached id)

  kid-Reaches :
      (parent x : Bytes)
      → IsKnown parent
      → Any (λ n. n.file_id ≡ x) (children_of nodes parent)
      → Reaches nodes root x
  kid-Reaches parent x known h =
      let (n, m, e) = Any-In _ _ h in
      let (m', t) = keep-In _ n nodes m in
      let c : IsChild nodes parent x = (n, m', ground arith, ground arith, e) in
      elim known [ inl q ↦ top (subst (λ p. IsChild nodes p x) q c) | inr q ↦ below q c ]

  round-IsFrontier :
      (id : Bytes) (reached queue : List Bytes)
      → IsFrontier (record { reached = reached; queue = id ∷ queue })
      → IsFrontier (mark_each (children_of nodes id) (record { reached = reached; queue = queue }))
  round-IsFrontier id reached queue (sound, known, closed) =
      let kids = children_of nodes id in
      let s : Search = record { reached = reached; queue = queue } in
      (
        (λ x h. elim ((mark_each-new x kids s).0 h) [
          | inl a ↦ sound x a
          | inr (a, b) ↦ kid-Reaches id x (known id (inl refl)) a
        ]),
        (λ x h. elim ((mark_each-new x kids s).1 h) [
          | inl a ↦ known x (inr a)
          | inr a ↦ inr (kid-Reaches id x (known id (inl refl)) a)
        ]),
        (λ x h. look x (elim h [
          | inl a ↦ inl (closed x (inl a))
          | inr a ↦ elim ((mark_each-new x kids s).0 a) [
            | inl b ↦ inl (closed x (inr b))
            | inr (b, c) ↦ inr c
          ]
        ])),
      )
    where
      look :
          (x : Bytes)
          → (In x (id ∷ queue) ⊎ IsClosedAt reached x)
            ⊎ In x
                (mark_each
                  (children_of nodes id)
                  (record { reached = reached; queue = queue })).queue
          → In x
              (mark_each (children_of nodes id) (record { reached = reached; queue = queue })).queue
            ⊎ IsClosedAt
                (mark_each
                  (children_of nodes id)
                  (record { reached = reached; queue = queue })).reached
                x
      look x (inr h) = inl h
      look x (inl (inl (inr m))) = inl (
          (mark_each-keeps x (children_of nodes id) (record { reached = reached; queue = queue })).1
            m)
      look x (inl (inl (inl e))) = inr (λ child (n, m, t, p, i).
          subst
            (λ j.
              In j
                (mark_each (children_of nodes id)
                  (record { reached = reached; queue = queue })).reached)
            i
            (mark_each-reached (children_of nodes id) (record { reached = reached; queue = queue })
              n (In-keep _ n nodes m (ground arith))))
      look x (inl (inr c)) = inr (λ child k.
          (mark_each-keeps child (children_of nodes id)
              (record { reached = reached; queue = queue })).0
            (c child k))

  search_loop_lem :
      (fuel : ℕ) (reached queue : List Bytes)
      → IsFrontier (record { reached = reached; queue = queue })
      → length queue + unmarked reached nodes ≤ fuel
      → (r : List Bytes) × (search_loop fuel nodes reached queue ≡ some r)
        × ((id : Bytes) → In id r → Reaches nodes root id)
        × ((id : Bytes) → (id ≡ root) ⊎ In id r → IsClosedAt r id)
  unfolding search_loop
  search_loop_lem fuel reached [] (sound, known, closed) h =
      (reached, refl, sound, λ id k. elim (closed id k) [ inl x ↦ absurd x | inr x ↦ x ])
  search_loop_lem zero reached (id ∷ queue) f h = absurd (omega arith)
  search_loop_lem (suc fuel) reached (id ∷ queue) f h =
      let kids = children_of nodes id in
      let s : Search = record { reached = reached; queue = queue } in
      search_loop_lem fuel _ _ (round-IsFrontier id reached queue f)
        (omega (arith, mark_each-measure nodes kids s (λ n m. (keep-In _ n nodes m).0)))

  closed_Reaches :
      (r : List Bytes)
      → ((id : Bytes) → (id ≡ root) ⊎ In id r → IsClosedAt r id)
      → {id : Bytes} → Reaches nodes root id
      → In id r
  closed_Reaches r closed (top c) = closed root (inl refl) _ c
  closed_Reaches r closed (below q c) = closed _ (inr (closed_Reaches r closed q)) _ c

  -- The search ends, and finds the ids that a chain of live rows joins to the root.
  pub reachable_lem :
      (r : List Bytes) × (reachable nodes root ≡ some r)
      × ((id : Bytes) → In id r ↔ Reaches nodes root id)
  unfolding reachable
  reachable_lem =
      let (r, e, sound, closed) =
        search_loop_lem (length nodes + 1) [] (root ∷ [])
          (
            (λ id h. absurd h),
            (λ id h. elim h [ inl k ↦ inl k | inr x ↦ absurd x ]),
            (λ id h. inl h),
          )
          (omega (arith, length-keep _ nodes)) in
      (r, e, λ id. (sound id, closed_Reaches r closed))

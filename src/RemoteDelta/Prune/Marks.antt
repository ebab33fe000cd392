-- ===== src/RemoteDelta/Prune/Marks.antt =====
-- internal/remotedelta/remotedelta.go: what one round of the search of `prune` does.
use synckeeper.Base.{
  ℕ, ◌+◌, ◌≤◌, ◌<◌, false, not, List, [], ◌∷◌, Bytes, bytes_eq, keep, length, ◌≡◌, refl, sym, ◌⊎◌,
  inl, inr, arith, In, Any, Any-append_left, Any-append_right, Any-append_cases, Bool-cases,
  length-append,
}
use synckeeper.Base.Dict
use synckeeper.Base.Dict.{contains-In, In-contains}
use synckeeper.Store.Types.{RemoteNode}
use synckeeper.RemoteDelta.Prune.{Search, mark, mark_each}

mark-keeps :
    (x : Bytes) (n : RemoteNode) (s : Search)
    → (In x s.reached → In x (mark n s).reached) × (In x s.queue → In x (mark n s).queue)
unfolding mark
mark-keeps x n s = elim (Bool-cases (Dict.contains n.file_id s.reached)) [
  | inl e ↦ rw e ((λ h. h), (λ h. h))
  | inr e ↦ rw e (inr, (λ h. Any-append_left _ s.queue _ h))
]

mark-reached : (n : RemoteNode) (s : Search) → In n.file_id (mark n s).reached
unfolding mark
mark-reached n s = elim (Bool-cases (Dict.contains n.file_id s.reached)) [
  | inl e ↦ rw e (contains-In n.file_id s.reached e)
  | inr e ↦ rw e (inl refl)
]

-- What is new among the reached is in the queue, and is the row's id.
mark-new :
    (x : Bytes) (n : RemoteNode) (s : Search)
    → (In x (mark n s).reached → In x s.reached ⊎ ((n.file_id ≡ x) × In x (mark n s).queue))
      × (In x (mark n s).queue → In x s.queue ⊎ (n.file_id ≡ x))
unfolding mark
mark-new x n s = elim (Bool-cases (Dict.contains n.file_id s.reached)) [
  | inl e ↦ rw e (inl, inl)
  | inr e ↦ rw e (
    (λ h. elim h [ inl q ↦ inr (sym q, Any-append_right _ s.queue _ (inl q)) | inr q ↦ inl q ]),
    (λ h. elim (Any-append_cases _ s.queue _ h) [
      | inl q ↦ inl q
      | inr (inl q) ↦ inr (sym q)
      | inr (inr q) ↦ absurd q
    ]),
  )
]

pub mark_each-keeps :
    (x : Bytes) (kids : List RemoteNode) (s : Search)
    → (In x s.reached → In x (mark_each kids s).reached)
      × (In x s.queue → In x (mark_each kids s).queue)
unfolding mark_each
mark_each-keeps x [] s = ((λ h. h), (λ h. h))
mark_each-keeps x (n ∷ kids) s =
    let (r, q) = mark_each-keeps x kids (mark n s) in
    let (r', q') = mark-keeps x n s in ((λ h. r (r' h)), (λ h. q (q' h)))

pub mark_each-reached :
    (kids : List RemoteNode) (s : Search)
    → (n : RemoteNode) → In n kids
    → In n.file_id (mark_each kids s).reached
unfolding mark_each
mark_each-reached [] s n h = absurd h
mark_each-reached (k ∷ kids) s n (inr h) = mark_each-reached kids (mark k s) n h
mark_each-reached (k ∷ kids) s n (inl e) =
    (mark_each-keeps n.file_id kids (mark k s)).0 (rw e (mark-reached k s))

pub mark_each-new :
    (x : Bytes) (kids : List RemoteNode) (s : Search)
    → (In x (mark_each kids s).reached
        → In x s.reached ⊎ (Any (λ n. n.file_id ≡ x) kids × In x (mark_each kids s).queue))
      × (In x (mark_each kids s).queue → In x s.queue ⊎ Any (λ n. n.file_id ≡ x) kids)
unfolding mark_each
mark_each-new x [] s = (inl, inl)
mark_each-new x (n ∷ kids) s =
    let (r, q) = mark_each-new x kids (mark n s) in
    let (r', q') = mark-new x n s in
    (
      (λ h. elim (r h) [
        | inr (a, b) ↦ inr (inr a, b)
        | inl a ↦ elim (r' a) [
          | inl b ↦ inl b
          | inr (b, c) ↦ inr (inl b, (mark_each-keeps x kids (mark n s)).1 c)
        ]
      ]),
      (λ h. elim (q h) [
        | inr a ↦ inr (inr a)
        | inl a ↦ elim (q' a) [ inl b ↦ inl b | inr b ↦ inr (inl b) ]
      ]),
    )

-- The rows that are not reached yet.
abbrev pub unmarked : List Bytes → List RemoteNode → ℕ
unmarked reached nodes = length (keep (λ n. not (Dict.contains n.file_id reached)) nodes)

pub unmarked_le :
    (id : Bytes) (reached : List Bytes) (nodes : List RemoteNode)
    → unmarked (id ∷ reached) nodes ≤ unmarked reached nodes
unmarked_le id reached [] = omega arith
unmarked_le id reached (n ∷ nodes) = ground (arith, unmarked_le id reached nodes)

pub unmarked_lt :
    (n : RemoteNode) (reached : List Bytes) (nodes : List RemoteNode)
    → In n nodes
    → Dict.contains n.file_id reached ≡ false
    → unmarked (n.file_id ∷ reached) nodes < unmarked reached nodes
unmarked_lt n reached [] m e = absurd m
unmarked_lt n reached (k ∷ nodes) (inl q) e = ground (arith, unmarked_le n.file_id reached nodes)
unmarked_lt n reached (k ∷ nodes) (inr m) e = ground (arith, unmarked_lt n reached nodes m e)

abbrev pub measure : List RemoteNode → Search → ℕ
measure nodes s = length s.queue + unmarked s.reached nodes

mark-measure :
    (nodes : List RemoteNode) (n : RemoteNode) (s : Search)
    → In n nodes
    → measure nodes (mark n s) ≤ measure nodes s
unfolding mark
mark-measure nodes n s m = elim (Bool-cases (Dict.contains n.file_id s.reached)) [
  | inl e ↦ rw e (omega arith)
  | inr e ↦
      rw e
        (omega (arith, unmarked_lt n s.reached nodes m e, length-append s.queue (n.file_id ∷ [])))
]

pub mark_each-measure :
    (nodes kids : List RemoteNode) (s : Search)
    → ((n : RemoteNode) → In n kids → In n nodes)
    → measure nodes (mark_each kids s) ≤ measure nodes s
unfolding mark_each
mark_each-measure nodes [] s h = omega arith
mark_each-measure nodes (n ∷ kids) s h = omega (
  arith,
  mark_each-measure nodes kids (mark n s) (λ k m. h k (inr m)),
  mark-measure nodes n s (h n (inl refl)),
)

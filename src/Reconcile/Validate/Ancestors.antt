-- ===== src/Reconcile/Validate/Ancestors.antt =====
-- The strict ancestors of a rel_path, as `ValidateTransferStage` walks them.
use synckeeper.Base.{
  ℕ, zero, suc, ◌≤◌, ◌<◌, ◌≡◌, refl, ap, ◌≢◌, ◌⊎◌, inl, inr, true, none, some, List, [], ◌∷◌, ◌++◌,
  arith, if◌then◌else◌, ◌==◌, nat_eq, Bool-cases, Option-cases, length, drop, length-append, In,
  int_eq, Bytes, bytes_eq, has_prefix,
}
use synckeeper.Conflicts.{split_last}
use synckeeper.Reconcile.Index.{under}
use synckeeper.Reconcile.Paths.{under_split}

-- `for i := LastIndexByte(p, '/'); i > 0; i = LastIndexByte(p[:i], '/')` visits `p[:i]`.
unfoldable pub ancestors : ℕ → Bytes → List Bytes
unfolding split_last
ancestors zero p = []
ancestors (suc fuel) p = elim (split_last b'/' p) [
  | none ↦ []
  | some (a, _) ↦ if a == [] then [] else a ∷ ancestors fuel a
]

-- The split at the last slash is at the nearest ancestor.
split_last-under :
    (q p : Bytes)
    → under q p ≡ true
    → (a : Bytes) × (b : Bytes) × (split_last b'/' p ≡ some (a, b)) × ((q ≡ a) ⊎ (under q a ≡ true))
unfolding split_last under nat_eq
split_last-under [] [] h = cc
split_last-under [] (x ∷ p) h = elim (Option-cases (split_last b'/' p)) [
  | inl e ↦ ([], p, ground arith, inl refl)
  | inr ((a, b), e) ↦ (x ∷ a, b, ground arith, inr (ground arith))
]
split_last-under (y ∷ q) [] h = cc
split_last-under (y ∷ q) (x ∷ p) h =
    let (a, b, e, w) = split_last-under q p (ground arith) in
    (x ∷ a, b, ground arith, elim w [ inl i ↦ inl (ground arith) | inr i ↦ inr (ground arith) ])

under-split_last : (p a b : Bytes) → split_last b'/' p ≡ some (a, b) → under a p ≡ true
unfolding split_last under nat_eq
under-split_last [] a b h = cc
under-split_last (x ∷ p) a b h = elim (Option-cases (split_last b'/' p)) [
  | inl e ↦ ground arith
  | inr ((c, d), e) ↦ ground (arith, under-split_last p c d e)
]

under-length : (a p : Bytes) → under a p ≡ true → length a < length p
under-length a p h = omega (
  arith,
  ap length (under_split a p h),
  length-append a (b'/' ∷ []),
  length-append (a ++ b'/' ∷ []) (drop (length (a ++ b'/' ∷ [])) p),
)

-- Containment is transitive.
pub under_trans : (q a p : Bytes) → under q a ≡ true → under a p ≡ true → under q p ≡ true
unfolding under has_prefix
under_trans [] [] p h k = cc
under_trans [] (x ∷ a) [] h k = cc
under_trans [] (x ∷ a) (y ∷ p) h k = ground arith
under_trans (w ∷ q) [] p h k = cc
under_trans (w ∷ q) (x ∷ a) [] h k = cc
under_trans (w ∷ q) (x ∷ a) (y ∷ p) h k = ground (arith, under_trans q a p)

pub ancestors_complete :
    (fuel : ℕ) (q p : Bytes) → length p ≤ fuel → under q p ≡ true → q ≢ [] → In q (ancestors fuel p)
unfolding ancestors
ancestors_complete zero q p l h n = absurd (omega (arith, under-length q p h))
ancestors_complete (suc fuel) q p l h n =
    let (a, b, e, w) = split_last-under q p h in
    let small : length a ≤ fuel = omega (arith, under-length a p (under-split_last p a b e)) in
    rw (e, ancestors)
      (elim w [
        | inl i ↦ ground arith
        | inr i ↦ ground (arith, ancestors_complete fuel q a small i n, under-length q a i)
      ])

pub ancestors_sound :
    (fuel : ℕ) (q p : Bytes) → In q (ancestors fuel p) → (under q p ≡ true) × (q ≢ [])
unfolding ancestors
ancestors_sound zero q p m = absurd m
ancestors_sound (suc fuel) q p m = elim (Option-cases (split_last b'/' p)) [
  | inl e ↦ absurd (rw (e, ancestors) at m)
  | inr ((a, b), e) ↦ elim (Bool-cases (a == [])) [
    | inl z ↦ absurd (rw (e, z, ancestors) at m)
    | inr z ↦
        let inside = under-split_last p a b e in
        elim (let m' : (q ≡ a) ⊎ In q (ancestors fuel a) = ground arith in m') [
          | inl i ↦ (rw i inside, ground arith)
          | inr i ↦ let (u, n) = ancestors_sound fuel q a i in (under_trans q a p u inside, n)
        ]
  ]
]

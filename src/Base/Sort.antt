-- ===== src/Base/Sort.antt =====
-- Stable insertion sort by a strict test: `sort.SliceStable` and `slices.Sorted`.
use mathlib.Core.Path.{◌≡◌}
use mathlib.Core.Logic.{inl, inr}
use mathlib.Core.Bool.{Bool, true, false}
use mathlib.Core.List.{List, [], ◌∷◌, Perm}
use mathlib.Core.List.Perm
use synckeeper.Base.Tests.{if◌then◌else◌, Bool-cases}
use synckeeper.Base.Lists.{All, All-mono, Any}

module _ {A : Type 0} where
  -- In front of the first element that is not before it: equal elements keep their order.
  pub insert_by : (A → A → Bool) → A → List A → List A
  insert_by less x [] = x ∷ []
  insert_by less x (y ∷ ys) = if less y x then y ∷ insert_by less x ys else x ∷ y ∷ ys

  unfoldable pub sort_by : (A → A → Bool) → List A → List A
  unfolding insert_by
  sort_by less [] = []
  sort_by less (x ∷ xs) = insert_by less x (sort_by less xs)

  -- No later element is before an earlier one.
  abbrev pub Ordered : (A → A → Bool) → List A → Type 0
  Ordered less [] = Unit
  Ordered less (x ∷ xs) = All (λ y. less y x ≡ false) xs × Ordered less xs

  insert_by-perm : (less : A → A → Bool) (x : A) (xs : List A) → Perm (insert_by less x xs) (x ∷ xs)
  unfolding insert_by
  insert_by-perm less x [] = Perm.refl (x ∷ [])
  insert_by-perm less x (y ∷ ys) = elim (Bool-cases (less y x)) [
    | inl e ↦ rw e (Perm.trans (Perm.cons y (insert_by-perm less x ys)) (Perm.swap x y ys))
    | inr e ↦ rw e (Perm.refl (x ∷ y ∷ ys))
  ]

  pub sort_by-perm : (less : A → A → Bool) (xs : List A) → Perm (sort_by less xs) xs
  unfolding sort_by
  sort_by-perm less [] = Perm.refl []
  sort_by-perm less (x ∷ xs) =
      Perm.trans (insert_by-perm less x (sort_by less xs)) (Perm.cons x (sort_by-perm less xs))

  All-insert_by :
      (P : A → Type 0) (less : A → A → Bool) (x : A) (xs : List A)
      → P x
      → All P xs
      → All P (insert_by less x xs)
  unfolding insert_by
  All-insert_by P less x [] h hs = (h, hs)
  All-insert_by P less x (y ∷ ys) h (hy, hs) = elim (Bool-cases (less y x)) [
    | inl e ↦ rw e (hy, All-insert_by P less x ys h hs)
    | inr e ↦ rw e (h, (hy, hs))
  ]

  pub All-sort_by :
      (P : A → Type 0) (less : A → A → Bool) (xs : List A) → All P xs → All P (sort_by less xs)
  unfolding sort_by
  All-sort_by P less [] h = h
  All-sort_by P less (x ∷ xs) (h, hs) =
      All-insert_by P less x (sort_by less xs) h (All-sort_by P less xs hs)

  All-insert_by_inv :
      (P : A → Type 0) (less : A → A → Bool) (x : A) (xs : List A)
      → All P (insert_by less x xs)
      → P x × All P xs
  unfolding insert_by
  All-insert_by_inv P less x [] h = h
  All-insert_by_inv P less x (y ∷ ys) h = elim (Bool-cases (less y x)) [
    | inl e ↦
        let (hy, r) = rw e at h in let (hx, hs) = All-insert_by_inv P less x ys r in (hx, (hy, hs))
    | inr e ↦ let (hx, hs) = rw e at h in (hx, hs)
  ]

  Any-insert_by :
      (P : A → Type 0) (less : A → A → Bool) (x : A) (xs : List A)
      → Any P (x ∷ xs)
      → Any P (insert_by less x xs)
  unfolding insert_by
  Any-insert_by P less x [] h = h
  Any-insert_by P less x (y ∷ ys) h = elim (Bool-cases (less y x)) [
    | inl e ↦ rw e (elim h [
      | inl p ↦ inr (Any-insert_by P less x ys (inl p))
      | inr (inl q) ↦ inl q
      | inr (inr r) ↦ inr (Any-insert_by P less x ys (inr r))
    ])
    | inr e ↦ rw e h
  ]

  pub Any-sort_by :
      (P : A → Type 0) (less : A → A → Bool) (xs : List A) → Any P xs → Any P (sort_by less xs)
  unfolding sort_by
  Any-sort_by P less [] h = h
  Any-sort_by P less (x ∷ xs) (inl h) = Any-insert_by P less x (sort_by less xs) (inl h)
  Any-sort_by P less (x ∷ xs) (inr h) =
      Any-insert_by P less x (sort_by less xs) (inr (Any-sort_by P less xs h))

-- A strict weak order, in the two laws that sorting needs.
pub record IsOrder {A : Type 0} (less : A → A → Bool) : Type 0 where
  pub asymm : (x y : A) → less x y ≡ true → less y x ≡ false
  pub le_trans : (x y z : A) → less y x ≡ false → less z y ≡ false → less z x ≡ false

module _ {A : Type 0} (less : A → A → Bool) (o : IsOrder less) where
  insert_by-Ordered : (x : A) (xs : List A) → Ordered less xs → Ordered less (insert_by less x xs)
  unfolding insert_by
  insert_by-Ordered x [] h = (tt, tt)
  insert_by-Ordered x (y ∷ ys) (hy, hs) = elim (Bool-cases (less y x)) [
    | inl e ↦ rw e (
      All-insert_by (λ z. less z y ≡ false) less x ys (o.asymm y x e) hy,
      insert_by-Ordered x ys hs,
    )
    | inr e ↦ rw e ((e, All-mono _ _ ys (λ z h. o.le_trans x y z e h) hy), (hy, hs))
  ]

  pub sort_by-Ordered : (xs : List A) → Ordered less (sort_by less xs)
  unfolding sort_by
  sort_by-Ordered [] = tt
  sort_by-Ordered (x ∷ xs) = insert_by-Ordered x (sort_by less xs) (sort_by-Ordered xs)

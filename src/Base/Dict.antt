-- ===== src/Base/Dict.antt =====
-- Go maps as association lists, in an order that stands for Go's unspecified iteration order.
use mathlib.Core.Path.{◌≡◌, refl}
use mathlib.Core.Logic.{inl, inr}
use mathlib.Core.Bool.{Bool, true}
use mathlib.Core.Option.{Option, none, some}
use mathlib.Core.List.{List, [], ◌∷◌, map}
use native.Mathlib.Omega.{arith}
use synckeeper.Base.Tests.{Eq, ◌==◌, if◌then◌else◌, Bool-cases}
use synckeeper.Base.Lists.{In, any}

abbrev pub Dict : Type 0 → Type 0 → Type 0
Dict K V = List (K × V)

abbrev pub keys : {K V : Type 0} → Dict K V → List K
keys = map (λ (k, _). k)

abbrev pub contains : {K : Type 0} ⦃e : Eq K⦄ → K → List K → Bool
contains k = any (λ x. k == x)

module _ {K V : Type 0} ⦃e : Eq K⦄ where
  unfoldable pub lookup : K → Dict K V → Option V
  lookup k [] = none
  lookup k ((j, v) ∷ d) = if k == j then some v else lookup k d

  -- `d[k] = v`
  unfoldable pub insert : K → V → Dict K V → Dict K V
  insert k v [] = (k, v) ∷ []
  insert k v ((j, w) ∷ d) = if k == j then (k, v) ∷ d else (j, w) ∷ insert k v d

  -- `delete(d, k)`. A map has at most one entry of the key.
  unfoldable pub erase : K → Dict K V → Dict K V
  erase k [] = []
  erase k ((j, w) ∷ d) = let rest = erase k d in if k == j then rest else (j, w) ∷ rest

  -- No key is listed twice.
  abbrev pub NodupKeys : Dict K V → Type 0
  NodupKeys [] = Unit
  NodupKeys ((k, _) ∷ d) = (lookup k d ≡ none) × NodupKeys d

  pub lookup-insert :
      (j k : K) (v : V) (d : Dict K V)
      → lookup j (insert k v d) ≡ (if j == k then some v else lookup j d)
  unfolding insert lookup
  lookup-insert j k v [] = refl
  lookup-insert j k v (_ ∷ d) = ground (arith, lookup-insert j k v d)

  pub lookup-erase :
      (j k : K) (d : Dict K V) → lookup j (erase k d) ≡ (if j == k then none else lookup j d)
  unfolding erase lookup
  lookup-erase j k [] = ground arith
  lookup-erase j k (_ ∷ d) = ground (arith, lookup-erase j k d)

  pub lookup-In : (k : K) (v : V) (d : Dict K V) → lookup k d ≡ some v → In (k, v) d
  unfolding lookup
  lookup-In k v [] h = cc
  lookup-In k v ((j, w) ∷ d) h = ground (arith, lookup-In k v d)

  pub lookup_of_In :
      (k : K) (v : V) (d : Dict K V) → NodupKeys d → In (k, v) d → lookup k d ≡ some v
  unfolding lookup
  lookup_of_In k v [] u m = absurd m
  lookup_of_In k v ((j, w) ∷ d) (fresh, u) (inl e) = ground arith
  lookup_of_In k v ((j, w) ∷ d) (fresh, u) (inr m) = ground (arith, lookup_of_In k v d u m)

  pub lookup_absent : (k : K) (v : V) (d : Dict K V) → lookup k d ≡ none → ¬ In (k, v) d
  unfolding lookup
  lookup_absent k v [] h m = m
  lookup_absent k v ((j, w) ∷ d) h (inl e) = ground arith
  lookup_absent k v ((j, w) ∷ d) h (inr m) = ground (arith, lookup_absent k v d)

module _ {K : Type 0} ⦃e : Eq K⦄ where
  pub contains-In : (k : K) (xs : List K) → contains k xs ≡ true → In k xs
  contains-In k [] h = cc
  contains-In k (x ∷ xs) h = elim (Bool-cases (k == x)) [
    | inl t ↦ inl (ground arith)
    | inr t ↦ inr (contains-In k xs (ground arith))
  ]

  pub In-contains : (k : K) (xs : List K) → In k xs → contains k xs ≡ true
  In-contains k [] h = absurd h
  In-contains k (x ∷ xs) (inl t) = ground arith
  In-contains k (x ∷ xs) (inr h) = ground (arith, In-contains k xs h)

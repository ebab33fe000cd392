-- ===== src/Executor/Run/Caught.antt =====
-- internal/executor: which errors the code goes on from.
use synckeeper.Base.{
  true, Option, none, some, Bytes, ◌≡◌, refl, ◌⊎◌, inl, inr, Bool-cases, has_prefix,
}
use synckeeper.Names.{temp_prefix}
use synckeeper.Conflicts.{base_of}
use synckeeper.Disk.{Disk, remove}
use synckeeper.Executor.Run.{
  Env, State, Failure, is_endless, caught, attempt, give, on_disk, changed, called,
}
use synckeeper.Executor.Gate.{remove_own_temp}

-- Any result but one that does not end is caught.
pub caught-Cases :
    {A : Type 0} (r : Failure ⊎ A)
    → (caught r ≡ inr r)
      ⊎ ((f : Failure) × (caught r ≡ inl f) × (r ≡ inl f) × (is_endless f ≡ true))
caught-Cases (inr a) = inl refl
caught-Cases (inl f) = elim (Bool-cases (is_endless f)) [
  | inl b ↦ rw b (inr (f, refl, refl, b))
  | inr b ↦ rw b (inl refl)
]

-- The removal of a temporary file ends.
pub remove_own_temp-caught :
    (p : Bytes) (e : Env) (s : State)
    → (r : Failure ⊎ Unit {0}) × ((attempt (remove_own_temp p) e s).0 ≡ inr r)
unfolding remove_own_temp attempt on_disk changed give
remove_own_temp-caught p e s = elim (Bool-cases (has_prefix (base_of p) temp_prefix)) [
  | inr b ↦ rw b (_, refl)
  | inl b ↦ elim (Bool-cases (e.disk_fails s.disk_calls)) [
    | inl c ↦ rw (b, c) (_, refl)
    | inr c ↦ rw (b, c) (of (remove p s.disk))
  ]
]
  where
    of : (o : Option Disk) → (r : Failure ⊎ Unit {0}) × (caught (changed p o (called s)).0 ≡ inr r)
    of none = (_, refl)
    of (some d) = (_, refl)

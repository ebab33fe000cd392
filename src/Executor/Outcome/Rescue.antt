-- ===== src/Executor/Outcome/Rescue.antt =====
-- internal/executor/executor.go: what the search of `uniqueRescueDest` finds, and when it ends.
use synckeeper.Base.{
  ℕ, zero, suc, ◌+◌, ◌-◌, ◌<◌, Bool, true, false, ◌||◌, Option, none, some, ◌++◌, Bytes, codes, pos,
  length, take, ◌≡◌, refl, subst, ◌⊎◌, inl, inr, arith, if◌then◌else◌,
}
use synckeeper.Conflicts.{base_of, ext_of}
use synckeeper.Reconcile.Index.{itoa}
use synckeeper.Disk.{Disk, Node, lstat, is_blocked}
use synckeeper.Executor.Run.{
  Env, State, Failure, io, endless, give, stat_at, setting, attempt, called, caught, ◌>>=◌,
}
use synckeeper.Executor.Remove.{is_gone, numbered_free, unique_rescue_dest}

-- The call of `os.Lstat` says that the path is missing.
abbrev pub IsMissing : Env → ℕ → Disk → Bytes → Type 0
IsMissing e call d p = (e.disk_fails call ≡ false) × (is_blocked p d ≡ false) × (lstat p d ≡ none)

abbrev pub numbered : Bytes → Bytes → ℕ → Bytes
numbered stem ext i = stem ++ (codes " (" ++ (itoa (pos i) ++ (codes ")" ++ ext)))

-- The first missing name from a number and a call on, among so many; or none of them is missing, and
-- the fuel is used up.
abbrev pub IsFirst : (ℕ → ℕ → Type 0) → (ℕ → Bytes) → ℕ → ℕ → ℕ → (Failure ⊎ Bytes) → Type 0
IsFirst missing name n i call r =
    ((k : ℕ) × (k < n)
      × (r ≡ inr (name (i + k)))
      × missing (i + k) (call + k)
      × ((j : ℕ) → j < k → ¬ missing (i + j) (call + j)))
    ⊎ ((r ≡ inl endless) × ((j : ℕ) → j < n → ¬ missing (i + j) (call + j)))

abbrev pub IsRescued : Env → State → Bytes → (Failure ⊎ Bytes) → Type 0
IsRescued e s dest r =
    let ext = ext_of (base_of dest) in
    let name = numbered (take (length dest - length ext) dest) ext in
    ((r ≡ inr dest) × IsMissing e s.disk_calls s.disk dest)
    ⊎ ((¬ IsMissing e s.disk_calls s.disk dest)
        × IsFirst (λ i c. IsMissing e c s.disk (name i)) name e.rescue_tries 2 (s.disk_calls + 1) r)

answer_lem :
    (x y : Bool) (o : Option Node)
    → let r = if x || y then inl io else inr o in
      (caught r ≡ inr r)
      × (((is_gone r ≡ true) × (x ≡ false) × (y ≡ false) × (o ≡ none))
          ⊎ ((is_gone r ≡ false) × ¬ ((x ≡ false) × (y ≡ false) × (o ≡ none))))
answer_lem true y o = (refl, inr (refl, λ h. absurd (ground arith)))
answer_lem false true o = (refl, inr (refl, λ h. absurd (ground arith)))
answer_lem false false none = (refl, inl (refl, refl, refl, refl))
answer_lem false false (some n) = (refl, inr (refl, λ h. absurd (ground arith)))

module _ (missing : ℕ → ℕ → Type 0) (i c : ℕ) where
  first_lem : missing i c ≡ missing (i + 0) (c + 0)
  first_lem = let x : i + 0 ≡ i = omega arith in let y : c + 0 ≡ c = omega arith in rw (x, y) refl

  next_lem : (j : ℕ) → missing (i + 1 + j) (c + 1 + j) ≡ missing (i + suc j) (c + suc j)
  next_lem j =
      let x : i + 1 + j ≡ i + suc j = omega arith in
      let y : c + 1 + j ≡ c + suc j = omega arith in rw (x, y) refl

  none_lem :
      (n : ℕ)
      → ¬ missing i c
      → ((j : ℕ) → j < n → ¬ missing (i + 1 + j) (c + 1 + j))
      → (j : ℕ) → j < suc n
      → ¬ missing (i + j) (c + j)
  none_lem n h hs zero l = subst (λ t. ¬ t) first_lem h
  none_lem n h hs (suc j) l = subst (λ t. ¬ t) (next_lem j) (hs j (omega (arith, l)))

  later_lem :
      (name : ℕ → Bytes) (n : ℕ) (r : Failure ⊎ Bytes)
      → ¬ missing i c
      → IsFirst missing name n (i + 1) (c + 1) r
      → IsFirst missing name (suc n) i c r
  later_lem name n r h (inl (k, l, q, m, hs)) =
      let x : i + 1 + k ≡ i + suc k = omega arith in
      inl (
        suc k,
        omega (arith, l),
        subst (λ z. r ≡ inr (name z)) x q,
        subst (λ t. t) (next_lem k) m,
        none_lem k h hs,
      )
  later_lem name n r h (inr (q, hs)) = inr (q, none_lem n h hs)

numbered_free-IsFirst :
    (n i : ℕ) (stem ext : Bytes) (e : Env) (s : State)
    → IsFirst
        (λ i c. IsMissing e c s.disk (numbered stem ext i))
        (numbered stem ext)
        n
        i
        s.disk_calls
        (numbered_free n i stem ext e s).0
unfolding numbered_free stat_at attempt give ◌>>=◌
numbered_free-IsFirst zero i stem ext e s = inr (refl, λ j l. absurd (omega (arith, l)))
numbered_free-IsFirst (suc n) i stem ext e s =
    let cand = numbered stem ext i in
    let missing = λ (i c : ℕ). IsMissing e c s.disk (numbered stem ext i) in
    let (q, a) =
      answer_lem (e.disk_fails s.disk_calls) (is_blocked cand s.disk) (lstat cand s.disk) in
    elim a [
      | inl (g, x, y, o) ↦
          rw (q, g)
            (inl (
              0,
              omega arith,
              let z : i + 0 ≡ i = omega arith in rw z refl,
              subst (λ t. t) (first_lem missing i s.disk_calls) (x, y, o),
              λ j l. absurd (omega (arith, l)),
            ))
      | inr (g, m) ↦
          rw (q, g)
            (later_lem missing i s.disk_calls (numbered stem ext) n _ m
              (numbered_free-IsFirst n (i + 1) stem ext e (called s)))
    ]

-- The search gives the destination if it is missing, or else the first numbered name that is, and it
-- uses up its fuel only if so many names are not.
pub unique_rescue_dest-IsRescued :
    (dest : Bytes) (e : Env) (s : State) → IsRescued e s dest (unique_rescue_dest dest e s).0
unfolding unique_rescue_dest stat_at attempt setting give ◌>>=◌
unique_rescue_dest-IsRescued dest e s =
    let (q, a) =
      answer_lem (e.disk_fails s.disk_calls) (is_blocked dest s.disk) (lstat dest s.disk) in
    elim a [
      | inl (g, x, y, o) ↦ rw (q, g) (inl (refl, (x, y, o)))
      | inr (g, m) ↦ rw (q, g) (inr (m, numbered_free-IsFirst e.rescue_tries 2 _ _ e (called s)))
    ]

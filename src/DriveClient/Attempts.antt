-- ===== src/DriveClient/Attempts.antt =====
-- internal/driveclient/retry.go: which calls withRetry makes, and what it returns.
use synckeeper.Base.{
  true, Option, none, some, List, [], ◌≡◌, ◌⊎◌, inl, inr, ◌≢◌, ◌∷◌, Bool-cases, Option-cases, ◌==◌,
  nat_eq, ◌≤◌, ◌<◌, ◌+◌, ◌*◌, arith, ℕ, zero, suc,
}
use synckeeper.DriveClient.{Failure, Run, World, retryable, rounds, with_retry}

-- The n-th call met an error worth a retry.
abbrev pub MetRetryable : World → ℕ → Type 0
MetRetryable w n = (e : Failure) × (w.fn n ≡ some e) × (retryable e ≡ true)

-- The last call was the n-th, and `result` is what comes of it.
abbrev pub EndsWith : World → ℕ → Option Failure → Type 0
EndsWith w n result =
    ((result ≡ w.fn n) × ((n ≡ 5) ⊎ (¬ MetRetryable w n)))
    ⊎ ((n < 5) × MetRetryable w n × (result ≡ w.done n) × (result ≢ none))

abbrev pub IsRunFrom : World → ℕ → Run → Type 0
IsRunFrom w attempt r =
    (attempt ≤ r.calls)
    × (r.calls ≤ 5)
    × ((j : ℕ) → attempt ≤ j → j < r.calls → MetRetryable w j × (w.done j ≡ none))
    × EndsWith w r.calls r.result

-- A run that ends with its n-th call.
abbrev ended : ℕ → Option Failure → List ℕ → Run
ended n result delays = record { result = result; calls = n; delays = delays }

stop :
    (w : World) (n : ℕ) (result : Option Failure) (delays : List ℕ)
    → n ≤ 5
    → EndsWith w n result
    → IsRunFrom w n (record { result = result; calls = n; delays = delays })
stop w n result delays h end = (ground arith, h, (λ j a b. absurd (ground arith)), end)

-- One more retry in front.
retry :
    (w : World) (n : ℕ) (delays : List ℕ) (r : Run)
    → MetRetryable w n
    → w.done n ≡ none
    → IsRunFrom w (n + 1) r
    → IsRunFrom w n (record r { delays = delays })
retry w n delays r (x, f, t) d (lo, hi, mid, end) = (
  ground arith,
  hi,
  (λ j a b. elim (Bool-cases (j == n)) [
    | inl s ↦ ((x, ground arith, t), ground arith)
    | inr s ↦ mid j (ground arith) b
  ]),
  end,
)

rounds-IsRunFrom :
    (w : World) (fuel attempt backoff : ℕ)
    → fuel + attempt ≡ 6
    → 1 ≤ fuel
    → (r : Run) × (rounds w fuel attempt backoff ≡ some r) × IsRunFrom w attempt r
unfolding rounds
rounds-IsRunFrom w zero n backoff e h = absurd (ground arith)
rounds-IsRunFrom w (suc fuel) n backoff e h = elim (Option-cases (w.fn n)) [
  | inl f ↦ (
    ended n none [],
    ground arith,
    stop w n none [] (ground arith) (inl (ground arith, inr (λ (x, y, z). ground arith))),
  )
  | inr (x, f) ↦ elim (Bool-cases (retryable x)) [
    | inr t ↦ (
      ended n (some x) [],
      ground arith,
      stop w n (some x) [] (ground arith) (inl (ground arith, inr (λ (y, g, z). ground arith))),
    )
    | inl t ↦ elim (Bool-cases (n == 5)) [
      | inl q ↦ (
        ended n (some x) [],
        ground arith,
        stop w n (some x) [] (ground arith) (inl (ground arith, inl (ground arith))),
      )
      | inr q ↦ elim (Option-cases (w.done n)) [
        | inr (c, d) ↦ (
          ended n (some c) ((backoff + w.random n backoff) ∷ []),
          ground arith,
          stop w n (some c) ((backoff + w.random n backoff) ∷ []) (ground arith)
              (inr (ground arith, (x, f, t), ground arith, λ y. ground arith)),
        )
        | inl d ↦
            let (r, g, run) =
              rounds-IsRunFrom w fuel (n + 1) (backoff * 2) (ground arith) (ground arith) in
            (
              record r { delays = (backoff + w.random n backoff) ∷ r.delays },
              ground arith,
              retry w n ((backoff + w.random n backoff) ∷ r.delays) r (x, f, t) d run,
            )
      ]
    ]
  ]
]

-- `withRetry` returns after at most five calls: each but the last met a retryable error and a wait
-- that was not cut short; the result is the last call's, which was the fifth or met no retryable
-- error, or else the context's error from the wait after it.
pub with_retry_exact :
    (w : World) (base_backoff : ℕ)
    → (r : Run) × (with_retry w base_backoff ≡ some r) × IsRunFrom w 1 r
unfolding with_retry
with_retry_exact w base_backoff = rounds-IsRunFrom w 5 1 base_backoff (ground arith) (ground arith)

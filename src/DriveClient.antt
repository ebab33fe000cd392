-- ===== src/DriveClient.antt =====
-- internal/driveclient: which errors mean "gone" (errors.go), and the retry loop (retry.go).
pub mod Attempts
pub mod Files
use synckeeper.Base.{
  Bool, true, false, not, ◌&&◌, ◌||◌, Option, none, some, List, [], ◌∷◌, Bytes, codes, bytes_eq,
  nat_eq, ltb, ◌==◌, if◌then◌else◌, any, ℕ, zero, suc, ◌+◌, ◌*◌,
}

-- An error as `errors.Is` and `errors.As` see it: one that wraps ErrNotFound, one that wraps a
-- googleapi.Error with its code and the reasons of its Errors, and any other.
pub data Failure : Type 0 where
  not_found : Failure
  api : (code : ℕ) (reasons : List Bytes) → Failure
  other : Failure

unfoldable pub is_not_found : Option Failure → Bool
is_not_found none = false
is_not_found (some not_found) = true
is_not_found (some (api code reasons)) = code == 404
is_not_found (some other) = false

abbrev is_rate_limit : Bytes → Bool
is_rate_limit reason =
    reason == codes "rateLimitExceeded" || reason == codes "userRateLimitExceeded"

unfoldable pub retryable : Failure → Bool
retryable not_found = false
retryable (api code reasons) =
    if code == 429
    then true
    else if not (ltb code 500) && ltb code 600
    then true
    else if code == 403
    then any is_rate_limit reasons
    else false
retryable other = false

abbrev pub max_attempts : ℕ
max_attempts = 5

-- What a call met: its error if any, the calls of `fn` and the delays in their order.
pub record Run : Type 0 where
  pub result : Option Failure
  pub calls : ℕ
  pub delays : List ℕ

-- The outside of the loop: the outcome of the n-th call of `fn`, `rand.Int63n` before the n-th
-- wait, and what `ctx.Err()` returns if the context is done before the n-th wait ends.
pub record World : Type 0 where
  pub fn : ℕ → Option Failure
  pub random : ℕ → ℕ → ℕ
  pub done : ℕ → Option Failure

-- The rounds from the given attempt on; none if the fuel runs out.
unfoldable pub rounds : World → ℕ → ℕ → ℕ → Option Run
unfolding retryable
rounds w zero attempt backoff = none
rounds w (suc fuel) attempt backoff =
    let rest = rounds w fuel (attempt + 1) (backoff * 2) in
    let delay = backoff + w.random attempt backoff in
    elim (w.fn attempt) [
      | none ↦ some (record { result = none; calls = attempt; delays = [] })
      | some e ↦
          if not (retryable e) || attempt == max_attempts
          then some (record { result = some e; calls = attempt; delays = [] })
          else elim (w.done attempt) [
            | some c ↦ some (record { result = some c; calls = attempt; delays = delay ∷ [] })
            | none ↦ elim rest [
              | none ↦ none
              | some r ↦
                  some (record { result = r.result; calls = r.calls; delays = delay ∷ r.delays })
            ]
          ]
    ]

unfoldable pub with_retry : World → ℕ → Option Run
unfolding rounds
with_retry w base_backoff = rounds w max_attempts 1 base_backoff

-- ===== src/Tests/Drive.antt =====
-- Runs of internal/driveclient/retry.go, and its theorem applied to one.
use synckeeper.Base.{none, some, [], ◌∷◌, codes, ◌≡◌, refl, ◌==◌, nat_eq, bytes_eq, if◌then◌else◌}
use synckeeper.DriveClient.{Run, World, api, with_retry}
use synckeeper.DriveClient.Attempts.{IsRunFrom, with_retry_exact}

-- Drive answers 503, then that the quota is exceeded, then well.
abbrev busy : World
busy = record {
  fn = λ n.
      if n == 1
      then some (api 503 [])
      else if n == 2
      then some (api 403 (codes "userRateLimitExceeded" ∷ []))
      else none;
  random = λ n bound. n;
  done = λ n. none;
}

-- Two retries, with the doubled delay before the second.
busy_run :
    with_retry busy 1000 ≡ some (record { result = none; calls = 3; delays = 1001 ∷ 2002 ∷ [] })
unfolding with_retry nat_eq bytes_eq
busy_run = refl

-- A server that stays down is asked five times.
down_run :
    with_retry (record busy { fn = λ n. some (api 500 []) }) 1
    ≡ some (record { result = some (api 500 []); calls = 5; delays = 2 ∷ 4 ∷ 7 ∷ 12 ∷ [] })
unfolding with_retry nat_eq
down_run = refl

with_retry_exact_example : (r : Run) × (with_retry busy 1000 ≡ some r) × IsRunFrom busy 1 r
with_retry_exact_example = with_retry_exact busy 1000

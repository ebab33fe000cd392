-- ===== src/Store/Exec.antt =====
-- How the code meets the outside: every SQL statement and every call of Drive may fail, and what
-- was written before a failure stays written. A process that dies is one whose calls all fail from
-- some call on, so that what holds for every outside holds across a crash.
use synckeeper.Base.{ℕ, ◌+◌, Bool, Option, none, some, List, Bytes, ℤ, if◌then◌else◌, ◌⊎◌, inl, inr}
use synckeeper.DriveClient.{Failure}
use synckeeper.DriveClient.Files.{File, ChangePage}
use synckeeper.Store.Types.{Db}

-- statedb.ErrNotFound is `absent`; a changes page with no token to go on with is `no_token`.
pub data Error : Type 0 where
  sql : Error
  absent : Error
  drive : Failure → Error
  no_token : Error

-- `stuck` stands for a loop that has not ended within its fuel.
pub data Result (A : Type 0) : Type 0 where
  ok : A → Result A
  err : Error → Result A
  stuck : Result A

pub data Reply (A : Type 0) : Type 0 where
  reply : A → Reply A
  failed : Failure → Reply A

-- The SQLite library, the clock and driveclient.Client, by the number of the call.
pub record Outside : Type 0 where
  pub sql_fails : ℕ → Bool
  pub now : ℕ → ℤ
  pub get : ℕ → Bytes → Reply File
  pub list : ℕ → Bytes → Reply (List File)
  pub mkdir : ℕ → Bytes → Bytes → Reply File
  pub start_page_token : ℕ → Reply Bytes
  pub changes : ℕ → Bytes → Reply ChangePage

-- The database as the process sees it, and the calls made so far.
pub record World : Type 0 where
  pub db : Db
  pub calls : ℕ

abbrev pub Exec : Type 0 → Type 0
Exec A = Outside → World → Result A × World

abbrev pub tick : World → World
tick w = record w { calls = w.calls + 1 }

module _ {A : Type 0} where
  unfoldable pub pure : A → Exec A
  pure a o w = (ok a, w)

  unfoldable pub raise : Error → Exec A
  raise e o w = (err e, w)

  unfoldable pub out_of_fuel : Exec A
  out_of_fuel o w = (stuck, w)

  unfoldable pub answered : Reply A → World → Result A × World
  answered (reply a) w = (ok a, w)
  answered (failed f) w = (err (drive f), w)

  -- A call of Drive.
  unfoldable pub ask : (Outside → ℕ → Reply A) → Exec A
  unfolding answered
  ask call o w = answered (call o w.calls) (tick w)

  -- A SELECT, which may fail.
  unfoldable pub query : (Db → A) → Exec A
  query f o w = if o.sql_fails w.calls then (err sql, tick w) else (ok (f w.db), tick w)

  unfoldable pub caught : Result A → World → Result (Error ⊎ A) × World
  caught (ok a) w = (ok (inr a), w)
  caught (err e) w = (ok (inl e), w)
  caught stuck w = (stuck, w)

  -- The error as a value, for code that tests it.
  unfoldable pub attempt : Exec A → Exec (Error ⊎ A)
  unfolding caught
  attempt m o w = let (r, w') = m o w in caught r w'

-- A statement that writes; none is a violated constraint.
unfoldable pub written : Option Db → World → Result Unit × World
written none w = (err sql, w)
written (some d) w = (ok tt, record w { db = d })

unfoldable pub write : (Db → Option Db) → Exec Unit
unfolding written
write f o w = if o.sql_fails w.calls then (err sql, tick w) else written (f w.db) (tick w)

module _ {A B : Type 0} where
  abbrev pub continue : Result A → (A → Exec B) → Exec B
  continue (ok a) f o w = f a o w
  continue (err e) f o w = (err e, w)
  continue stuck f o w = (stuck, w)

  infixl 10 ◌>>=◌ ◌>>◌
  unfoldable pub ◌>>=◌ : Exec A → (A → Exec B) → Exec B
  ◌>>=◌ m f o w = let (r, w') = m o w in continue r f o w'

  abbrev pub ◌>>◌ : Exec A → Exec B → Exec B
  m >> n = m >>= λ _. n

module _ {A : Type 0} where
  -- The end of a transaction that began at the first database.
  unfoldable pub ended : Db → Result A → Exec A
  ended d (ok a) o w =
      if o.sql_fails w.calls then (err sql, record (tick w) { db = d }) else (ok a, tick w)
  ended d (err e) o w = (err e, record w { db = d })
  ended d stuck o w = (stuck, record w { db = d })

  -- `Tx`: begin, the statements, and commit, or rollback after an error.
  unfoldable pub tx : Exec A → Exec A
  unfolding ended
  tx m o w =
      if o.sql_fails w.calls
      then (err sql, tick w)
      else (let (r, w') = m o (tick w) in ended w.db r o w')

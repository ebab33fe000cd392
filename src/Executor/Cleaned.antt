-- ===== src/Executor/Cleaned.antt =====
-- internal/executor/executor.go: `CleanStaleState` as a whole.
use synckeeper.Base.{
  some, Bool, Bool-cases, true, false, List, [], ◌∷◌, Bytes, bytes_eq, ◌≡◌, refl, ap, ◌⊎◌, inl, inr,
  In, has_prefix,
}
use synckeeper.Base.Dict
use synckeeper.Names.{temp_prefix}
use synckeeper.Conflicts.{base_of}
use synckeeper.Disk.{FileData}
use synckeeper.Store.Types.{PendingOp}
use synckeeper.Store.Exec.{Result, ok, err, stuck}
use synckeeper.Store.Meta.{is_done}
use synckeeper.Executor.Run.{
  called, Env, State, Run, Failure, give, in_store, look, attempt, continue, result_of, ◌>>=◌,
}
use synckeeper.Executor.Run.Caught.{remove_own_temp-caught}
use synckeeper.Executor.Gate.{remove_own_temp}
use synckeeper.Executor.Actions.{parent_dir}
use synckeeper.Executor.Recover.{is_create, recover_store}
use synckeeper.Executor.Recovered.{known_ids, IsRecovered, is_ok, recover_store-IsRecovered}
use synckeeper.Executor.Cleanup.{orphan_temps, remove_each, clean_stale_state, or_nothing}
use synckeeper.Executor.Once.{Quiet, Quiet-bind, Quiet-attempt, quiet_rules, Rest}
use synckeeper.Executor.Safe.{IsFine, IsHeld, Safe, Safe-bind, Safe-attempt, safe_rules}
use synckeeper.Executor.Safe.Remove.{remove_own_temp-Safe}

-- The only files that go are temporary ones.
abbrev pub IsTemp : Bytes → FileData → Type 0
IsTemp p f = has_prefix (base_of p) temp_prefix ≡ true

remove_each-Safe : (e : Env) (ps : List Bytes) → Safe IsTemp e (remove_each ps)
unfolding remove_each
remove_each-Safe e [] = search safe_rules
remove_each-Safe e (p ∷ ps) =
    Safe-bind _ _ (Safe-attempt _ (remove_own_temp-Safe p λ f h. h)) λ r. remove_each-Safe e ps

clean_stale_state-Safe : (e : Env) → Safe IsTemp e clean_stale_state
unfolding clean_stale_state
clean_stale_state-Safe e = search (safe_rules, remove_each-Safe e)

-- However the calls of the clean-up after a crash end, each content that a file had on the disk or
-- in the bin is still there, or a temporary file of the program had it and was removed.
pub clean_stale_state-IsFine :
    (e : Env) (s : State) (c : Bytes)
    → s.replaced ≡ []
    → IsHeld c s
    → IsFine IsTemp c (clean_stale_state e s).1
clean_stale_state-IsFine e s c none_yet k = (clean_stale_state-Safe e).at s c (inl k)

remove_own_temp-Quiet : (p : Bytes) → Quiet (remove_own_temp p)
unfolding remove_own_temp
remove_own_temp-Quiet p = search quiet_rules

remove_each-Quiet : (ps : List Bytes) → Quiet (remove_each ps)
unfolding remove_each
remove_each-Quiet [] = search quiet_rules
remove_each-Quiet (p ∷ ps) =
    Quiet-bind _ _ (Quiet-attempt _ (remove_own_temp-Quiet p)) λ r. remove_each-Quiet ps

-- The walk of the disk always succeeds.
remove_each_ok : (ps : List Bytes) (e : Env) (s : State) → (remove_each ps e s).0 ≡ inr tt
unfolding remove_each ◌>>=◌ attempt give
remove_each_ok [] e s = refl
remove_each_ok (p ∷ ps) e s =
    let (r, q) = remove_own_temp-caught p e s in
    rw q (remove_each_ok ps e (remove_own_temp p e s).1)

abbrev pub succeeds : (Failure ⊎ Unit {0}) → Bool
succeeds (inl x) = false
succeeds (inr u) = true

abbrev sweep : Run Unit
sweep = attempt (look orphan_temps) >>= λ found. remove_each (or_nothing found)

sweep-Quiet : Quiet sweep
sweep-Quiet = search (quiet_rules, remove_each-Quiet)

sweep_ok : (e : Env) (s : State) → (sweep e s).0 ≡ inr tt
unfolding ◌>>=◌ attempt look
sweep_ok e s = elim (Bool-cases (e.disk_fails s.disk_calls)) [
  | inl b ↦ rw b (remove_each_ok [] e (called s))
  | inr b ↦ rw b (remove_each_ok (orphan_temps e s.disk) e (called s))
]

-- After a crash, let a create be in the journal and not done, whose folder the baseline has.
-- However the calls of the clean-up end, the baseline and the page token stay. Either it fails,
-- which takes a failed statement or a listing that fails otherwise than with a missing folder, and
-- the journal is as it was; or the journal is empty, the folder of the create (the known one, or
-- one listed under its name) was listed or is gone, and each of its children with the create's name
-- is in the mirror.
pub clean_stale_state-IsRecovered :
    (e : Env) (s : State) (op : PendingOp) (known : Bytes)
    → In op s.world.db.ops
    → is_done op.op_state ≡ false
    → is_create op ≡ true
    → Dict.lookup (parent_dir op.rel_path) (known_ids e.root_id s.world.db) ≡ some known
    → let z = clean_stale_state e s in
      IsRecovered e.outside op known s.world.db (succeeds z.0) z.1.world.db
unfolding clean_stale_state in_store ◌>>=◌
clean_stale_state-IsRecovered e s op known i n c q =
    let r = recover_store e.root_id e.outside s.world in
    of r.0 (record s { world = r.1 })
      (recover_store-IsRecovered e.outside e.root_id op known c s.world (i, n, q))
  where
    of :
        (r : Result (Unit {0})) (t : State)
        → IsRecovered e.outside op known s.world.db (is_ok r) t.world.db
        → let z = continue (result_of r) (λ _. sweep) e t in
          IsRecovered e.outside op known s.world.db (succeeds z.0) z.1.world.db
    of (ok a) t h = rw (sweep_ok e t, ap (λ (x : Rest). x.0) (sweep-Quiet.at e t)) h
    of (err x) t h = h
    of stuck t h = h

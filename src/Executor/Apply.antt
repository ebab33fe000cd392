-- ===== src/Executor/Apply.antt =====
-- internal/executor/executor.go: Apply, the run of a whole plan.
use synckeeper.Base.{
  ℕ, ◌+◌, Bool, true, false, not, ◌&&◌, Option, none, some, List, [], ◌∷◌, ◌++◌, Bytes, codes,
  bytes_eq, nat_eq, ◌==◌, map, if◌then◌else◌, ◌⊎◌, inl, inr,
}
use synckeeper.Base.Dict
use synckeeper.Base.Dict.{Dict}
use synckeeper.Reconcile.Types.{
  Action, Kind, mkdir_local, mkdir_remote, move_local, move_remote, conflict_backup, upload,
  update_remote, download, record_row, trash_remote, quarantine_local, forget,
}
use synckeeper.Reconcile.Validate.{PlanError, validate_transfer_stage}
use synckeeper.Store.Types.{Item, PendingOp, planned, in_progress}
use synckeeper.Store.Items.{all_items}
use synckeeper.Store.Ops.{add_ops, set_op_state, clear_ops}
use synckeeper.Executor.Run.{
  Env, Run, Failure, Memory, bad_plan, give, pure, in_store, setting, recall, remember, attempt,
  ◌>>=◌, ◌>>◌,
}
use synckeeper.Executor.Actions.{execute}

-- The text of a kind, as the journal has it.
unfoldable pub kind_name : Kind → Bytes
kind_name mkdir_local = codes "mkdir_local"
kind_name mkdir_remote = codes "mkdir_remote"
kind_name move_local = codes "move_local"
kind_name move_remote = codes "move_remote"
kind_name conflict_backup = codes "conflict_backup"
kind_name upload = codes "upload"
kind_name update_remote = codes "update_remote"
kind_name download = codes "download"
kind_name record_row = codes "record"
kind_name trash_remote = codes "trash_remote"
kind_name quarantine_local = codes "quarantine_local"
kind_name forget = codes "forget"

-- An error is the action's kind and path, and what failed.
pub record Summary : Type 0 where
  pub executed : ℕ
  pub failed : ℕ
  pub errors : List (Kind × Bytes × Failure)
  pub quarantine_fallbacks : ℕ

unfoldable pub is_protector : Kind → Bool
is_protector conflict_backup = true
is_protector move_local = true
is_protector move_remote = true
is_protector _ = false

unfoldable pub note_failure : Action → Run Unit
unfolding is_protector
note_failure a =
    if is_protector a.kind
    then remember (λ m. record m { failed_protectors = a.rel_path ∷ m.failed_protectors })
    else pure tt

unfoldable pub with_failure : Action → Failure → Summary → Summary
with_failure a f sum = record sum {
  failed = sum.failed + 1;
  errors = sum.errors ++ (a.kind, a.rel_path, f) ∷ [];
}

unfoldable pub count_result : Action → Summary → (Failure ⊎ Unit {0}) → Run Summary
unfolding note_failure with_failure
count_result a sum (inl f) = do note_failure a; pure (with_failure a f sum)
count_result a sum (inr _) = pure (record sum { executed = sum.executed + 1 })

-- `run`: the journal, and then the action.
unfoldable pub journalled : ℕ → Action → Run Unit
journalled op a = do in_store (λ e. set_op_state op in_progress); execute op a

unfoldable pub run_one : ℕ × Action → Summary → Run Summary
unfolding journalled count_result
run_one (op, a) sum = do r ← attempt (journalled op a); count_result a sum r

unfoldable pub run_each : List (ℕ × Action) → Summary → Run Summary
unfolding run_one
run_each [] sum = pure sum
run_each (x ∷ xs) sum = do sum' ← run_one x sum; run_each xs sum'

unfoldable pub is_transfer : Kind → Bool
is_transfer upload = true
is_transfer update_remote = true
is_transfer download = true
is_transfer record_row = true
is_transfer _ = false

-- The actions before the first that passes the test, and those from there on.
unfoldable pub split_at :
    (ℕ × Action → Bool) → List (ℕ × Action) → List (ℕ × Action) × List (ℕ × Action)
split_at p [] = ([], [])
split_at p (x ∷ xs) = let (a, b) = split_at p xs in if p x then ([], x ∷ xs) else (x ∷ a, b)

-- Before the transfers, the transfers, and after them. The workers take the transfers in some order.
unfoldable pub in_stages :
    (List (ℕ × Action) → List (ℕ × Action)) → List (ℕ × Action) → List (ℕ × Action)
unfolding split_at is_transfer
in_stages schedule work =
    let (before, rest) = split_at (λ (_, a). is_transfer a.kind) work in
    let (transfers, after) = split_at (λ (_, a). not (is_transfer a.kind)) rest in
    before ++ (schedule transfers ++ after)

unfoldable pub ids_of_rows : List Item → Dict Bytes Bytes → Dict Bytes Bytes
ids_of_rows [] ids = ids
ids_of_rows (it ∷ items) ids = ids_of_rows items (Dict.insert it.rel_path it.drive_file_id ids)

abbrev is_seed : Action → Kind → Bool
is_seed a record_row = a.is_dir && not (a.file_id == [])
is_seed a mkdir_local = a.is_dir && not (a.file_id == [])
is_seed a _ = false

unfoldable pub ids_of_plan : List Action → Dict Bytes Bytes → Dict Bytes Bytes
ids_of_plan [] ids = ids
ids_of_plan (a ∷ plan) ids =
    ids_of_plan plan (if is_seed a a.kind then Dict.insert a.rel_path a.file_id ids else ids)

unfoldable pub op_of : Env → Action → PendingOp
unfolding kind_name
op_of e a = record {
  id = 0;
  op_type = kind_name a.kind;
  rel_path = a.rel_path;
  file_id = a.file_id;
  payload = e.payload a;
  op_state = planned;
}

unfoldable pub zip : List ℕ → List Action → List (ℕ × Action)
zip [] plan = []
zip (id ∷ ids) [] = []
zip (id ∷ ids) (a ∷ plan) = (id, a) ∷ zip ids plan

abbrev pub no_work : Summary
no_work = record { executed = 0; failed = 0; errors = []; quarantine_fallbacks = 0 }

-- The end of a run: a journal without failures is cleared.
unfoldable pub finish_run : Summary → Run Summary
finish_run sum = do
  if sum.failed == 0 then in_store (λ e. clear_ops) else pure tt
  fell ← recall (λ m. m.quarantine_fell_to)
  pure (record sum { quarantine_fallbacks = fell })

unfoldable pub start_run : Env → List Item → List Action → Memory
unfolding ids_of_rows ids_of_plan
start_run e items plan = record {
  path_ids = ids_of_plan plan (ids_of_rows items (([], e.root_id) ∷ []));
  failed_protectors = [];
  bumped_versions = [];
  quarantine_fell_to = 0;
}

unfoldable pub apply_valid : (List (ℕ × Action) → List (ℕ × Action)) → List Action → Run Summary
unfolding in_stages start_run run_each finish_run
apply_valid schedule plan = do
  items ← in_store (λ e. all_items)
  start ← setting (λ e n. start_run e items plan)
  remember (λ m. start)
  ids ← in_store (λ e. add_ops (map (op_of e) plan))
  sum ← run_each (in_stages schedule (zip ids plan)) no_work
  finish_run sum

abbrev accepted : Option PlanError → Failure ⊎ Unit {0}
accepted none = inr tt
accepted (some x) = inl (bad_plan x)

unfoldable pub apply : (List (ℕ × Action) → List (ℕ × Action)) → List Action → Run Summary
unfolding apply_valid
apply schedule plan = do give (accepted (validate_transfer_stage plan)); apply_valid schedule plan

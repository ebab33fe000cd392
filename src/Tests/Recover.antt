-- ===== src/Tests/Recover.antt =====
-- Runs of the clean-up after a crash.
use synckeeper.Base.{[], ◌∷◌, codes, ◌≡◌, refl, inl, inr, pos, nat_eq, bytes_eq, sort_by, map}
use synckeeper.Base.Dict
use synckeeper.Conflicts.{dir_of, base_of}
use synckeeper.Store.Types.{PendingOp, empty_db, in_progress}
use synckeeper.Store.Exec.{reply, ◌>>=◌, query, attempt, ask, pure, write}
use synckeeper.Store.Items.{all_items}
use synckeeper.Store.Nodes.{upsert_remote_node}
use synckeeper.Store.Ops.{stale_ops, clear_ops}
use synckeeper.DriveClient.Files.{is_dir}
use synckeeper.Executor.Run.{Env, State}
use synckeeper.Executor.Apply.{kind_name, ids_of_rows}
use synckeeper.Executor.Cleanup.{clean_stale_state}
use synckeeper.Executor.Safe.{IsFine}
use synckeeper.Executor.Recover.{is_create, recover_store}
use synckeeper.Executor.Recovered.{IsRecovered}
use synckeeper.Executor.Cleaned.{
  IsTemp, succeeds, clean_stale_state-IsFine, clean_stale_state-IsRecovered,
}
use synckeeper.Tests.Execute.{env, calm, before, no_file}

-- A crashed run was uploading the file "a".
abbrev upload_a : PendingOp
upload_a = record {
  id = 1;
  op_type = codes "upload";
  rel_path = codes "a";
  file_id = [];
  payload = [];
  op_state = in_progress;
}

-- Drive has it already.
abbrev made : Env
made = record env { outside = record calm { list = λ n id. reply (no_file ∷ []) } }

abbrev crashed : State
crashed = record before {
  world = record { db = record empty_db { ops = upload_a ∷ [] }; calls = 0 };
}

clean_stale_state-IsRecovered_example :
    IsRecovered made.outside upload_a
      (codes "r")
      crashed.world.db
      (succeeds (clean_stale_state made crashed).0)
      (clean_stale_state made crashed).1.world.db
unfolding is_create kind_name Dict.lookup dir_of sort_by ids_of_rows bytes_eq nat_eq
clean_stale_state-IsRecovered_example =
    clean_stale_state-IsRecovered made crashed upload_a (codes "r") (inl refl) refl refl refl

clean_stale_state-IsFine_example : IsFine IsTemp (codes "old") (clean_stale_state made crashed).1
clean_stale_state-IsFine_example =
    clean_stale_state-IsFine made crashed (codes "old") refl
      (codes "/s/a", record { content = codes "old"; mtime_ns = pos 5 }, refl, inl (inr (inl refl)))

-- The upload's file is in the mirror.
seeded_run :
    map (λ n. n.file_id) (recover_store (codes "r") made.outside crashed.world).1.db.nodes
    ≡ codes "1" ∷ []
unfolding recover_store ◌>>=◌ stale_ops query sort_by all_items bytes_eq Dict.lookup Dict.insert
    dir_of base_of nat_eq attempt ask pure write upsert_remote_node is_dir ids_of_rows kind_name
    clear_ops
seeded_run = refl

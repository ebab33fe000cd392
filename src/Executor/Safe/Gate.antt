-- ===== src/Executor/Safe/Gate.antt =====
-- internal/executor/localwrite.go: what the gate may replace.
use synckeeper.Base.{
  ◌||◌, true, Option, some, List, [], ◌∷◌, Bytes, bytes_eq, int_eq, ◌≡◌, refl, ◌⊎◌, inl, inr, arith,
  Bool-cases, length,
}
use synckeeper.Base.Dict
use synckeeper.Disk.{Disk, Node, FileData, file, lstat, is_blocked, make_dir, rename, remove}
use synckeeper.Disk.Files.{rename-Spares, remove-Spares, make_dir-Spares}
use synckeeper.Reconcile.Types.{SubtreeEntry}
use synckeeper.Reconcile.Validate.Ancestors.{ancestors}
use synckeeper.Executor.Run.{Env, State, Failure, on_disk, called, stat_at, give, continue, ◌>>=◌}
use synckeeper.Executor.Gate.{
  Expectation, VanishPolicy, is_pinned, stat_verdict, guarded_stat, guarded_rename, make_one,
  mkdir_each, mkdir_all, guarded_trash_path, guarded_trash_dir, verify_subtree, read_file,
  guarded_remove_empty_dir,
}
use synckeeper.Executor.Safe.{IsFine, Safe, on_disk_lem, Safe-on_disk, safe_rules}

make_dir_over :
    (p : Bytes) (g : FileData) (d d' : Disk)
    → make_dir p (lstat p d) d ≡ some d'
    → lstat p d ≡ some (file g)
    → ⊥
unfolding make_dir
make_dir_over p g d d' r l = ground arith

pinned_lem :
    (x : Expectation) (v : VanishPolicy) (n : Option Node) (f : Option FileData) (g : FileData)
    → stat_verdict x v n ≡ inr f
    → n ≡ some (file g)
    → is_pinned x g ≡ true
unfolding stat_verdict
pinned_lem x v n f g r l = ground arith

module _ {P : Bytes → FileData → Type 0} {e : Env} where
  make_one-Safe : (p : Bytes) → Safe P e (make_one p)
  unfolding make_one
  make_one-Safe p = record {
    at = λ s c k.
        on_disk_lem e p (λ t d. make_dir p (lstat p d) d) s c
          (λ t d r. record { at = λ f h. inl (make_dir-Spares p s.disk d f r h) })
          (λ t d g r l. absurd (make_dir_over p g s.disk d r l)) k;
  }

  pub mkdir_each-Safe : (ps : List Bytes) → Safe P e (mkdir_each ps)
  unfolding mkdir_each
  mkdir_each-Safe [] = search safe_rules
  mkdir_each-Safe (p ∷ ps) = search (safe_rules, mkdir_each-Safe ps, make_one-Safe)

  pub mkdir_all-Safe : (p : Bytes) → Safe P e (mkdir_all p)
  unfolding mkdir_all
  mkdir_all-Safe p = mkdir_each-Safe (p ∷ ancestors (length p) p)

  pub guarded_stat-Safe :
      (p : Bytes) (x : Expectation) (v : VanishPolicy) → Safe P e (guarded_stat p x v)
  unfolding guarded_stat
  guarded_stat-Safe p x v = search safe_rules

  pub read_file-Safe : (p : Bytes) → Safe P e (read_file p)
  unfolding read_file
  read_file-Safe p = search safe_rules

  pub guarded_trash_path-Safe : (p : Bytes) (x : Expectation) → Safe P e (guarded_trash_path p x)
  unfolding guarded_trash_path
  guarded_trash_path-Safe p x = search (safe_rules, guarded_stat-Safe)

  pub guarded_trash_dir-Safe :
      (p : Bytes) (covered : Dict.Dict Bytes SubtreeEntry) → Safe P e (guarded_trash_dir p covered)
  unfolding guarded_trash_dir verify_subtree
  guarded_trash_dir-Safe p covered = search safe_rules

  -- The rename replaces only the file that the plan has pinned.
  pub guarded_rename-Safe :
      (from to : Bytes) (x : Expectation) (v : VanishPolicy)
      → ((g : FileData) → is_pinned x g ≡ true → P to g)
      → Safe P e (guarded_rename from to x v)
  unfolding guarded_rename guarded_stat ◌>>=◌ stat_at give
  guarded_rename-Safe from to x v h = record {
    at = λ s c k. elim (Bool-cases (e.disk_fails s.disk_calls || is_blocked to s.disk)) [
      | inl b ↦ rw b k
      | inr b ↦
          rw b (of (stat_verdict x v (lstat to s.disk)) (called s) c (pins (lstat to s.disk)) k)
    ];
  }
    where
      Pins : (Failure ⊎ Option FileData) → Option Node → Type 0
      Pins r n =
          (f : Option FileData)
          → r ≡ inr f
          → (g : FileData) → n ≡ some (file g)
          → is_pinned x g ≡ true

      pins : (n : Option Node) → Pins (stat_verdict x v n) n
      pins n f r g l = pinned_lem x v n f g r l

      of :
          (r : Failure ⊎ Option FileData) (s : State) (c : Bytes)
          → Pins r (lstat to s.disk)
          → IsFine P c s
          → IsFine P c (continue r (λ _. on_disk to (λ t d. rename from to d)) e s).1
      of (inl z) s c q k = k
      of (inr f) s c q k =
          on_disk_lem e to (λ t d. rename from to d) s c (λ t d r. rename-Spares from to s.disk d r)
            (λ t d g r l. h g (q f refl g l)) k

  pub guarded_remove_empty_dir-Safe :
      (p : Bytes) → ((g : FileData) → P p g) → Safe P e (guarded_remove_empty_dir p)
  unfolding guarded_remove_empty_dir
  guarded_remove_empty_dir-Safe p h =
      Safe-on_disk p (λ t d. remove p d) (λ t d d' r. remove-Spares p d d' r) h

-- ===== src/Root/Safe.antt =====
-- internal/root/root.go: no run of Resolve leaves the old baseline beside a new folder.
use synckeeper.Base.{
  ℕ, true, false, Option, none, some, List, [], ◌∷◌, Bytes, codes, bytes_eq, nat_eq, ◌==◌, ltb, ◌⊎◌,
  inl, inr, ◌≡◌, refl, arith, length,
}
use synckeeper.Base.Dict
use synckeeper.DriveClient.{is_not_found}
use synckeeper.DriveClient.Files.{File}
use synckeeper.Store.Types.{Db, root_folder_id, root_folder_name, page_token}
use synckeeper.Store.Exec.{
  Error, sql, absent, drive, no_token, Outside, World, pure, ask, attempt, ◌>>=◌, ◌>>◌,
}
use synckeeper.Store.Ensures.{
  Ensures, Post, Ensures-pure, Ensures-raise, Ensures-ask, Ensures-if, Ensures-tx, Ensures-mono,
  Ensures-write, Ensures-bind, Ensures-attempt,
}
use synckeeper.Store.Meta.{set_meta, delete_meta}
use synckeeper.Store.Reads.{get_meta-Keeps, item_count_lem}
use synckeeper.Store.Items.{reset_baseline}
use synckeeper.RemoteDelta.Walk.{walk_done}
use synckeeper.RemoteDelta.Walk.Keeps.{clear_remote_nodes-Keeps, full_walk-Keeps}
use synckeeper.RemoteDelta.Refresh.{force_full_walk}
use synckeeper.Root.{
  Found, identity_steps, commit_identity, keep_folder, create, find_or_create_folder, mkdir_unless,
  recorded_name, resolve_by_name, judge, resolve_stored, resolve,
}

-- The stored folder id, the baseline and the journal are those of `old`.
abbrev pub IsSame : Db → Db → Type 0
IsSame old d =
    (Dict.lookup root_folder_id d.meta ≡ Dict.lookup root_folder_id old.meta)
    × (d.items ≡ old.items)
    × (d.ops ≡ old.ops)

abbrev pub IsReset : Db → Type 0
IsReset d = (d.items ≡ []) × (d.ops ≡ [])

-- And the next cycle walks the folder from scratch.
abbrev pub IsUnwalked : Db → Type 0
IsUnwalked d = (d.items ≡ []) × (d.ops ≡ []) × (Dict.lookup walk_done d.meta ≡ none)

-- There was no baseline, and there is none.
abbrev pub WasEmpty : Db → Db → Type 0
WasEmpty old d = (old.items ≡ []) × (d.items ≡ [])

token_is_no_marker : (walk_done == page_token) ≡ false
unfolding bytes_eq nat_eq
token_is_no_marker = refl

id_is_no_name : (root_folder_id == root_folder_name) ≡ false
unfolding bytes_eq nat_eq
id_is_no_name = refl

no_items : {A : Type 0} (xs : List A) (n : ℕ) → ltb 0 n ≡ false → n ≡ length xs → xs ≡ []
no_items [] n z e = refl
no_items (x ∷ xs) n z e = absurd (ground arith)

force_full_walk-IsReset :
    (fuel : ℕ) (root : Bytes)
    → Ensures IsUnwalked (force_full_walk fuel root) (λ _. IsReset) IsUnwalked
unfolding force_full_walk set_meta
force_full_walk-IsReset fuel root =
    Ensures-bind (λ _. IsUnwalked) _ _ (Ensures-ask _ (λ a d h. h) (λ d h. h))
      λ token.
        Ensures-bind (λ _. IsUnwalked) _ _ (clear_remote_nodes-Keeps (λ d ns h. h))
          λ _.
            Ensures-bind (λ _. IsUnwalked) _ _ (full_walk-Keeps (λ d ns h. h) fuel (root ∷ []))
              λ _.
                Ensures-bind (λ _. IsUnwalked) _ _
                  (Ensures-write _
                    (λ d d' h e. ground (
                      arith,
                      token_is_no_marker,
                      Dict.lookup-insert walk_done page_token token d.meta,
                    ))
                    (λ d h. h))
                  λ _. Ensures-write _ (λ d d' h e. ground arith) (λ d h. h)

identity_steps-IsUnwalked :
    (f : File) (d : Db) → Ensures (λ x. x ≡ d) (identity_steps f true) (λ _. IsUnwalked) (λ _. Unit)
unfolding identity_steps set_meta delete_meta reset_baseline
identity_steps-IsUnwalked f d =
    Ensures-bind (λ _ _. Unit) _ _ (Ensures-write _ (λ x x' h e. tt) (λ x h. tt))
      λ _.
        Ensures-bind (λ _ _. Unit) _ _ (Ensures-write _ (λ x x' h e. tt) (λ x h. tt))
          λ _.
            Ensures-bind (λ _. IsReset) _ _
              (Ensures-bind (λ _ x. x.items ≡ []) _ _
                (Ensures-write _ (λ x x' h e. ground arith) (λ x h. tt))
                λ _. Ensures-write _ (λ x x' h e. ground arith) (λ x h. tt))
              λ _.
                Ensures-write _
                  (λ x x' h e. ground (arith, Dict.lookup-erase walk_done walk_done x.meta))
                  (λ x h. tt)

-- What a run that began in `old` may leave, and what it leaves with its result.
abbrev pub IsSafe : Db → Db → Type 0
IsSafe old d = IsSame old d ⊎ (IsUnwalked d ⊎ WasEmpty old d)

abbrev pub IsFound : Db → Found → Db → Type 0
IsFound old r d =
    ((r.created ≡ false) × IsSame old d)
    ⊎ ((r.created ≡ true) × IsReset d)
    ⊎ ((r.created ≡ false) × WasEmpty old d)

module _ (old : Db) where
  replace :
      (f : File) (fuel : ℕ)
      → Ensures
          (IsSame old)
          (do
            commit_identity f true
            force_full_walk fuel f.id
            pure (record { id = f.id; name = f.name; created = true; renamed = false }))
          (IsFound old)
          (IsSafe old)
  unfolding commit_identity
  replace f fuel =
      Ensures-bind (λ _. IsUnwalked) _ _
        (Ensures-tx _ (λ d h. identity_steps-IsUnwalked f d) (λ d h. inl h))
        λ _.
          Ensures-bind (λ _. IsReset) _ _
            (Ensures-mono _ (force_full_walk-IsReset fuel f.id) (λ d h. h) (λ a d h. h)
              (λ d h. inr (inl h)))
            λ _. Ensures-pure _ (λ d h. inr (inl (refl, h)))

  create-IsFound :
      (fuel : ℕ) (name : Bytes) → Ensures (IsSame old) (create fuel name) (IsFound old) (IsSafe old)
  unfolding create
  create-IsFound fuel name =
      Ensures-bind (λ _. IsSame old) _ _ (Ensures-ask _ (λ a d h. h) (λ d h. inl h))
        λ f. replace f fuel

  set_name-IsSame :
      (name : Bytes)
      → Ensures (IsSame old) (set_meta root_folder_name name) (λ _. IsSame old) (IsSafe old)
  unfolding set_meta
  set_name-IsSame name =
      Ensures-write _
        (λ d d' h e.
          ground
            (arith, id_is_no_name, Dict.lookup-insert root_folder_id root_folder_name name d.meta))
        (λ d h. inl h)

  recorded_name-IsSame :
      (got : Error ⊎ Bytes)
      → Ensures (IsSame old) (recorded_name got) (λ _. IsSame old) (IsSafe old)
  unfolding recorded_name
  recorded_name-IsSame (inr name) = Ensures-pure name (λ d h. h)
  recorded_name-IsSame (inl absent) = Ensures-pure [] (λ d h. h)
  recorded_name-IsSame (inl sql) = Ensures-raise sql (λ d h. inl h)
  recorded_name-IsSame (inl (drive f)) = Ensures-raise (drive f) (λ d h. inl h)
  recorded_name-IsSame (inl no_token) = Ensures-raise no_token (λ d h. inl h)

  keep_folder-IsFound : (f : File) → Ensures (IsSame old) (keep_folder f) (IsFound old) (IsSafe old)
  unfolding keep_folder
  keep_folder-IsFound f =
      Ensures-bind (λ _. IsSame old) _ _
        (Ensures-attempt _ (get_meta-Keeps root_folder_name) (λ a d h. h) (λ x d h. h)
          (λ d h. inl h))
        λ got.
          Ensures-bind (λ _. IsSame old) _ _ (recorded_name-IsSame got)
            λ recorded.
              Ensures-if (recorded == f.name) _ _ (λ _. Ensures-pure _ (λ d h. inl (refl, h)))
                (λ _.
                  Ensures-bind (λ _. IsSame old) _ _ (set_name-IsSame f.name)
                    λ _. Ensures-pure _ (λ d h. inl (refl, h)))

  mkdir_unless-IsSame :
      (f : Option File) (parent name : Bytes)
      → Ensures (IsSame old) (mkdir_unless f parent name) (λ _. IsSame old) (IsSafe old)
  unfolding mkdir_unless
  mkdir_unless-IsSame (some f) parent name = Ensures-pure f (λ d h. h)
  mkdir_unless-IsSame none parent name = Ensures-ask _ (λ a d h. h) (λ d h. inl h)

  find_or_create_folder-IsSame :
      (parent name : Bytes)
      → Ensures (IsSame old) (find_or_create_folder parent name) (λ _. IsSame old) (IsSafe old)
  unfolding find_or_create_folder
  find_or_create_folder-IsSame parent name =
      Ensures-bind (λ _. IsSame old) _ _ (Ensures-ask _ (λ a d h. h) (λ d h. inl h))
        λ children. mkdir_unless-IsSame _ parent name

  -- With no row counted, the id is stored and nothing else is at stake.
  adopt :
      (f : File)
      → Ensures
          (λ d. IsSame old d × (d.items ≡ []))
          (commit_identity f false)
          (λ _. WasEmpty old)
          (IsSafe old)
  unfolding commit_identity identity_steps set_meta
  adopt f =
      Ensures-tx _
        (λ d h.
          Ensures-bind (λ _. WasEmpty old) _ _
            (Ensures-write _ (λ x x' k e. ground (arith, h.1)) (λ x k. tt))
            λ _.
              Ensures-bind (λ _. WasEmpty old) _ _
                (Ensures-write _ (λ x x' k e. ground arith) (λ x k. tt))
                λ _. Ensures-pure tt (λ x k. k))
        (λ d h. inl h.0)

  resolve_by_name-IsFound :
      (fuel : ℕ) (name : Bytes)
      → Ensures (IsSame old) (resolve_by_name fuel name) (IsFound old) (IsSafe old)
  unfolding resolve_by_name
  resolve_by_name-IsFound fuel name =
      Ensures-bind (λ _. IsSame old) _ _ (find_or_create_folder-IsSame (codes "root") name)
        λ f.
          Ensures-bind (λ n d. IsSame old d × (n ≡ length d.items)) _ _
            (Ensures-mono _ item_count_lem (λ d h. h) (λ a d h. h) (λ d h. inl h))
            λ n.
              Ensures-if (ltb 0 n) _ _
                (λ _. Ensures-mono _ (replace f fuel) (λ d h. h.0) (λ a d h. h) (λ d h. h))
                (λ z.
                  Ensures-bind (λ _. WasEmpty old) _ _
                    (Ensures-mono _ (adopt f) (λ d h. (h.0, no_items d.items n z h.1)) (λ a d h. h)
                      (λ d h. h))
                    λ _. Ensures-pure _ (λ d h. inr (inr (refl, h))))

  judge-IsFound :
      (fuel : ℕ) (name : Bytes) (got : Error ⊎ File)
      → Ensures (IsSame old) (judge fuel name got) (IsFound old) (IsSafe old)
  unfolding judge
  judge-IsFound fuel name (inr f) =
      Ensures-if _ _ _ (λ _. keep_folder-IsFound f) (λ _. create-IsFound fuel name)
  judge-IsFound fuel name (inl (drive x)) =
      Ensures-if (is_not_found (some x)) _ _ (λ _. create-IsFound fuel name)
        (λ _. Ensures-raise (drive x) (λ d h. inl h))
  judge-IsFound fuel name (inl sql) = Ensures-raise sql (λ d h. inl h)
  judge-IsFound fuel name (inl absent) = Ensures-raise absent (λ d h. inl h)
  judge-IsFound fuel name (inl no_token) = Ensures-raise no_token (λ d h. inl h)

  resolve_stored-IsFound :
      (fuel : ℕ) (name : Bytes) (stored : Error ⊎ Bytes)
      → Ensures (IsSame old) (resolve_stored fuel name stored) (IsFound old) (IsSafe old)
  unfolding resolve_stored
  resolve_stored-IsFound fuel name (inr id) =
      Ensures-if (id == []) _ (do got ← attempt (ask (λ o n. o.get n id)); judge fuel name got)
        (λ _. resolve_by_name-IsFound fuel name)
        (λ _.
          Ensures-bind (λ _. IsSame old) _ _
            (Ensures-attempt {R = λ _. IsSame old} {F = IsSame old} _
              (Ensures-ask (λ o n. o.get n id) (λ a d h. h) (λ d h. h)) (λ a d h. h) (λ x d h. h)
              (λ d h. inl h))
            λ got. judge-IsFound fuel name got)
  resolve_stored-IsFound fuel name (inl e) = resolve_by_name-IsFound fuel name

  resolve-IsFound :
      (fuel : ℕ) (name : Bytes)
      → Ensures (IsSame old) (resolve fuel name) (IsFound old) (IsSafe old)
  unfolding resolve
  resolve-IsFound fuel name =
      Ensures-bind (λ _. IsSame old) _ _
        (Ensures-attempt _ (get_meta-Keeps root_folder_id) (λ a d h. h) (λ x d h. h) (λ d h. inl h))
        λ stored. resolve_stored-IsFound fuel name stored

-- However the calls of Drive and of the database end, also if all fail from some call on: a run of
-- Resolve that returns leaves the folder id, the baseline and the journal as they were, or an empty
-- baseline and journal and reports a created folder, or an empty baseline where it was empty. A run
-- that fails or is stuck leaves them as they were, or an empty baseline and journal with no marker of a walk, or
-- an empty baseline where it was empty.
pub resolve-IsSafe :
    (fuel : ℕ) (name : Bytes) (o : Outside) (w : World)
    → Post (IsFound w.db) (IsSafe w.db) (resolve fuel name o w).0 (resolve fuel name o w).1.db
resolve-IsSafe fuel name o w = (resolve-IsFound w.db fuel name).at o w (refl, refl, refl)

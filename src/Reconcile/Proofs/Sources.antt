-- ===== src/Reconcile/Proofs/Sources.antt =====
-- The sources of local moves that pass 1 hands to pass 2.
use synckeeper.Base.{
  ◌≡◌, refl, ◌⊎◌, inl, inr, false, Option, none, some, List, [], ◌∷◌, ◌++◌, arith, ◌==◌, nat_eq,
  Bool-cases, All, In, All-append, All-In, All-of_In, All-sort_by, int_eq, Bytes, bytes_eq,
}
use synckeeper.Base.Dict
use synckeeper.Base.Dict.{Dict}
use synckeeper.Reconcile.Types.{BaseItem, LocalItem, RemoteItem, shadowed_file, unreadable_file}
use synckeeper.Reconcile.Index.{RemoteRef, sorted_rows, local_at, rem_by_id, pair_key}
use synckeeper.Reconcile.DirMoves.{get_list}
use synckeeper.Reconcile.Draft.{MoveSrc, nothing, Scene, rewrite, rewrite_ld, skipped}
use synckeeper.Reconcile.Plan.Files.{
  local_gone, remote_gone, both_alive, conflict, decide, file_row, file_rows,
}
use synckeeper.Reconcile.Plan.News.{add_sources}
use synckeeper.Reconcile.Plan.{after_files}

-- The id is neither shadowed on Drive nor under an unreadable local directory.
abbrev pub IsSeen : Scene → BaseItem → Type 0
IsSeen s b =
    (Dict.contains b.file_id s.input.shadowed_remote ≡ false)
    × (Dict.contains b.file_id s.input.unreadable_local ≡ false)

-- A file that is gone locally while Drive holds it unchanged, at the path the plan expects.
pub record IsSource (s : Scene) (src : MoveSrc) : Type 0 where
  pub ref : RemoteRef
  pub tracked : In (src.path, src.row) s.input.base
  pub is_file : src.row.is_dir ≡ false
  pub seen : IsSeen s src.row
  pub gone : local_at s.input (rewrite_ld s src.path) ≡ none
  pub found : rem_by_id s.input src.row.file_id ≡ some ref
  pub unchanged : ref.item.md5 ≡ src.row.drive_md5
  pub unmoved : rewrite_ld s ref.path ≡ rewrite s src.path

sorted_rows-All :
    {V : Type 0} (P : Bytes × V → Type 0) (d : Dict Bytes V) → All P d → All P (sorted_rows d)
unfolding sorted_rows
sorted_rows-All P d h = All-sort_by P _ d h

pub sorted_rows-In : {V : Type 0} (d : Dict Bytes V) → All (λ r. In r d) (sorted_rows d)
sorted_rows-In d = sorted_rows-All (λ r. In r d) d (All-of_In _ d (λ r m. m))

module _ (s : Scene) where
  local_gone-sources :
      (p : Bytes) (b : BaseItem) (ra : RemoteRef)
      → ((local_gone s p b ra).sources ≡ [])
        ⊎ (((local_gone s p b ra).sources ≡ record { path = p; row = b } ∷ [])
            × (ra.item.md5 ≡ b.drive_md5)
            × (rewrite_ld s ra.path ≡ rewrite s p))
  unfolding local_gone conflict
  local_gone-sources p b ra = ground arith

  both_alive-sources :
      (p : Bytes) (b : BaseItem) (loc : LocalItem) (ra : RemoteRef)
      → (both_alive s p b loc ra).sources ≡ []
  unfolding both_alive conflict
  both_alive-sources p b loc ra = ground arith

  remote_gone-sources :
      (at : Bytes) (b : BaseItem) (loc : LocalItem) (fresh : Option RemoteItem)
      → (remote_gone s at b loc fresh).sources ≡ []
  unfolding remote_gone conflict
  remote_gone-sources at b loc none = ground arith
  remote_gone-sources at b loc (some r) = ground arith

  decide-sources :
      (p : Bytes) (b : BaseItem)
      → In (p, b) s.input.base
      → b.is_dir ≡ false
      → IsSeen s b
      → (l : Option LocalItem) (r : Option RemoteRef) → local_at s.input (rewrite_ld s p) ≡ l
      → rem_by_id s.input b.file_id ≡ r
      → All (IsSource s) (decide s p b l r).sources
  unfolding decide
  decide-sources p b m f v none none el er = tt
  decide-sources p b m f v none (some ra) el er = elim (local_gone-sources p b ra) [
    | inl e ↦ rw e tt
    | inr (e, c, w) ↦ rw e (
      record {
        ref = ra;
        tracked = m;
        is_file = f;
        seen = v;
        gone = el;
        found = er;
        unchanged = c;
        unmoved = w;
      },
      tt,
    )
  ]
  decide-sources p b m f v (some loc) none el er = elim (Bool-cases loc.is_dir) [
    | inl d ↦ rw d tt
    | inr d ↦ rw d (rw (remote_gone-sources (rewrite_ld s p) b loc _) tt)
  ]
  decide-sources p b m f v (some loc) (some ra) el er = elim (Bool-cases loc.is_dir) [
    | inl d ↦ rw d tt
    | inr d ↦ rw d (rw (both_alive-sources p b loc ra) tt)
  ]

  -- A round of pass 1 passes over a directory, reports the row, or decides it.
  pub file_row_cases :
      (p : Bytes) (b : BaseItem)
      → (file_row s p b ≡ nothing)
        ⊎ (file_row s p b ≡ record nothing {
          skips = record { rel_path = p; reason = shadowed_file; file_id = b.file_id } ∷ [];
        })
        ⊎ (file_row s p b ≡ skipped p unreadable_file)
        ⊎ ((b.is_dir ≡ false)
            × IsSeen s b
            × (file_row s p b
                ≡ decide s p b (local_at s.input (rewrite_ld s p)) (rem_by_id s.input b.file_id)))
  unfolding file_row
  file_row_cases p b = ground arith

  file_row-sources :
      (p : Bytes) (b : BaseItem)
      → In (p, b) s.input.base
      → All (IsSource s) (file_row s p b).sources
  file_row-sources p b m = elim (file_row_cases p b) [
    | inl e ↦ rw e tt
    | inr (inl e) ↦ rw e tt
    | inr (inr (inl e)) ↦ rw e tt
    | inr (inr (inr (d, v, e))) ↦ rw e (decide-sources p b m d v _ _ refl refl)
  ]

  file_rows-sources :
      (rows : Dict Bytes BaseItem)
      → All (λ r. In r s.input.base) rows
      → All (IsSource s) (file_rows s rows).sources
  unfolding file_rows
  file_rows-sources [] h = tt
  file_rows-sources ((p, b) ∷ rows) (m, ms) =
      All-append _ _ _ (file_row-sources p b m) (file_rows-sources rows ms)

  pub after_files-sources : All (IsSource s) (after_files s).sources
  unfolding after_files
  after_files-sources = file_rows-sources (sorted_rows s.input.base) (sorted_rows-In s.input.base)

  -- Every waiting source is one.
  abbrev pub AreSources : Dict Bytes (List MoveSrc) → Type 0
  AreSources = All (λ row. All (IsSource s) row.1)

  pub insert-AreSources :
      (k : Bytes) (srcs : List MoveSrc) (d : Dict Bytes (List MoveSrc))
      → All (IsSource s) srcs
      → AreSources d
      → AreSources (Dict.insert k srcs d)
  unfolding Dict.insert
  insert-AreSources k srcs [] h hs = (h, tt)
  insert-AreSources k srcs ((j, old) ∷ d) h (g, gs) = elim (Bool-cases (k == j)) [
    | inl e ↦ rw e (h, gs)
    | inr e ↦ rw e (g, insert-AreSources k srcs d h gs)
  ]

  pub get_list-AreSources :
      (k : Bytes) (d : Dict Bytes (List MoveSrc)) → AreSources d → All (IsSource s) (get_list k d)
  get_list-AreSources k d h = listed (Dict.lookup k d) refl
    where
      listed :
          (o : Option (List MoveSrc))
          → Dict.lookup k d ≡ o
          → All (IsSource s) (elim o [ some xs ↦ xs | none ↦ [] ])
      listed none e = tt
      listed (some srcs) e =
          All-In (λ row. All (IsSource s) row.1) (k, srcs) d h (Dict.lookup-In k srcs d e)

  pub add_sources-AreSources :
      (srcs : List MoveSrc) (d : Dict Bytes (List MoveSrc))
      → All (IsSource s) srcs
      → AreSources d
      → AreSources (add_sources srcs d)
  unfolding add_sources
  add_sources-AreSources [] d h g = g
  add_sources-AreSources (src ∷ srcs) d (h, hs) g =
      let key = pair_key src.row.md5 src.row.size in
      add_sources-AreSources srcs _ hs (
        insert-AreSources key (get_list key d ++ src ∷ []) d
          (All-append _ (get_list key d) (src ∷ []) (get_list-AreSources key d g) (h, tt)) g)

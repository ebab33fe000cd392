-- ===== src/Reconcile/Proofs/Passes.antt =====
-- The induction over the four passes: what each round's appends satisfy, the whole draft does.
use synckeeper.Base.{
  ◌≡◌, refl, inl, inr, Bool, true, false, Option, none, some, List, [], ◌∷◌, if◌then◌else◌, nat_eq,
  Bool-cases, All, In, int_eq, Bytes, bytes_eq,
}
use synckeeper.Base.Dict
use synckeeper.Base.Dict.{Dict}
use synckeeper.Reconcile.Types.{
  BaseItem, LocalItem, RemoteItem, action, upload, move_remote, trash_remote,
}
use synckeeper.Reconcile.Index.{sorted_rows, pair_key}
use synckeeper.Reconcile.DirMoves.{get_list}
use synckeeper.Reconcile.Draft.{MoveSrc, Draft, nothing, merge, Scene, rewrite}
use synckeeper.Reconcile.Plan.Files.{file_row, file_rows}
use synckeeper.Reconcile.Plan.News.{
  Pairing, new_dir, meet, add_sources, pair_or_upload, new_row, new_rows, unpaired, emit,
  is_settled,
}
use synckeeper.Reconcile.Plan.Remotes.{remote_row, remote_rows}
use synckeeper.Reconcile.Plan.Dirs.{dir_row, dir_rows}
use synckeeper.Reconcile.Plan.{
  dir_moves, after_files, after_news, after_remotes, after_dirs, made_by,
}
use synckeeper.Reconcile.Proofs.Sources.{
  IsSource, sorted_rows-In, AreSources, insert-AreSources, get_list-AreSources,
  add_sources-AreSources, after_files-sources,
}

-- The move of a paired source, and the trash of one that is not.
abbrev pub pair_move : MoveSrc → Bytes → LocalItem → Draft
pair_move src target loc = record nothing {
  moves =
      record (action move_remote src.path) {
        new_rel_path = target;
        file_id = src.row.file_id;
        size = loc.size;
        md5 = loc.md5;
      }
      ∷ [];
}

abbrev pub trash_of : MoveSrc → Draft
trash_of src = record nothing {
  deletes = record (action trash_remote src.path) { file_id = src.row.file_id } ∷ [];
}

-- A property of drafts that every round keeps.
pub record HoldsOnRounds (s : Scene) (I : Draft → Type 0) : Type 0 where
  pub none_yet : I nothing
  pub merged : (d e : Draft) → I d → I e → I (merge d e)
  pub dirs_moved : I (dir_moves s)
  pub on_file : (p : Bytes) (b : BaseItem) → In (p, b) s.input.base → I (file_row s p b)
  pub on_folder : (target : Bytes) → I (new_dir s target)
  pub on_meeting : (target : Bytes) (loc : LocalItem) (e : Draft) → meet s target loc ≡ some e → I e
  pub on_upload : (target : Bytes) → I (record nothing { transfers = action upload target ∷ [] })
  pub on_pair :
      (src : MoveSrc) (target : Bytes) (loc : LocalItem)
      → IsSource s src
      → I (pair_move src target loc)
  pub on_trash : (src : MoveSrc) → IsSource s src → I (trash_of src)
  pub on_remote :
      (claimed gone : List Bytes) (p : Bytes) (r : RemoteItem) → I (remote_row s claimed gone p r)
  pub on_dir : (p : Bytes) (b : BaseItem) → In (p, b) s.input.base → I (dir_row s (made_by s) p b)

module _ (s : Scene) (I : Draft → Type 0) (h : HoldsOnRounds s I) where
  open h use {
    none_yet, merged, dirs_moved, on_file, on_folder, on_meeting, on_upload, on_pair, on_trash,
    on_remote, on_dir,
  }

  abbrev Keeps : Pairing → Type 0
  Keeps st = I st.draft × AreSources s st.waiting

  pair_or_upload-Keeps :
      (st : Pairing) (target : Bytes) (loc : LocalItem)
      → Keeps st
      → Keeps (pair_or_upload st target loc)
  unfolding pair_or_upload
  pair_or_upload-Keeps st target loc (d, w) =
      chosen (get_list (pair_key loc.md5 loc.size) st.waiting)
        (get_list-AreSources s (pair_key loc.md5 loc.size) st.waiting w)
    where
      key : Bytes
      key = pair_key loc.md5 loc.size

      chosen :
          (srcs : List MoveSrc)
          → All (IsSource s) srcs
          → Keeps (elim srcs [
            | [] ↦ emit st (record nothing { transfers = action upload target ∷ [] })
            | src ∷ more ↦ record {
              waiting = Dict.insert key more st.waiting;
              paired = src.path ∷ st.paired;
              draft = merge st.draft (pair_move src target loc);
            }
          ])
      chosen [] a = (merged st.draft _ d (on_upload target), w)
      chosen (src ∷ more) (a, rest) = (
        merged st.draft _ d (on_pair src target loc a),
        insert-AreSources s key more st.waiting rest w,
      )

  emit-Keeps : (st : Pairing) (e : Draft) → Keeps st → I e → Keeps (emit st e)
  emit-Keeps st e (d, w) k = (merged st.draft e d k, w)

  new_row-Keeps :
      (d : Draft) (st : Pairing) (p : Bytes) (loc : LocalItem)
      → Keeps st
      → Keeps (new_row s d st p loc)
  unfolding new_row
  new_row-Keeps d st p loc k = cases (is_settled s d p) loc.is_dir (meet s (rewrite s p) loc) refl
    where
      cases :
          (b c : Bool) (o : Option Draft)
          → meet s (rewrite s p) loc ≡ o
          → Keeps (
              if b
              then st
              else if c
              then emit st (new_dir s (rewrite s p))
              else (elim o [ some e ↦ emit st e | none ↦ pair_or_upload st (rewrite s p) loc ]))
      cases true c o e = k
      cases false true o e = emit-Keeps st _ k (on_folder (rewrite s p))
      cases false false none e = pair_or_upload-Keeps st (rewrite s p) loc k
      cases false false (some x) e = emit-Keeps st x k (on_meeting (rewrite s p) loc x e)

  new_rows-Keeps :
      (d : Draft) (st : Pairing) (rows : Dict Bytes LocalItem)
      → Keeps st
      → Keeps (new_rows s d st rows)
  unfolding new_rows
  new_rows-Keeps d st [] k = k
  new_rows-Keeps d st ((p, loc) ∷ rows) k =
      new_rows-Keeps d (new_row s d st p loc) rows (new_row-Keeps d st p loc k)

  file_rows-I :
      (rows : Dict Bytes BaseItem) → All (λ r. In r s.input.base) rows → I (file_rows s rows)
  unfolding file_rows
  file_rows-I [] m = none_yet
  file_rows-I ((p, b) ∷ rows) (m, ms) = merged _ _ (on_file p b m) (file_rows-I rows ms)

  unpaired-I :
      (paired : List Bytes) (srcs : List MoveSrc)
      → All (IsSource s) srcs
      → I (record nothing { deletes = unpaired paired srcs })
  unfolding unpaired
  unpaired-I paired [] a = none_yet
  unpaired-I paired (src ∷ srcs) (a, rest) = elim (Bool-cases (Dict.contains src.path paired)) [
    | inl e ↦ rw e (unpaired-I paired srcs rest)
    | inr e ↦ rw e (merged (trash_of src) _ (on_trash src a) (unpaired-I paired srcs rest))
  ]

  remote_rows-I :
      (claimed gone : List Bytes) (rows : Dict Bytes RemoteItem)
      → I (remote_rows s claimed gone rows)
  unfolding remote_rows
  remote_rows-I claimed gone [] = none_yet
  remote_rows-I claimed gone ((p, r) ∷ rows) =
      merged _ _ (on_remote claimed gone p r) (remote_rows-I claimed gone rows)

  dir_rows-I :
      (rows : Dict Bytes BaseItem)
      → All (λ r. In r s.input.base) rows
      → I (dir_rows s (made_by s) rows)
  unfolding dir_rows
  dir_rows-I [] m = none_yet
  dir_rows-I ((p, b) ∷ rows) (m, ms) = merged _ _ (on_dir p b m) (dir_rows-I rows ms)

  after_files-I : I (after_files s)
  unfolding after_files
  after_files-I =
      merged _ _ dirs_moved (file_rows-I (sorted_rows s.input.base) (sorted_rows-In s.input.base))

  after_news-I : I (after_news s)
  unfolding after_news
  after_news-I =
      let srcs = after_files-sources s in
      let start : Pairing = record {
        waiting = add_sources (after_files s).sources [];
        paired = [];
        draft = after_files s;
      } in
      let st = new_rows s (after_files s) start (sorted_rows s.input.local) in
      let (k, _) =
        new_rows-Keeps (after_files s) start (sorted_rows s.input.local)
          (after_files-I, add_sources-AreSources s (after_files s).sources [] srcs tt) in
      merged st.draft _ k (unpaired-I st.paired (after_files s).sources srcs)

  pub after_remotes-I : I (after_remotes s)
  unfolding after_remotes
  after_remotes-I = merged _ _ after_news-I (remote_rows-I _ _ (sorted_rows s.input.remote))

  -- What every round keeps holds of the whole draft.
  pub after_dirs-I : I (after_dirs s)
  unfolding after_dirs
  after_dirs-I =
      merged _ _ after_remotes-I
        (dir_rows-I (sorted_rows s.input.base) (sorted_rows-In s.input.base))

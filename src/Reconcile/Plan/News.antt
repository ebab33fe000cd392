-- ===== src/Reconcile/Plan/News.antt =====
-- Pass 2 of `Plan`: new local paths, and the pairing of local moves.
use synckeeper.Base.{
  Bool, true, not, ◌&&◌, ◌||◌, Option, none, some, List, [], ◌∷◌, ◌++◌, Bytes, bytes_eq, int_eq,
  ◌==◌, if◌then◌else◌,
}
use synckeeper.Base.Dict
use synckeeper.Base.Dict.{Dict}
use synckeeper.Reconcile.Types.{
  LocalItem, RemoteItem, Action, action, pinned, upload, download, record_row, move_local,
  move_remote, mkdir_remote, trash_remote, folder_here_file_in_drive, file_here_folder_in_drive,
}
use synckeeper.Reconcile.Index.{
  RemoteRef, in_base, remote_at, new_remote_at, new_remote_at_fold, pair_key, local_wins_name,
  is_some,
}
use synckeeper.Reconcile.DirMoves.{invert, get_list}
use synckeeper.Reconcile.Draft.{
  MoveSrc, Draft, nothing, merge, Scene, rewrite, copy_of, remote_steps_aside, skipped, of_remote,
  guarded,
}
use synckeeper.Reconcile.Plan.Files.{conflict}

-- Is the path no new one, or already resolved by pass 1?
pub is_settled : Scene → Draft → Bytes → Bool
unfolding invert
is_settled s d p =
    let q = invert s.local_moves p in
    in_base s.input p
    || (not (q == p) && in_base s.input q)
    || Dict.contains p d.backed_up
    || Dict.contains p d.resolved_local

unfoldable pub new_dir : Scene → Bytes → Draft
unfolding new_remote_at remote_at
new_dir s target = elim (new_remote_at s.input target) [
  | some r ↦
      record (if r.is_dir
        then record nothing {
          transfers =
              record (action record_row target) {
                file_id = r.file_id;
                is_dir = true;
                version = r.version;
              }
              ∷ [];
        }
        else skipped target folder_here_file_in_drive) { claimed = target ∷ [] }
  | none ↦
      if is_some (remote_at s.input target)
      then nothing
      else record nothing { mkdirs = record (action mkdir_remote target) { is_dir = true } ∷ [] }
]

-- Drive's file steps aside and the local one takes the plain name.
unfoldable pub local_wins : Scene → Bytes → Bytes → RemoteItem → Draft
unfolding remote_steps_aside copy_of
local_wins s target rp r = record nothing {
  moves = remote_steps_aside s rp r ∷ [];
  transfers =
      guarded rp (action upload target)
      ∷ guarded rp (of_remote r r.file_id (action download (copy_of s rp)))
      ∷ [];
}

-- A new local file meets a new remote file of the same path.
unfoldable pub meet_exact : Scene → Bytes → LocalItem → RemoteItem → Draft
unfolding conflict local_wins local_wins_name
meet_exact s target loc r =
    if r.md5 == loc.md5
    then record nothing {
      transfers = pinned loc (of_remote r r.file_id (action record_row target)) ∷ [];
    }
    else if local_wins_name s.input loc r
    then local_wins s target target r
    else conflict s target target r r.file_id

-- The same under the fold: two names that are one path on disk.
unfoldable pub meet_fold : Scene → Bytes → LocalItem → RemoteRef → Draft
unfolding conflict local_wins local_wins_name
meet_fold s target loc ref =
    let r = ref.item in
    if r.md5 == loc.md5
    then record nothing {
      moves = pinned loc (record (action move_local target) { new_rel_path = ref.path }) ∷ [];
      transfers =
          guarded target (pinned loc (of_remote r r.file_id (action record_row ref.path))) ∷ [];
    }
    else if local_wins_name s.input loc r
    then local_wins s target ref.path r
    else conflict s target ref.path r r.file_id

-- What a new local file meets on the remote side; `none` leaves it to the pairing.
unfoldable pub meet : Scene → Bytes → LocalItem → Option Draft
unfolding meet_exact meet_fold new_remote_at new_remote_at_fold
meet s target loc = elim (new_remote_at s.input target) [
  | some r ↦
      some
        (record (if r.is_dir
          then skipped target file_here_folder_in_drive
          else meet_exact s target loc r) { claimed = target ∷ [] })
  | none ↦ elim (new_remote_at_fold s.unicode s.input target) [
    | none ↦ none
    | some ref ↦
        if ref.item.is_dir
        then none
        else some (record (meet_fold s target loc ref) { claimed = ref.path ∷ [] })
  ]
]

-- `moveSrcs` with its consumption, `pairedSrc`, and what was appended.
pub record Pairing : Type 0 where
  pub waiting : Dict Bytes (List MoveSrc)
  pub paired : List Bytes
  pub draft : Draft

unfoldable pub add_sources : List MoveSrc → Dict Bytes (List MoveSrc) → Dict Bytes (List MoveSrc)
unfolding pair_key Dict.insert Dict.lookup
add_sources [] d = d
add_sources (src ∷ srcs) d =
    let key = pair_key src.row.md5 src.row.size in
    add_sources srcs (Dict.insert key (get_list key d ++ src ∷ []) d)

abbrev pub emit : Pairing → Draft → Pairing
emit st d = record st { draft = merge st.draft d }

-- The file takes the first source of its content, or is uploaded.
unfoldable pub pair_or_upload : Pairing → Bytes → LocalItem → Pairing
unfolding pair_key Dict.insert Dict.lookup
pair_or_upload st target loc =
    let key = pair_key loc.md5 loc.size in
    elim (get_list key st.waiting) [
      | [] ↦ emit st (record nothing { transfers = action upload target ∷ [] })
      | src ∷ more ↦ record {
        waiting = Dict.insert key more st.waiting;
        paired = src.path ∷ st.paired;
        draft = merge st.draft (record nothing {
          moves =
              record (action move_remote src.path) {
                new_rel_path = target;
                file_id = src.row.file_id;
                size = loc.size;
                md5 = loc.md5;
              }
              ∷ [];
        });
      }
    ]

-- One round of pass 2; `d` is what pass 1 left.
unfoldable pub new_row : Scene → Draft → Pairing → Bytes → LocalItem → Pairing
unfolding is_settled new_dir meet pair_or_upload rewrite
new_row s d st p loc =
    if is_settled s d p
    then st
    else if loc.is_dir
    then emit st (new_dir s (rewrite s p))
    else (elim (meet s (rewrite s p) loc) [
      | some e ↦ emit st e
      | none ↦ pair_or_upload st (rewrite s p) loc
    ])

unfoldable pub new_rows : Scene → Draft → Pairing → Dict Bytes LocalItem → Pairing
unfolding new_row
new_rows s d st [] = st
new_rows s d st ((p, loc) ∷ rows) = new_rows s d (new_row s d st p loc) rows

-- The files gone locally that no new file paired with.
unfoldable pub unpaired : List Bytes → List MoveSrc → List Action
unpaired paired [] = []
unpaired paired (src ∷ srcs) =
    let rest = unpaired paired srcs in
    if Dict.contains src.path paired
    then rest
    else record (action trash_remote src.path) { file_id = src.row.file_id } ∷ rest

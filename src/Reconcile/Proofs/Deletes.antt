-- ===== src/Reconcile/Proofs/Deletes.antt =====
-- What a planned delete rests on: a tracked row, seen on both sides, that the other side retired.
use synckeeper.Base.{
  ◌≡◌, refl, sym, ◌⊎◌, inl, inr, true, false, Option, none, some, List, [], arith, ◌==◌, nat_eq,
  ==_iff, Bool-cases, All, In, All-append, int_eq, Bytes, bytes_eq,
}
use synckeeper.Base.Dict
use synckeeper.Base.Dict.{Dict}
use synckeeper.Reconcile.Types.{BaseItem, LocalItem, RemoteItem}
use synckeeper.Reconcile.Index.{RemoteRef, local_at, rem_by_id, new_remote_at}
use synckeeper.Reconcile.Draft.{MoveSrc, Draft, Scene, rewrite, rewrite_ld}
use synckeeper.Reconcile.Plan.Files.{local_gone, remote_gone, both_alive, decide, file_row}
use synckeeper.Reconcile.Plan.News.{new_dir, meet}
use synckeeper.Reconcile.Plan.Remotes.{remote_row}
use synckeeper.Reconcile.Plan.Dirs.{
  dir_row, decide_dir, trash_dir, gone_here, dir_place, has_create_under, remote_alive_under,
}
use synckeeper.Reconcile.Plan.{after_dirs, made_by}
use synckeeper.Reconcile.Proofs.Sources.{IsSeen, IsSource, file_row_cases}
use synckeeper.Reconcile.Proofs.Passes.{HoldsOnRounds, trash_of, after_dirs-I}
use synckeeper.Reconcile.Proofs.Retires.{
  Retires, forgotten_file, forgotten_dir, quarantined_file, trashed_file, quarantined_dir,
  trashed_dir,
}

abbrev Justified : Scene → Draft → Type 0
Justified s d = All (Retires s) d.deletes

module _ (s : Scene) where
  local_gone-deletes :
      (p : Bytes) (b : BaseItem) (ra : RemoteRef) → (local_gone s p b ra).deletes ≡ []
  unfolding local_gone
  local_gone-deletes p b ra = ground arith

  both_alive-deletes :
      (p : Bytes) (b : BaseItem) (loc : LocalItem) (ra : RemoteRef)
      → (both_alive s p b loc ra).deletes ≡ []
  unfolding both_alive
  both_alive-deletes p b loc ra = ground arith

  remote_gone-deletes :
      (p : Bytes) (b : BaseItem) (loc : LocalItem)
      → In (p, b) s.input.base
      → b.is_dir ≡ false
      → IsSeen s b
      → loc.is_dir ≡ false
      → local_at s.input (rewrite_ld s p) ≡ some loc
      → rem_by_id s.input b.file_id ≡ none
      → (fresh : Option RemoteItem) → new_remote_at s.input (rewrite_ld s p) ≡ fresh
      → All (Retires s) (remote_gone s (rewrite_ld s p) b loc fresh).deletes
  unfolding remote_gone
  remote_gone-deletes p b loc m f v d el er (some r) en =
      let e : (remote_gone s (rewrite_ld s p) b loc (some r)).deletes ≡ [] = ground arith in rw e tt
  remote_gone-deletes p b loc m f v d el er none en = elim (Bool-cases (loc.md5 == b.md5)) [
    | inl e ↦ rw e (
      quarantined_file p b loc (m, refl, sym f, v) refl f refl el (d, (==_iff loc.md5 b.md5).0 e)
          (refl, refl, refl) er en,
      tt,
    )
    | inr e ↦ rw e tt
  ]

  decide-deletes :
      (p : Bytes) (b : BaseItem)
      → In (p, b) s.input.base
      → b.is_dir ≡ false
      → IsSeen s b
      → (l : Option LocalItem) (r : Option RemoteRef) → local_at s.input (rewrite_ld s p) ≡ l
      → rem_by_id s.input b.file_id ≡ r
      → All (Retires s) (decide s p b l r).deletes
  unfolding decide
  decide-deletes p b m f v none none el er =
      (forgotten_file p b (m, refl, sym f, v) refl f refl el er, tt)
  decide-deletes p b m f v none (some ra) el er = rw (local_gone-deletes p b ra) tt
  decide-deletes p b m f v (some loc) none el er = elim (Bool-cases loc.is_dir) [
    | inl d ↦ rw d tt
    | inr d ↦
        rw d
          (remote_gone-deletes p b loc m f v d el er (new_remote_at s.input (rewrite_ld s p)) refl)
  ]
  decide-deletes p b m f v (some loc) (some ra) el er = elim (Bool-cases loc.is_dir) [
    | inl d ↦ rw d tt
    | inr d ↦ rw d (rw (both_alive-deletes p b loc ra) tt)
  ]

  file_row-deletes :
      (p : Bytes) (b : BaseItem) → In (p, b) s.input.base → All (Retires s) (file_row s p b).deletes
  file_row-deletes p b m = elim (file_row_cases s p b) [
    | inl e ↦ rw e tt
    | inr (inl e) ↦ rw e tt
    | inr (inr (inl e)) ↦ rw e tt
    | inr (inr (inr (d, v, e))) ↦ rw e (decide-deletes p b m d v _ _ refl refl)
  ]

  new_dir-deletes : (target : Bytes) → (new_dir s target).deletes ≡ []
  unfolding new_dir
  new_dir-deletes target = ground arith

  meet-deletes :
      (target : Bytes) (loc : LocalItem) (e : Draft) → meet s target loc ≡ some e → e.deletes ≡ []
  unfolding meet
  meet-deletes target loc e h = ground arith

  remote_row-deletes :
      (claimed gone : List Bytes) (p : Bytes) (r : RemoteItem)
      → (remote_row s claimed gone p r).deletes ≡ []
  unfolding remote_row
  remote_row-deletes claimed gone p r = ground arith

  -- A round of pass 4 passes over a file, reports the row, or decides it.
  dir_row_cases :
      (made : List Bytes) (p : Bytes) (b : BaseItem)
      → ((dir_row s made p b).deletes ≡ [])
        ⊎ ((b.is_dir ≡ true)
            × IsSeen s b
            × (dir_row s made p b
                ≡ decide_dir s made p b
                    (local_at s.input (dir_place s p))
                    (rem_by_id s.input b.file_id)))
  unfolding dir_row
  dir_row_cases made p b = elim (Bool-cases b.is_dir) [
    | inl d ↦ elim (Bool-cases (Dict.contains b.file_id s.input.shadowed_remote)) [
      | inl c ↦ inl (ground (arith, d, c))
      | inr c ↦ elim (Bool-cases (Dict.contains b.file_id s.input.unreadable_local)) [
        | inl v ↦ inl (ground (arith, d, c, v))
        | inr v ↦ inr (d, (c, v), ground (arith, d, c, v))
      ]
    ]
    | inr d ↦ inl (ground (arith, d))
  ]

  trash_dir-deletes :
      (p : Bytes) (b : BaseItem) (ra : RemoteRef)
      → In (p, b) s.input.base
      → b.is_dir ≡ true
      → IsSeen s b
      → local_at s.input (dir_place s p) ≡ none
      → rem_by_id s.input b.file_id ≡ some ra
      → All (Retires s) (trash_dir s (made_by s) b ra).deletes
  unfolding trash_dir
  trash_dir-deletes p b ra m d v el er = elim (Bool-cases (has_create_under (made_by s) ra.path)) [
    | inl e ↦ rw e tt
    | inr e ↦ elim (Bool-cases (has_create_under (made_by s) (rewrite_ld s ra.path))) [
      | inl g ↦ rw (e, g) tt
      | inr g ↦ elim (Bool-cases (remote_alive_under s.input ra.path)) [
        | inl k ↦ rw (e, g, k) tt
        | inr k ↦ rw (e, g, k) (trashed_dir p b ra (m, refl, sym d, v) refl d refl el er e g k, tt)
      ]
    ]
  ]

  gone_here-deletes :
      (p : Bytes) (b : BaseItem) (ra : RemoteRef)
      → In (p, b) s.input.base
      → b.is_dir ≡ true
      → IsSeen s b
      → local_at s.input (dir_place s p) ≡ none
      → rem_by_id s.input b.file_id ≡ some ra
      → (o : Option LocalItem) → All (Retires s) (gone_here s (made_by s) b ra o).deletes
  unfolding gone_here
  gone_here-deletes p b ra m d v el er none = trash_dir-deletes p b ra m d v el er
  gone_here-deletes p b ra m d v el er (some l) = elim (Bool-cases l.is_dir) [
    | inl e ↦ rw e tt
    | inr e ↦ rw e (trash_dir-deletes p b ra m d v el er)
  ]

  decide_dir-deletes :
      (p : Bytes) (b : BaseItem)
      → In (p, b) s.input.base
      → b.is_dir ≡ true
      → IsSeen s b
      → (l : Option LocalItem) (r : Option RemoteRef) → local_at s.input (dir_place s p) ≡ l
      → rem_by_id s.input b.file_id ≡ r
      → All (Retires s) (decide_dir s (made_by s) p b l r).deletes
  unfolding decide_dir
  decide_dir-deletes p b m d v none none el er =
      (forgotten_dir p b (m, refl, sym d, v) refl d refl el er, tt)
  decide_dir-deletes p b m d v (some l) (some ra) el er = tt
  decide_dir-deletes p b m d v (some l) none el er =
      elim (Bool-cases (has_create_under (made_by s) p)) [
        | inl e ↦ rw e tt
        | inr e ↦ elim (Bool-cases (has_create_under (made_by s) (rewrite s p))) [
          | inl g ↦ rw (e, g) tt
          | inr g ↦ rw (e, g) (quarantined_dir p b l (m, refl, sym d, v) refl d refl el er e g, tt)
        ]
      ]
  decide_dir-deletes p b m d v none (some ra) el er =
      gone_here-deletes p b ra m d v el er (local_at s.input ra.path)

  dir_row-deletes :
      (p : Bytes) (b : BaseItem)
      → In (p, b) s.input.base
      → All (Retires s) (dir_row s (made_by s) p b).deletes
  dir_row-deletes p b m = elim (dir_row_cases (made_by s) p b) [
    | inl e ↦ rw e tt
    | inr (d, v, e) ↦ rw e (decide_dir-deletes p b m d v _ _ refl refl)
  ]

  source-Retires : (src : MoveSrc) → IsSource s src → Justified s (trash_of src)
  source-Retires src k = (
    trashed_file src.path src.row k.ref (k.tracked, refl, sym k.is_file, k.seen) refl k.is_file refl
        k.gone k.found k.unchanged k.unmoved,
    tt,
  )

  rounds-Justified : HoldsOnRounds s (Justified s)
  rounds-Justified = record {
    none_yet = tt;
    merged = λ d e x y. All-append (Retires s) d.deletes e.deletes x y;
    dirs_moved = tt;
    on_file = file_row-deletes;
    on_folder = λ target. rw (new_dir-deletes target) tt;
    on_meeting = λ target loc e h. rw (meet-deletes target loc e h) tt;
    on_upload = λ target. tt;
    on_pair = λ src target loc m. tt;
    on_trash = source-Retires;
    on_remote = λ claimed gone p r. rw (remote_row-deletes claimed gone p r) tt;
    on_dir = dir_row-deletes;
  }

  pub after_dirs-Justified : Justified s (after_dirs s)
  after_dirs-Justified = after_dirs-I s (Justified s) rounds-Justified

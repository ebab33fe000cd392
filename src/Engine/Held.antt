-- ===== src/Engine/Held.antt =====
-- internal/engine/engine.go: a cycle deletes no row that one side could not show.
use synckeeper.Base.{
  true, false, not, Option, none, some, List, [], ◌∷◌, ◌++◌, Bytes, bytes_eq, ◌==◌, map, has_prefix,
  ◌≡◌, subst, inl, inr, arith, All, All-mono, All-keep, In, Any-append_left, Any-append_right,
  Bool-cases, nat_eq, int_eq, In-keep, In-any, In-map, ◌⊎◌, ◌≢◌,
}
use synckeeper.Base.Dict
use synckeeper.Base.Dict.{In-contains}
use synckeeper.Names.{Unicode}
use synckeeper.Reconcile.Types.{Input, Action, is_delete}
use synckeeper.Reconcile.Draft.{scene}
use synckeeper.Reconcile.Plan.{plan}
use synckeeper.Reconcile.Proofs.Retires.{
  Retires, forgotten_file, forgotten_dir, quarantined_file, trashed_file, quarantined_dir,
  trashed_dir,
}
use synckeeper.Reconcile.Proofs.Headline.{plan-Retires, plan_bare}
use synckeeper.Reconcile.Collapse.Origins.{HasIds, collapse-HasIds}
use synckeeper.Guards.{MassDelete}
use synckeeper.Store.Types.{Item}
use synckeeper.RemoteDelta.Snapshot.{Skipped}
use synckeeper.Scanner.{LocalSkip}
use synckeeper.Engine.{
  Cycle, Planned, aborted, shown, runs, plan_cycle, plan_input, reported_plan, guard_verdict,
  after_guard, finish, without_deletes, ids_below, is_below, expand_shadowed, expand_unreadable,
  with_id,
}

-- Neither list has the id.
abbrev IsOpen : Input → Bytes → Type 0
IsOpen i id =
    (Dict.contains id i.shadowed_remote ≡ false) × (Dict.contains id i.unreadable_local ≡ false)

retired-IsOpen : (u : Unicode) (i : Input) (a : Action) → Retires (scene u i) a → IsOpen i a.file_id
unfolding scene
retired-IsOpen u i a (forgotten_file p b (m, e, d, s) _ _ _ _ _) = ground arith
retired-IsOpen u i a (forgotten_dir p b (m, e, d, s) _ _ _ _ _) = ground arith
retired-IsOpen u i a (quarantined_file p b l (m, e, d, s) _ _ _ _ _ _ _ _) = ground arith
retired-IsOpen u i a (trashed_file p b r (m, e, d, s) _ _ _ _ _ _ _) = ground arith
retired-IsOpen u i a (quarantined_dir p b l (m, e, d, s) _ _ _ _ _ _ _) = ground arith
retired-IsOpen u i a (trashed_dir p b r (m, e, d, s) _ _ _ _ _ _ _ _) = ground arith

plan-HasIds : (u : Unicode) (i : Input) → All (HasIds (IsOpen i)) (plan u i).0
plan-HasIds u i = zip (plan u i).0 (plan-Retires u i) (plan_bare u i)
  where
    zip :
        (as' : List Action)
        → All (λ a. is_delete a.kind ≡ true → Retires (scene u i) a) as'
        → All (λ a. a.subtree ≡ []) as'
        → All (HasIds (IsOpen i)) as'
    zip [] h k = tt
    zip (a ∷ as') (h, hs) (k, ks) = (((λ d. retired-IsOpen u i a (h d)), rw k tt), zip as' hs ks)

reported-HasIds :
    (u : Unicode) (c : Cycle) → All (HasIds (IsOpen (plan_input c))) (reported_plan u c)
unfolding reported_plan
reported-HasIds u c = elim (Bool-cases c.trash_available) [
  | inl e ↦ rw e (
      collapse-HasIds (IsOpen (plan_input c)) (plan u (plan_input c)).0 c.remote
        (plan-HasIds u (plan_input c)))
  | inr e ↦ rw e (plan-HasIds u (plan_input c))
]

-- The actions that the executor gets.
unfoldable pub executed : Planned → List Action
executed (aborted actions e) = []
executed (shown actions blocked) = []
executed (runs reported actions blocked) = actions

pub executed-All :
    (P : Action → Type 0) (c : Cycle) (reported : List Action) (verdict : Option MassDelete)
    → All P reported
    → All P (executed (after_guard c reported verdict))
unfolding executed after_guard finish without_deletes
executed-All P c reported none h = elim (Bool-cases c.dry_run) [ inl e ↦ rw e tt | inr e ↦ rw e h ]
executed-All P c reported (some x) h = elim (Bool-cases c.defer_mass_delete) [
  | inr e ↦ rw e tt
  | inl e ↦ elim (Bool-cases c.dry_run) [
    | inl f ↦ rw (e, f) tt
    | inr f ↦ rw (e, f) (All-keep P _ reported h)
  ]
]

ids_below-In :
    (dirs : List Bytes) (it : Item) (items : List Item)
    → In it items
    → is_below dirs it.rel_path ≡ true
    → In it.drive_file_id (ids_below dirs items)
unfolding ids_below
ids_below-In dirs it [] m e = absurd m
ids_below-In dirs it (j ∷ items) (inl q) e = elim (Bool-cases (is_below dirs j.rel_path)) [
  | inl b ↦ rw b (inl (ground arith))
  | inr b ↦ absurd (ground arith)
]
ids_below-In dirs it (j ∷ items) (inr m) e = elim (Bool-cases (is_below dirs j.rel_path)) [
  | inl b ↦ rw b (inr (ids_below-In dirs it items m e))
  | inr b ↦ rw b (ids_below-In dirs it items m e)
]

-- The scanner could not read a folder above the row.
abbrev pub IsUnreadable : Cycle → Item → Type 0
IsUnreadable c it =
    (s : LocalSkip) × In s c.local_skips
    × (s.unreadable ≡ true)
    × (has_prefix it.rel_path (s.rel_path ++ b'/' ∷ []) ≡ true)

-- The mirror's snapshot passed over the row's item, or over an item at a folder above the row.
abbrev pub IsShadowed : Cycle → Item → Type 0
IsShadowed c it =
    (s : Skipped) × In s c.remote_skips
    × ((s.file_id == []) ≡ false)
    × ((s.file_id ≡ it.drive_file_id) ⊎ (has_prefix it.rel_path (s.rel_path ++ b'/' ∷ []) ≡ true))

unreadable_lem :
    (c : Cycle) (it : Item)
    → In it c.items
    → IsUnreadable c it
    → Dict.contains it.drive_file_id (plan_input c).unreadable_local ≡ true
unfolding plan_input expand_unreadable is_below
unreadable_lem c it m (s, i, e, below) = In-contains it.drive_file_id _ (
    ids_below-In _ it c.items m (
      In-any _ s.rel_path _
        (In-map (λ (x : LocalSkip). x.rel_path) s _ (In-keep _ s c.local_skips i e)) below))

shadowed_lem :
    (c : Cycle) (it : Item)
    → In it c.items
    → IsShadowed c it
    → Dict.contains it.drive_file_id (plan_input c).shadowed_remote ≡ true
unfolding plan_input expand_shadowed is_below
shadowed_lem c it m (s, i, e, h) =
    let j = In-keep (λ (x : Skipped). not (x.file_id == [])) s c.remote_skips i (ground arith) in
    In-contains it.drive_file_id _ (elim h [
      | inl q ↦ Any-append_left _ (map (λ (x : Skipped). x.file_id) (with_id c.remote_skips)) _ (
          subst (λ (k : Bytes). In k (map (λ (x : Skipped). x.file_id) (with_id c.remote_skips))) q
            (In-map (λ (x : Skipped). x.file_id) s _ j))
      | inr below ↦
          Any-append_right _ (map (λ (x : Skipped). x.file_id) (with_id c.remote_skips)) _ (
            ids_below-In _ it c.items m
              (In-any _ s.rel_path _ (In-map (λ (x : Skipped). x.rel_path) s _ j) below))
    ])

-- The action deletes neither the id, nor a folder that stands for it.
abbrev pub Spares : Bytes → Action → Type 0
Spares id a = (is_delete a.kind ≡ true → a.file_id ≢ id) × All (λ e. e.file_id ≢ id) a.subtree

closed_Spares :
    (i : Input) (id : Bytes) (a : Action)
    → ((Dict.contains id i.shadowed_remote ≡ true) ⊎ (Dict.contains id i.unreadable_local ≡ true))
    → HasIds (IsOpen i) a
    → Spares id a
closed_Spares i id a h (d, es) =
    ((λ k. differs a.file_id (d k)), All-mono _ _ a.subtree (λ e o. differs e.file_id o) es)
  where
    differs : (k : Bytes) → IsOpen i k → k ≢ id
    differs k (p, q) e = elim h [ inl x ↦ absurd (ground arith) | inr x ↦ absurd (ground arith) ]

pub plan_cycle-Spares :
    (u : Unicode) (c : Cycle) (it : Item)
    → In it c.items
    → IsUnreadable c it ⊎ IsShadowed c it
    → All (Spares it.drive_file_id) (executed (plan_cycle u c))
unfolding plan_cycle
plan_cycle-Spares u c it m h =
    executed-All (Spares it.drive_file_id) c (reported_plan u c) (guard_verdict u c) (
      All-mono _ _ (reported_plan u c)
        (λ a k.
          closed_Spares (plan_input c) it.drive_file_id a
            (elim h [ inl x ↦ inr (unreadable_lem c it m x) | inr x ↦ inl (shadowed_lem c it m x) ])
            k)
        (reported-HasIds u c))

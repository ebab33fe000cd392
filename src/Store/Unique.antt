-- ===== src/Store/Unique.antt =====
-- internal/statedb/items.go: no two baseline rows share a path or a Drive id.
use synckeeper.Base.{
  ℕ, ◌+◌, zero, suc, Bool, true, false, not, ◌&&◌, some, List, [], ◌∷◌, ◌++◌, Bytes, bytes_eq, ℤ,
  int_eq, if◌then◌else◌, ◌==◌, keep, any, map, length, drop, ◌≡◌, refl, sym, subst, arith,
  Bool-cases, inl, inr, All, All-keep, All-append, any-eq_false, In, Any-append_right, pos,
}
use synckeeper.Store.Types.{Db, Item}
use synckeeper.Store.Exec.{Exec, Outside, World, write, written, ◌>>=◌, Result, ok, err, stuck}
use synckeeper.Store.Ensures.{
  Ensures, Keeps, Post, Ensures-pure, Ensures-write, Ensures-bind, Ensures-if, Ensures-query,
  Ensures-out_of_fuel, Ensures-mono,
}
use synckeeper.Store.Nodes.{batches, batch_size}
use synckeeper.Store.Items.{
  claims, insert_item, drop_claims, put_item, upsert_item, clock, delete_item_by_id,
  delete_item_batch, delete_items_by_id, reset_baseline, moved, set_path, rename_all,
  rename_item_path, update_item_drive,
}

abbrev pub IsUnique : List Item → Type 0
IsUnique [] = Unit
IsUnique (i ∷ items) = All (λ j. claims i j ≡ false) items × IsUnique items

abbrev HasUnique : Db → Type 0
HasUnique d = IsUnique d.items

keep-IsUnique : (p : Item → Bool) (items : List Item) → IsUnique items → IsUnique (keep p items)
keep-IsUnique p [] h = tt
keep-IsUnique p (i ∷ items) (h, hs) = elim (Bool-cases (p i)) [
  | inl e ↦ rw e (All-keep _ p items h, keep-IsUnique p items hs)
  | inr e ↦ rw e (keep-IsUnique p items hs)
]

append-IsUnique :
    (it : Item) (items : List Item)
    → IsUnique items
    → All (λ j. claims it j ≡ false) items
    → IsUnique (items ++ it ∷ [])
append-IsUnique it [] h a = (tt, tt)
append-IsUnique it (i ∷ items) (h, hs) (a, rest) =
    (All-append _ items _ h (ground arith, tt), append-IsUnique it items hs rest)

-- A map that changes neither ids nor paths.
map-IsUnique :
    (f : Item → Item)
    → ((i : Item) → ((f i).drive_file_id ≡ i.drive_file_id) × ((f i).rel_path ≡ i.rel_path))
    → (items : List Item) → IsUnique items
    → IsUnique (map f items)
map-IsUnique f same [] h = tt
map-IsUnique f same (i ∷ items) (h, hs) = (others items h, map-IsUnique f same items hs)
  where
    others :
        (js : List Item)
        → All (λ j. claims i j ≡ false) js
        → All (λ j. claims (f i) j ≡ false) (map f js)
    others [] k = tt
    others (j ∷ js) (k, ks) = (ground (arith, same i, same j), others js ks)

-- Rows that pass the test are one row, and no other row has the new path.
module _ (test : Item → Bool) (path : Bytes)
    (one : (i j : Item) → test i ≡ true → test j ≡ true → claims i j ≡ true) where
  moved-claims :
      (i j : Item)
      → (not (test i) && i.rel_path == path) ≡ false
      → (not (test j) && j.rel_path == path) ≡ false
      → claims i j ≡ false
      → claims (moved test path i) (moved test path j) ≡ false
  moved-claims i j hi hj c = ground (arith, one i j)

  All-moved :
      (i : Item) (js : List Item)
      → (not (test i) && i.rel_path == path) ≡ false
      → All (λ j. (not (test j) && j.rel_path == path) ≡ false) js
      → All (λ j. claims i j ≡ false) js
      → All (λ j. claims (moved test path i) j ≡ false) (map (moved test path) js)
  All-moved i [] hi hs c = tt
  All-moved i (j ∷ js) hi (hj, hs) (c, cs) = (moved-claims i j hi hj c, All-moved i js hi hs cs)

  moved-IsUnique :
      (items : List Item)
      → All (λ j. (not (test j) && j.rel_path == path) ≡ false) items
      → IsUnique items
      → IsUnique (map (moved test path) items)
  moved-IsUnique [] h u = tt
  moved-IsUnique (i ∷ items) (h, hs) (u, us) =
      (All-moved i items h hs u, moved-IsUnique items hs us)

  -- Where no row passes the test, nothing is moved.
  unmoved :
      (items : List Item)
      → All (λ j. test j ≡ false) items
      → IsUnique items
      → IsUnique (map (moved test path) items)
  unmoved items h u = subst IsUnique (sym (same items h)) u
    where
      same : (is : List Item) → All (λ j. test j ≡ false) is → map (moved test path) is ≡ is
      same [] k = refl
      same (i ∷ is) (k, ks) = ground (arith, same is ks)

  set_path-IsUnique : (d d' : Db) → HasUnique d → set_path test path d ≡ some d' → HasUnique d'
  unfolding set_path
  set_path-IsUnique d d' u e =
      let to : Db = record d { items = map (moved test path) d.items } in
      elim (Bool-cases (any test d.items)) [
        | inr n ↦
            let q : to ≡ d' = ground arith in
            subst HasUnique q (unmoved d.items (any-eq_false test d.items n) u)
        | inl y ↦ elim (Bool-cases (any (λ i. not (test i) && i.rel_path == path) d.items)) [
          | inl b ↦ absurd (ground arith)
          | inr b ↦
              let q : to ≡ d' = ground arith in
              subst HasUnique q (moved-IsUnique d.items (any-eq_false _ d.items b) u)
        ]
      ]

set_items-Keeps :
    (f : List Item → List Item)
    → ((items : List Item) → IsUnique items → IsUnique (f items))
    → Keeps HasUnique (write (λ d. some (record d { items = f d.items })))
set_items-Keeps f h =
    Ensures-write _
      (λ d d' u e.
        let q : record d { items = f d.items } ≡ d' = cc in subst HasUnique q (h d.items u))
      (λ d u. u)

kept :
    {A : Type 0} (m : Exec A)
    → Keeps HasUnique m
    → (o : Outside) (w : World) → HasUnique w.db
    → HasUnique (m o w).1.db
kept {A} m k o w u = of (m o w).0 (m o w).1.db (k.at o w u)
  where
    of : (r : Result A) (d : Db) → Post (λ _. HasUnique) HasUnique r d → HasUnique d
    of (ok a) d h = h
    of (err x) d h = h
    of stuck d h = h

read_clock : Keeps HasUnique clock
unfolding clock
read_clock = record { at = λ o w u. u }

keep_items-Keeps :
    (p : Item → Bool) → Keeps HasUnique (write (λ d. some (record d { items = keep p d.items })))
keep_items-Keeps p = set_items-Keeps (keep p) (keep-IsUnique p)

delete_item_by_id-Keeps : (id : Bytes) → Keeps HasUnique (delete_item_by_id id)
unfolding delete_item_by_id
delete_item_by_id-Keeps id = keep_items-Keeps _

abbrev HasRow : Item → Db → Type 0
HasRow it d = HasUnique d × In it d.items

put_item-HasRow : (it : Item) → Ensures HasUnique (put_item it) (λ _. HasRow it) HasUnique
unfolding put_item insert_item drop_claims
put_item-HasRow it =
    Ensures-bind (λ _. HasUnique) _ _ (keep_items-Keeps _)
      λ _. Ensures-write _ (λ d d' u e. inserted d d' u e) (λ d u. u)
  where
    inserted : (d d' : Db) → HasUnique d → insert_item it d ≡ some d' → HasRow it d'
    inserted d d' u e = elim (Bool-cases (any (claims it) d.items)) [
      | inl b ↦ absurd (ground arith)
      | inr b ↦
          let q : record d { items = d.items ++ it ∷ [] } ≡ d' = ground arith in
          subst (HasRow it) q (
            append-IsUnique it d.items u (any-eq_false (claims it) d.items b),
            Any-append_right _ d.items _ (inl refl),
          )
    ]

-- The row as it is stored: a row without a time takes that of the clock.
abbrev pub Stored : Item → Db → Type 0
Stored it d =
    IsUnique d.items
    × (row : Item) × In row d.items
    × (record it { synced_at = row.synced_at } ≡ row)

put_item-Stored :
    (it row : Item)
    → record it { synced_at = row.synced_at } ≡ row
    → Ensures HasUnique (put_item row) (λ _. Stored it) HasUnique
put_item-Stored it row e =
    Ensures-mono _ (put_item-HasRow row) (λ d u. u) (λ a d (u, i). (u, row, i, e)) (λ d u. u)

upsert_item-Stored : (it : Item) → Ensures HasUnique (upsert_item it) (λ _. Stored it) HasUnique
unfolding upsert_item
upsert_item-Stored it =
    Ensures-if (it.synced_at == pos 0) (do t ← clock; put_item (record it { synced_at = t })) _
      (λ _.
        Ensures-bind (λ _. HasUnique) _ _ read_clock
          λ t. put_item-Stored it (record it { synced_at = t }) refl)
      (λ _. put_item-Stored it it refl)

delete_batches-Keeps :
    (fuel : ℕ) (ids : List Bytes) → Keeps HasUnique (batches delete_item_batch fuel ids)
unfolding batches delete_item_batch
delete_batches-Keeps fuel [] = Ensures-pure tt (λ d u. u)
delete_batches-Keeps zero (i ∷ ids) = Ensures-out_of_fuel (λ d u. u)
delete_batches-Keeps (suc fuel) (i ∷ ids) =
    Ensures-bind (λ _. HasUnique) _ _ (keep_items-Keeps _)
      λ _. delete_batches-Keeps fuel (drop batch_size (i ∷ ids))

by_id :
    (id : Bytes) (i j : Item)
    → (i.drive_file_id == id) ≡ true
    → (j.drive_file_id == id) ≡ true
    → claims i j ≡ true
by_id id i j h k = ground arith

by_path :
    (path : Bytes) (i j : Item)
    → (i.rel_path == path) ≡ true
    → (j.rel_path == path) ≡ true
    → claims i j ≡ true
by_path path i j h k = ground arith

rename_all-Keeps :
    (prefix path : Bytes) (rens : List Item) → Keeps HasUnique (rename_all prefix path rens)
unfolding rename_all
rename_all-Keeps prefix path [] = Ensures-pure tt (λ d u. u)
rename_all-Keeps prefix path (r ∷ rens) =
    Ensures-bind (λ _. HasUnique) _ _
      (Ensures-write _ (set_path-IsUnique _ _ (by_id r.drive_file_id)) (λ d u. u))
      λ _. rename_all-Keeps prefix path rens

rename_item_path-Keeps :
    (old_path new_path : Bytes) → Keeps HasUnique (rename_item_path old_path new_path)
unfolding rename_item_path
rename_item_path-Keeps old_path new_path =
    Ensures-bind (λ _. HasUnique) _ _
      (Ensures-write _ (set_path-IsUnique _ _ (by_path old_path)) (λ d u. u))
      λ _.
        Ensures-bind (λ _. HasUnique) _ _ (Ensures-query _ (λ d u. u) (λ d u. u))
          λ rens. rename_all-Keeps _ new_path rens

update_item_drive-Keeps :
    (id md5 : Bytes) (version : ℤ) → Keeps HasUnique (update_item_drive id md5 version)
unfolding update_item_drive
update_item_drive-Keeps id md5 version =
    set_items-Keeps _ (λ is u. map-IsUnique _ (λ i. ground arith) is u)

reset_baseline-Keeps : Keeps HasUnique reset_baseline
unfolding reset_baseline
reset_baseline-Keeps =
    Ensures-bind (λ _. HasUnique) _ _ (set_items-Keeps (λ _. []) (λ is u. tt))
      λ _.
        Ensures-write _ (λ d d' u e. let q : record d { ops = [] } ≡ d' = cc in subst HasUnique q u)
          (λ d u. u)

-- The table after an upsert: the rows that share its path or id are gone, the row comes last.
abbrev pub Upserted : Item → ℤ → List Item → List Item → Type 0
Upserted it t before after =
    after ≡ keep (λ i. not (claims it i)) before ++ record it { synced_at = t } ∷ []

abbrev pub stored_time : Outside → World → Item → ℤ
stored_time o w it = if it.synced_at == pos 0 then o.now w.calls else it.synced_at

-- The upsert fails only where a statement does.
abbrev pub UpsertEnds : Outside → Item → ℤ → List Item → Result (Unit {0}) → List Item → Type 0
UpsertEnds o it t before (ok a) after = Upserted it t before after
UpsertEnds o it t before (err x) after = (n : ℕ) × (o.sql_fails n ≡ true)
UpsertEnds o it t before stuck after = ⊥

none_claim :
    (it : Item) (items : List Item) → any (claims it) (keep (λ i. not (claims it i)) items) ≡ false
none_claim it [] = refl
none_claim it (i ∷ items) = elim (Bool-cases (claims it i)) [
  | inl b ↦ rw b (none_claim it items)
  | inr b ↦ rw b (rw b (none_claim it items))
]

put_item-Ends :
    (o : Outside) (it : Item) (t : ℤ) (w : World)
    → let z = put_item (record it { synced_at = t }) o w in
      UpsertEnds o it t w.db.items z.0 z.1.db.items
unfolding put_item insert_item drop_claims ◌>>=◌ write written
put_item-Ends o it t w = elim (Bool-cases (o.sql_fails w.calls)) [
  | inl b ↦ rw b (w.calls, b)
  | inr b ↦ elim (Bool-cases (o.sql_fails (w.calls + 1))) [
    | inl b' ↦ rw (b, b') (w.calls + 1, b')
    | inr b' ↦ rw (b, b', none_claim it w.db.items) refl
  ]
]

upsert_item-Ends :
    (o : Outside) (it : Item) (w : World)
    → let z = upsert_item it o w in UpsertEnds o it (stored_time o w it) w.db.items z.0 z.1.db.items
unfolding upsert_item clock ◌>>=◌
upsert_item-Ends o it w = elim (Bool-cases (it.synced_at == pos 0)) [
  | inl b ↦ rw b (put_item-Ends o it (o.now w.calls) w)
  | inr b ↦ rw b (put_item-Ends o it it.synced_at w)
]

-- No operation on the baseline, whether it succeeds or fails on the way, makes two rows share a
-- path or a Drive id. An upsert fails only where a statement does, and one that succeeds leaves the
-- rows that share neither path nor id with its row, and after them that row, with the time of the
-- clock if it had none.
pub items_stay-IsUnique :
    (o : Outside) (w : World)
    → IsUnique w.db.items
    → ((it : Item)
        → let z = upsert_item it o w in
          Post (λ _. Stored it) HasUnique z.0 z.1.db
          × UpsertEnds o it (stored_time o w it) w.db.items z.0 z.1.db.items)
      × ((id : Bytes) → IsUnique (delete_item_by_id id o w).1.db.items)
      × ((ids : List Bytes) → IsUnique (delete_items_by_id ids o w).1.db.items)
      × ((old_path new_path : Bytes) → IsUnique (rename_item_path old_path new_path o w).1.db.items)
      × ((id md5 : Bytes) (version : ℤ)
          → IsUnique (update_item_drive id md5 version o w).1.db.items)
      × IsUnique (reset_baseline o w).1.db.items
unfolding delete_items_by_id
items_stay-IsUnique o w u = (
  (λ it. ((upsert_item-Stored it).at o w u, upsert_item-Ends o it w)),
  (λ id. kept _ (delete_item_by_id-Keeps id) o w u),
  (λ ids. kept _ (delete_batches-Keeps (length ids) ids) o w u),
  (λ p q. kept _ (rename_item_path-Keeps p q) o w u),
  (λ id md5 v. kept _ (update_item_drive-Keeps id md5 v) o w u),
  kept _ reset_baseline-Keeps o w u,
)

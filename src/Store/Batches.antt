-- ===== src/Store/Batches.antt =====
-- internal/statedb: a delete in batches does what one statement would do.
use synckeeper.Base.{
  ℕ, zero, suc, ◌-◌, ◌≤◌, not, ◌||◌, some, List, [], ◌∷◌, Bytes, bytes_eq, keep, take, drop, length,
  ◌≡◌, ◌≢◌, refl, sym, ap, ◌∙◌, arith,
}
use synckeeper.Base.Dict
use synckeeper.Store.Types.{Db, Item, RemoteNode}
use synckeeper.Store.Exec.{Exec, Outside, World, write, stuck}
use synckeeper.Store.Ensures.{
  Ensures, Ensures-pure, Ensures-write, Ensures-bind, Ensures-mono, Post,
}
use synckeeper.Store.Total.{IsTotal, pure-IsTotal, write-IsTotal, >>=-IsTotal}
use synckeeper.Store.Nodes.{
  batches, batch_size, delete_node_batch, delete_remote_nodes, without_nodes,
}
use synckeeper.Store.Items.{delete_item_batch, delete_items_by_id, without_items}

-- The rows whose id is none of the given ones.
abbrev without : {A : Type 0} → (A → Bytes) → List Bytes → List A → List A
without id ids = keep (λ r. not (Dict.contains (id r) ids))

contains_parts :
    (k : Bytes) (n : ℕ) (ids : List Bytes)
    → Dict.contains k ids ≡ (Dict.contains k (take n ids) || Dict.contains k (drop n ids))
contains_parts k zero ids = refl
contains_parts k (suc n) [] = refl
contains_parts k (suc n) (id ∷ ids) = ground (arith, contains_parts k n ids)

without_parts :
    {A : Type 0} (id : A → Bytes) (n : ℕ) (ids : List Bytes) (rows : List A)
    → without id (drop n ids) (without id (take n ids) rows) ≡ without id ids rows
without_parts id n ids [] = refl
without_parts id n ids (r ∷ rows) =
    ground (arith, contains_parts (id r) n ids, without_parts id n ids rows)

drop_shorter : {A : Type 0} (n : ℕ) (xs : List A) → length (drop n xs) ≤ length xs - n
drop_shorter zero xs = omega arith
drop_shorter (suc n) [] = omega arith
drop_shorter (suc n) (x ∷ xs) = ground (arith, drop_shorter n xs)

without_none : {A : Type 0} (id : A → Bytes) (rows : List A) → without id [] rows ≡ rows
without_none id [] = refl
without_none id (r ∷ rows) = ap (λ xs. r ∷ xs) (without_none id rows)

-- The table is a field of the database, read by `get` and written by `put`.
module _ {A : Type 0} (id : A → Bytes) (get : Db → List A) (put : List A → Db → Db)
    (get_put : (xs : List A) (d : Db) → get (put xs d) ≡ xs)
    (put_put : (xs ys : List A) (d : Db) → put ys (put xs d) ≡ put ys d)
    (put_get : (d : Db) → put (get d) d ≡ d) (old : Db) where
  abbrev statement : List Bytes → Exec Unit
  statement ids = write (λ d. some (put (without id ids (get d)) d))

  rewrite_rows :
      (ids : List Bytes) (rows : List A) (d d' : Db)
      → d ≡ put rows old
      → put (without id ids (get d)) d ≡ d'
      → d' ≡ put (without id ids rows) old
  rewrite_rows ids rows d d' e q =
      sym q
      ∙ (ap (λ (x : Db). put (without id ids (get x)) x) e
          ∙ (ap (λ (xs : List A). put (without id ids xs) (put rows old)) (get_put rows old)
              ∙ put_put rows (without id ids rows) old))

  batches_lem :
      (fuel : ℕ) (ids : List Bytes) (rows : List A)
      → length ids ≤ fuel
      → Ensures
          (λ d. d ≡ put rows old)
          (batches statement fuel ids)
          (λ _ d. d ≡ put (without id ids rows) old)
          (λ _. Unit)
  unfolding batches
  batches_lem fuel [] rows h =
      Ensures-pure tt (λ d e. e ∙ ap (λ (x : List A). put x old) (sym (without_none id rows)))
  batches_lem zero (i ∷ ids) rows h = absurd (omega arith)
  batches_lem (suc fuel) (i ∷ ids) rows h =
      let first = take batch_size (i ∷ ids) in
      Ensures-bind (λ _ d. d ≡ put (without id first rows) old) _ _
        (Ensures-write _ (λ d d' e q. rewrite_rows first rows d d' e (cc)) (λ d e. tt))
        (λ _.
          Ensures-mono _
            (batches_lem fuel (drop batch_size (i ∷ ids)) (without id first rows)
              (omega (arith, drop_shorter 399 ids)))
            (λ d e. e)
            (λ a d e.
              e ∙ ap (λ (x : List A). put x old) (without_parts id batch_size (i ∷ ids) rows))
            (λ d e. tt))

  batches-IsTotal :
      (fuel : ℕ) (ids : List Bytes) → length ids ≤ fuel → IsTotal (batches statement fuel ids)
  unfolding batches
  batches-IsTotal fuel [] h = pure-IsTotal tt
  batches-IsTotal zero (i ∷ ids) h = absurd (omega arith)
  batches-IsTotal (suc fuel) (i ∷ ids) h =
      >>=-IsTotal _ _ (write-IsTotal _)
        λ _. batches-IsTotal fuel (drop batch_size (i ∷ ids)) (omega (arith, drop_shorter 399 ids))

abbrev item_id : Item → Bytes
item_id i = i.drive_file_id

abbrev items_of : Db → List Item
items_of d = d.items

abbrev put_items : List Item → Db → Db
put_items xs d = record d { items = xs }

abbrev node_id : RemoteNode → Bytes
node_id n = n.file_id

abbrev nodes_of : Db → List RemoteNode
nodes_of d = d.nodes

abbrev put_nodes : List RemoteNode → Db → Db
put_nodes xs d = record d { nodes = xs }

-- A batched delete of item or mirror rows by id ends; if it succeeds, it has deleted what one
-- statement with all the ids would, and changed nothing else.
pub delete_batches_exact :
    (ids : List Bytes) (o : Outside) (w : World)
    → ((delete_items_by_id ids o w).0 ≢ stuck)
      × Post
          (λ _ d. d ≡ record w.db { items = without_items ids w.db.items })
          (λ _. Unit)
          (delete_items_by_id ids o w).0
          (delete_items_by_id ids o w).1.db
      × ((delete_remote_nodes ids o w).0 ≢ stuck)
      × Post
          (λ _ d. d ≡ record w.db { nodes = without_nodes ids w.db.nodes })
          (λ _. Unit)
          (delete_remote_nodes ids o w).0
          (delete_remote_nodes ids o w).1.db
unfolding delete_items_by_id delete_remote_nodes delete_item_batch delete_node_batch
delete_batches_exact ids o w = (
  (batches-IsTotal item_id items_of put_items (λ xs d. refl) (λ xs ys d. refl) (λ d. refl) w.db
        (length ids) ids (omega arith)).at
      o w,
  (batches_lem item_id items_of put_items (λ xs d. refl) (λ xs ys d. refl) (λ d. refl) w.db
        (length ids) ids w.db.items (omega arith)).at
      o w refl,
  (batches-IsTotal node_id nodes_of put_nodes (λ xs d. refl) (λ xs ys d. refl) (λ d. refl) w.db
        (length ids) ids (omega arith)).at
      o w,
  (batches_lem node_id nodes_of put_nodes (λ xs d. refl) (λ xs ys d. refl) (λ d. refl) w.db
        (length ids) ids w.db.nodes (omega arith)).at
      o w refl,
)

-- ===== src/Root/Unread.antt =====
-- internal/root/root.go: what Resolve makes of a failed read of the stored id.
use synckeeper.Base.{
  ℕ, ◌+◌, ◌<◌, true, false, Option, some, List, [], ◌∷◌, Bytes, codes, bytes_eq, ltb, ◌≡◌, ◌≢◌,
  refl, sym, ◌∙◌, subst, inl, arith, length,
}
use synckeeper.DriveClient.Files.{File, find_folder}
use synckeeper.Store.Types.{Db, root_folder_id}
use synckeeper.Store.Exec.{
  sql, Result, ok, err, stuck, Reply, reply, Outside, World, Exec, pure, ask, query, attempt, write,
  tx, ended, ◌>>=◌, ◌>>◌, tick, caught, answered, written,
}
use synckeeper.Store.Ensures.{Keeps, Post, Ensures-pure, Ensures-ask, Ensures-write, Ensures-bind}
use synckeeper.Store.Meta.{get_meta, set_meta, delete_meta, item_count}
use synckeeper.Store.Items.{reset_baseline}
use synckeeper.RemoteDelta.Walk.Keeps.{clear_remote_nodes-Keeps, full_walk-Keeps}
use synckeeper.RemoteDelta.Refresh.{force_full_walk}
use synckeeper.Root.{
  Found, identity_steps, commit_identity, find_or_create_folder, mkdir_unless, resolve_by_name,
  resolve_stored, resolve,
}

bind_ok :
    {A B : Type 0} (m : Exec A) (f : A → Exec B) (o : Outside) (w w' : World) (a : A)
    → m o w ≡ (ok a, w')
    → (m >>= f) o w ≡ f a o w'
unfolding ◌>>=◌
bind_ok m f o w w' a e = rw e refl

write_ok :
    (f : Db → Option Db) (o : Outside) (w : World) (d : Db)
    → o.sql_fails w.calls ≡ false
    → f w.db ≡ some d
    → write f o w ≡ (ok tt, record { db = d; calls = w.calls + 1 })
unfolding write written
write_ok f o w d s e = rw (s, e) refl

query_ok :
    {A : Type 0} (f : Db → A) (o : Outside) (w : World)
    → o.sql_fails w.calls ≡ false
    → query f o w ≡ (ok (f w.db), tick w)
unfolding query
query_ok f o w s = rw s refl

ask_ok :
    {A : Type 0} (call : Outside → ℕ → Reply A) (o : Outside) (w : World) (a : A)
    → call o w.calls ≡ reply a
    → ask call o w ≡ (ok a, tick w)
unfolding ask answered
ask_ok call o w a e = rw e refl

tx_ok :
    {A : Type 0} (m : Exec A) (o : Outside) (w w' : World) (a : A)
    → o.sql_fails w.calls ≡ false
    → m o (tick w) ≡ (ok a, w')
    → o.sql_fails w'.calls ≡ false
    → tx m o w ≡ (ok a, tick w')
unfolding tx ended
tx_ok m o w w' a s e t = rw (s, e, t) refl

unread :
    (key : Bytes) (o : Outside) (w : World)
    → o.sql_fails w.calls ≡ true
    → attempt (get_meta key) o w ≡ (ok (inl sql), tick w)
unfolding attempt get_meta query ◌>>=◌ caught
unread key o w s = rw s refl

module _ (o : Outside) (n : ℕ) (fine : (k : ℕ) → n < k → o.sql_fails k ≡ false) (f : File) where
  abbrev at : Db → ℕ → World
  at d k = record { db = d; calls = k }

  identity_steps_ok :
      (d : Db) (k : ℕ)
      → n < k
      → (d' : Db) × (identity_steps f true o (at d k) ≡ (ok tt, at d' (k + 1 + 1 + 1 + 1 + 1)))
        × (d'.items ≡ [])
  unfolding identity_steps set_meta delete_meta reset_baseline
  identity_steps_ok d k lt = (
    _,
    bind_ok _ _ o _ _ tt (write_ok _ o (at d k) _ (fine k lt) refl)
        ∙ (bind_ok _ _ o _ _ tt (write_ok _ o (at _ (k + 1)) _ (fine (k + 1) (omega arith)) refl)
            ∙ (bind_ok _ _ o _ _ tt (
                  bind_ok _ _ o _ _ tt
                    (write_ok _ o (at _ (k + 1 + 1)) _ (fine (k + 1 + 1) (omega arith)) refl)
                  ∙ write_ok _ o (at _ (k + 1 + 1 + 1)) _ (fine (k + 1 + 1 + 1) (omega arith)) refl)
                ∙ write_ok _ o (at _ (k + 1 + 1 + 1 + 1)) _ (fine (k + 1 + 1 + 1 + 1) (omega arith))
                    refl)),
    refl,
  )

  commit_identity_ok :
      (d : Db) (k : ℕ)
      → n < k
      → (w' : World) × (commit_identity f true o (at d k) ≡ (ok tt, w')) × (w'.db.items ≡ [])
  unfolding commit_identity
  commit_identity_ok d k lt =
      let (d', e, r) = identity_steps_ok d (k + 1) (omega arith) in
      (
        _,
        tx_ok _ o (at d k) (at d' (k + 1 + 1 + 1 + 1 + 1 + 1)) tt (fine k lt) e
            (fine (k + 1 + 1 + 1 + 1 + 1 + 1) (omega arith)),
        r,
      )

find_or_create_folder_ok :
    (name : Bytes) (o : Outside) (w : World) (children : List File) (f : File)
    → o.list w.calls (codes "root") ≡ reply children
    → find_folder name children ≡ some f
    → find_or_create_folder (codes "root") name o w ≡ (ok f, tick w)
unfolding find_or_create_folder mkdir_unless pure
find_or_create_folder_ok name o w children f e g =
    bind_ok _ _ o w (tick w) children (ask_ok _ o w children e) ∙ rw g refl

abbrev IsEmpty : Db → Type 0
IsEmpty d = d.items ≡ []

force_full_walk-Keeps : (fuel : ℕ) (root : Bytes) → Keeps IsEmpty (force_full_walk fuel root)
unfolding force_full_walk set_meta
force_full_walk-Keeps fuel root =
    Ensures-bind (λ _. IsEmpty) _ _ (Ensures-ask _ (λ a d h. h) (λ d h. h))
      λ token.
        Ensures-bind (λ _. IsEmpty) _ _ (clear_remote_nodes-Keeps (λ d ns h. h))
          λ _.
            Ensures-bind (λ _. IsEmpty) _ _ (full_walk-Keeps (λ d ns h. h) fuel (root ∷ []))
              λ _.
                Ensures-bind (λ _. IsEmpty) _ _
                  (Ensures-write _ (λ d d' h e. ground arith) (λ d h. h))
                  λ _. Ensures-write _ (λ d d' h e. ground arith) (λ d h. h)

rest-Keeps :
    (fuel : ℕ) (root : Bytes) (r : Found) → Keeps IsEmpty (do force_full_walk fuel root; pure r)
rest-Keeps fuel root r =
    Ensures-bind (λ _. IsEmpty) _ _ (force_full_walk-Keeps fuel root) λ _. Ensures-pure r (λ d h. h)

run-IsEmpty :
    {A : Type 0} (m : Exec A)
    → Keeps IsEmpty m
    → (o : Outside) (w : World) → IsEmpty w.db
    → IsEmpty (m o w).1.db
run-IsEmpty {A} m k o w h = of (m o w).0 (m o w).1.db (k.at o w h)
  where
    of : (r : Result A) (d : Db) → Post (λ _. IsEmpty) IsEmpty r d → IsEmpty d
    of (ok a) d x = x
    of (err e) d x = x
    of stuck d x = x

some_rows : {A : Type 0} (xs : List A) → xs ≢ [] → ltb 0 (length xs) ≡ true
some_rows [] h = absurd (h refl)
some_rows (x ∷ xs) h = ground arith

-- Where the read of the stored id fails, no later statement on the database does, Drive lists a folder
-- of the name, and the baseline has rows, Resolve empties the baseline, whatever id was stored.
pub resolve_unread :
    (fuel : ℕ) (name : Bytes) (o : Outside) (w : World) (children : List File) (f : File)
    → o.sql_fails w.calls ≡ true
    → ((k : ℕ) → w.calls < k → o.sql_fails k ≡ false)
    → o.list (w.calls + 1) (codes "root") ≡ reply children
    → find_folder name children ≡ some f
    → w.db.items ≢ []
    → (resolve fuel name o w).1.db.items ≡ []
unfolding resolve resolve_stored resolve_by_name item_count
resolve_unread fuel name o w children f s fine l g rows =
    let c = w.calls in
    let (w', e, empty) = commit_identity_ok o c fine f w.db (c + 1 + 1 + 1) (omega arith) in
    let r : Found = record { id = f.id; name = f.name; created = true; renamed = false } in
    let path : resolve fuel name o w ≡ (do force_full_walk fuel f.id; pure r) o w' =
      bind_ok _ _ o w (tick w) (inl sql) (unread root_folder_id o w s)
      ∙ (bind_ok _ _ o (tick w) (tick (tick w)) f
            (find_or_create_folder_ok name o (tick w) children f l g)
          ∙ (bind_ok _ _ o (tick (tick w)) (tick (tick (tick w))) (length w.db.items)
                (query_ok _ o (tick (tick w)) (fine (c + 1 + 1) (omega arith)))
              ∙ (rw (some_rows w.db.items rows) (bind_ok _ _ o (tick (tick (tick w))) w' tt e)))) in
    subst (λ (z : Result Found × World). z.1.db.items ≡ []) (sym path)
      (run-IsEmpty _ (rest-Keeps fuel f.id r) o w' empty)

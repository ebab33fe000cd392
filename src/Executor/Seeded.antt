-- ===== src/Executor/Seeded.antt =====
-- internal/executor/executor.go: rules to follow the database through `seedOrphanCreates`, under
-- one outside.
pub mod Listings
pub mod Creates
use synckeeper.Base.{
  some, ℕ, ◌+◌, Bool, true, false, List, ◌≡◌, refl, ◌∙◌, inl, inr, ◌⊎◌, Bool-cases, if◌then◌else◌,
  In, Bytes, bytes_eq, ◌==◌, arith, [], ◌∷◌,
}
use synckeeper.Store.Types.{Db, RemoteNode}
use synckeeper.Store.Exec.{
  Error, Result, ok, err, stuck, Reply, reply, failed, Outside, World, Exec, pure, raise, ask,
  query, attempt, write, ◌>>=◌, written, answered, continue, caught, drive,
}
use synckeeper.Store.Nodes.{put_node, upsert_remote_node}
use synckeeper.DriveClient.{Failure, is_not_found}
use synckeeper.DriveClient.Files.{File}
use synckeeper.RemoteDelta.Walk.{to_node}

-- The folder was listed with these children, or is gone.
abbrev pub IsListed : Outside → Bytes → List File → Type 0
IsListed o g fs =
    (n : ℕ) × ((o.list n g ≡ reply fs)
      ⊎ ((fs ≡ []) × ((f : Failure) × (o.list n g ≡ failed f) × (is_not_found (some f) ≡ true))))

-- The row that `toNode` makes of a listed child.
abbrev pub IsListedNode : Outside → RemoteNode → Type 0
IsListedNode o n =
    (g : Bytes) × (fs : List File) × (f : File) × IsListed o g fs × In f fs × (n ≡ to_node f g)

abbrev pub HasNode : Outside → Bytes → Db → Type 0
HasNode o id d = (n : RemoteNode) × In n d.nodes × (n.file_id ≡ id) × IsListedNode o n

-- The mirror keeps its ids, and nothing else changes.
pub record Grows (o : Outside) (d d' : Db) : Type 0 where
  pub items : d'.items ≡ d.items
  pub ops : d'.ops ≡ d.ops
  pub meta : d'.meta ≡ d.meta
  pub nodes : (id : Bytes) → HasNode o id d → HasNode o id d'

pub Grows-refl : {o : Outside} (d : Db) → Grows o d d
Grows-refl d = record { items = refl; ops = refl; meta = refl; nodes = λ id h. h }

Grows-trans : {o : Outside} (a b c : Db) → Grows o a b → Grows o b c → Grows o a c
Grows-trans a b c g h = record {
  items = h.items ∙ g.items;
  ops = h.ops ∙ g.ops;
  meta = h.meta ∙ g.meta;
  nodes = λ id k. h.nodes id (g.nodes id k);
}

-- A statement on the database fails, or a listing with an error that is not that of a missing
-- folder.
abbrev pub HasTrouble : Outside → Type 0
HasTrouble o =
    ((n : ℕ) × (o.sql_fails n ≡ true))
    ⊎ ((n : ℕ) × (g : Bytes) × (f : Failure) × (o.list n g ≡ failed f)
        × (is_not_found (some f) ≡ false))

abbrev pub IfOk : {A : Type 0} → Outside → (A → Db → Type 0) → Result A → Db → Type 0
IfOk o Q (ok a) d = Q a d
IfOk o Q (err x) d = HasTrouble o
IfOk o Q stuck d = HasTrouble o

-- From a database with `P`, the action lets the mirror grow, and a value is as `Q` says.
pub record Meets {A : Type 0} (o : Outside) (P : Db → Type 0) (m : Exec A) (Q : A → Db → Type 0)
    : Type 0 where
  pub at : (w : World) → P w.db → let r = m o w in Grows o w.db r.1.db × IfOk o Q r.0 r.1.db

-- A fact about the value before is a hypothesis.
pub Meets-from :
    {o : Outside} {A : Type 0} {Q : A → Db → Type 0} {X : Type 0} {m : Exec A}
    → (X → Meets o (λ _. Unit {0}) m Q)
    → Meets o (λ _. X) m Q
Meets-from h = record { at = λ w x. (h x).at w tt }

module _ {o : Outside} {P : Db → Type 0} where
  pub Meets-pure :
      {A : Type 0} {Q : A → Db → Type 0} (a : A) → ((d : Db) → P d → Q a d) → Meets o P (pure a) Q
  unfolding pure
  Meets-pure a h = record { at = λ w p. (Grows-refl w.db, h w.db p) }

  pub Meets-query :
      {A : Type 0} {Q : A → Db → Type 0} (f : Db → A)
      → ((d : Db) → P d → Q (f d) d)
      → Meets o P (query f) Q
  unfolding query
  Meets-query f h = record {
    at = λ w p. elim (Bool-cases (o.sql_fails w.calls)) [
      | inl b ↦ rw b (Grows-refl w.db, inl (w.calls, b))
      | inr b ↦ rw b (Grows-refl w.db, h w.db p)
    ];
  }

  pub Meets-if :
      {A : Type 0} {Q : A → Db → Type 0} (b : Bool) (m n : Exec A)
      → (b ≡ true → Meets o P m Q)
      → (b ≡ false → Meets o P n Q)
      → Meets o P (if b then m else n) Q
  Meets-if true m n hm hn = hm refl
  Meets-if false m n hm hn = hn refl

  pub Meets-bind :
      {A B : Type 0} {Q : B → Db → Type 0} (R : A → Db → Type 0) (m : Exec A) (f : A → Exec B)
      → Meets o P m R
      → ((a : A) → Meets o (R a) (f a) Q)
      → Meets o P (m >>= f) Q
  unfolding ◌>>=◌
  Meets-bind {A} {B} {Q} R m f hm hf = record {
    at = λ w p. let (g, k) = hm.at w p in next w.db (m o w).0 (m o w).1 g k;
  }
    where
      next :
          (d : Db) (r : Result A) (w : World)
          → Grows o d w.db
          → IfOk o R r w.db
          → Grows o d (continue r f o w).1.db
            × IfOk o Q (continue r f o w).0 (continue r f o w).1.db
      next d (ok a) w g k = let (g', l) = (hf a).at w k in (Grows-trans d w.db _ g g', l)
      next d (err x) w g k = (g, k)
      next d stuck w g k = (g, k)

  pub Meets-with :
      {A : Type 0} {Q : A → Db → Type 0} {X : Type 0} {m : Exec A}
      → (X → Meets o P m Q)
      → Meets o (λ d. X × P d) m Q
  Meets-with h = record { at = λ w (x, p). (h x).at w p }

  -- What the growth of the mirror keeps, a value comes with.
  pub Meets-kept :
      {A : Type 0} {Q : A → Db → Type 0} (S : Db → Type 0) (m : Exec A)
      → ((d d' : Db) → Grows o d d' → S d → S d')
      → Meets o P m Q
      → Meets o (λ d. P d × S d) m (λ a d. Q a d × S d)
  Meets-kept {A} {Q} S m h hm = record {
    at = λ w (p, s).
        let (g, k) = hm.at w p in (g, both (m o w).0 (m o w).1.db k (h w.db (m o w).1.db g s));
  }
    where
      both : (r : Result A) (d : Db) → IfOk o Q r d → S d → IfOk o (λ a d. Q a d × S d) r d
      both (ok a) d q s = (q, s)
      both (err x) d q s = q
      both stuck d q s = q

  pub Meets-mono :
      {A : Type 0} {Q : A → Db → Type 0} (P' : Db → Type 0) (R : A → Db → Type 0) (m : Exec A)
      → ((d : Db) → P d → P' d)
      → ((a : A) (d : Db) → R a d → Q a d)
      → Meets o P' m R
      → Meets o P m Q
  Meets-mono {A} {Q} P' R m hp hq hm = record {
    at = λ w p. let (g, k) = hm.at w (hp w.db p) in (g, of (m o w).0 (m o w).1.db k);
  }
    where
      of : (r : Result A) (d : Db) → IfOk o R r d → IfOk o Q r d
      of (ok a) d k = hq a d k
      of (err x) d k = k
      of stuck d k = k

put_node-In :
    (n m : RemoteNode) (ns : List RemoteNode)
    → In m ns
    → In m (put_node n ns) ⊎ (n.file_id ≡ m.file_id)
unfolding put_node
put_node-In n m [] h = absurd h
put_node-In n m (x ∷ ns) (inl e) = elim (Bool-cases (x.file_id == n.file_id)) [
  | inl b ↦ rw b (inr (ground (arith, e)))
  | inr b ↦ rw b (inl (inl e))
]
put_node-In n m (x ∷ ns) (inr i) = elim (Bool-cases (x.file_id == n.file_id)) [
  | inl b ↦ rw b (inl (inr i))
  | inr b ↦ rw b (elim (put_node-In n m ns i) [ inl j ↦ inl (inr j) | inr q ↦ inr q ])
]

put_node-has : (n : RemoteNode) (ns : List RemoteNode) → In n (put_node n ns)
unfolding put_node
put_node-has n [] = inl refl
put_node-has n (x ∷ ns) = elim (Bool-cases (x.file_id == n.file_id)) [
  | inl b ↦ rw b (inl refl)
  | inr b ↦ rw b (inr (put_node-has n ns))
]

pub upsert_remote_node-Meets :
    {o : Outside} (g : Bytes) (fs : List File) (f : File)
    → IsListed o g fs
    → In f fs
    → Meets o (λ _. Unit) (upsert_remote_node (to_node f g)) (λ _ d. HasNode o f.id d)
unfolding upsert_remote_node write written to_node
upsert_remote_node-Meets {o} g fs f l i = record {
  at = λ w p.
      let n = to_node f g in
      let new : HasNode o f.id (record w.db { nodes = put_node n w.db.nodes }) =
        (n, put_node-has n w.db.nodes, refl, (g, fs, f, l, i, refl)) in
      elim (Bool-cases (o.sql_fails w.calls)) [
        | inl b ↦ rw b (Grows-refl w.db, inl (w.calls, b))
        | inr b ↦ rw b (
          record {
            items = refl;
            ops = refl;
            meta = refl;
            nodes = λ id (m, j, q, k). elim (put_node-In n m w.db.nodes j) [
              | inl j' ↦ (m, j', q, k)
              | inr e ↦ (n, put_node-has n w.db.nodes, e ∙ q, (g, fs, f, l, i, refl))
            ];
          },
          new,
        )
      ];
}

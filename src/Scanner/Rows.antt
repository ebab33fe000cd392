-- ===== src/Scanner/Rows.antt =====
-- internal/scanner/scanner.go: where the rows of the snapshot come from.
use synckeeper.Base.{
  Bool, true, false, not, ◌&&◌, Option, none, some, Bytes, bytes_eq, ◌==◌, int_eq, ◌≡◌, refl, subst,
  sym, ap, ◌⊎◌, inl, inr, arith, Bool-cases,
}
use synckeeper.Base.Dict
use synckeeper.Base.Dict.{lookup-insert}
use synckeeper.Names.{NameError, ignored, validate, join}
use synckeeper.Reconcile.Types.{BaseItem, LocalItem}
use synckeeper.Scanner.{
  Stat, Leaf, regular, link, special, Listing, end, leaf, folder, ScanConfig, ScanState, dir_item,
  add_skip, add_item, unread, Ruling, passed_over, reported, taken, name_ruling, leaf_ruling, rule,
  known_md5, take_file, enter, apply_ruling, walk,
}
use synckeeper.Scanner.Covered.{and_then-some, take_file-some}

-- An entry: a directory, which could be read or not, or another one.
pub data Thing : Type 0 where
  a_folder : Bool → Thing
  a_leaf : Leaf → Thing

-- The entry that a row of the snapshot stands for. A file has its own stat, and its own hash, or the
-- baseline's under the same stat.
abbrev pub IsRowOf : ScanConfig → Bytes → Thing → LocalItem → Type 0
IsRowOf c p (a_folder readable) item = item ≡ dir_item
IsRowOf c p (a_leaf k) item =
    (st : Stat) × (sum : Option Bytes) × (k ≡ regular (some st) sum)
    × (item.is_dir ≡ false)
    × (item.size ≡ st.size)
    × (item.mtime_ns ≡ st.mtime_ns)
    × ((sum ≡ some item.md5)
        ⊎ ((b : BaseItem) × (Dict.lookup p c.base ≡ some b)
            × (b.is_dir ≡ false)
            × (b.size ≡ st.size)
            × (b.mtime_ns ≡ st.mtime_ns)
            × (b.md5 ≡ item.md5)))

abbrev pub IsTaken : ScanConfig → Bytes → Type 0
IsTaken c name = (ignored c.matches c.ignore name ≡ false) × (validate name ≡ none)

-- Some entry that the scan takes, at the path, in the directory or in a folder of it that the scan
-- enters, has the row.
abbrev pub HasRow : ScanConfig → Bytes → Listing → Bytes → LocalItem → Type 0
HasRow c dir end p item = ⊥
HasRow c dir (leaf name k rest) p item =
    (IsTaken c name × (join dir name ≡ p) × IsRowOf c p (a_leaf k) item) ⊎ HasRow c dir rest p item
HasRow c dir (folder name readable kids rest) p item =
    (IsTaken c name
      × (((join dir name ≡ p) × IsRowOf c p (a_folder readable) item)
          ⊎ HasRow c (join dir name) kids p item))
    ⊎ HasRow c dir rest p item

abbrev pub IsStored : ScanState → Bytes → LocalItem → Type 0
IsStored s p item = Dict.lookup p s.snapshot ≡ some item

added_row :
    (q : Bytes) (item : LocalItem) (s : ScanState) (p : Bytes) (x : LocalItem)
    → IsStored (add_item q item s) p x
    → IsStored s p x ⊎ ((q ≡ p) × (item ≡ x))
unfolding add_item
added_row q item s p x e = elim (Bool-cases (p == q)) [
  | inl t ↦ inr (
    ground (arith, lookup-insert p q item s.snapshot),
    ground (arith, lookup-insert p q item s.snapshot),
  )
  | inr t ↦ inl (ground (arith, lookup-insert p q item s.snapshot))
]

entered_row :
    (q : Bytes) (r : Bool) (s : ScanState) (p : Bytes) (x : LocalItem)
    → IsStored (enter q r s) p x
    → IsStored s p x ⊎ ((q ≡ p) × (dir_item ≡ x))
unfolding enter add_skip
entered_row q true s p x e = added_row q dir_item s p x e
entered_row q false s p x e =
    elim (added_row q dir_item (add_skip q unread true (add_item q dir_item s)) p x e) [
      | inl h ↦ added_row q dir_item s p x h
      | inr h ↦ inr h
    ]

known_md5-Cases :
    (b : Option BaseItem) (st : Stat) (sum : Option Bytes) (m : Bytes)
    → known_md5 b st sum ≡ some m
    → (sum ≡ some m)
      ⊎ ((i : BaseItem) × (b ≡ some i)
          × (i.is_dir ≡ false)
          × (i.size ≡ st.size)
          × (i.mtime_ns ≡ st.mtime_ns)
          × (i.md5 ≡ m))
unfolding known_md5
known_md5-Cases none st sum m e = inl e
known_md5-Cases (some i) st sum m e =
    elim (Bool-cases (not i.is_dir && (i.size == st.size && i.mtime_ns == st.mtime_ns))) [
      | inr f ↦ inl (ground arith)
      | inl t ↦ inr (i, refl, ground arith, ground arith, ground arith, ground arith)
    ]

take_file_row :
    (c : ScanConfig) (q : Bytes) (k : Leaf) (s t : ScanState) (p : Bytes) (x : LocalItem)
    → take_file c q k s ≡ some t
    → IsStored t p x
    → IsStored s p x ⊎ ((q ≡ p) × IsRowOf c p (a_leaf k) x)
take_file_row c q k s t p x e r =
    let (st, sum, m, shape, known, f) = take_file-some c q k s t e in
    let item : LocalItem = record {
      is_dir = false;
      size = st.size;
      mtime_ns = st.mtime_ns;
      md5 = m;
    } in
    elim (added_row q item s p x (subst (λ z. IsStored z p x) (sym f) r)) [
      | inl h ↦ inl h
      | inr (h, i) ↦ inr (
        h,
        (
          st,
          sum,
          shape,
          ground arith,
          ground arith,
          ground arith,
          subst
              (λ z.
                (sum ≡ some z)
                ⊎ ((b : BaseItem) × (Dict.lookup p c.base ≡ some b)
                    × (b.is_dir ≡ false)
                    × (b.size ≡ st.size)
                    × (b.mtime_ns ≡ st.mtime_ns)
                    × (b.md5 ≡ z)))
              (ap (λ (z : LocalItem). z.md5) i)
              (known_md5-Cases (Dict.lookup p c.base) st sum m
                (subst (λ z. known_md5 (Dict.lookup z c.base) st sum ≡ some m) h known)),
        ),
      )
    ]

pub name_ruling-taken : (o : Option NameError) → name_ruling o ≡ taken → o ≡ none
unfolding name_ruling
name_ruling-taken none e = refl
name_ruling-taken (some x) e = cc

leaf_ruling-taken : (name : Bytes) (k : Leaf) → leaf_ruling name k ≡ taken → validate name ≡ none
unfolding leaf_ruling
leaf_ruling-taken name (regular st sum) e = name_ruling-taken (validate name) e
leaf_ruling-taken name link e = cc
leaf_ruling-taken name special e = cc

ruled_row :
    (c : ScanConfig) (name q : Bytes) (v : Ruling) (s t : ScanState) (inside : Option ScanState)
    (p : Bytes) (x : LocalItem)
    → apply_ruling (rule c name v) q s inside ≡ some t
    → IsStored t p x
    → IsStored s p x ⊎ ((ignored c.matches c.ignore name ≡ false) × (v ≡ taken) × (inside ≡ some t))
unfolding apply_ruling rule add_skip
ruled_row c name q v s t inside p x e r = elim (Bool-cases (ignored c.matches c.ignore name)) [
  | inl g ↦ inl (ground arith)
  | inr g ↦ elim (of v (ground arith)) [ inl h ↦ inl h | inr (w, n) ↦ inr (g, w, n) ]
]
  where
    of :
        (v : Ruling)
        → apply_ruling v q s inside ≡ some t
        → IsStored s p x ⊎ ((v ≡ taken) × (inside ≡ some t))
    of passed_over e = inl (ground arith)
    of (reported why) e = inl (ground arith)
    of taken e = inr (refl, e)

module _ (c : ScanConfig) (p : Bytes) (x : LocalItem) where
  pub walk-HasRow :
      (dir : Bytes) (l : Listing) (s t : ScanState)
      → walk c dir l s ≡ some t
      → IsStored t p x
      → IsStored s p x ⊎ HasRow c dir l p x
  unfolding walk
  walk-HasRow dir end s t e r = inl (ground arith)
  walk-HasRow dir (leaf name k rest) s t e r =
      let q = join dir name in
      let v = leaf_ruling name k in
      let (u, a, b) =
        and_then-some (apply_ruling (rule c name v) q s (take_file c q k s)) (walk c dir rest) t
          e in
      elim (walk-HasRow dir rest u t b r) [
        | inr h ↦ inr (inr h)
        | inl h ↦ elim (ruled_row c name q v s u (take_file c q k s) p x a h) [
          | inl i ↦ inl i
          | inr (g, w, i) ↦ elim (take_file_row c q k s u p x i h) [
            | inl j ↦ inl j
            | inr (j, d) ↦ inr (inl ((g, leaf_ruling-taken name k w), j, d))
          ]
        ]
      ]
  walk-HasRow dir (folder name readable kids rest) s t e r =
      let q = join dir name in
      let v = name_ruling (validate name) in
      let s' = enter q readable s in
      let (u, a, b) =
        and_then-some (apply_ruling (rule c name v) q s (walk c q kids s')) (walk c dir rest) t e in
      elim (walk-HasRow dir rest u t b r) [
        | inr h ↦ inr (inr h)
        | inl h ↦ elim (ruled_row c name q v s u (walk c q kids s') p x a h) [
          | inl i ↦ inl i
          | inr (g, w, i) ↦ elim (walk-HasRow q kids s' u i h) [
            | inr j ↦ inr (inl ((g, name_ruling-taken (validate name) w), inr j))
            | inl j ↦ elim (entered_row q readable s p x j) [
              | inl k ↦ inl k
              | inr (k, d) ↦ inr (inl ((g, name_ruling-taken (validate name) w), inl (k, sym d)))
            ]
          ]
        ]
      ]

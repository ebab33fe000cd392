-- ===== src/Scanner/Covered.antt =====
-- internal/scanner/scanner.go: no entry gets lost in a scan.
use synckeeper.Base.{
  Bool, true, false, Option, none, some, Bytes, bytes_eq, ◌==◌, int_eq, ◌≡◌, ◌≢◌, refl, subst, ◌⊎◌,
  inl, inr, arith, In, Any-append_left, Any-append_right, Bool-cases, Option-cases,
}
use synckeeper.Base.Dict
use synckeeper.Base.Dict.{lookup-insert}
use synckeeper.Names.{ignored, validate, join}
use synckeeper.Reconcile.Types.{LocalItem}
use synckeeper.Scanner.{
  LocalSkip, Stat, Leaf, regular, link, special, Listing, end, leaf, folder, ScanConfig, ScanState,
  dir_item, add_skip, add_item, ScanReason, unread, Ruling, passed_over, reported, taken,
  name_ruling, leaf_ruling, rule, known_md5, file_item, take_file, enter, apply_ruling, and_then,
  walk,
}

abbrev pub InSnapshot : ScanState → Bytes → Type 0
InSnapshot s p = (item : LocalItem) × (Dict.lookup p s.snapshot ≡ some item)

abbrev pub IsSkipped : ScanState → Bytes → Bool → Type 0
IsSkipped s p unreadable =
    (k : LocalSkip) × In k s.skips × (k.rel_path ≡ p) × (k.unreadable ≡ unreadable)

-- The second scan has what the first has.
pub record Grows (s t : ScanState) : Type 0 where
  pub kept : (p : Bytes) → InSnapshot s p → InSnapshot t p
  pub skipped : (p : Bytes) (b : Bool) → IsSkipped s p b → IsSkipped t p b

same : (s : ScanState) → Grows s s
same s = record { kept = λ p h. h; skipped = λ p b h. h }

later : (s t u : ScanState) → Grows s t → Grows t u → Grows s u
later s t u g h = record {
  kept = λ p x. h.kept p (g.kept p x);
  skipped = λ p b x. h.skipped p b (g.skipped p b x);
}

in_added : (p : Bytes) (item : LocalItem) (s : ScanState) → InSnapshot (add_item p item s) p
unfolding add_item
in_added p item s = (item, ground (arith, lookup-insert p p item s.snapshot))

add_item-Grows : (p : Bytes) (item : LocalItem) (s : ScanState) → Grows s (add_item p item s)
unfolding add_item
add_item-Grows p item s = record {
  kept = λ q (x, e). elim (Bool-cases (q == p)) [
    | inl t ↦ (item, ground (arith, lookup-insert q p item s.snapshot))
    | inr t ↦ (x, ground (arith, lookup-insert q p item s.snapshot))
  ];
  skipped = λ q b h. h;
}

in_skipped :
    (p : Bytes) (why : ScanReason) (b : Bool) (s : ScanState) → IsSkipped (add_skip p why b s) p b
unfolding add_skip
in_skipped p why b s = (
  record { rel_path = p; reason = why; unreadable = b },
  Any-append_right _ s.skips _ (inl refl),
  refl,
  refl,
)

add_skip-Grows :
    (p : Bytes) (why : ScanReason) (b : Bool) (s : ScanState) → Grows s (add_skip p why b s)
unfolding add_skip
add_skip-Grows p why b s = record {
  kept = λ q h. h;
  skipped = λ q u (k, m, e, f). (k, Any-append_left _ s.skips _ m, e, f);
}

pub and_then-some :
    (o : Option ScanState) (f : ScanState → Option ScanState) (t : ScanState)
    → and_then o f ≡ some t
    → (u : ScanState) × (o ≡ some u) × (f u ≡ some t)
unfolding and_then
and_then-some none f t e = cc
and_then-some (some u) f t e = (u, refl, e)

enter-Grows : (p : Bytes) (r : Bool) (s : ScanState) → Grows s (enter p r s)
unfolding enter
enter-Grows p true s = add_item-Grows p dir_item s
enter-Grows p false s =
    let s' = add_item p dir_item s in
    later _ _ _ (add_item-Grows p dir_item s) (
      later _ _ _ (add_skip-Grows p unread true s')
        (add_item-Grows p dir_item (add_skip p unread true s')))

file_item-some :
    (p : Bytes) (st : Stat) (md5 : Option Bytes) (s t : ScanState)
    → file_item p st md5 s ≡ some t
    → (m : Bytes) × (md5 ≡ some m)
      × (add_item p (record { is_dir = false; size = st.size; mtime_ns = st.mtime_ns; md5 = m }) s
          ≡ t)
unfolding file_item
file_item-some p st none s t e = cc
file_item-some p st (some m) s t e = (m, refl, ground arith)

-- What a scan makes of a regular file.
pub take_file-some :
    (c : ScanConfig) (p : Bytes) (k : Leaf) (s t : ScanState)
    → take_file c p k s ≡ some t
    → (st : Stat) × (sum : Option Bytes) × (m : Bytes) × (k ≡ regular (some st) sum)
      × (known_md5 (Dict.lookup p c.base) st sum ≡ some m)
      × (add_item p (record { is_dir = false; size = st.size; mtime_ns = st.mtime_ns; md5 = m }) s
          ≡ t)
unfolding take_file
take_file-some c p (regular none sum) s t e = cc
take_file-some c p (regular (some st) sum) s t e =
    let (m, h, f) = file_item-some p st (known_md5 (Dict.lookup p c.base) st sum) s t e in
    (st, sum, m, refl, h, f)
take_file-some c p link s t e = cc
take_file-some c p special s t e = cc

-- What becomes of an entry of the name and kind.
abbrev pub IsScanned : ScanConfig → ScanState → Bytes → Bytes → Type 0
IsScanned c s name p =
    (ignored c.matches c.ignore name ≡ true) ⊎ (IsSkipped s p false ⊎ InSnapshot s p)

module _ (c : ScanConfig) (p name : Bytes) (s t : ScanState) (inside : Option ScanState) where
  apply_ruling-Grows :
      (v : Ruling) → apply_ruling v p s inside ≡ some t → (inside ≡ some t → Grows s t) → Grows s t
  unfolding apply_ruling
  apply_ruling-Grows passed_over e h = subst (Grows s) (ground arith) (same s)
  apply_ruling-Grows (reported why) e h =
      subst (Grows s) (ground arith) (add_skip-Grows p why false s)
  apply_ruling-Grows taken e h = h e

  apply_ruling-IsScanned :
      (v : Ruling)
      → apply_ruling (rule c name v) p s inside ≡ some t
      → v ≢ passed_over
      → (inside ≡ some t → InSnapshot t p)
      → IsScanned c t name p
  unfolding apply_ruling rule
  apply_ruling-IsScanned v e n h = elim (Bool-cases (ignored c.matches c.ignore name)) [
    | inl g ↦ inl g
    | inr g ↦ inr (of v (ground arith) n)
  ]
    where
      of :
          (v : Ruling)
          → apply_ruling v p s inside ≡ some t
          → v ≢ passed_over
          → IsSkipped t p false ⊎ InSnapshot t p
      of passed_over e n = absurd (n refl)
      of (reported why) e n =
          let q : add_skip p why false s ≡ t = ground arith in
          inl (subst (λ x. IsSkipped x p false) q (in_skipped p why false s))
      of taken e n = inr (h e)

-- Each entry of a directory that the tests let the scan enter is in the snapshot, skipped or ignored;
-- one that could not be read is in the snapshot and among the unreadable skips.
abbrev pub IsCovered : ScanConfig → ScanState → Bytes → Listing → Type 0
IsCovered c s dir end = Unit
IsCovered c s dir (leaf name k rest) = IsScanned c s name (join dir name) × IsCovered c s dir rest
IsCovered c s dir (folder name readable kids rest) =
    IsScanned c s name (join dir name)
    × (ignored c.matches c.ignore name ≡ false
        → validate name ≡ none
        → InSnapshot s (join dir name)
          × (readable ≡ false → IsSkipped s (join dir name) true)
          × IsCovered c s (join dir name) kids)
    × IsCovered c s dir rest

IsScanned-Grows :
    (c : ScanConfig) (s t : ScanState) (name p : Bytes)
    → Grows s t
    → IsScanned c s name p
    → IsScanned c t name p
IsScanned-Grows c s t name p g (inl i) = inl i
IsScanned-Grows c s t name p g (inr (inl k)) = inr (inl (g.skipped p false k))
IsScanned-Grows c s t name p g (inr (inr k)) = inr (inr (g.kept p k))

IsCovered-Grows :
    (c : ScanConfig) (s t : ScanState) (dir : Bytes) (l : Listing)
    → Grows s t
    → IsCovered c s dir l
    → IsCovered c t dir l
IsCovered-Grows c s t dir end g h = tt
IsCovered-Grows c s t dir (leaf name k rest) g (h, hs) =
    (IsScanned-Grows c s t name (join dir name) g h, IsCovered-Grows c s t dir rest g hs)
IsCovered-Grows c s t dir (folder name readable kids rest) g (h, inside, hs) = (
  IsScanned-Grows c s t name (join dir name) g h,
  (λ i v.
      let (a, b, k) = inside i v in
      (
        g.kept (join dir name) a,
        (λ r. g.skipped (join dir name) true (b r)),
        IsCovered-Grows c s t (join dir name) kids g k,
      )),
  IsCovered-Grows c s t dir rest g hs,
)

take_file-Grows :
    (c : ScanConfig) (p : Bytes) (k : Leaf) (s t : ScanState)
    → take_file c p k s ≡ some t
    → Grows s t × InSnapshot t p
take_file-Grows c p k s t e =
    let (st, sum, m, _, _, f) = take_file-some c p k s t e in
    let item : LocalItem = record {
      is_dir = false;
      size = st.size;
      mtime_ns = st.mtime_ns;
      md5 = m;
    } in
    subst (λ x. Grows s x × InSnapshot x p) f (add_item-Grows p item s, in_added p item s)

enter-holds :
    (p : Bytes) (r : Bool) (s : ScanState)
    → InSnapshot (enter p r s) p × (r ≡ false → IsSkipped (enter p r s) p true)
unfolding enter
enter-holds p true s = (in_added p dir_item s, (λ e. cc))
enter-holds p false s =
    let s' = add_item p dir_item s in
    (
      in_added p dir_item (add_skip p unread true s'),
      (λ e.
          (add_item-Grows p dir_item (add_skip p unread true s')).skipped p true
            (in_skipped p unread true s')),
    )

leaf_ruling-shows : (name : Bytes) (k : Leaf) → leaf_ruling name k ≢ passed_over
unfolding leaf_ruling name_ruling
leaf_ruling-shows name (regular st sum) e = ground (arith, Option-cases (validate name))
leaf_ruling-shows name link e = cc
leaf_ruling-shows name special e = cc

name_ruling-shows : (name : Bytes) → name_ruling (validate name) ≢ passed_over
unfolding name_ruling
name_ruling-shows name e = ground (arith, Option-cases (validate name))

entered :
    (c : ScanConfig) (name : Bytes) (inside : Option ScanState) (p : Bytes) (s u : ScanState)
    → ignored c.matches c.ignore name ≡ false
    → validate name ≡ none
    → apply_ruling (rule c name (name_ruling (validate name))) p s inside ≡ some u
    → inside ≡ some u
unfolding apply_ruling rule name_ruling
entered c name inside p s u i w a = ground arith

module _ (c : ScanConfig) where
  pub walk-Grows :
      (dir : Bytes) (l : Listing) (s t : ScanState)
      → walk c dir l s ≡ some t
      → Grows s t × IsCovered c t dir l
  unfolding walk
  walk-Grows dir end s t e = (subst (Grows s) (ground arith) (same s), tt)
  walk-Grows dir (leaf name k rest) s t e =
      let p = join dir name in
      let v = leaf_ruling name k in
      let (u, a, b) =
        and_then-some (apply_ruling (rule c name v) p s (take_file c p k s)) (walk c dir rest) t
          e in
      let (g, covered) = walk-Grows dir rest u t b in
      (
        later s u t
            (apply_ruling-Grows c p name s u _ (rule c name v) a
              (λ f. (take_file-Grows c p k s u f).0))
            g,
        (
          IsScanned-Grows c u t name p g (
              apply_ruling-IsScanned c p name s u _ v a (leaf_ruling-shows name k)
                (λ f. (take_file-Grows c p k s u f).1)),
          covered,
        ),
      )
  walk-Grows dir (folder name readable kids rest) s t e =
      let p = join dir name in
      let v = name_ruling (validate name) in
      let s' = enter p readable s in
      let (u, a, b) =
        and_then-some (apply_ruling (rule c name v) p s (walk c p kids s')) (walk c dir rest) t e in
      let (g, covered) = walk-Grows dir rest u t b in
      let (here, held) = enter-holds p readable s in
      (
        later s u t
            (apply_ruling-Grows c p name s u _ (rule c name v) a
              (λ f. later s s' u (enter-Grows p readable s) (walk-Grows p kids s' u f).0))
            g,
        (
          IsScanned-Grows c u t name p g (
              apply_ruling-IsScanned c p name s u _ v a (name_ruling-shows name)
                (λ f. (walk-Grows p kids s' u f).0.kept p here)),
          (λ i w.
              let (g', k) =
                walk-Grows p kids s' u (entered c name (walk c p kids s') p s u i w a) in
              (
                g.kept p (g'.kept p here),
                (λ r. g.skipped p true (g'.skipped p true (held r))),
                IsCovered-Grows c u t p kids g k,
              )),
          covered,
        ),
      )

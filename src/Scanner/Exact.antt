-- ===== src/Scanner/Exact.antt =====
-- internal/scanner/scanner.go: what a scan gives, and when it fails.
use synckeeper.Base.{
  Bool, true, false, Option, none, some, [], Bytes, bytes_eq, int_eq, ◌≡◌, refl, ◌⊎◌, inl, inr,
  arith, Bool-cases,
}
use synckeeper.Base.Dict
use synckeeper.Base.Dict.{lookup-insert}
use synckeeper.Names.{ignored, validate, join}
use synckeeper.Reconcile.Types.{BaseItem, LocalItem}
use synckeeper.Scanner.{
  Stat, Leaf, regular, link, special, Listing, end, leaf, folder, ScanConfig, ScanState, Ruling,
  passed_over, reported, taken, name_ruling, leaf_ruling, rule, known_md5, file_item, take_file,
  enter, apply_ruling, and_then, walk, scan,
}
use synckeeper.Scanner.Covered.{IsCovered, walk-Grows}
use synckeeper.Scanner.Rows.{HasRow, walk-HasRow, name_ruling-taken}

-- Some file that the scan takes has no stat or no hash.
abbrev pub HasUnread : ScanConfig → Listing → Type 0
HasUnread c end = ⊥
HasUnread c (leaf name k rest) =
    ((ignored c.matches c.ignore name ≡ false)
      × (validate name ≡ none)
      × ((st : Option Stat) × (sum : Option Bytes) × (k ≡ regular st sum)
          × ((st ≡ none) ⊎ (sum ≡ none))))
    ⊎ HasUnread c rest
HasUnread c (folder name readable kids rest) =
    ((ignored c.matches c.ignore name ≡ false) × (validate name ≡ none) × HasUnread c kids)
    ⊎ HasUnread c rest

known_md5-none :
    (b : Option BaseItem) (st : Stat) (sum : Option Bytes) → known_md5 b st sum ≡ none → sum ≡ none
unfolding known_md5
known_md5-none none st sum e = e
known_md5-none (some b) st sum e = ground arith

file_item-none :
    (p : Bytes) (st : Stat) (md5 : Option Bytes) (s : ScanState)
    → file_item p st md5 s ≡ none
    → md5 ≡ none
unfolding file_item
file_item-none p st none s e = refl
file_item-none p st (some m) s e = cc

apply_ruling-none :
    (c : ScanConfig) (name q : Bytes) (v : Ruling) (s : ScanState) (inside : Option ScanState)
    → apply_ruling (rule c name v) q s inside ≡ none
    → (ignored c.matches c.ignore name ≡ false) × (v ≡ taken) × (inside ≡ none)
unfolding apply_ruling rule
apply_ruling-none c name q v s inside e = elim (Bool-cases (ignored c.matches c.ignore name)) [
  | inl g ↦ absurd (ground arith)
  | inr g ↦ let (t, n) = of v (ground arith) in (g, t, n)
]
  where
    of : (v : Ruling) → apply_ruling v q s inside ≡ none → (v ≡ taken) × (inside ≡ none)
    of passed_over e = absurd (ground arith)
    of (reported why) e = absurd (ground arith)
    of taken e = (refl, e)

take_file-none :
    (c : ScanConfig) (name q : Bytes) (k : Leaf) (s : ScanState)
    → leaf_ruling name k ≡ taken
    → take_file c q k s ≡ none
    → (validate name ≡ none)
      × ((st : Option Stat) × (sum : Option Bytes) × (k ≡ regular st sum)
          × ((st ≡ none) ⊎ (sum ≡ none)))
unfolding leaf_ruling take_file
take_file-none c name q (regular none sum) s v e =
    (name_ruling-taken (validate name) v, (none, sum, refl, inl refl))
take_file-none c name q (regular (some st) sum) s v e = (
  name_ruling-taken (validate name) v,
  (
    some st,
    sum,
    refl,
    inr (
        known_md5-none (Dict.lookup q c.base) st sum
          (file_item-none q st (known_md5 (Dict.lookup q c.base) st sum) s e)),
  ),
)
take_file-none c name q link s v e = cc
take_file-none c name q special s v e = cc

and_then-none :
    (o : Option ScanState) (f : ScanState → Option ScanState)
    → and_then o f ≡ none
    → (o ≡ none) ⊎ ((u : ScanState) × (f u ≡ none))
unfolding and_then
and_then-none none f e = inl refl
and_then-none (some u) f e = inr (u, e)

walk-HasUnread :
    (c : ScanConfig) (dir : Bytes) (l : Listing) (s : ScanState)
    → walk c dir l s ≡ none
    → HasUnread c l
unfolding walk
walk-HasUnread c dir end s e = cc
walk-HasUnread c dir (leaf name k rest) s e =
    let q = join dir name in
    elim (and_then-none (apply_ruling (rule c name (leaf_ruling name k)) q s (take_file c q k s))
      (walk c dir rest) e) [
        | inr (u, h) ↦ inr (walk-HasUnread c dir rest u h)
        | inl h ↦
            let (i, v, n) =
              apply_ruling-none c name q (leaf_ruling name k) s (take_file c q k s) h in
            let (w, f) = take_file-none c name q k s v n in inl (i, w, f)
      ]
walk-HasUnread c dir (folder name readable kids rest) s e =
    let q = join dir name in
    let s' = enter q readable s in
    let v = name_ruling (validate name) in
    elim (and_then-none (apply_ruling (rule c name v) q s (walk c q kids s')) (walk c dir rest) e) [
      | inr (u, h) ↦ inr (walk-HasUnread c dir rest u h)
      | inl h ↦
          let (i, t, n) = apply_ruling-none c name q v s (walk c q kids s') h in
          inl (i, name_ruling-taken (validate name) t, walk-HasUnread c q kids s' n)
    ]

-- A scan fails only if the root could not be read, or a file that it takes has no stat or no hash.
-- After one that succeeds, every entry of a folder that it enters is in the snapshot, skipped or
-- ignored; a folder that it enters and that could not be read is in the snapshot and among the
-- unreadable skips; and each row of the snapshot is that of an entry at its
-- path that is not ignored and has a valid name, a file with its own
-- stat and its own hash, or with the baseline's hash under the same path, size and time.
pub scan_exact :
    (c : ScanConfig) (root_readable : Bool) (tree : Listing)
    → (scan c root_readable tree ≡ none → (root_readable ≡ false) ⊎ HasUnread c tree)
      × ((s : ScanState)
          → scan c root_readable tree ≡ some s
          → IsCovered c s [] tree
            × ((p : Bytes) (item : LocalItem)
                → Dict.lookup p s.snapshot ≡ some item
                → HasRow c [] tree p item))
unfolding scan Dict.lookup
scan_exact c false tree = ((λ e. inl refl), (λ s e. absurd (ground arith)))
scan_exact c true tree = (
  (λ e. inr (walk-HasUnread c [] tree _ e)),
  (λ s e.
      let fresh : ScanState = record { snapshot = []; skips = [] } in
      (
        (walk-Grows c [] tree fresh s e).1,
        (λ p item r. elim (walk-HasRow c p item [] tree fresh s e r) [
          | inl h ↦ absurd (ground arith)
          | inr h ↦ h
        ]),
      )),
)

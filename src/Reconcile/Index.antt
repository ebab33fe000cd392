-- ===== src/Reconcile/Index.antt =====
-- internal/reconcile/plan.go: the indexes that `Plan` builds over its input, and path tests.
use synckeeper.Base.{
  ℕ, suc, ◌+◌, Bool, true, false, ◌&&◌, ◌||◌, Option, none, some, List, [], ◌∷◌, ◌++◌, map, Bytes,
  ℤ, pos, negsuc, int_eq, nat_eq, bytes_eq, ◌==◌, if◌then◌else◌, has_prefix, bytes_ltb, sort_by,
  lt_int, zero, ◌/◌, ◌%◌,
}
use synckeeper.Base.Dict
use synckeeper.Base.Dict.{Dict}
use synckeeper.Names.{Unicode, fold_key}
use synckeeper.Reconcile.Types.{BaseItem, LocalItem, RemoteItem, Input}

pub record RemoteRef : Type 0 where
  pub path : Bytes
  pub item : RemoteItem

-- `strings.HasPrefix(p, dir+"/")`
unfoldable pub under : Bytes → Bytes → Bool
unfolding has_prefix
under dir p = has_prefix p (dir ++ b'/' ∷ [])

-- `slices.Sorted(maps.Keys(m))`, each key with its value.
unfoldable pub sorted_rows : {V : Type 0} → Dict Bytes V → Dict Bytes V
unfolding sort_by bytes_ltb
sorted_rows d = sort_by (λ r s. bytes_ltb r.0 s.0) d

index_by_id : Dict Bytes RemoteItem → Dict Bytes RemoteRef → Dict Bytes RemoteRef
unfolding Dict.insert
index_by_id [] d = d
index_by_id ((p, r) ∷ rows) d =
    index_by_id rows (Dict.insert r.file_id (record { path = p; item = r }) d)

-- `remByID[id]`
unfoldable pub rem_by_id : Input → Bytes → Option RemoteRef
unfolding index_by_id Dict.lookup
rem_by_id i id = Dict.lookup id (index_by_id i.remote [])

-- `baseIDs[id]`
unfoldable pub is_base_id : Input → Bytes → Bool
is_base_id i id = Dict.contains id (map (λ (_, b). b.file_id) i.base)

unfoldable pub local_at : Input → Bytes → Option LocalItem
unfolding Dict.lookup
local_at i p = Dict.lookup p i.local

unfoldable pub base_at : Input → Bytes → Option BaseItem
unfolding Dict.lookup
base_at i p = Dict.lookup p i.base

unfoldable pub remote_at : Input → Bytes → Option RemoteItem
unfolding Dict.lookup
remote_at i p = Dict.lookup p i.remote

abbrev pub is_some : {A : Type 0} → Option A → Bool
is_some none = false
is_some (some _) = true

-- Is a path a key of the baseline?
abbrev pub in_base : Input → Bytes → Bool
in_base i p = is_some (base_at i p)

-- A remote item at `p` that no baseline row has the id of.
unfoldable pub new_remote_at : Input → Bytes → Option RemoteItem
unfolding remote_at is_base_id
new_remote_at i p = elim (remote_at i p) [
  | some r ↦ if is_base_id i r.file_id then none else some r
  | none ↦ none
]

-- A file, and no directory, at a local path.
unfoldable pub local_file_at : Input → Bytes → Option LocalItem
unfolding local_at
local_file_at i p = elim (local_at i p) [ some l ↦ if l.is_dir then none else some l | none ↦ none ]

-- The segments of a path: `strings.Split(p, "/")`.
unfoldable pub split_segments : Bytes → List Bytes
split_segments [] = [] ∷ []
split_segments (c ∷ s) = elim (split_segments s) [
  | [] ↦ (c ∷ []) ∷ []
  | seg ∷ segs ↦ if c == b'/' then [] ∷ seg ∷ segs else (c ∷ seg) ∷ segs
]

-- `strings.Join(segs, "/")`
join_segments : List Bytes → Bytes
join_segments [] = []
join_segments (s ∷ []) = s
join_segments (s ∷ t ∷ segs) = s ++ b'/' ∷ join_segments (t ∷ segs)

module _ (u : Unicode) (i : Input) where
  unfoldable pub fold_path : Bytes → Bytes
  unfolding split_segments join_segments fold_key
  fold_path p = join_segments (map (λ s. fold_key u s i.case_fold i.norm_fold) (split_segments p))

  -- `foldRemote[key]`: the last path that was stored under the key.
  fold_remote : Dict Bytes RemoteItem → Bytes → Option Bytes
  unfolding fold_path
  fold_remote [] key = none
  fold_remote ((p, r) ∷ rows) key = elim (fold_remote rows key) [
    | some q ↦ some q
    | none ↦ if fold_path p == key then some p else none
  ]

  -- A new remote item whose path matches `p` under the fold and differs from it.
  unfoldable pub new_remote_at_fold : Bytes → Option RemoteRef
  unfolding fold_remote new_remote_at
  new_remote_at_fold p =
      if i.case_fold || i.norm_fold
      then (elim (fold_remote i.remote (fold_path p)) [
        | none ↦ none
        | some rp ↦ if rp == p then none else (elim (new_remote_at i rp) [
          | none ↦ none
          | some r ↦ some (record { path = rp; item = r })
        ])
      ])
      else none

-- The decimal digits of `n` in front of `rest`, by at most `fuel` rounds of the loop.
digits_onto : ℕ → ℕ → Bytes → Bytes
digits_onto zero n rest = rest
digits_onto (suc fuel) n rest =
    let more = digits_onto fuel (n / 10) ((b'0' + n % 10) ∷ rest) in if n == 0 then rest else more

-- The buffer has 20 bytes. `-n` of the least int64 is that number again, so no digit is written.
unfoldable pub itoa : ℤ → Bytes
unfolding digits_onto
itoa (pos n) = if n == 0 then b'0' ∷ [] else digits_onto 20 n []
itoa (negsuc n) =
    if suc n == 9223372036854775808 then b'-' ∷ [] else b'-' ∷ digits_onto 20 (suc n) []

unfoldable pub pair_key : Bytes → ℤ → Bytes
unfolding itoa
pair_key md5 size = md5 ++ b'|' ∷ itoa size

-- `localWinsName`
unfoldable pub local_wins_name : Input → LocalItem → RemoteItem → Bool
local_wins_name i loc r =
    i.prefer_newer && (lt_int (pos 0) r.modified_ns && lt_int r.modified_ns loc.mtime_ns)

-- ===== src/Disk/Files.antt =====
-- The calls on the disk lose no file but the one at the path that they replace or remove.
use synckeeper.Base.{
  true, false, Option, none, some, [], ◌∷◌, Bytes, bytes_eq, ◌==◌, ◌≡◌, refl, subst, ◌⊎◌, inl, inr,
  In, arith, Bool-cases, any, In-map,
}
use synckeeper.Base.Dict
use synckeeper.Conflicts.{dir_of}
use synckeeper.Disk.{
  Disk, Node, FileData, file, directory, other, lstat, is_directory, take_out, make_dir, rename,
  rename_node, rename_dir, below, rename_entry, relocate, relocated, remove, remove_node,
  write_file, write_node, create_new, create_node,
}

-- The file is somewhere on the disk.
abbrev pub IsOn : FileData → Disk → Type 0
IsOn f d = (q : Bytes) × In (q, file f) d

-- Every file stays on the disk, but perhaps the one at the path.
pub record Spares (p : Bytes) (d d' : Disk) : Type 0 where
  pub at : (f : FileData) → IsOn f d → IsOn f d' ⊎ (lstat p d ≡ some (file f))

pub take_out-In :
    (p q : Bytes) (n : Node) (d : Disk)
    → In (q, n) d
    → In (q, n) (take_out p d) ⊎ ((q ≡ p) × (lstat p d ≡ some n))
unfolding take_out Dict.lookup
take_out-In p q n [] m = absurd m
take_out-In p q n ((k, v) ∷ d) (inl e) = elim (Bool-cases (p == k)) [
  | inl b ↦ rw b (inr (ground arith, ground arith))
  | inr b ↦ rw b (inl (inl e))
]
take_out-In p q n ((k, v) ∷ d) (inr m) = elim (Bool-cases (p == k)) [
  | inl b ↦ rw b (inl m)
  | inr b ↦ rw b (elim (take_out-In p q n d m) [ inl h ↦ inl (inr h) | inr h ↦ inr h ])
]

pub insert-In :
    (p q : Bytes) (n v : Node) (d : Disk)
    → In (q, n) d
    → In (q, n) (Dict.insert p v d) ⊎ ((q ≡ p) × (lstat p d ≡ some n))
unfolding Dict.insert Dict.lookup
insert-In p q n v [] m = absurd m
insert-In p q n v ((k, w) ∷ d) (inl e) = elim (Bool-cases (p == k)) [
  | inl b ↦ rw b (inr (ground arith, ground arith))
  | inr b ↦ rw b (inl (inl e))
]
insert-In p q n v ((k, w) ∷ d) (inr m) = elim (Bool-cases (p == k)) [
  | inl b ↦ rw b (inl (inr m))
  | inr b ↦ rw b (elim (insert-In p q n v d m) [ inl h ↦ inl (inr h) | inr h ↦ inr h ])
]

pub inserted-In : (p : Bytes) (n : Node) (d : Disk) → In (p, n) (Dict.insert p n d)
unfolding Dict.insert
inserted-In p n [] = inl refl
inserted-In p n ((k, w) ∷ d) = elim (Bool-cases (p == k)) [
  | inl b ↦ rw b (inl refl)
  | inr b ↦ rw b (inr (inserted-In p n d))
]

take_out-lookup : (p q : Bytes) (d : Disk) → (q == p) ≡ false → lstat q (take_out p d) ≡ lstat q d
unfolding take_out Dict.lookup
take_out-lookup p q [] e = refl
take_out-lookup p q ((k, v) ∷ d) e = ground (arith, take_out-lookup p q d e)

pub insert-Spares : (p : Bytes) (n : Node) (d : Disk) → Spares p d (Dict.insert p n d)
insert-Spares p n d = record {
  at = λ f (q, m). elim (insert-In p q (file f) n d m) [ inl h ↦ inl (q, h) | inr (e, h) ↦ inr h ];
}

pub take_out-Spares : (p : Bytes) (d : Disk) → Spares p d (take_out p d)
take_out-Spares p d = record {
  at = λ f (q, m). elim (take_out-In p q (file f) d m) [ inl h ↦ inl (q, h) | inr (e, h) ↦ inr h ];
}

same : (p : Bytes) (d : Disk) → Spares p d d
same p d = record { at = λ f h. inl h }

relocated-IsOn :
    (from to : Bytes) (f : FileData) (d : Disk) → IsOn f d → IsOn f (relocated from to d)
unfolding relocated
relocated-IsOn from to f d (q, m) = (
  relocate from to q,
  In-map (λ ((p, n) : Bytes × Node). (relocate from to p, n)) (q, file f) d m,
)

rename_dir-Spares :
    (from to : Bytes) (d d' : Disk) → rename_dir from to (lstat to d) d ≡ some d' → Spares to d d'
unfolding rename_dir
rename_dir-Spares from to d d' e = record { at = λ f h. of f h (lstat to d) refl e }
  where
    of :
        (f : FileData)
        → IsOn f d
        → (n : Option Node) → lstat to d ≡ n
        → rename_dir from to n d ≡ some d'
        → IsOn f d' ⊎ (lstat to d ≡ some (file f))
    of f h none l r = inl (ground (arith, relocated-IsOn from to f d h))
    of f h (some directory) l r = elim (Bool-cases (from == to)) [
      | inl b ↦ inl (ground arith)
      | inr b ↦ elim ((take_out-Spares to d).at f h) [
        | inl k ↦ inl (ground (arith, relocated-IsOn from to f (take_out to d) k))
        | inr k ↦ inr k
      ]
    ]
    of f h (some (file g)) l r = absurd (ground arith)
    of f h (some other) l r = absurd (ground arith)

rename_entry-Spares :
    (from to : Bytes) (n : Node) (d d' : Disk)
    → lstat from d ≡ some n
    → rename_entry from to n (lstat to d) d ≡ some d'
    → Spares to d d'
unfolding rename_entry
rename_entry-Spares from to n d d' l e = elim (Bool-cases (from == to)) [
  | inl b ↦ record { at = λ f h. inl (ground (arith, kept (lstat to d) b e)) }
  | inr b ↦ record {
    at = λ f h.
        let r = replaced (lstat to d) b e in
        elim ((take_out-Spares from d).at f h) [
          | inr k ↦ inl (
              subst (IsOn f) r (
                to,
                subst (λ v. In (to, v) (Dict.insert to n (take_out from d))) (ground arith)
                    (inserted-In to n (take_out from d)),
              ))
          | inl k ↦ elim ((insert-Spares to n (take_out from d)).at f k) [
            | inl m ↦ inl (subst (IsOn f) r m)
            | inr m ↦ inr (ground (arith, take_out-lookup from to d))
          ]
        ];
  }
]
  where
    kept : (t : Option Node) → (from == to) ≡ true → rename_entry from to n t d ≡ some d' → d ≡ d'
    kept none b e = ground arith
    kept (some directory) b e = absurd (ground arith)
    kept (some (file f)) b e = ground arith
    kept (some other) b e = ground arith

    replaced :
        (t : Option Node)
        → (from == to) ≡ false
        → rename_entry from to n t d ≡ some d'
        → Dict.insert to n (take_out from d) ≡ d'
    replaced none b e = ground arith
    replaced (some directory) b e = absurd (ground arith)
    replaced (some (file f)) b e = ground arith
    replaced (some other) b e = ground arith

-- The file that a rename may lose is the one at the new path.
pub rename-Spares : (from to : Bytes) (d d' : Disk) → rename from to d ≡ some d' → Spares to d d'
unfolding rename rename_node
rename-Spares from to d d' e = elim (Bool-cases (is_directory (lstat (dir_of to) d))) [
  | inr b ↦ absurd (ground arith)
  | inl b ↦ of (lstat from d) refl (ground arith)
]
  where
    of : (n : Option Node) → lstat from d ≡ n → rename_node from to n d ≡ some d' → Spares to d d'
    of none l e = absurd (ground arith)
    of (some directory) l e = rename_dir-Spares from to d d' e
    of (some (file f)) l e = rename_entry-Spares from to (file f) d d' l e
    of (some other) l e = rename_entry-Spares from to other d d' l e

pub remove-Spares : (p : Bytes) (d d' : Disk) → remove p d ≡ some d' → Spares p d d'
unfolding remove remove_node
remove-Spares p d d' e = of (lstat p d) e
  where
    of : (n : Option Node) → remove_node p n d ≡ some d' → Spares p d d'
    of none e = absurd (ground arith)
    of (some directory) e = elim (Bool-cases (any (λ ((q, _) : Bytes × Node). below p q) d)) [
      | inl b ↦ absurd (ground arith)
      | inr b ↦ subst (Spares p d) (ground arith) (take_out-Spares p d)
    ]
    of (some (file f)) e = subst (Spares p d) (ground arith) (take_out-Spares p d)
    of (some other) e = subst (Spares p d) (ground arith) (take_out-Spares p d)

-- What `os.Create` and the writer do to the path.
pub write_file-eq :
    (p : Bytes) (f : FileData) (d d' : Disk)
    → write_file p f d ≡ some d'
    → Dict.insert p (file f) d ≡ d'
unfolding write_file write_node
write_file-eq p f d d' e = elim (Bool-cases (is_directory (lstat (dir_of p) d))) [
  | inr b ↦ absurd (ground arith)
  | inl b ↦ of (lstat p d) (ground arith)
]
  where
    of : (n : Option Node) → write_node p f n d ≡ some d' → Dict.insert p (file f) d ≡ d'
    of none e = ground arith
    of (some directory) e = absurd (ground arith)
    of (some (file g)) e = ground arith
    of (some other) e = absurd (ground arith)

-- A new file goes where nothing is.
pub create_new-eq :
    (p : Bytes) (f : FileData) (d d' : Disk)
    → create_new p f d ≡ some d'
    → (lstat p d ≡ none) × (Dict.insert p (file f) d ≡ d')
unfolding create_new create_node
create_new-eq p f d d' e = elim (Bool-cases (is_directory (lstat (dir_of p) d))) [
  | inr b ↦ absurd (ground arith)
  | inl b ↦ of (lstat p d) (ground arith)
]
  where
    of :
        (n : Option Node)
        → create_node p f n d ≡ some d'
        → (n ≡ none) × (Dict.insert p (file f) d ≡ d')
    of none e = (refl, ground arith)
    of (some n) e = absurd (ground arith)

-- A new directory takes no file's place.
pub make_dir-Spares :
    (p : Bytes) (d d' : Disk) (f : FileData)
    → make_dir p (lstat p d) d ≡ some d'
    → IsOn f d
    → IsOn f d'
unfolding make_dir
make_dir-Spares p d d' f e h = of (lstat p d) refl e
  where
    of : (n : Option Node) → lstat p d ≡ n → make_dir p n d ≡ some d' → IsOn f d'
    of none l e = elim ((insert-Spares p directory d).at f h) [
      | inl k ↦ subst (IsOn f) (ground arith) k
      | inr k ↦ absurd (ground arith)
    ]
    of (some directory) l e = subst (IsOn f) (ground arith) h
    of (some (file g)) l e = absurd (ground arith)
    of (some other) l e = absurd (ground arith)

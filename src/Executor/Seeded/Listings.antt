-- ===== src/Executor/Seeded/Listings.antt =====
-- internal/executor/executor.go: what `seedOrphanCreates` knows of Drive, and that it seeds each
-- create.
use synckeeper.Base.{
  true, some, List, [], ◌∷◌, Bytes, bytes_eq, ◌==◌, ◌≡◌, refl, ap, ◌∙◌, ◌⊎◌, inl, inr, In, All,
  arith, Bool-cases, if◌then◌else◌,
}
use synckeeper.Base.Dict
use synckeeper.Base.Dict.{Dict, lookup-insert}
use synckeeper.Conflicts.{base_of}
use synckeeper.DriveClient.Files.{File, is_dir}
use synckeeper.Store.Types.{Db}
use synckeeper.Store.Exec.{Outside}
use synckeeper.Executor.Recover.{Known, seed_each}
use synckeeper.Executor.Seeded.{
  IsListed, HasNode, Meets, Meets-pure, Meets-bind, Meets-kept, Meets-mono,
  upsert_remote_node-Meets,
}

-- The folder of the path: the known one, or one that was listed under the path's name.
abbrev pub IsFolderAt : Outside → Bytes → Bytes → Bytes → Type 0
IsFolderAt o rel known p =
    (p ≡ known)
    ⊎ ((g : Bytes) × (fs : List File) × (f : File) × IsListed o g fs
        × In f fs
        × (f.id ≡ p)
        × (f.name ≡ base_of rel)
        × (is_dir f ≡ true))

-- If the child has the path's name, its id is in the mirror, in the row of a listed child.
abbrev pub IsMirrored : Outside → Bytes → Db → File → Type 0
IsMirrored o rel d f = f.name ≡ base_of rel → HasNode o f.id d

-- All children of the name are in the mirror.
abbrev pub IsSeeded : Outside → Bytes → Bytes → Db → Type 0
IsSeeded o rel parent d = (fs : List File) × IsListed o parent fs × All (IsMirrored o rel d) fs

module _ (o : Outside) (base : Dict Bytes Bytes) where
  pub record IsTracked (paths : Dict Bytes Bytes) : Type 0 where
    pub at :
        (rel known : Bytes)
        → Dict.lookup rel base ≡ some known
        → (p : Bytes) × (Dict.lookup rel paths ≡ some p) × IsFolderAt o rel known p

  pub record IsSound (k : Known) : Type 0 where
    pub tracked : IsTracked k.paths
    pub listed : (g : Bytes) (fs : List File) → Dict.lookup g k.listed ≡ some fs → IsListed o g fs

  insert-IsTracked :
      (rel g : Bytes) (fs : List File) (f : File) (paths : Dict Bytes Bytes)
      → IsListed o g fs
      → In f fs
      → f.name ≡ base_of rel
      → is_dir f ≡ true
      → IsTracked paths
      → IsTracked (Dict.insert rel f.id paths)
  insert-IsTracked rel g fs f paths l i n dir t = record {
    at = λ x known q. elim (Bool-cases (x == rel)) [
      | inl b ↦ (
        f.id,
        lookup-insert x rel f.id paths ∙ rw b refl,
        inr (g, fs, f, l, i, refl, (n ∙ ap base_of (ground arith)), dir),
      )
      | inr b ↦ let (p, h, k) = t.at x known q in (p, lookup-insert x rel f.id paths ∙ rw b h, k)
    ];
  }

  module _ (rel parent : Bytes) (fs : List File) (l : IsListed o parent fs) where
    folder-IsTracked :
        (f : File) (paths : Dict Bytes Bytes)
        → In f fs
        → f.name ≡ base_of rel
        → IsTracked paths
        → IsTracked (if is_dir f then Dict.insert rel f.id paths else paths)
    folder-IsTracked f paths i n t = elim (Bool-cases (is_dir f)) [
      | inl b ↦ rw b (insert-IsTracked rel parent fs f paths l i n b t)
      | inr b ↦ rw b t
    ]

    pub seed_each-Meets :
        (files : List File) (paths : Dict Bytes Bytes)
        → ((f : File) → In f files → In f fs)
        → IsTracked paths
        → Meets o
            (λ _. Unit {0})
            (seed_each rel parent files paths)
            (λ paths' d. IsTracked paths' × All (IsMirrored o rel d) files)
    unfolding seed_each
    seed_each-Meets [] paths h t = Meets-pure paths λ d p. (t, tt)
    seed_each-Meets (f ∷ files) paths h t = elim (Bool-cases (f.name == base_of rel)) [
      | inl b ↦ rw b (
          Meets-bind (λ _ d. HasNode o f.id d) _ _
            (upsert_remote_node-Meets parent fs f l (h f (inl refl)))
            λ _.
              Meets-mono (λ d. Unit × HasNode o f.id d) _ _ (λ d k. (tt, k))
                (λ x d ((t', a), k). (t', ((λ _. k), a)))
                (Meets-kept (HasNode o f.id) _ (λ d d' g. g.nodes f.id)
                  (seed_each-Meets files _ (λ x i. h x (inr i))
                    (folder-IsTracked f paths (h f (inl refl)) (ground arith) t))))
      | inr b ↦ rw b (
          Meets-mono (λ _. Unit) _ _ (λ d k. k)
            (λ x d (t', a). (t', ((λ n. absurd (ground (arith, n))), a)))
            (seed_each-Meets files paths (λ x i. h x (inr i)) t))
    ]

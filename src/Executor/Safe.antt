-- ===== src/Executor/Safe.antt =====
-- internal/executor: no content is lost, one rule for each way to build a run.
pub mod Gate
pub mod Copy
pub mod Remove
pub mod Actions
pub mod Plan
use synckeeper.Base.{
  Bool, true, false, not, ◌&&◌, ◌||◌, Option, none, some, List, [], ◌∷◌, ◌++◌, Bytes, bytes_eq,
  ◌==◌, ℤ, ℕ, if◌then◌else◌, ◌≡◌, ◌≢◌, refl, sym, subst, ◌⊎◌, inl, inr, In, Any-append_left,
  Any-append_right, arith, Bool-cases, keep, In-keep,
}
use synckeeper.Base.Dict
use synckeeper.Disk.{Disk, Node, FileData, file, directory, other, lstat, take_out, below, rename}
use synckeeper.Disk.Files.{IsOn, Spares, take_out-Spares, take_out-In, rename-Spares}
use synckeeper.Store.Exec.{Exec, Reply, ask}
use synckeeper.Executor.Run.{
  Env, State, Run, Failure, Memory, give, in_store, drive, look, stat_at, setting, recall, remember,
  attempt, on_disk, changed, called, file_at, move_to_trash, binned, continue, ◌>>=◌,
}

-- Some file, on the disk or in the bin, has the content.
abbrev pub IsHeld : Bytes → State → Type 0
IsHeld c s =
    (q : Bytes) × (f : FileData) × (f.content ≡ c) × (In (q, file f) s.disk ⊎ In (q, file f) s.bin)

module _ (P : Bytes → FileData → Type 0) where
  -- The content is held, or a file that had it was replaced as `P` allows.
  abbrev pub IsFine : Bytes → State → Type 0
  IsFine c s =
      IsHeld c s ⊎ ((p : Bytes) × (f : FileData) × In (p, f) s.replaced × (f.content ≡ c) × P p f)

  -- The run loses no content.
  pub record Safe {A : Type 0} (e : Env) (m : Run A) : Type 0 where
    pub at : (s : State) (c : Bytes) → IsFine c s → IsFine c (m e s).1

module _ {P : Bytes → FileData → Type 0} where
  -- What the disk calls do to what is held.
  pub changed_lem :
      (p : Bytes) (s : State) (o : Option Disk) (c : Bytes)
      → ((d : Disk) → o ≡ some d → Spares p s.disk d)
      → ((d : Disk) (g : FileData) → o ≡ some d → lstat p s.disk ≡ some (file g) → P p g)
      → IsFine P c s
      → IsFine P c (changed p o s).1
  unfolding changed
  changed_lem p s none c sp h k = k
  changed_lem p s (some d) c sp h (inr (q, f, m, ec, r)) =
      inr (q, f, Any-append_left _ s.replaced (file_at p (lstat p s.disk)) m, ec, r)
  changed_lem p s (some d) c sp h (inl (q, f, ec, inr m)) = inl (q, f, ec, inr m)
  changed_lem p s (some d) c sp h (inl (q, f, ec, inl m)) = elim ((sp d refl).at f (q, m)) [
    | inl (k, n) ↦ inl (k, f, ec, inl n)
    | inr l ↦ inr (
      p,
      f,
      Any-append_right _ s.replaced (file_at p (lstat p s.disk)) (rw l (inl refl)),
      ec,
      h d f refl l,
    )
  ]

  binned_lem :
      (p : Bytes) (n : Option Node) (s : State) (c : Bytes)
      → lstat p s.disk ≡ n
      → IsFine P c s
      → IsFine P c (binned p n s).1
  unfolding binned
  binned_lem p none s c l k = k
  binned_lem p (some directory) s c l (inr k) = inr k
  binned_lem p (some directory) s c l (inl (q, f, ec, inr m)) =
      inl (q, f, ec, inr (Any-append_left _ s.bin _ m))
  binned_lem p (some directory) s c l (inl (q, f, ec, inl m)) =
      elim (Bool-cases (p == q || below p q)) [
        | inl b ↦
            inl (q, f, ec, inr (Any-append_right _ s.bin _ (In-keep _ (q, file f) s.disk m b)))
        | inr b ↦ inl (q, f, ec, inl (In-keep _ (q, file f) s.disk m (ground arith)))
      ]
  binned_lem p (some (file g)) s c l (inr k) = inr k
  binned_lem p (some (file g)) s c l (inl (q, f, ec, inr m)) =
      inl (q, f, ec, inr (Any-append_left _ s.bin _ m))
  binned_lem p (some (file g)) s c l (inl (q, f, ec, inl m)) =
      elim (take_out-In p q (file f) s.disk m) [
        | inl h ↦ inl (q, f, ec, inl h)
        | inr (x, h) ↦ inl (p, g, ground arith, inr (Any-append_right _ s.bin _ (inl refl)))
      ]
  binned_lem p (some other) s c l (inr k) = inr k
  binned_lem p (some other) s c l (inl (q, f, ec, inr m)) =
      inl (q, f, ec, inr (Any-append_left _ s.bin _ m))
  binned_lem p (some other) s c l (inl (q, f, ec, inl m)) =
      elim (take_out-In p q (file f) s.disk m) [
        | inl h ↦ inl (q, f, ec, inl h)
        | inr (x, h) ↦ absurd (ground arith)
      ]

  pub on_disk_lem :
      (e : Env) (p : Bytes) (f : ℤ → Disk → Option Disk) (s : State) (c : Bytes)
      → ((t : ℤ) (d : Disk) → f t s.disk ≡ some d → Spares p s.disk d)
      → ((t : ℤ) (d : Disk) (g : FileData)
          → f t s.disk ≡ some d
          → lstat p s.disk ≡ some (file g)
          → P p g)
      → IsFine P c s
      → IsFine P c (on_disk p f e s).1
  unfolding on_disk
  on_disk_lem e p f s c sp h k = elim (Bool-cases (e.disk_fails s.disk_calls)) [
    | inl b ↦ rw b k
    | inr b ↦ rw b (
        changed_lem p (called s) (f (e.mtime_at s.disk_calls) s.disk) c
          (sp (e.mtime_at s.disk_calls)) (h (e.mtime_at s.disk_calls)) k)
  ]

module _ {P : Bytes → FileData → Type 0} {e : Env} where
  pub Safe-on_disk :
      (p : Bytes) (f : ℤ → Disk → Option Disk)
      → ((t : ℤ) (d d' : Disk) → f t d ≡ some d' → Spares p d d')
      → ((g : FileData) → P p g)
      → Safe P e (on_disk p f)
  Safe-on_disk p f sp h = record {
    at = λ s c k. on_disk_lem e p f s c (λ t d. sp t s.disk d) (λ t d g r l. h g) k;
  }

  pub Safe-trash : (p : Bytes) → Safe P e (move_to_trash p)
  unfolding move_to_trash
  Safe-trash p = record {
    at = λ s c k. elim (Bool-cases (e.bin_fails s.disk_calls)) [
      | inl b ↦ rw b k
      | inr b ↦ rw b (binned_lem p (lstat p s.disk) (called s) c refl k)
    ];
  }

  pub Safe-stat : (p : Bytes) → Safe P e (stat_at p)
  unfolding stat_at
  Safe-stat p = record { at = λ s c k. k }

  pub Safe-remember : (f : Memory → Memory) → Safe P e (remember f)
  unfolding remember
  Safe-remember f = record { at = λ s c k. k }

module _ {P : Bytes → FileData → Type 0} {e : Env} {A : Type 0} where
  pub Safe-give : (r : Failure ⊎ A) → Safe P e (give r)
  unfolding give
  Safe-give r = record { at = λ s c k. k }

  pub Safe-store : (m : Env → Exec A) → Safe P e (in_store m)
  unfolding in_store
  Safe-store m = record { at = λ s c k. k }

  pub Safe-drive : (call : Env → ℕ → Reply A) → Safe P e (drive call)
  unfolding drive
  Safe-drive call = Safe-store (λ e'. ask (λ o n. call e' n))

  pub Safe-look : (f : Env → Disk → A) → Safe P e (look f)
  unfolding look
  Safe-look f = record { at = λ s c k. k }

  pub Safe-setting : (f : Env → ℕ → A) → Safe P e (setting f)
  unfolding setting
  Safe-setting f = record { at = λ s c k. k }

  pub Safe-recall : (f : Memory → A) → Safe P e (recall f)
  unfolding recall
  Safe-recall f = record { at = λ s c k. k }

  pub Safe-attempt : (m : Run A) → Safe P e m → Safe P e (attempt m)
  unfolding attempt
  Safe-attempt m h = record { at = λ s c k. h.at s c k }

  pub Safe-if :
      (b : Bool) (m n : Run A)
      → (b ≡ true → Safe P e m)
      → (b ≡ false → Safe P e n)
      → Safe P e (if b then m else n)
  Safe-if true m n hm hn = hm refl
  Safe-if false m n hm hn = hn refl

module _ {P : Bytes → FileData → Type 0} {e : Env} {A B : Type 0} where
  pub Safe-bind :
      (m : Run A) (f : A → Run B) → Safe P e m → ((a : A) → Safe P e (f a)) → Safe P e (m >>= f)
  unfolding ◌>>=◌
  Safe-bind m f hm hf = record { at = λ s c k. next (m e s).0 (m e s).1 c (hm.at s c k) }
    where
      next :
          (r : Failure ⊎ A) (s : State) (c : Bytes) → IsFine P c s → IsFine P c (continue r f e s).1
      next (inr a) s c k = (hf a).at s c k
      next (inl x) s c k = k

  -- What follows a setting may use what it is.
  pub Safe-with :
      (f : Env → ℕ → A) (k : A → Run B)
      → ((n : ℕ) → Safe P e (k (f e n)))
      → Safe P e (setting f >>= k)
  unfolding ◌>>=◌ setting
  Safe-with f k h = record { at = λ s c x. (h s.disk_calls).at s c x }

  -- And what follows a look, or a value, may use where it comes from.
  pub Safe-seen :
      (f : Env → Disk → A) (k : A → Run B)
      → ((d : Disk) → Safe P e (k (f e d)))
      → Safe P e (look f >>= k)
  unfolding ◌>>=◌ look
  Safe-seen f k h = record {
    at = λ s c x. elim (Bool-cases (e.disk_fails s.disk_calls)) [
      | inl b ↦ rw b x
      | inr b ↦ rw b ((h s.disk).at (called s) c x)
    ];
  }

  pub Safe-given :
      (r : Failure ⊎ A) (k : A → Run B)
      → ((a : A) → r ≡ inr a → Safe P e (k a))
      → Safe P e (give r >>= k)
  unfolding ◌>>=◌ give
  Safe-given (inl x) k h = record { at = λ s c y. y }
  Safe-given (inr a) k h = record { at = λ s c y. (h a refl).at s c y }

pub ruleset safe_rules = (
  Safe-trash, Safe-remember, Safe-give, Safe-store, Safe-drive, Safe-look, Safe-stat, Safe-setting,
  Safe-recall, Safe-attempt, Safe-if, Safe-bind,
)

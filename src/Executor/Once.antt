-- ===== src/Executor/Once.antt =====
-- internal/executor: an action writes the database in one transaction at its end, or not at all.
pub mod Actions
use synckeeper.Base.{
  subst, ℕ, ◌+◌, Bool, true, false, Option, none, some, List, [], ◌∷◌, Bytes, ℤ, if◌then◌else◌, ◌≡◌,
  ◌≢◌, refl, sym, ap, ◌∙◌, ◌⊎◌, inl, inr, arith, Bool-cases,
}
use synckeeper.Disk.{Disk, Node, file, directory, other, lstat}
use synckeeper.Store.Types.{Db}
use synckeeper.Store.Exec.{
  Exec, Outside, World, Reply, reply, failed, ask, answered, Result, ok, err, stuck,
}
use synckeeper.Store.Ops.{complete_op}
use synckeeper.Store.Atomic.{complete_op_atomic, set_done}
use synckeeper.Executor.Run.Caught.{caught-Cases}
use synckeeper.Executor.Run.{
  caught, Env, State, Run, Failure, Memory, give, in_store, drive, look, stat_at, setting, recall,
  remember, attempt, on_disk, changed, called, move_to_trash, binned, continue, result_of, ◌>>=◌,
}

-- What an action leaves alone until its end: the database, and the list of failed protectors, which
-- no action writes.
abbrev pub Rest : Type 0
Rest = Db × List Bytes

abbrev pub rest_of : State → Rest
rest_of s = (s.world.db, s.memory.failed_protectors)

abbrev pub protectors_of : State → List Bytes
protectors_of s = s.memory.failed_protectors

-- The run leaves both alone.
pub record Quiet {A : Type 0} (m : Run A) : Type 0 where
  pub at : (e : Env) (s : State) → rest_of (m e s).1 ≡ rest_of s

-- What is left of the database after a run that gave the result.
abbrev pub IsCommitted : ℕ → State → (Failure ⊎ Unit {0}) → State → Type 0
IsCommitted op s r t =
    (protectors_of t ≡ protectors_of s)
    × (((r ≡ inr tt) × ((d : Db) × (t.world.db ≡ set_done op d)))
        ⊎ ((r ≢ inr tt) × (t.world.db ≡ s.world.db)))

-- The run succeeds with the operation marked done, or it does not and the database is what it was.
pub record Once (op : ℕ) (m : Run (Unit {0})) : Type 0 where
  pub at : (e : Env) (s : State) → IsCommitted op s (m e s).0 (m e s).1

module _ {A : Type 0} where
  pub Quiet-give : (r : Failure ⊎ A) → Quiet (give r)
  unfolding give
  Quiet-give r = record { at = λ e s. refl }

  pub Quiet-drive : (call : Env → ℕ → Reply A) → Quiet (drive call)
  unfolding drive in_store ask answered
  Quiet-drive call = record {
    at = λ e s.
        ap (λ (d : Db). (d, s.memory.failed_protectors))
          (of (call e s.world.calls) (record s.world { calls = s.world.calls + 1 }));
  }
    where
      of : (r : Reply A) (w : World) → (answered r w).1.db ≡ w.db
      of (reply a) w = refl
      of (failed f) w = refl

  pub Quiet-look : (f : Env → Disk → A) → Quiet (look f)
  unfolding look
  Quiet-look f = record { at = λ e s. refl }

  pub Quiet-setting : (f : Env → ℕ → A) → Quiet (setting f)
  unfolding setting
  Quiet-setting f = record { at = λ e s. refl }

  pub Quiet-recall : (f : Memory → A) → Quiet (recall f)
  unfolding recall
  Quiet-recall f = record { at = λ e s. refl }

  pub Quiet-attempt : (m : Run A) → Quiet m → Quiet (attempt m)
  unfolding attempt
  Quiet-attempt m h = record { at = λ e s. h.at e s }

  pub Quiet-if : (b : Bool) (m n : Run A) → Quiet m → Quiet n → Quiet (if b then m else n)
  Quiet-if true m n hm hn = hm
  Quiet-if false m n hm hn = hn

pub Quiet-stat : (p : Bytes) → Quiet (stat_at p)
unfolding stat_at
Quiet-stat p = record { at = λ e s. refl }

pub Quiet-remember :
    (f : Memory → Memory)
    → ((m : Memory) → (f m).failed_protectors ≡ m.failed_protectors)
    → Quiet (remember f)
unfolding remember
Quiet-remember f h = record { at = λ e s. ap (λ (x : List Bytes). (s.world.db, x)) (h s.memory) }

changed_db : (p : Bytes) (o : Option Disk) (s : State) → rest_of (changed p o s).1 ≡ rest_of s
unfolding changed
changed_db p none s = refl
changed_db p (some d) s = refl

pub Quiet-on_disk : (p : Bytes) (f : ℤ → Disk → Option Disk) → Quiet (on_disk p f)
unfolding on_disk
Quiet-on_disk p f = record {
  at = λ e s. elim (Bool-cases (e.disk_fails s.disk_calls)) [
    | inl b ↦ rw b refl
    | inr b ↦ rw b (changed_db p (f (e.mtime_at s.disk_calls) s.disk) (called s))
  ];
}

binned_db : (p : Bytes) (n : Option Node) (s : State) → rest_of (binned p n s).1 ≡ rest_of s
unfolding binned
binned_db p none s = refl
binned_db p (some directory) s = refl
binned_db p (some (file f)) s = refl
binned_db p (some other) s = refl

pub Quiet-trash : (p : Bytes) → Quiet (move_to_trash p)
unfolding move_to_trash
Quiet-trash p = record {
  at = λ e s. elim (Bool-cases (e.bin_fails s.disk_calls)) [
    | inl b ↦ rw b refl
    | inr b ↦ rw b (binned_db p (lstat p s.disk) (called s))
  ];
}

module _ {A B : Type 0} where
  pub Quiet-bind : (m : Run A) (f : A → Run B) → Quiet m → ((a : A) → Quiet (f a)) → Quiet (m >>= f)
  unfolding ◌>>=◌
  Quiet-bind m f hm hf = record { at = λ e s. next e (m e s).0 (m e s).1 ∙ hm.at e s }
    where
      next : (e : Env) (r : Failure ⊎ A) (s : State) → rest_of (continue r f e s).1 ≡ rest_of s
      next e (inr a) s = (hf a).at e s
      next e (inl x) s = refl

module _ (op : ℕ) where
  -- A quiet run before it changes nothing of that.
  shift :
      (s s' t : State) (r : Failure ⊎ Unit {0})
      → rest_of s' ≡ rest_of s
      → IsCommitted op s' r t
      → IsCommitted op s r t
  shift s s' t r q (p, inl k) = (p ∙ ap (λ (x : Rest). x.1) q, inl k)
  shift s s' t r q (p, inr (k, l)) =
      (p ∙ ap (λ (x : Rest). x.1) q, inr (k, l ∙ ap (λ (x : Rest). x.0) q))

  pub Once-bind :
      {A : Type 0} (m : Run A) (f : A → Run (Unit {0}))
      → Quiet m
      → ((a : A) → Once op (f a))
      → Once op (m >>= f)
  unfolding ◌>>=◌
  Once-bind {A} m f hm hf = record {
    at = λ e s.
        let z = continue (m e s).0 f e (m e s).1 in
        shift s (m e s).1 z.1 z.0 (hm.at e s) (next e (m e s).0 (m e s).1);
  }
    where
      next :
          (e : Env) (r : Failure ⊎ A) (s : State)
          → IsCommitted op s (continue r f e s).0 (continue r f e s).1
      next e (inl x) s = (refl, inr ((λ k. cc), refl))
      next e (inr a) s = (hf a).at e s

  pub Once-if :
      (b : Bool) (m n : Run (Unit {0})) → Once op m → Once op n → Once op (if b then m else n)
  Once-if true m n hm hn = hm
  Once-if false m n hm hn = hn

  pub Once-fail : (x : Failure) → Once op (give (inl x))
  unfolding give
  Once-fail x = record { at = λ e s. (refl, inr ((λ k. cc), refl)) }

  -- A run that may end in a commit, with a quiet one after it that does not fail.
  pub Once-after :
      (m : Run (Unit {0})) (n : Run (Failure ⊎ Unit {0}))
      → Once op m
      → Quiet n
      → ((e : Env) (s : State) → (r : Failure ⊎ Unit {0}) × ((n e s).0 ≡ inr r))
      → Once op (attempt m >>= λ r. (n >>= λ _. give r))
  unfolding ◌>>=◌ attempt give
  Once-after m n hm hn ends = record { at = λ e s. next e s (m e s).0 (m e s).1 (hm.at e s) }
    where
      after :
          (e : Env) (s : State) (r : Failure ⊎ Unit {0}) (t : State)
          → IsCommitted op s r t
          → let z = continue (n e t).0 (λ _. give r) e (n e t).1 in IsCommitted op s z.0 z.1
      after e s r t (p, h) =
          let (x, q) = ends e t in
          let b = ap (λ (x : Rest). x.1) (hn.at e t) in
          let c = ap (λ (x : Rest). x.0) (hn.at e t) in
          rw q
            (b ∙ p, elim h [ inl (k, (d, l)) ↦ inl (k, (d, c ∙ l)) | inr (k, l) ↦ inr (k, c ∙ l) ])

      next :
          (e : Env) (s : State) (r : Failure ⊎ Unit {0}) (t : State)
          → IsCommitted op s r t
          → let z = continue (caught r) (λ r. n >>= λ _. give r) e t in IsCommitted op s z.0 z.1
      next e s r t k = elim (caught-Cases r) [
        | inl q ↦ rw q (after e s r t k)
        | inr (f, q, q', _) ↦ rw q (subst (λ x. IsCommitted op s x t) q' k)
      ]

  pub Once-done : (apply : Exec Unit) → Once op (in_store (λ e. complete_op op apply))
  unfolding in_store
  Once-done apply = record {
    at = λ e s. (refl, of e s (complete_op_atomic op apply e.outside s.world));
  }
    where
      of :
          (e : Env) (s : State)
          → (((complete_op op apply e.outside s.world).0 ≡ ok tt)
              × ((apply e.outside (record s.world { calls = s.world.calls + 1 })).0 ≡ ok tt)
              × ((complete_op op apply e.outside s.world).1.db
                  ≡ set_done op
                      (apply e.outside (record s.world { calls = s.world.calls + 1 })).1.db))
            ⊎ (((complete_op op apply e.outside s.world).0 ≢ ok tt)
                × ((complete_op op apply e.outside s.world).1.db ≡ s.world.db))
          → let z = complete_op op apply e.outside s.world in
            ((result_of z.0 ≡ inr tt) × ((d : Db) × (z.1.db ≡ set_done op d)))
            ⊎ ((result_of z.0 ≢ inr tt) × (z.1.db ≡ s.world.db))
      of e s (inl (k, _, l)) = inl (rw k refl, (_, l))
      of e s (inr (k, l)) = inr (not_ok (complete_op op apply e.outside s.world).0 k, l)
        where
          not_ok : (r : Result Unit) → r ≢ ok tt → result_of r ≢ inr tt
          not_ok (ok a) k q = k refl
          not_ok (err x) k q = cc
          not_ok stuck k q = cc

pub ruleset quiet_rules = (
  Quiet-give, Quiet-drive, Quiet-look, Quiet-stat, Quiet-setting, Quiet-recall, Quiet-attempt,
  Quiet-if, Quiet-remember, Quiet-on_disk, Quiet-trash, Quiet-bind,
)

-- ===== src/Store/Atomic.antt =====
-- internal/statedb: a transaction is done whole or not at all.
use synckeeper.Base.{
  ℕ, ◌≡◌, refl, ◌∙◌, ◌⊎◌, inl, inr, arith, Bool-cases, if◌then◌else◌, map, nat_eq, ◌==◌, ◌≢◌,
}
use synckeeper.Store.Types.{Db, done}
use synckeeper.Store.Exec.{
  Result, ok, err, stuck, Outside, World, Exec, write, ◌>>=◌, ◌>>◌, tx, ended, tick, written,
  continue,
}
use synckeeper.Store.Ops.{complete_op, set_op_state}

-- The value and the database that the statements left, if all is well.
abbrev pub IsDone : {A : Type 0} → Exec A → Outside → World → Result A → Db → Type 0
IsDone {A} m o w r d = (a : A) × (r ≡ ok a) × ((m o (tick w)).0 ≡ ok a) × (d ≡ (m o (tick w)).1.db)

ended_atomic :
    {A : Type 0} (d : Db) (o : Outside) (r : Result A) (w : World)
    → ((a : A) × ((ended d r o w).0 ≡ ok a) × (r ≡ ok a) × ((ended d r o w).1.db ≡ w.db))
      ⊎ (((a : A) → (ended d r o w).0 ≢ ok a) × ((ended d r o w).1.db ≡ d))
unfolding ended
ended_atomic d o (ok a) w = elim (Bool-cases (o.sql_fails w.calls)) [
  | inl b ↦ rw b (inr ((λ x e. cc), refl))
  | inr b ↦ rw b (inl (a, refl, refl, refl))
]
ended_atomic d o (err x) w = inr ((λ a e. cc), refl)
ended_atomic d o stuck w = inr ((λ a e. cc), refl)

-- Of what the statements do, a transaction that succeeds leaves all, and another nothing.
pub tx_atomic :
    {A : Type 0} (m : Exec A) (o : Outside) (w : World)
    → IsDone m o w (tx m o w).0 (tx m o w).1.db
      ⊎ (((a : A) → (tx m o w).0 ≢ ok a) × ((tx m o w).1.db ≡ w.db))
unfolding tx
tx_atomic m o w = elim (Bool-cases (o.sql_fails w.calls)) [
  | inl b ↦ rw b (inr ((λ x e. cc), refl))
  | inr b ↦ rw b (elim (ended_atomic w.db o (m o (tick w)).0 (m o (tick w)).1) [
    | inl (a, e, f, g) ↦ inl (a, e, f, g)
    | inr q ↦ inr q
  ])
]

abbrev pub set_done : ℕ → Db → Db
set_done id d = record d {
  ops = map (λ op. if op.id == id then record op { op_state = done } else op) d.ops;
}

set_op_state_lem :
    (id : ℕ) (o : Outside) (w : World) (a : Unit)
    → (set_op_state id done o w).0 ≡ ok a
    → (set_op_state id done o w).1.db ≡ set_done id w.db
unfolding set_op_state write written
set_op_state_lem id o w a e = elim (Bool-cases (o.sql_fails w.calls)) [
  | inl b ↦ absurd (ground arith)
  | inr b ↦ rw b refl
]

mark_done :
    (apply : Exec Unit) (id : ℕ) (o : Outside) (w : World) (a : Unit)
    → ((do apply; set_op_state id done) o w).0 ≡ ok a
    → ((apply o w).0 ≡ ok tt)
      × (((do apply; set_op_state id done) o w).1.db ≡ set_done id (apply o w).1.db)
unfolding ◌>>=◌
mark_done apply id o w a e = after (apply o w).0 (apply o w).1 e
  where
    after :
        (r : Result Unit) (v : World)
        → (continue r (λ _. set_op_state id done) o v).0 ≡ ok a
        → (r ≡ ok tt) × ((continue r (λ _. set_op_state id done) o v).1.db ≡ set_done id v.db)
    after (ok b) v e' = (refl, set_op_state_lem id o v a e')
    after (err x) v e' = absurd (cc)
    after stuck v e' = absurd (cc)

-- CompleteOp either succeeds, and then the mutation has succeeded and the database is what it left
-- with the operation marked done, or it does not, and the database is what it was.
pub complete_op_atomic :
    (id : ℕ) (apply : Exec Unit) (o : Outside) (w : World)
    → (((complete_op id apply o w).0 ≡ ok tt)
        × ((apply o (tick w)).0 ≡ ok tt)
        × ((complete_op id apply o w).1.db ≡ set_done id (apply o (tick w)).1.db))
      ⊎ (((complete_op id apply o w).0 ≢ ok tt) × ((complete_op id apply o w).1.db ≡ w.db))
unfolding complete_op
complete_op_atomic id apply o w = elim (tx_atomic (do apply; set_op_state id done) o w) [
  | inr (n, e) ↦ inr (n tt, e)
  | inl (a, e, f, g) ↦ let (h, k) = mark_done apply id o (tick w) a f in inl (e, h, g ∙ k)
]

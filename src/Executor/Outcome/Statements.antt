-- ===== src/Executor/Outcome/Statements.antt =====
-- internal/executor/executor.go: the database's part of a run ends, unless a statement fails.
use synckeeper.Base.{
  ℕ, ◌+◌, true, some, List, [], ◌∷◌, ◌≡◌, refl, inl, inr, length, arith, Bool-cases, nat_eq,
}
use synckeeper.Store.Types.{Db, PendingOp}
use synckeeper.Store.Exec.{
  Result, ok, err, stuck, Outside, World, Exec, pure, query, write, ◌>>=◌, written, continue, tx,
  ended,
}
use synckeeper.Store.Ops.{insert_op, add_each}

-- Some statement on the database fails.
abbrev pub HasFault : Outside → Type 0
HasFault o = (n : ℕ) × (o.sql_fails n ≡ true)

abbrev pub After : {A : Type 0} → Outside → (A → Type 0) → Result A → Type 0
After o Q (ok a) = Q a
After o Q (err x) = HasFault o
After o Q stuck = HasFault o

-- The action ends with a value as `Q` says, unless a statement fails.
pub record Yields {A : Type 0} (m : Exec A) (Q : A → Type 0) : Type 0 where
  pub at : (o : Outside) (w : World) → After o Q (m o w).0

pure-Yields : {A : Type 0} (a : A) (Q : A → Type 0) → Q a → Yields (pure a) Q
unfolding pure
pure-Yields a Q h = record { at = λ o w. h }

pub query-Yields : {A : Type 0} (f : Db → A) → Yields (query f) (λ _. Unit {0})
unfolding query
query-Yields f = record {
  at = λ o w. elim (Bool-cases (o.sql_fails w.calls)) [
    | inl b ↦ rw b (w.calls, b)
    | inr b ↦ rw b tt
  ];
}

write-Yields : (f : Db → Db) → Yields (write (λ d. some (f d))) (λ _. Unit {0})
unfolding write written
write-Yields f = record {
  at = λ o w. elim (Bool-cases (o.sql_fails w.calls)) [
    | inl b ↦ rw b (w.calls, b)
    | inr b ↦ rw b tt
  ];
}

>>=-Yields :
    {A B : Type 0} (m : Exec A) (f : A → Exec B) (R : A → Type 0) (Q : B → Type 0)
    → Yields m R
    → ((a : A) → R a → Yields (f a) Q)
    → Yields (m >>= f) Q
unfolding ◌>>=◌
>>=-Yields {A} {B} m f R Q hm hf = record { at = λ o w. next o (m o w).0 (m o w).1 (hm.at o w) }
  where
    next : (o : Outside) (r : Result A) (w : World) → After o R r → After o Q (continue r f o w).0
    next o (ok a) w h = (hf a h).at o w
    next o (err x) w h = h
    next o stuck w h = h

pub tx-Yields : {A : Type 0} (m : Exec A) (Q : A → Type 0) → Yields m Q → Yields (tx m) Q
unfolding tx ended
tx-Yields {A} m Q hm = record {
  at = λ o w. elim (Bool-cases (o.sql_fails w.calls)) [
    | inl b ↦ rw b (w.calls, b)
    | inr b ↦
        let w' = record w { calls = w.calls + 1 } in
        rw b (closed w.db o (m o w').0 (m o w').1 (hm.at o w'))
  ];
}
  where
    closed :
        (d : Db) (o : Outside) (r : Result A) (w : World)
        → After o Q r
        → After o Q (ended d r o w).0
    closed d o (ok a) w h = elim (Bool-cases (o.sql_fails w.calls)) [
      | inl b ↦ rw b (w.calls, b)
      | inr b ↦ rw b h
    ]
    closed d o (err x) w h = h
    closed d o stuck w h = h

pub add_each-Yields :
    (ops : List PendingOp) → Yields (add_each ops) (λ ids. length ids ≡ length ops)
unfolding add_each insert_op
add_each-Yields [] = pure-Yields [] _ refl
add_each-Yields (op ∷ ops) = >>=-Yields _ _ _ _ (write-Yields _) λ _ _.
    >>=-Yields _ _ _ _ (query-Yields _) λ id _.
      >>=-Yields _ _ _ _ (add_each-Yields ops) λ ids q. pure-Yields (id ∷ ids) _ (omega (arith, q))

-- ===== src/Store/Total.antt =====
-- Actions that end on their own: no run of them runs out of fuel.
use synckeeper.Base.{◌+◌, Option, none, some, ◌≢◌, refl, arith, Bool-cases, inl, inr}
use synckeeper.Store.Types.{Db}
use synckeeper.Store.Exec.{
  Result, ok, err, stuck, Outside, World, Exec, pure, query, write, ◌>>=◌, written, continue, tx,
  ended,
}

pub record IsTotal {A : Type 0} (m : Exec A) : Type 0 where
  pub at : (o : Outside) (w : World) → (m o w).0 ≢ stuck

pub pure-IsTotal : {A : Type 0} (a : A) → IsTotal (pure a)
unfolding pure
pure-IsTotal a = record { at = λ o w e. cc }

pub query-IsTotal : {A : Type 0} (f : Db → A) → IsTotal (query f)
unfolding query
query-IsTotal f = record { at = λ o w e. ground arith }

pub write-IsTotal : (f : Db → Option Db) → IsTotal (write f)
unfolding write
write-IsTotal f = record {
  at = λ o w. elim (Bool-cases (o.sql_fails w.calls)) [
    | inl b ↦ rw b (λ e. cc)
    | inr b ↦ rw b (put (f w.db) (record w { calls = w.calls + 1 }))
  ];
}
  where
    put : (x : Option Db) (w : World) → (written x w).0 ≢ stuck
    put none w e = cc
    put (some d) w e = cc

pub >>=-IsTotal :
    {A B : Type 0} (m : Exec A) (f : A → Exec B)
    → IsTotal m
    → ((a : A) → IsTotal (f a))
    → IsTotal (m >>= f)
unfolding ◌>>=◌
>>=-IsTotal {A} {B} m f hm hf = record { at = λ o w. next o (m o w).0 (m o w).1 (hm.at o w) }
  where
    next : (o : Outside) (r : Result A) (w : World) → r ≢ stuck → (continue r f o w).0 ≢ stuck
    next o (ok a) w h e = (hf a).at o w e
    next o (err x) w h e = cc
    next o stuck w h e = h refl

pub tx-IsTotal : {A : Type 0} (m : Exec A) → IsTotal m → IsTotal (tx m)
unfolding tx
tx-IsTotal {A} m hm = record {
  at = λ o w. elim (Bool-cases (o.sql_fails w.calls)) [
    | inl b ↦ rw b (λ e. cc)
    | inr b ↦
        let w' = record w { calls = w.calls + 1 } in
        rw b (closed w.db o (m o w').0 (m o w').1 (hm.at o w'))
  ];
}
  where
    closed :
        (d : Db) (o : Outside) (r : Result A) (w : World) → r ≢ stuck → (ended d r o w).0 ≢ stuck
    closed d o (ok a) w h e = elim (Bool-cases (o.sql_fails w.calls)) [
      | inl b ↦ ground arith
      | inr b ↦ ground arith
    ]
    closed d o (err x) w h e = cc
    closed d o stuck w h e = h refl

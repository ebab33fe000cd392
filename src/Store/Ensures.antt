-- ===== src/Store/Ensures.antt =====
-- What holds after an action that a condition came before: one rule for each way to build an action.
use synckeeper.Base.{
  ℕ, ◌+◌, Bool, true, false, Option, none, some, ◌≡◌, refl, ◌⊎◌, inl, inr, if◌then◌else◌,
  Bool-cases,
}
use synckeeper.Store.Types.{Db}
use synckeeper.Store.Exec.{
  Error, Result, ok, err, stuck, Reply, reply, failed, Outside, World, Exec, pure, raise,
  out_of_fuel, ask, query, attempt, write, ◌>>=◌, tx, answered, ended, written, caught, continue,
}

-- `Q` after a value, `E` after an error or a loop that has not ended.
abbrev pub Post : {A : Type 0} → (A → Db → Type 0) → (Db → Type 0) → Result A → Db → Type 0
Post Q E (ok a) d = Q a d
Post Q E (err e) d = E d
Post Q E stuck d = E d

pub record Ensures {A : Type 0} (P : Db → Type 0) (m : Exec A) (Q : A → Db → Type 0)
    (E : Db → Type 0) : Type 0 where
  pub at : (o : Outside) (w : World) → P w.db → let r = m o w in Post Q E r.0 r.1.db

-- The condition is kept, whether the action returns or fails.
abbrev pub Keeps : {A : Type 0} → (Db → Type 0) → Exec A → Type 0
Keeps I m = Ensures I m (λ _. I) I

module _ {A : Type 0} {P E : Db → Type 0} {Q : A → Db → Type 0} where
  pub Ensures-pure : (a : A) → ((d : Db) → P d → Q a d) → Ensures P (pure a) Q E
  unfolding pure
  Ensures-pure a q = record { at = λ o w h. q w.db h }

  pub Ensures-raise : (x : Error) → ((d : Db) → P d → E d) → Ensures P (raise x) Q E
  unfolding raise
  Ensures-raise x e = record { at = λ o w h. e w.db h }

  pub Ensures-out_of_fuel : ((d : Db) → P d → E d) → Ensures P out_of_fuel Q E
  unfolding out_of_fuel
  Ensures-out_of_fuel e = record { at = λ o w h. e w.db h }

  pub Ensures-ask :
      (call : Outside → ℕ → Reply A)
      → ((a : A) (d : Db) → P d → Q a d)
      → ((d : Db) → P d → E d)
      → Ensures P (ask call) Q E
  unfolding ask
  Ensures-ask call q e = record {
    at = λ o w h. replied (call o w.calls) (record w { calls = w.calls + 1 }) h;
  }
    where
      replied : (r : Reply A) (w : World) → P w.db → let z = answered r w in Post Q E z.0 z.1.db
      replied (reply a) w h = q a w.db h
      replied (failed f) w h = e w.db h

  pub Ensures-query :
      (f : Db → A) → ((d : Db) → P d → Q (f d) d) → ((d : Db) → P d → E d) → Ensures P (query f) Q E
  unfolding query
  Ensures-query f q e = record {
    at = λ o w h. elim (Bool-cases (o.sql_fails w.calls)) [
      | inl b ↦ rw b (e w.db h)
      | inr b ↦ rw b (q w.db h)
    ];
  }

  pub Ensures-if :
      (b : Bool) (m n : Exec A)
      → (b ≡ true → Ensures P m Q E)
      → (b ≡ false → Ensures P n Q E)
      → Ensures P (if b then m else n) Q E
  Ensures-if true m n hm hn = hm refl
  Ensures-if false m n hm hn = hn refl

  -- What holds after the statements, if the transaction begins at a given database.
  pub Ensures-tx :
      (m : Exec A)
      → ((d : Db) → P d → Ensures (λ x. x ≡ d) m Q (λ _. Unit))
      → ((d : Db) → P d → E d)
      → Ensures P (tx m) Q E
  unfolding tx
  Ensures-tx m hm e = record {
    at = λ o w h. elim (Bool-cases (o.sql_fails w.calls)) [
      | inl b ↦ rw b (e w.db h)
      | inr b ↦
          let w' = record w { calls = w.calls + 1 } in
          rw b (closed w.db o (m o w').0 (m o w').1 (e w.db h) ((hm w.db h).at o w' refl))
    ];
  }
    where
      closed :
          (d : Db) (o : Outside) (r : Result A) (w : World)
          → E d
          → Post Q (λ _. Unit) r w.db
          → let z = ended d r o w in Post Q E z.0 z.1.db
      closed d o (ok a) w h k = elim (Bool-cases (o.sql_fails w.calls)) [
        | inl b ↦ rw b h
        | inr b ↦ rw b k
      ]
      closed d o (err x) w h k = h
      closed d o stuck w h k = h

  -- For one database that the condition holds of at a time.
  pub Ensures-each : (m : Exec A) → ((d : Db) → P d → Ensures (λ x. x ≡ d) m Q E) → Ensures P m Q E
  Ensures-each m hm = record { at = λ o w h. (hm w.db h).at o w refl }

  pub Ensures-mono :
      {P' E' : Db → Type 0} {Q' : A → Db → Type 0} (m : Exec A)
      → Ensures P' m Q' E'
      → ((d : Db) → P d → P' d)
      → ((a : A) (d : Db) → Q' a d → Q a d)
      → ((d : Db) → E' d → E d)
      → Ensures P m Q E
  Ensures-mono {P'} {E'} {Q'} m hm p q e = record {
    at = λ o w h. weaken (m o w).0 (m o w).1.db (hm.at o w (p w.db h));
  }
    where
      weaken : (r : Result A) (d : Db) → Post Q' E' r d → Post Q E r d
      weaken (ok a) d h = q a d h
      weaken (err x) d h = e d h
      weaken stuck d h = e d h

pub Ensures-write :
    {P E : Db → Type 0} {Q : Db → Type 0} (f : Db → Option Db)
    → ((d d' : Db) → P d → f d ≡ some d' → Q d')
    → ((d : Db) → P d → E d)
    → Ensures P (write f) (λ _. Q) E
unfolding write
Ensures-write {P} {E} {Q} f q e = record {
  at = λ o w h. elim (Bool-cases (o.sql_fails w.calls)) [
    | inl b ↦ rw b (e w.db h)
    | inr b ↦ rw b (put (f w.db) (record w { calls = w.calls + 1 }) (e w.db h) (λ d'. q w.db d' h))
  ];
}
  where
    put :
        (x : Option Db) (w : World)
        → E w.db
        → ((d' : Db) → x ≡ some d' → Q d')
        → let z = written x w in Post (λ (_ : Unit). Q) E z.0 z.1.db
    put none w h k = h
    put (some d) w h k = k d refl

module _ {A B : Type 0} {P E : Db → Type 0} {Q : B → Db → Type 0} where
  pub Ensures-bind :
      (R : A → Db → Type 0) (m : Exec A) (f : A → Exec B)
      → Ensures P m R E
      → ((a : A) → Ensures (R a) (f a) Q E)
      → Ensures P (m >>= f) Q E
  unfolding ◌>>=◌
  Ensures-bind R m f hm hf = record { at = λ o w h. next o (m o w).0 (m o w).1 (hm.at o w h) }
    where
      next :
          (o : Outside) (r : Result A) (w : World)
          → Post R E r w.db
          → let z = continue r f o w in Post Q E z.0 z.1.db
      next o (ok a) w h = (hf a).at o w h
      next o (err x) w h = h
      next o stuck w h = h

module _ {A : Type 0} {P E : Db → Type 0} {Q : (Error ⊎ A) → Db → Type 0} where
  pub Ensures-attempt :
      {R : A → Db → Type 0} {F : Db → Type 0} (m : Exec A)
      → Ensures P m R F
      → ((a : A) (d : Db) → R a d → Q (inr a) d)
      → ((x : Error) (d : Db) → F d → Q (inl x) d)
      → ((d : Db) → F d → E d)
      → Ensures P (attempt m) Q E
  unfolding attempt
  Ensures-attempt {R} {F} m hm q x e = record {
    at = λ o w h. caught_lem (m o w).0 (m o w).1 (hm.at o w h);
  }
    where
      caught_lem :
          (r : Result A) (w : World) → Post R F r w.db → let z = caught r w in Post Q E z.0 z.1.db
      caught_lem (ok a) w h = q a w.db h
      caught_lem (err y) w h = x y w.db h
      caught_lem stuck w h = e w.db h

-- ===== src/Reconcile/Proofs/Order.antt =====
-- The order of the plan: what holds of all stages, and what may stand before what.
use synckeeper.Base.{
  ◌≡◌, inl, inr, Bool, true, false, ◌||◌, List, [], ◌∷◌, ◌++◌, arith, nat_eq, Bool-cases, keep, All,
  All-append, All-mono, All-keep, All-sort_by, int_eq, bytes_eq,
}
use synckeeper.Reconcile.Types.{Action, is_delete, is_mkdir, is_move, is_transfer, mkdir_remote}
use synckeeper.Reconcile.Index.{under}
use synckeeper.Reconcile.DirMoves.{DirMove}
use synckeeper.Reconcile.Draft.{Draft}
use synckeeper.Reconcile.Paths.{under_of_depth, depth_of_path_less}
use synckeeper.Reconcile.Plan.Order.{
  by_depth_then_path, bottom_up, by_path, is_local_dir_move, is_remote_dir_move, is_file_move,
  waits_for_reparent, waits_not, dir_stages, file_moves, order,
}

-- What holds of every action of the draft holds of every action of the plan.
pub order-All :
    (P : Action → Type 0) (ms : List DirMove) (d : Draft)
    → All P d.mkdirs
    → All P d.moves
    → All P d.transfers
    → All P d.deletes
    → All P (order ms d)
unfolding order dir_stages file_moves
order-All P ms d hm hv ht hd =
    let mk = All-sort_by P by_depth_then_path d.mkdirs hm in
    All-append P _ _
      (All-append P _ _ (All-sort_by P _ _ (All-keep P is_local_dir_move d.moves hv)) (
        All-append P _ _ (All-keep P (waits_not ms) _ mk) (
          All-append P _ _ (All-sort_by P _ _ (All-keep P is_remote_dir_move d.moves hv))
            (All-keep P (waits_for_reparent ms) _ mk))))
      (All-append P _ _ (All-sort_by P _ _ (All-keep P is_file_move d.moves hv)) (
        All-append P _ _ (All-sort_by P by_path d.transfers ht)
          (All-sort_by P bottom_up d.deletes hd)))

-- Every element is so related to each later one.
abbrev pub Pairs : (Action → Action → Type 0) → List Action → Type 0
Pairs R [] = Unit
Pairs R (x ∷ xs) = All (R x) xs × Pairs R xs

pub Pairs-append :
    (R : Action → Action → Type 0) (xs ys : List Action)
    → Pairs R xs
    → Pairs R ys
    → All (λ x. All (R x) ys) xs
    → Pairs R (xs ++ ys)
Pairs-append R [] ys hx hy c = hy
Pairs-append R (x ∷ xs) ys (h, hx) hy (cx, c) =
    (All-append (R x) xs ys h cx, Pairs-append R xs ys hx hy c)

pub Pairs-All :
    (R : Action → Action → Type 0) (P : Action → Type 0)
    → ((x y : Action) → P x → P y → R x y)
    → (xs : List Action) → All P xs
    → Pairs R xs
Pairs-All R P f [] h = tt
Pairs-All R P f (x ∷ xs) (h, hs) =
    (All-mono P (R x) xs (λ y k. f x y h k) hs, Pairs-All R P f xs hs)

pub Pairs-mono :
    (R S : Action → Action → Type 0) (P : Action → Type 0)
    → ((x y : Action) → P x → P y → R x y → S x y)
    → (xs : List Action) → All P xs
    → Pairs R xs
    → Pairs S xs
Pairs-mono R S P f [] p h = tt
Pairs-mono R S P f (x ∷ xs) (p, ps) (h, hs) = (later xs ps h, Pairs-mono R S P f xs ps hs)
  where
    later : (ys : List Action) → All P ys → All (R x) ys → All (S x) ys
    later [] q k = tt
    later (y ∷ ys) (q, qs) (k, ks) = (f x y p q k, later ys qs ks)

pub All-cross :
    (R : Action → Action → Type 0) (P Q : Action → Type 0)
    → ((x y : Action) → P x → Q y → R x y)
    → (xs ys : List Action) → All P xs
    → All Q ys
    → All (λ x. All (R x) ys) xs
All-cross R P Q f xs ys hx hy = All-mono _ _ xs (λ x p. All-mono _ _ ys (λ y q. f x y p q) hy) hx

pub Pairs-keep :
    (R : Action → Action → Type 0) (p : Action → Bool) (xs : List Action)
    → Pairs R xs
    → Pairs R (keep p xs)
Pairs-keep R p [] h = tt
Pairs-keep R p (x ∷ xs) (h, hs) = elim (Bool-cases (p x)) [
  | inl e ↦ rw e (All-keep (R x) p xs h, Pairs-keep R p xs hs)
  | inr e ↦ rw e (Pairs-keep R p xs hs)
]

-- What may stand before what: deletes last and bottom-up, transfers before them and after all
-- else, a folder made on Drive before one inside it.
pub record MayPrecede (x y : Action) : Type 0 where
  pub after_delete : is_delete x.kind ≡ true → is_delete y.kind ≡ true
  pub after_transfer : is_transfer x.kind ≡ true → (is_transfer y.kind || is_delete y.kind) ≡ true
  pub bottom_up :
      is_delete x.kind ≡ true → is_delete y.kind ≡ true → under x.rel_path y.rel_path ≡ false
  pub top_down : x.kind ≡ mkdir_remote → y.kind ≡ mkdir_remote → under y.rel_path x.rel_path ≡ false

-- Neither a transfer nor a delete, nor a folder that is made.
abbrev pub IsMove : Action → Type 0
IsMove a = is_move a.kind ≡ true

abbrev pub IsEarly : Action → Type 0
IsEarly a = (is_mkdir a.kind || is_move a.kind) ≡ true

pub early_then_move : (x y : Action) → IsEarly x → IsMove y → MayPrecede x y
early_then_move x y h k = record {
  after_delete = λ d. ground arith;
  after_transfer = λ t. ground arith;
  bottom_up = λ d e. ground arith;
  top_down = λ d e. ground arith;
}

pub move_then_early : (x y : Action) → IsMove x → IsEarly y → MayPrecede x y
move_then_early x y h k = record {
  after_delete = λ d. ground arith;
  after_transfer = λ t. ground arith;
  bottom_up = λ d e. ground arith;
  top_down = λ d e. ground arith;
}

pub early_then_late :
    (x y : Action) → IsEarly x → (is_transfer y.kind || is_delete y.kind) ≡ true → MayPrecede x y
early_then_late x y h k = record {
  after_delete = λ d. ground arith;
  after_transfer = λ t. ground arith;
  bottom_up = λ d e. ground arith;
  top_down = λ d e. ground arith;
}

pub transfer_then_late :
    (x y : Action)
    → is_transfer x.kind ≡ true
    → (is_transfer y.kind || is_delete y.kind) ≡ true
    → MayPrecede x y
transfer_then_late x y h k = record {
  after_delete = λ d. ground arith;
  after_transfer = λ t. k;
  bottom_up = λ d e. ground arith;
  top_down = λ d e. ground arith;
}

pub mkdir_then_mkdir :
    (x y : Action)
    → is_mkdir x.kind ≡ true
    → is_mkdir y.kind ≡ true
    → (x.kind ≡ mkdir_remote → y.kind ≡ mkdir_remote → under y.rel_path x.rel_path ≡ false)
    → MayPrecede x y
mkdir_then_mkdir x y h k f = record {
  after_delete = λ d. ground arith;
  after_transfer = λ t. ground arith;
  bottom_up = λ d e. ground arith;
  top_down = f;
}

pub delete_then_delete :
    (x y : Action)
    → is_delete x.kind ≡ true
    → is_delete y.kind ≡ true
    → bottom_up y x ≡ false
    → MayPrecede x y
delete_then_delete x y h k l = record {
  after_delete = λ d. k;
  after_transfer = λ t. ground arith;
  bottom_up =
      λ d e. under_of_depth x.rel_path y.rel_path (depth_of_path_less y.rel_path x.rel_path l);
  top_down = λ d e. ground arith;
}

-- ===== src/Base/Strings.antt =====
-- Go strings as lists of bytes: `==`, `<`, `strings.HasPrefix`, `strings.Count`, `strings.Split`.
use Prim.Native.Nat.{ℕ, suc, ◌+◌}
use Prim.Native.Char.{code}
use Prim.Native.String.{String}
use mathlib.Core.Path.{◌≡◌, refl}
use mathlib.Core.Logic.{dite}
use mathlib.Core.Bool.{Bool, true, false, ◌&&◌}
use mathlib.Core.List.{List, [], ◌∷◌, ◌++◌}
use native.Mathlib.Omega.{arith}
use native.Mathlib.Decide.{ℕ_discrete}
use synckeeper.Base.Tests.{Eq, nat_eq, ◌==◌, ltb, if◌then◌else◌}
use synckeeper.Base.Lists.{length, drop}
use synckeeper.Base.Sort.{IsOrder}

abbrev pub Bytes : Type 0
Bytes = List ℕ

-- The bytes of an ASCII literal.
abbrev pub codes : String → Bytes
codes String.[] = []
codes (String.◌∷◌ c s) = code c ∷ codes s

bytes_dec : Discrete Bytes
unfolding ℕ_discrete
bytes_dec [] [] = yes refl
bytes_dec [] (y ∷ ys) = no (λ e. cc)
bytes_dec (x ∷ xs) [] = no (λ e. cc)
bytes_dec (x ∷ xs) (y ∷ ys) =
    let rest = bytes_dec xs ys in
    dite (ℕ_discrete x y) (λ p. dite rest (λ q. yes (cc)) (λ n. no (λ e. n (cc))))
      (λ n. no (λ e. n (cc)))

instance unfoldable pub bytes_eq : Eq Bytes
unfolding bytes_dec
bytes_eq = record { dec = bytes_dec }

-- `a < b` on Go strings.
unfoldable pub bytes_ltb : Bytes → Bytes → Bool
bytes_ltb [] [] = false
bytes_ltb [] (y ∷ ys) = true
bytes_ltb (x ∷ xs) [] = false
bytes_ltb (x ∷ xs) (y ∷ ys) = if ltb x y then true else if ltb y x then false else bytes_ltb xs ys

bytes_asymm : (a b : Bytes) → bytes_ltb a b ≡ true → bytes_ltb b a ≡ false
unfolding bytes_ltb
bytes_asymm [] [] h = refl
bytes_asymm [] (y ∷ ys) h = refl
bytes_asymm (x ∷ xs) [] h = cc
bytes_asymm (x ∷ xs) (y ∷ ys) h = ground (arith, bytes_asymm xs ys)

bytes_le_trans :
    (a b c : Bytes) → bytes_ltb b a ≡ false → bytes_ltb c b ≡ false → bytes_ltb c a ≡ false
unfolding bytes_ltb
bytes_le_trans [] b [] h k = refl
bytes_le_trans [] [] (z ∷ zs) h k = refl
bytes_le_trans [] (y ∷ ys) (z ∷ zs) h k = refl
bytes_le_trans (x ∷ xs) [] c h k = cc
bytes_le_trans (x ∷ xs) (y ∷ ys) [] h k = cc
bytes_le_trans (x ∷ xs) (y ∷ ys) (z ∷ zs) h k = ground (arith, bytes_le_trans xs ys zs)

pub bytes-IsOrder : IsOrder bytes_ltb
bytes-IsOrder = record { asymm = bytes_asymm; le_trans = bytes_le_trans }

-- The order is total on distinct strings.
pub bytes_total : (a b : Bytes) → bytes_ltb a b ≡ false → bytes_ltb b a ≡ false → a ≡ b
unfolding bytes_ltb
bytes_total [] [] h k = refl
bytes_total [] (y ∷ ys) h k = cc
bytes_total (x ∷ xs) [] h k = cc
bytes_total (x ∷ xs) (y ∷ ys) h k = ground (arith, bytes_total xs ys)

-- `strings.HasPrefix(s, prefix)`
unfoldable pub has_prefix : Bytes → Bytes → Bool
has_prefix s [] = true
has_prefix [] (y ∷ ys) = false
has_prefix (x ∷ xs) (y ∷ ys) = x == y && has_prefix xs ys

pub has_prefix-append : (p r : Bytes) → has_prefix (p ++ r) p ≡ true
unfolding has_prefix
has_prefix-append [] r = refl
has_prefix-append (x ∷ p) r = ground (arith, has_prefix-append p r)

pub has_prefix_split : (s p : Bytes) → has_prefix s p ≡ true → s ≡ p ++ drop (length p) s
unfolding has_prefix
has_prefix_split s [] h = refl
has_prefix_split [] (y ∷ ys) h = cc
has_prefix_split (x ∷ xs) (y ∷ ys) h = ground (arith, has_prefix_split xs ys)

-- `strings.Count(p, "/")`
unfoldable pub count_slash : Bytes → ℕ
count_slash [] = 0
count_slash (c ∷ s) = let rest = count_slash s in if c == b'/' then suc rest else rest

pub count_slash-append : (a b : Bytes) → count_slash (a ++ b) ≡ count_slash a + count_slash b
unfolding count_slash
count_slash-append [] b = omega arith
count_slash-append (c ∷ a) b = ground (arith, count_slash-append a b)

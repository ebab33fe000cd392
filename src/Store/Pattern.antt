-- ===== src/Store/Pattern.antt =====
-- internal/statedb/items.go: what the escaped LIKE pattern of a prefix matches.
use synckeeper.Base.{
  ℕ, Bool, true, false, ◌&&◌, ◌||◌, List, [], ◌∷◌, ◌++◌, Bytes, nat_eq, ◌==◌, if◌then◌else◌, ◌≡◌,
  refl, ap, ◌∙◌, arith, Bool-cases, inl, inr, map,
}
use synckeeper.Store.Like.{
  like, escape_like, escape_byte, same_letter, has_prefix_fold, some_suffix, pieces, matches_pieces,
  letter, any_text, Piece,
}

-- Escaping one byte after another is escaping each byte by itself.
abbrev is_special : ℕ → Bool
is_special c = c == b'\\' || (c == b'%' || c == b'_')

abbrev escape_each : Bytes → Bytes
escape_each [] = []
escape_each (c ∷ s) = if is_special c then b'\\' ∷ c ∷ escape_each s else c ∷ escape_each s

escape_like-each : (s : Bytes) → escape_like s ≡ escape_each s
unfolding escape_like escape_byte
escape_like-each [] = refl
escape_like-each (c ∷ s) = ground (arith, escape_like-each s)

pieces_escaped :
    (p : Bytes) → pieces false (escape_each p ++ b'%' ∷ []) ≡ map letter p ++ any_text ∷ []
unfolding pieces
pieces_escaped [] = ground arith
pieces_escaped (c ∷ p) = elim (Bool-cases (is_special c)) [
  | inl e ↦ rw e (ground (arith, pieces_escaped p))
  | inr e ↦ rw e (ground (arith, pieces_escaped p))
]

some_suffix_any : (test : Bytes → Bool) (s : Bytes) → test [] ≡ true → some_suffix test s ≡ true
some_suffix_any test [] h = h
some_suffix_any test (x ∷ s) h = ground (arith, some_suffix_any test s h)

matches_prefix :
    (p s : Bytes) → matches_pieces (map letter p ++ any_text ∷ []) s ≡ has_prefix_fold s p
unfolding matches_pieces has_prefix_fold
matches_prefix [] [] = refl
matches_prefix [] (x ∷ s) = some_suffix_any (matches_pieces []) (x ∷ s) refl
matches_prefix (c ∷ p) [] = refl
matches_prefix (c ∷ p) (x ∷ s) = ap (λ (b : Bool). same_letter c x && b) (matches_prefix p s)

-- The pattern that RenameItemPath builds matches the texts that begin with the prefix up to the case
-- of the ASCII letters, whatever special characters the prefix has.
pub like-escape_like : (p s : Bytes) → like (escape_like p ++ b'%' ∷ []) s ≡ has_prefix_fold s p
unfolding like
like-escape_like p s =
    ap (λ (q : Bytes). matches_pieces (pieces false (q ++ b'%' ∷ [])) s) (escape_like-each p)
    ∙ (ap (λ (ps : List Piece). matches_pieces ps s) (pieces_escaped p) ∙ matches_prefix p s)

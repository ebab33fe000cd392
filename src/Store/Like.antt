-- ===== src/Store/Like.antt =====
-- internal/statedb/items.go: `escapeLike`, and SQLite's LIKE with the escape character `\`, which
-- takes the ASCII letters in either case for the same.
use synckeeper.Base.{
  ℕ, ◌+◌, Bool, true, false, ◌&&◌, ◌||◌, List, [], ◌∷◌, Bytes, nat_eq, ◌==◌, ltb, if◌then◌else◌,
}

unfoldable pub fold_ascii : ℕ → ℕ
fold_ascii c = if ltb 64 c && ltb c 91 then c + 32 else c

abbrev pub same_letter : ℕ → ℕ → Bool
same_letter a b = fold_ascii a == fold_ascii b

-- Some suffix of the text passes the test: a pattern's `%`, which takes any text.
abbrev pub some_suffix : (Bytes → Bool) → Bytes → Bool
some_suffix test [] = test []
some_suffix test (x ∷ s) = test (x ∷ s) || some_suffix test s

-- What a pattern asks for, piece by piece. A bare `_` is one character, here a byte: no pattern of the
-- code has it. A pattern that ends in the escape matches nothing.
pub data Piece : Type 0 where
  letter : ℕ → Piece
  any_byte any_text nothing : Piece

abbrev pub piece_of : ℕ → Piece
piece_of c = if c == b'%' then any_text else if c == b'_' then any_byte else letter c

-- The flag says that an escape came before.
unfoldable pub pieces : Bool → Bytes → List Piece
pieces false [] = []
pieces true [] = nothing ∷ []
pieces true (c ∷ p) = letter c ∷ pieces false p
pieces false (c ∷ p) =
    let next = piece_of c ∷ pieces false p in
    let escaped = pieces true p in if c == b'\\' then escaped else next

unfoldable pub matches_pieces : List Piece → Bytes → Bool
matches_pieces [] [] = true
matches_pieces [] (x ∷ s) = false
matches_pieces (any_text ∷ ps) s = some_suffix (matches_pieces ps) s
matches_pieces (nothing ∷ ps) s = false
matches_pieces (letter c ∷ ps) [] = false
matches_pieces (letter c ∷ ps) (x ∷ s) = same_letter c x && matches_pieces ps s
matches_pieces (any_byte ∷ ps) [] = false
matches_pieces (any_byte ∷ ps) (x ∷ s) = matches_pieces ps s

-- `s like p escape '\'`, the pattern first.
unfoldable pub like : Bytes → Bytes → Bool
unfolding pieces matches_pieces
like p s = matches_pieces (pieces false p) s

-- `strings.ReplaceAll` of one byte by its escape.
unfoldable pub escape_byte : ℕ → Bytes → Bytes
escape_byte b [] = []
escape_byte b (c ∷ s) = let rest = escape_byte b s in if c == b then b'\\' ∷ c ∷ rest else c ∷ rest

unfoldable pub escape_like : Bytes → Bytes
unfolding escape_byte
escape_like s = escape_byte b'_' (escape_byte b'%' (escape_byte b'\\' s))

-- `strings.HasPrefix` up to the case of the ASCII letters.
unfoldable pub has_prefix_fold : Bytes → Bytes → Bool
has_prefix_fold s [] = true
has_prefix_fold [] (y ∷ p) = false
has_prefix_fold (x ∷ s) (y ∷ p) = same_letter y x && has_prefix_fold s p

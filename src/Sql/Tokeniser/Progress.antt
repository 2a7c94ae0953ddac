-- ===== src/Sql/Tokeniser/Progress.antt =====
-- How far the tokeniser gets: it never reads behind the end, and stops for good at a rune that it does
-- not know.
use golang_db.Base.{ℕ, ◌≡◌, refl, ◌+◌, ◌≤◌, Bool, [], ◌∷◌, length, arith}
use golang_db.Base.Bytes.{Bytes}
use golang_db.Sql.Tokeniser.{
  is_space, is_alphanumeric, is_operator, take_while, drop_while, word_token, token_at, next_token,
}

module _ (test : ℕ → Bool) where
  length-drop_while :
      (s : Bytes) → length (take_while test s) + length (drop_while test s) ≡ length s
  unfolding take_while drop_while
  length-drop_while [] = refl
  length-drop_while (c ∷ s) = ground (arith, length-drop_while s)

pub token_at_le :
    (text : Bytes) → length ((token_at text).0.value) + length ((token_at text).1) ≤ length text
unfolding token_at word_token
token_at_le [] = omega arith
token_at_le (c ∷ s) =
    ground (arith, length-drop_while is_operator (c ∷ s), length-drop_while is_alphanumeric (c ∷ s))

-- The token and what is left are parts of the text that do not overlap.
pub next_token_le :
    (text : Bytes) → length ((next_token text).0.value) + length ((next_token text).1) ≤ length text
unfolding next_token
next_token_le text =
    omega (arith, token_at_le (drop_while is_space text), length-drop_while is_space text)

-- ===== src/Sql/Parser/Insert/Endless.antt =====
-- When the loop of ParseInsertIntoTable ends: where the tokeniser knows the characters; it goes on for
-- ever at one that it does not know.
use golang_db.Base.{
  ℕ, zero, suc, ◌<◌, ◌≡◌, refl, Bool, false, ◌||◌, List, [], ◌∷◌, ◌++◌, arith, err, ok, out_of_fuel,
}
use golang_db.Base.Bytes.{Bytes, cmp}
use golang_db.Sql.Tokeniser.{
  TokenType, is_space, is_alphanumeric, is_symbol, is_operator, is_keyword, contains_string,
  to_upper, take_while, drop_while, word_token, token_at, next_token, same_type,
}
use golang_db.Sql.Tokeniser.Spells.{Passes, drop_while-append}
use golang_db.Sql.Parser.{Parser, advance, accepts, consume, skip_comma}
use golang_db.Sql.Parser.Insert.{parse_value, parse_values}

-- A character that the tokeniser has a class for.
unfoldable pub is_supported : ℕ → Bool
is_supported c = is_space c || is_symbol c || is_operator c || is_alphanumeric c

unsupported :
    (c : ℕ)
    → is_supported c ≡ false
    → (is_space c ≡ false)
      × (is_symbol c ≡ false)
      × (is_operator c ≡ false)
      × (is_alphanumeric c ≡ false)
unfolding is_supported
unsupported c h = (ground arith, ground arith, ground arith, ground arith)

-- The parser before such a character has the empty identifier.
abbrev pub stuck : ℕ → Bytes → Parser
stuck c rest = record {
  tokeniser = c ∷ rest;
  current_token = record { token_type = TokenType.identifier; value = [] };
}

advance-stuck :
    (gap : Bytes) (c : ℕ) (rest : Bytes)
    → Passes is_space gap
    → is_supported c ≡ false
    → advance (gap ++ c ∷ rest) ≡ stuck c rest
unfolding advance next_token token_at word_token take_while drop_while is_keyword contains_string
    to_upper cmp
advance-stuck gap c rest spaces h =
    let (space, symbol, operator, word) = unsupported c h in
    rw (drop_while-append is_space gap (c ∷ rest) spaces space, symbol, operator, word) refl

parse_value-stuck :
    (c : ℕ) (rest : Bytes)
    → is_supported c ≡ false
    → parse_value (stuck c rest) ≡ ok ([], stuck c rest)
unfolding parse_value skip_comma consume accepts same_type cmp
parse_value-stuck c rest h = rw (advance-stuck [] c rest tt h) refl

parse_values-stuck :
    (fuel : ℕ) (c : ℕ) (rest : Bytes) (vals : List Bytes)
    → is_supported c ≡ false
    → parse_values fuel (stuck c rest) vals ≡ err out_of_fuel
unfolding parse_values cmp
parse_values-stuck zero c rest vals h = refl
parse_values-stuck (suc fuel) c rest vals h =
    rw (parse_value-stuck c rest h) (parse_values-stuck fuel c rest (vals ++ [] ∷ []) h)

-- Where the next character that is no space is an ASCII character without a class, the loop of
-- ParseInsertIntoTable does not end with any number of rounds.
pub parse_values-endless :
    (fuel : ℕ) (gap : Bytes) (c : ℕ) (rest : Bytes) (vals : List Bytes)
    → Passes is_space gap
    → c < 128
    → is_supported c ≡ false
    → parse_values fuel (advance (gap ++ c ∷ rest)) vals ≡ err out_of_fuel
parse_values-endless fuel gap c rest vals spaces ascii h =
    rw (advance-stuck gap c rest spaces h) (parse_values-stuck fuel c rest vals h)

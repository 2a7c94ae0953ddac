-- ===== src/Sql/Tokeniser.antt =====
-- sql_parser/tokeniser.go. A tokeniser is the runes that are still to be read, `input[pos:]`. The
-- classes of package unicode are written out for the ASCII characters: others are in none of them.

pub mod Progress
pub mod Spells
pub mod Reads
use golang_db.Base.{
  ℕ, Bool, true, false, ◌&&◌, ◌||◌, List, [], ◌∷◌, ◌-◌, map, leb, ◌==◌, if◌then◌else◌,
}
use golang_db.Base.Bytes.{Bytes, str_eq}
use golang_db.Base.Text.{codes}

pub data TokenType : Type 0 where
  identifier keyword symbol conditional_operator eof : TokenType

-- The text of a TokenType, which is a string.
unfoldable pub type_name : TokenType → Bytes
type_name TokenType.identifier = codes "IDENTIFIER"
type_name TokenType.keyword = codes "KEYWORD"
type_name TokenType.symbol = codes "SYMBOL"
type_name TokenType.conditional_operator = codes "CONDITIONAL_OPERATOR"
type_name TokenType.eof = codes "EOF"

-- == on the types
unfoldable pub same_type : TokenType → TokenType → Bool
same_type TokenType.identifier TokenType.identifier = true
same_type TokenType.keyword TokenType.keyword = true
same_type TokenType.symbol TokenType.symbol = true
same_type TokenType.conditional_operator TokenType.conditional_operator = true
same_type TokenType.eof TokenType.eof = true
same_type _ _ = false

pub record Token : Type 0 where
  pub token_type : TokenType
  pub value : Bytes

abbrev pub keywords : List Bytes
keywords =
    codes "CREATE"
    ∷ codes "TABLE"
    ∷ codes "PRIMARY"
    ∷ codes "KEY"
    ∷ codes "INSERT"
    ∷ codes "INTO"
    ∷ codes "VALUES"
    ∷ codes "SELECT"
    ∷ codes "FROM"
    ∷ codes "WHERE"
    ∷ codes "AND"
    ∷ []

abbrev pub symbols : Bytes
symbols = codes "(),;*"

abbrev pub conditional_operators : Bytes
conditional_operators = codes "<>="

-- strings.ContainsRune
unfoldable pub contains_rune : Bytes → ℕ → Bool
contains_rune [] c = false
contains_rune (x ∷ s) c = let rest = contains_rune s c in if x == c then true else rest

-- unicode.IsSpace, IsDigit, IsLetter, and strings.ToUpper
unfoldable pub is_space : ℕ → Bool
is_space c = leb 9 c && leb c 13 || c == 32

unfoldable pub is_digit : ℕ → Bool
is_digit c = leb 48 c && leb c 57

unfoldable pub is_letter : ℕ → Bool
is_letter c = leb 65 c && leb c 90 || leb 97 c && leb c 122

unfoldable pub to_upper : Bytes → Bytes
to_upper s = map (λ c. if leb 97 c && leb c 122 then c - 32 else c) s

-- The keys of the map `keywords`.
unfoldable pub contains_string : List Bytes → Bytes → Bool
contains_string [] s = false
contains_string (x ∷ xs) s = let rest = contains_string xs s in if str_eq x s then true else rest

unfoldable pub is_keyword : Bytes → Bool
is_keyword val = contains_string keywords (to_upper val)

abbrev pub is_symbol : ℕ → Bool
is_symbol c = contains_rune symbols c

abbrev pub is_operator : ℕ → Bool
is_operator c = contains_rune conditional_operators c

unfoldable pub is_alphanumeric : ℕ → Bool
is_alphanumeric c = is_digit c || is_letter c

-- A loop `for t.pos < len(t.input) && ...(t.input[t.pos]) { t.pos++ }`: what it passes over, and what it
-- leaves.
unfoldable pub take_while : (ℕ → Bool) → Bytes → Bytes
take_while test [] = []
take_while test (c ∷ s) = let rest = take_while test s in if test c then c ∷ rest else []

unfoldable pub drop_while : (ℕ → Bool) → Bytes → Bytes
drop_while test [] = []
drop_while test (c ∷ s) = let rest = drop_while test s in if test c then rest else c ∷ s

-- A word is a keyword in small letters, too; it keeps its spelling.
unfoldable pub word_token : Bytes → Token
word_token val = record {
  token_type = if is_keyword val then TokenType.keyword else TokenType.identifier;
  value = val;
}

-- The token behind the spaces, and the runes behind it.
unfoldable pub token_at : Bytes → Token × Bytes
token_at [] = (record { token_type = TokenType.eof; value = [] }, [])
token_at (c ∷ s) =
    if is_symbol c
    then (record { token_type = TokenType.symbol; value = c ∷ [] }, s)
    else if is_operator c
    then (
      record {
        token_type = TokenType.conditional_operator;
        value = take_while is_operator (c ∷ s);
      },
      drop_while is_operator (c ∷ s),
    )
    else (word_token (take_while is_alphanumeric (c ∷ s)), drop_while is_alphanumeric (c ∷ s))

unfoldable pub next_token : Bytes → Token × Bytes
next_token input = token_at (drop_while is_space input)

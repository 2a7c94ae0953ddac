-- ===== src/Sql/Parser.antt =====
-- The state of a parser and `consume` of sql_parser/parser.go, which the parsers of the statements
-- (the children) are made of.
pub mod Steps
pub mod Progress
pub mod Create
pub mod Insert
pub mod Select
use golang_db.Base.{
  ℕ, Bool, true, false, not, ◌&&◌, ◌||◌, [], ◌∷◌, ◌++◌, if◌then◌else◌, Result, err, ok, error_text,
}
use golang_db.Base.Bytes.{Bytes, str_eq}
use golang_db.Base.Text.{codes}
use golang_db.Sql.Tokeniser.{TokenType, Token, type_name, same_type, next_token}

pub record Parser : Type 0 where
  pub tokeniser : Bytes
  pub current_token : Token

-- currentToken = tokeniser.NextToken()
unfoldable pub advance : Bytes → Parser
advance input =
    let (token, rest) = next_token input in record { tokeniser = rest; current_token = token }

unfoldable pub new_parser : Bytes → Parser
new_parser input = advance input

abbrev pub value_is : Parser → Bytes → Bool
value_is p text = str_eq p.current_token.value text

-- %q of a text without quotes, backslashes and control characters, as the values of tokens are
unfoldable pub quoted : Bytes → Bytes
quoted text = 34 ∷ (text ++ 34 ∷ [])

-- `got %s %q`
unfoldable pub got : Token → Bytes
got token = codes ", got " ++ (type_name token.token_type ++ (32 ∷ quoted token.value))

-- The four messages of `consume`.
unfoldable pub consume_message : Token → TokenType → Bytes → Bytes → Bytes
consume_message token tt expected identifier_type =
    if str_eq expected [] && same_type tt TokenType.conditional_operator
    then codes "syntax error: expected " ++ (type_name tt ++ got token)
    else if same_type tt TokenType.identifier && not (str_eq identifier_type [])
    then (if str_eq expected []
        then codes "syntax error: expected IDENTIFIER " ++ (quoted identifier_type ++ got token)
        else codes "syntax error: expected IDENTIFIER "
          ++ (identifier_type ++ (32 ∷ (quoted expected ++ got token))))
    else codes "syntax error: expected " ++ (type_name tt ++ (32 ∷ (quoted expected ++ got token)))

-- The negation of the first condition of `consume`.
unfoldable pub accepts : Token → TokenType → Bytes → Bool
accepts token tt expected =
    same_type token.token_type tt && (str_eq expected [] || str_eq token.value expected)

unfoldable pub consume : Parser → TokenType → Bytes → Bytes → Result Parser
consume p tt expected identifier_type =
    if accepts p.current_token tt expected
    then ok (advance p.tokeniser)
    else err (error_text (consume_message p.current_token tt expected identifier_type))

-- p.consume(SYMBOL, ",", "") at a comma, with its error ignored
unfoldable pub skip_comma : Parser → Parser
skip_comma p =
    if value_is p (codes ",")
    then (elim (consume p TokenType.symbol (codes ",") []) [ err e ↦ p | ok p' ↦ p' ])
    else p

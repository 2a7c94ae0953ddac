-- ===== src/Sql/Parser/Create.antt =====
-- ParseCreateTable of sql_parser/parser.go.
pub mod Tokens
pub mod Loop
pub mod WellFormed
pub mod Keys
pub mod RoundTrip
use golang_db.Base.{
  ℕ, zero, suc, ◌+◌, ◌==◌, List, [], ◌∷◌, ◌++◌, if◌then◌else◌, length, Result, err, ok, ◌>>=◌,
  error_text, out_of_fuel,
}
use golang_db.Base.Bytes.{Bytes, str_eq}
use golang_db.Base.Text.{codes}
use golang_db.Db.Schema.{Column, CreateTable}
use golang_db.Sql.Tokeniser.{TokenType}
use golang_db.Sql.Parser.{Parser, consume, value_is, skip_comma}

-- The numbers are those of DataType.
unfoldable pub get_data_type_from_string : Bytes → Result ℕ
get_data_type_from_string column_type =
    if str_eq column_type (codes "INT")
    then ok 0
    else if str_eq column_type (codes "STRING")
    then ok 1
    else if str_eq column_type (codes "BOOL")
    then ok 2
    else err (
        error_text (
          codes "data type '"
          ++ (column_type ++ codes "' not found. expected one of INT, STRING, BOOL")))

unfoldable pub parse_primary_key_column : Parser → Result (Bytes × Parser)
parse_primary_key_column p = do
  p₁ ← consume p TokenType.keyword (codes "PRIMARY") []
  p₂ ← consume p₁ TokenType.keyword (codes "KEY") []
  p₃ ← consume p₂ TokenType.symbol (codes "(") []
  p₄ ← consume p₃ TokenType.identifier [] []
  p₅ ← consume p₄ TokenType.symbol (codes ")") []
  ok (p₃.current_token.value, p₅)

-- The column of the round behind the test for PRIMARY.
unfoldable pub parse_column : Parser → Result (Column × Parser)
parse_column p = do
  p₁ ← consume p TokenType.identifier [] []
  p₂ ← consume p₁ TokenType.identifier [] []
  data_type ← get_data_type_from_string p₁.current_token.value
  ok (record { column_name = p.current_token.value; data_type = data_type }, p₂)

-- What the loop of ParseCreateTable keeps from round to round.
pub record Definitions : Type 0 where
  pub column_details : List Column
  pub pk_column : Bytes

-- One round, behind the comma.
unfoldable pub parse_definition : Parser → Definitions → Result (Definitions × Parser)
parse_definition p defs =
    let key = (do
      (pk_column, p') ← parse_primary_key_column p
      ok (record defs { pk_column = pk_column }, p')) in
    let column = (do
      (col, p') ← parse_column p
      ok (record defs { column_details = defs.column_details ++ col ∷ [] }, p')) in
    if value_is p (codes "PRIMARY") then key else column

unfoldable pub parse_definitions : ℕ → Parser → Definitions → Result (Definitions × Parser)
parse_definitions zero p defs = if value_is p (codes ")") then ok (defs, p) else err out_of_fuel
parse_definitions (suc fuel) p defs =
    let next = (do
      (defs', p') ← parse_definition (skip_comma p) defs
      parse_definitions fuel p' defs') in
    if value_is p (codes ")") then ok (defs, p) else next

-- The loop for pkColumnPosition.
unfoldable pub last_position : Bytes → List Column → ℕ → ℕ → ℕ
last_position pk_column [] i position = position
last_position pk_column (col ∷ rest) i position =
    last_position pk_column rest (i + 1) (if str_eq col.column_name pk_column then i else position)

unfoldable pub primary_key_position : Bytes → List Column → Result ℕ
primary_key_position pk_column cols =
    let position = last_position pk_column cols 0 0 in
    if str_eq pk_column []
    then ok 0
    else if position == 0
    then err (error_text (codes "primary key column '" ++ (pk_column ++ codes "' not found")))
    else ok position

unfoldable pub at_least_one_column : List Column → Result (List Column)
at_least_one_column [] = err (error_text (codes "expected atleast one column detail, found none"))
at_least_one_column (col ∷ cols) = ok (col ∷ cols)

-- The loop takes a token with each round: the runes behind CREATE are rounds enough.
unfoldable pub parse_create_table : Parser → Result CreateTable
parse_create_table p = do
  p₁ ← consume p TokenType.keyword (codes "CREATE") []
  p₂ ← consume p₁ TokenType.keyword (codes "TABLE") []
  p₃ ← consume p₂ TokenType.identifier [] []
  p₄ ← consume p₃ TokenType.symbol (codes "(") []
  (defs, p₅) ←
      parse_definitions (suc (length p.tokeniser)) p₄
        (record { column_details = []; pk_column = [] })
  cols ← at_least_one_column defs.column_details
  position ← primary_key_position defs.pk_column cols
  p₆ ← consume p₅ TokenType.symbol (codes ")") []
  ok (record {
    table_name = p₂.current_token.value;
    column_details = cols;
    primary_key_column_position = position;
    secondary_indexes = [];
  })

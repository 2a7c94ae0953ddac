-- ===== src/Sql/Parser/Select.antt =====
-- ParseSelectFromTable of sql_parser/parser.go.
pub mod Bounds
pub mod Tokens
pub mod Columns
pub mod RoundTrip
use golang_db.Base.{
  ℕ, zero, suc, ◌+◌, ◌==◌, ltb, List, [], ◌∷◌, ◌++◌, if◌then◌else◌, Result, err, ok, ◌>>=◌,
  error_text, out_of_fuel,
}
use golang_db.Base.Bytes.{Bytes}
use golang_db.Base.Text.{codes}
use golang_db.Sql.Tokeniser.{TokenType}
use golang_db.Sql.Parser.{Parser, consume, value_is}

pub record QueryCondition : Type 0 where
  pub column_name : Bytes
  pub query_type : Bytes
  pub value : Bytes

pub record SelectFromTable : Type 0 where
  pub table_name : Bytes
  pub columns_required : List Bytes
  pub query_conditions : List QueryCondition

abbrev pub columns_select_limit : ℕ
columns_select_limit = 10

unfoldable pub consume_separator : Parser → Result Parser
consume_separator p =
    if value_is p (codes ",") then consume p TokenType.symbol (codes ",") [] else ok p

-- The part of a round behind the comma and the limit.
unfoldable pub parse_column_name : Parser → Result (Bytes × Parser)
parse_column_name p =
    let star = (do p₁ ← consume p TokenType.symbol (codes "*") []; ok (codes "*", p₁)) in
    let name = (do p₁ ← consume p TokenType.identifier [] []; ok (p.current_token.value, p₁)) in
    if value_is p (codes "*") then star else name

-- One round of the loop, whose counter is `i`.
unfoldable pub parse_required_column : ℕ → Parser → Result (Bytes × Parser)
parse_required_column i p = do
  p₁ ← consume_separator p
  if i == columns_select_limit
      then err (error_text (codes "maximum 10 columns supported in SELECT query"))
      else parse_column_name p₁

unfoldable pub parse_required_columns : ℕ → ℕ → Parser → List Bytes → Result (List Bytes × Parser)
parse_required_columns zero i p cols =
    if value_is p (codes "FROM") then ok (cols, p) else err out_of_fuel
parse_required_columns (suc fuel) i p cols =
    let next = (do
      (col, p') ← parse_required_column i p
      parse_required_columns fuel (i + 1) p' (cols ++ col ∷ [])) in
    if value_is p (codes "FROM") then ok (cols, p) else next

unfoldable pub at_least_one {ℓ} : {A : Type ℓ} → Bytes → List A → Result (List A)
at_least_one message [] = err (error_text message)
at_least_one message (x ∷ xs) = ok (x ∷ xs)

-- The limit ends the loop with its eleventh round.
unfoldable pub parse_columns_from_select_query : Parser → Result (List Bytes × Parser)
parse_columns_from_select_query p = do
  (cols, p') ← parse_required_columns 11 0 p []
  cols' ← at_least_one (codes "expected atleast 1 column in SELECT query") cols
  ok (cols', p')

unfoldable pub consume_and : ℕ → Parser → Result Parser
consume_and i p = if ltb 0 i then consume p TokenType.keyword (codes "AND") [] else ok p

-- The part of a round behind AND and the limit.
unfoldable pub parse_condition : Parser → Result (QueryCondition × Parser)
parse_condition p = do
  p₁ ← consume p TokenType.identifier [] (codes "column name")
  p₂ ← consume p₁ TokenType.conditional_operator [] []
  p₃ ← consume p₂ TokenType.identifier [] (codes "query value")
  ok (
    record {
      column_name = p.current_token.value;
      query_type = p₁.current_token.value;
      value = p₂.current_token.value;
    },
    p₃,
  )

-- One round of the loop, whose counter is `i`.
unfoldable pub parse_next_condition : ℕ → Parser → Result (QueryCondition × Parser)
parse_next_condition i p = do
  p₁ ← consume_and i p
  if i == 11
      then err (error_text (codes "maximum 10 AND conditions supported"))
      else parse_condition p₁

unfoldable pub parse_conditions :
    ℕ → ℕ → Parser → List QueryCondition → Result (List QueryCondition × Parser)
parse_conditions zero i p conds = if value_is p (codes ";") then ok (conds, p) else err out_of_fuel
parse_conditions (suc fuel) i p conds =
    let next = (do
      (cond, p') ← parse_next_condition i p
      parse_conditions fuel (i + 1) p' (conds ++ cond ∷ [])) in
    if value_is p (codes ";") then ok (conds, p) else next

-- The limit ends the loop with its twelfth round.
unfoldable pub parse_query_conditions_from_select_query :
    Parser → Result (List QueryCondition × Parser)
parse_query_conditions_from_select_query p = do
  p₁ ← consume p TokenType.keyword (codes "WHERE") []
  (conds, p₂) ← parse_conditions 12 0 p₁ []
  conds' ←
      at_least_one (codes "expected atleast 1 condition within WHERE clause of SELECT query") conds
  ok (conds', p₂)

-- Without WHERE the conditions are nil.
unfoldable pub parse_where : Parser → Result (List QueryCondition × Parser)
parse_where p =
    if value_is p (codes "WHERE") then parse_query_conditions_from_select_query p else ok ([], p)

unfoldable pub parse_select_from_table : Parser → Result SelectFromTable
parse_select_from_table p = do
  p₁ ← consume p TokenType.keyword (codes "SELECT") []
  (cols, p₂) ← parse_columns_from_select_query p₁
  p₃ ← consume p₂ TokenType.keyword (codes "FROM") []
  p₄ ← consume p₃ TokenType.identifier [] []
  (conds, p₅) ← parse_where p₄
  p₆ ← consume p₅ TokenType.symbol (codes ";") []
  ok (record {
    table_name = p₃.current_token.value;
    columns_required = cols;
    query_conditions = conds;
  })

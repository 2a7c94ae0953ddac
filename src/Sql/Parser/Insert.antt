-- ===== src/Sql/Parser/Insert.antt =====
-- ParseInsertIntoTable of sql_parser/parser.go.
pub mod RoundTrip
pub mod Endless
pub mod Ends
use golang_db.Base.{
  ℕ, zero, suc, List, [], ◌∷◌, ◌++◌, if◌then◌else◌, Result, err, ok, ◌>>=◌, out_of_fuel,
}
use golang_db.Base.Bytes.{Bytes}
use golang_db.Base.Text.{codes}
use golang_db.Sql.Tokeniser.{TokenType}
use golang_db.Sql.Parser.{Parser, consume, value_is, skip_comma}

pub record InsertIntoTable : Type 0 where
  pub table_name : Bytes
  pub column_values : List Bytes

-- One round of the loop.
unfoldable pub parse_value : Parser → Result (Bytes × Parser)
parse_value p =
    let p' = skip_comma p in
    (do p₁ ← consume p' TokenType.identifier [] []; ok (p'.current_token.value, p₁))

-- The loop may go on for ever: `fuel` is the rounds that are looked at.
unfoldable pub parse_values : ℕ → Parser → List Bytes → Result (List Bytes × Parser)
parse_values zero p vals = if value_is p (codes ")") then ok (vals, p) else err out_of_fuel
parse_values (suc fuel) p vals =
    let next = (do (val, p') ← parse_value p; parse_values fuel p' (vals ++ val ∷ [])) in
    if value_is p (codes ")") then ok (vals, p) else next

unfoldable pub parse_insert_into_table : ℕ → Parser → Result InsertIntoTable
parse_insert_into_table fuel p = do
  p₁ ← consume p TokenType.keyword (codes "INSERT") []
  p₂ ← consume p₁ TokenType.keyword (codes "INTO") []
  p₃ ← consume p₂ TokenType.identifier [] []
  p₄ ← consume p₃ TokenType.keyword (codes "VALUES") []
  p₅ ← consume p₄ TokenType.symbol (codes "(") []
  (vals, p₆) ← parse_values fuel p₅ []
  p₇ ← consume p₆ TokenType.symbol (codes ")") []
  ok (record { table_name = p₂.current_token.value; column_values = vals })

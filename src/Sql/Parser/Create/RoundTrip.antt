-- ===== src/Sql/Parser/Create/RoundTrip.antt =====
-- ParseCreateTable reads the statement that its text spells.
use golang_db.Base.{
  ℕ, suc, ◌≡◌, refl, sym, ◌∙◌, inl, inr, false, Option, none, some, List, [], ◌∷◌, ◌++◌, All,
  length, Result, err, ok, ◌>>=◌, error_text, out_of_fuel,
}
use golang_db.Base.Bytes.{Bytes, cmp}
use golang_db.Base.Text.{codes}
use golang_db.Db.Schema.{Column, CreateTable}
use golang_db.Sql.Tokeniser.{TokenType, Token, is_alphanumeric, is_digit, is_letter}
use golang_db.Sql.Tokeniser.Spells.{Spells}
use golang_db.Sql.Parser.{Parser, new_parser, advance, consume}
use golang_db.Sql.Parser.Steps.{
  At, symbol_token, keyword_token, identifier_token, keyword-At, symbol-At, identifier-At,
  advance-At, identifier-rune, value_is-At, skip_comma-identifier,
}
use golang_db.Sql.Parser.Create.{
  Definitions, parse_definitions, last_position, primary_key_position, at_least_one_column,
  parse_create_table,
}
use golang_db.Sql.Parser.Create.Tokens.{
  IsDataType, type_word, more_columns, key_tokens, create_tokens, parse_definition-column,
}
use golang_db.Sql.Parser.Create.Loop.{
  Lands, parse_definitions-suc, parse_definitions-columns, add_columns, key_text,
  with_key-add_columns,
}
use golang_db.Sql.Parser.Create.WellFormed.{parse_create_table-IsTable}
use golang_db.Sql.Parser.Create.Keys.{
  IsAbsent, IsKeyPosition, last_position-found, statement-key, primary_key_position-found,
}

-- The table, once its definitions are read.
abbrev table_of : Bytes → List Column → Bytes → Result CreateTable
table_of name cols key = primary_key_position key cols >>= (λ (position : ℕ). ok (record {
  table_name = name;
  column_details = cols;
  primary_key_column_position = position;
  secondary_indexes = [];
}))

-- The first column stands behind no comma.
first_column :
    (fuel : ℕ) (c : Column) (cols : List Column) (key : Option Bytes) (behind : List Token)
    (p : Parser)
    → All (λ (d : Column). IsDataType d.data_type) (c ∷ cols)
    → At
        (identifier_token c.column_name
          ∷ identifier_token (type_word c.data_type)
          ∷ more_columns cols (key_tokens key (symbol_token (codes ")") ∷ behind)))
        p
    → Lands
        (symbol_token (codes ")") ∷ behind)
        (record { column_details = c ∷ cols; pk_column = key_text key })
        (parse_definitions (suc fuel) p (record { column_details = []; pk_column = [] }))
unfolding add_columns cmp is_alphanumeric is_digit is_letter
first_column fuel c cols key behind p typed (current, token, more) =
    let none_yet : Definitions = record { column_details = []; pk_column = [] } in
    let one : Definitions = record { column_details = c ∷ []; pk_column = [] } in
    let ts = more_columns cols (key_tokens key (symbol_token (codes ")") ∷ behind)) in
    let ts' = identifier_token (type_word c.data_type) ∷ ts in
    let goes_on =
      value_is-At (identifier_token c.column_name) ts' p (codes ")") false (current, token, more)
        (identifier-rune c.column_name p.tokeniser 41 token refl) in
    let (p', e, there) = parse_definition-column c ts p none_yet (typed.0) (current, token, more) in
    let landed = parse_definitions-columns fuel cols key behind p' one (typed.1) there in
    rw
      (
        parse_definitions-suc fuel p p none_yet goes_on
            (skip_comma-identifier c.column_name ts' p (current, token, more)),
        e,
        sym (with_key-add_columns cols key (c ∷ [])),
      )
      landed

-- The consume behind the position does not fail.
behind_position :
    (r : Result ℕ) (q : Result Parser) (p' : Parser) (table : ℕ → CreateTable)
    → q ≡ ok p'
    → (r >>= (λ (n : ℕ). q >>= (λ (p'' : Parser). ok (table n))))
      ≡ (r >>= (λ (n : ℕ). ok (table n)))
behind_position (err e) q p' table h = refl
behind_position (ok n) q p' table h = rw h refl

parse_create_table-At :
    (name : Bytes) (c : Column) (cols : List Column) (key : Option Bytes) (behind : List Token)
    (p : Parser)
    → All (λ (d : Column). IsDataType d.data_type) (c ∷ cols)
    → At (create_tokens name c cols key behind) p
    → parse_create_table p ≡ table_of name (c ∷ cols) (key_text key)
unfolding parse_create_table at_least_one_column
parse_create_table-At name c cols key behind p typed h =
    let none_yet : Definitions = record { column_details = []; pk_column = [] } in
    let ts₄ =
      identifier_token c.column_name
      ∷ identifier_token (type_word c.data_type)
      ∷ more_columns cols (key_tokens key (symbol_token (codes ")") ∷ behind)) in
    let ts₃ = symbol_token (codes "(") ∷ ts₄ in
    let ts₂ = identifier_token name ∷ ts₃ in
    let (p₁, e₁, h₁) = keyword-At (codes "CREATE") (keyword_token (codes "TABLE") ∷ ts₂) p h in
    let (p₂, e₂, h₂) = keyword-At (codes "TABLE") ts₂ p₁ h₁ in
    let (p₃, e₃, name_value, h₃) = identifier-At name [] ts₃ p₂ h₂ in
    let (p₄, e₄, h₄) = symbol-At (codes "(") ts₄ p₃ h₃ in
    elim (first_column (length p.tokeniser) c cols key behind p₄ typed h₄) [
      | inl e ↦
          let out : parse_create_table p ≡ err out_of_fuel = rw (e₁, e₂, e₃, e₄, e) refl in
          absurd ((rw out at (parse_create_table-IsTable p)) refl)
      | inr (p₅, e₅, h₅) ↦
          let (p₆, e₆, h₆) = symbol-At (codes ")") behind p₅ h₅ in
          rw (e₁, e₂, e₃, e₄, e₅, name_value)
            (behind_position (primary_key_position (key_text key) (c ∷ cols))
              (consume p₅ TokenType.symbol (codes ")") []) p₆
              (λ (n : ℕ). record {
                table_name = name;
                column_details = c ∷ cols;
                primary_key_column_position = n;
                secondary_indexes = [];
              })
              e₆)
    ]

-- A text that spells a CREATE TABLE statement, with spaces where one likes and whatever tokens
-- behind it, is read as the table of this statement, where the types are INT, STRING and BOOL, and the
-- primary key, if one is named, is a column other than the first and no later column has its name.
-- Without a named key the first column is the key.
pub parse_create_table-Spells :
    (name : Bytes) (c : Column) (cols : List Column) (key : Option Bytes) (position : ℕ)
    (behind : List Token) (text : Bytes)
    → All (λ (d : Column). IsDataType d.data_type) (c ∷ cols)
    → IsKeyPosition key (c ∷ cols) position
    → Spells (create_tokens name c cols key behind) text
    → parse_create_table (new_parser text)
      ≡ ok (record {
        table_name = name;
        column_details = c ∷ cols;
        primary_key_column_position = position;
        secondary_indexes = [];
      })
unfolding new_parser primary_key_position cmp
parse_create_table-Spells name c cols none position behind text typed h spelled =
    parse_create_table-At name c cols none behind (advance text) typed
      (advance-At (create_tokens name c cols none behind) text spelled)
    ∙ (rw h refl)
parse_create_table-Spells name c cols (some key) position behind text typed h spelled =
    parse_create_table-At name c cols (some key) behind (advance text) typed
      (advance-At (create_tokens name c cols (some key) behind) text spelled)
    ∙ (rw
        (primary_key_position-found key (c ∷ cols) position
          (statement-key name key c cols behind text spelled) h)
        refl)

-- A statement that names its first column as the primary key, where the types are INT, STRING and BOOL
-- and no other column has this name, is refused: the error says that there is no such column.
pub parse_create_table-first_key :
    (name : Bytes) (c : Column) (cols : List Column) (behind : List Token) (text : Bytes)
    → All (λ (d : Column). IsDataType d.data_type) (c ∷ cols)
    → IsAbsent c.column_name cols
    → Spells (create_tokens name c cols (some c.column_name) behind) text
    → parse_create_table (new_parser text)
      ≡ err (error_text (codes "primary key column '" ++ (c.column_name ++ codes "' not found")))
unfolding new_parser primary_key_position
parse_create_table-first_key name c cols behind text typed absent spelled =
    let key = c.column_name in
    let named = statement-key name key c cols behind text spelled in
    let first : last_position key (c ∷ cols) 0 0 ≡ 0 =
      last_position-found key (c ∷ cols) 0 0 0 c refl refl absent in
    parse_create_table-At name c cols (some key) behind (advance text) typed
      (advance-At (create_tokens name c cols (some key) behind) text spelled)
    ∙ (rw (named, first) refl)

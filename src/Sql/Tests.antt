-- ===== src/Sql/Tests.antt =====
-- Statements in ASCII, and what the parsers make of them.
use golang_db.Base.{
  ◌≡◌, ◌≢◌, refl, List, some, [], ◌∷◌, ◌++◌, arith, ok, err, error_text, out_of_fuel, Ensures,
}
use golang_db.Base.Bytes.{Bytes, cmp}
use golang_db.Base.Text.{codes}
use golang_db.Db.Schema.{Column}
use golang_db.Sql.Tokeniser.{
  Token, is_space, is_digit, is_letter, is_alphanumeric, contains_rune, is_keyword, contains_string,
  to_upper, take_while, drop_while, word_token, token_at, next_token,
}
use golang_db.Sql.Tokeniser.Spells.{Spells}
use golang_db.Sql.Tokeniser.Reads.{GivesTokens, read_tokens, no_empty, Spells-iff-GivesTokens}
use golang_db.Sql.Parser.{advance, new_parser}
use golang_db.Sql.Parser.Steps.{symbol_token}
use golang_db.Sql.Parser.Create.{parse_create_table}
use golang_db.Sql.Parser.Create.Tokens.{create_tokens}
use golang_db.Sql.Parser.Create.WellFormed.{IsTable, parse_create_table-IsTable}
use golang_db.Sql.Parser.Create.RoundTrip.{parse_create_table-Spells, parse_create_table-first_key}
use golang_db.Sql.Parser.Insert.{parse_values, parse_insert_into_table}
use golang_db.Sql.Parser.Insert.Endless.{is_supported, parse_values-endless}
use golang_db.Sql.Parser.Insert.Ends.{parse_insert_into_table-ends}
use golang_db.Sql.Parser.Select.{QueryCondition, parse_select_from_table}
use golang_db.Sql.Parser.Select.Tokens.{select_tokens}
use golang_db.Sql.Parser.Select.Bounds.{IsBounded, parse_select_from_table-IsBounded}
use golang_db.Sql.Parser.Select.RoundTrip.{parse_select_from_table-Spells}

abbrev id : Column
id = record { column_name = codes "id"; data_type = 0 }

abbrev paid : Column
paid = record { column_name = codes "paid"; data_type = 2 }

abbrev semicolon : Token
semicolon = symbol_token (codes ";")

abbrev create : Bytes
create = codes "CREATE TABLE t (id INT,paid BOOL, PRIMARY KEY (paid)) ;"

create-GivesTokens :
    GivesTokens
      (create_tokens (codes "t") id (paid ∷ []) (some (codes "paid")) (semicolon ∷ []))
      create
unfolding next_token token_at word_token is_space is_digit is_letter is_alphanumeric contains_rune
    is_keyword contains_string to_upper take_while drop_while cmp read_tokens no_empty
create-GivesTokens = (refl, refl)

create-Spells :
    Spells (create_tokens (codes "t") id (paid ∷ []) (some (codes "paid")) (semicolon ∷ [])) create
create-Spells =
    (Spells-iff-GivesTokens
        (create_tokens (codes "t") id (paid ∷ []) (some (codes "paid")) (semicolon ∷ [])) create).1
      create-GivesTokens

paid_differs : paid.column_name ≢ id.column_name
paid_differs h = cc

parse_create_table-Spells_example :
    parse_create_table (new_parser create)
    ≡ ok (record {
      table_name = codes "t";
      column_details = id ∷ paid ∷ [];
      primary_key_column_position = 1;
      secondary_indexes = [];
    })
parse_create_table-Spells_example =
    parse_create_table-Spells (codes "t") id (paid ∷ []) (some (codes "paid")) 1 (semicolon ∷ [])
      create (omega arith, (omega arith, tt)) (omega arith, (paid, refl, refl), tt) create-Spells

abbrev first_key : Bytes
first_key = codes "CREATE TABLE t(id INT,paid BOOL,PRIMARY KEY(id));"

first_key-GivesTokens :
    GivesTokens
      (create_tokens (codes "t") id (paid ∷ []) (some (codes "id")) (semicolon ∷ []))
      first_key
unfolding next_token token_at word_token is_space is_digit is_letter is_alphanumeric contains_rune
    is_keyword contains_string to_upper take_while drop_while cmp read_tokens no_empty
first_key-GivesTokens = (refl, refl)

parse_create_table-first_key_example :
    parse_create_table (new_parser first_key)
    ≡ err (error_text (codes "primary key column '" ++ (codes "id" ++ codes "' not found")))
parse_create_table-first_key_example =
    parse_create_table-first_key (codes "t") id (paid ∷ []) (semicolon ∷ []) first_key
      (omega arith, (omega arith, tt)) (paid_differs, tt)
      ((Spells-iff-GivesTokens
          (create_tokens (codes "t") id (paid ∷ []) (some (codes "id")) (semicolon ∷ []))
          first_key).1
        first_key-GivesTokens)

parse_create_table-IsTable_example : Ensures IsTable (parse_create_table (new_parser create))
parse_create_table-IsTable_example = parse_create_table-IsTable (new_parser create)

parse_insert_into_table-ends_example :
    parse_insert_into_table 10 (new_parser (codes "INSERT t")) ≢ err out_of_fuel
unfolding is_supported is_space is_digit is_letter is_alphanumeric contains_rune
parse_insert_into_table-ends_example =
    parse_insert_into_table-ends 10 (codes "INSERT t") (omega arith)
      (refl, (refl, (refl, (refl, (refl, (refl, (refl, (refl, tt))))))))

-- A name with an underscore among the values.
parse_values-endless_example :
    parse_values 1000 (advance (codes " " ++ 95 ∷ codes "a)")) [] ≡ err out_of_fuel
unfolding is_supported is_space is_digit is_letter is_alphanumeric contains_rune
parse_values-endless_example =
    parse_values-endless 1000 (codes " ") 95 (codes "a)") [] (refl, tt) (omega arith) refl

abbrev columns : List Bytes
columns = codes "paid" ∷ []

abbrev conditions : List QueryCondition
conditions =
    record { column_name = codes "id"; query_type = codes ">="; value = codes "3" }
    ∷ record { column_name = codes "paid"; query_type = codes "="; value = codes "1" }
    ∷ []

abbrev select : Bytes
select = codes "SELECT *,paid FROM t WHERE id>=3 AND paid = 1;"

select-GivesTokens :
    GivesTokens (select_tokens (codes "t") (codes "*") columns conditions []) select
unfolding next_token token_at word_token is_space is_digit is_letter is_alphanumeric contains_rune
    is_keyword contains_string to_upper take_while drop_while cmp read_tokens no_empty
select-GivesTokens = (refl, refl)

parse_select_from_table-Spells_example :
    parse_select_from_table (new_parser select)
    ≡ ok (record {
      table_name = codes "t";
      columns_required = codes "*" ∷ columns;
      query_conditions = conditions;
    })
parse_select_from_table-Spells_example =
    parse_select_from_table-Spells (codes "t") (codes "*") columns conditions [] select
      (omega arith) (omega arith)
      ((Spells-iff-GivesTokens (select_tokens (codes "t") (codes "*") columns conditions [])
          select).1
        select-GivesTokens)

parse_select_from_table-IsBounded_example :
    Ensures IsBounded (parse_select_from_table (new_parser select))
parse_select_from_table-IsBounded_example = parse_select_from_table-IsBounded (new_parser select)

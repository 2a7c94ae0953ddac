-- ===== src/Sql/Parser/Create/Tokens.antt =====
-- The tokens of a CREATE TABLE statement, and each part of ParseCreateTable's loop at them.
use golang_db.Base.{
  ℕ, zero, suc, ◌<◌, ◌≡◌, refl, true, false, Option, none, some, List, [], ◌∷◌, ◌++◌, arith, ok,
}
use golang_db.Base.Bytes.{Bytes, cmp}
use golang_db.Base.Text.{codes}
use golang_db.Db.Schema.{Column}
use golang_db.Sql.Tokeniser.{Token, is_keyword, contains_string, to_upper}
use golang_db.Sql.Parser.{Parser}
use golang_db.Sql.Parser.Steps.{
  At, symbol_token, keyword_token, identifier_token, keyword-At, symbol-At, identifier-At,
  value_is-At, identifier-keyword,
}
use golang_db.Sql.Parser.Create.{
  get_data_type_from_string, parse_primary_key_column, parse_column, Definitions, parse_definition,
}

-- The word for a data type.
abbrev pub type_word : ℕ → Bytes
type_word zero = codes "INT"
type_word (suc zero) = codes "STRING"
type_word (suc (suc n)) = codes "BOOL"

abbrev pub more_columns : List Column → List Token → List Token
more_columns [] behind = behind
more_columns (c ∷ cols) behind =
    symbol_token (codes ",")
    ∷ identifier_token c.column_name
    ∷ identifier_token (type_word c.data_type)
    ∷ more_columns cols behind

abbrev pub key_tokens : Option Bytes → List Token → List Token
key_tokens none behind = behind
key_tokens (some name) behind =
    symbol_token (codes ",")
    ∷ keyword_token (codes "PRIMARY")
    ∷ keyword_token (codes "KEY")
    ∷ symbol_token (codes "(")
    ∷ identifier_token name
    ∷ symbol_token (codes ")")
    ∷ behind

-- CREATE TABLE name (column type, ..., PRIMARY KEY (key)), with the last part if there is a key.
abbrev pub create_tokens : Bytes → Column → List Column → Option Bytes → List Token → List Token
create_tokens name c cols key behind =
    keyword_token (codes "CREATE")
    ∷ keyword_token (codes "TABLE")
    ∷ identifier_token name
    ∷ symbol_token (codes "(")
    ∷ identifier_token c.column_name
    ∷ identifier_token (type_word c.data_type)
    ∷ more_columns cols (key_tokens key (symbol_token (codes ")") ∷ behind))

abbrev pub IsDataType : ℕ → Type 0
IsDataType n = n < 3

get_data_type_from_string_lem :
    (n : ℕ) → IsDataType n → get_data_type_from_string (type_word n) ≡ ok n
unfolding get_data_type_from_string cmp
get_data_type_from_string_lem zero h = refl
get_data_type_from_string_lem (suc zero) h = refl
get_data_type_from_string_lem (suc (suc zero)) h = refl
get_data_type_from_string_lem (suc (suc (suc n))) h = absurd (omega arith)

parse_column-At :
    (c : Column) (ts : List Token) (p : Parser)
    → IsDataType c.data_type
    → At (identifier_token c.column_name ∷ identifier_token (type_word c.data_type) ∷ ts) p
    → (p' : Parser) × (parse_column p ≡ ok (c, p')) × At ts p'
unfolding parse_column
parse_column-At c ts p typed h =
    let word = type_word c.data_type in
    let (p₁, e₁, name_value, h₁) =
      identifier-At c.column_name [] (identifier_token word ∷ ts) p h in
    let (p₂, e₂, type_value, h₂) = identifier-At word [] ts p₁ h₁ in
    (
      p₂,
      rw (e₁, e₂, type_value, get_data_type_from_string_lem c.data_type typed, name_value) refl,
      h₂,
    )

parse_primary_key_column-At :
    (name : Bytes) (ts : List Token) (p : Parser)
    → At
        (keyword_token (codes "PRIMARY")
          ∷ keyword_token (codes "KEY")
          ∷ symbol_token (codes "(")
          ∷ identifier_token name
          ∷ symbol_token (codes ")")
          ∷ ts)
        p
    → (p' : Parser) × (parse_primary_key_column p ≡ ok (name, p')) × At ts p'
unfolding parse_primary_key_column
parse_primary_key_column-At name ts p h =
    let ts₄ = symbol_token (codes ")") ∷ ts in
    let ts₃ = identifier_token name ∷ ts₄ in
    let ts₂ = symbol_token (codes "(") ∷ ts₃ in
    let (p₁, e₁, h₁) = keyword-At (codes "PRIMARY") (keyword_token (codes "KEY") ∷ ts₂) p h in
    let (p₂, e₂, h₂) = keyword-At (codes "KEY") ts₂ p₁ h₁ in
    let (p₃, e₃, h₃) = symbol-At (codes "(") ts₃ p₂ h₂ in
    let (p₄, e₄, name_value, h₄) = identifier-At name [] ts₄ p₃ h₃ in
    let (p₅, e₅, h₅) = symbol-At (codes ")") ts p₄ h₄ in
    (p₅, rw (e₁, e₂, e₃, e₄, e₅, name_value) refl, h₅)

primary_lem : is_keyword (codes "PRIMARY") ≡ true
unfolding is_keyword contains_string to_upper cmp
primary_lem = refl

pub parse_definition-column :
    (c : Column) (ts : List Token) (p : Parser) (defs : Definitions)
    → IsDataType c.data_type
    → At (identifier_token c.column_name ∷ identifier_token (type_word c.data_type) ∷ ts) p
    → (p' : Parser) × (parse_definition p defs
        ≡ ok (record defs { column_details = defs.column_details ++ c ∷ [] }, p'))
      × At ts p'
unfolding parse_definition
parse_definition-column c ts p defs typed (e, token, more) =
    let ts' = identifier_token (type_word c.data_type) ∷ ts in
    let (p', e', there) = parse_column-At c ts p typed (e, token, more) in
    let other =
      value_is-At (identifier_token c.column_name) ts' p (codes "PRIMARY") false (e, token, more)
        (identifier-keyword c.column_name p.tokeniser (codes "PRIMARY") token primary_lem) in
    (p', rw (other, e') refl, there)

pub parse_definition-key :
    (name : Bytes) (ts : List Token) (p : Parser) (defs : Definitions)
    → At
        (keyword_token (codes "PRIMARY")
          ∷ keyword_token (codes "KEY")
          ∷ symbol_token (codes "(")
          ∷ identifier_token name
          ∷ symbol_token (codes ")")
          ∷ ts)
        p
    → (p' : Parser) × (parse_definition p defs ≡ ok (record defs { pk_column = name }, p'))
      × At ts p'
unfolding parse_definition cmp
parse_definition-key name ts p defs h =
    let (p', e', there) = parse_primary_key_column-At name ts p h in
    let ts' =
      keyword_token (codes "KEY")
      ∷ symbol_token (codes "(")
      ∷ identifier_token name
      ∷ symbol_token (codes ")")
      ∷ ts in
    let key = value_is-At (keyword_token (codes "PRIMARY")) ts' p (codes "PRIMARY") true h refl in
    (p', rw (key, e') refl, there)
